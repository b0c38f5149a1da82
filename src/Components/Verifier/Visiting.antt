-- ===== src/Components/Verifier/Visiting.antt =====
-- The loop of CCVerifier over the neighbours of a vertex (src/cc.cc).
use shared_gapbs.Base.{
  ltb, ℕ, zero, suc, ◌+◌, ◌<◌, ◌≡◌, refl, ◌∙◌, arith, Bool, true, false, not, ◌&&◌, ◌||◌, ◌==◌,
  Array, List, [], ◌∷◌, ◌++◌, length, length-append, if◌then◌else◌, Option, none, some, chain,
  Bool-cases, inl, inr, sum_below,
}
use shared_gapbs.Bitmap.{Bitmap, get_bit, set_bit}
use shared_gapbs.Bitmap.Laws.{get_bit-set_bit}
use shared_gapbs.Graph.{CsrGraph}
use shared_gapbs.Stl.{contains}
use shared_gapbs.Components.Afforest.Labels.{row, column}
use shared_gapbs.Components.Verifier.{Visit, visit, visit_each, visit_vertex}

-- The number of vertices that are not visited.
abbrev pub unvisited : ℕ → Bitmap → ℕ
unvisited n b = sum_below (λ v. if get_bit b v then 0 else 1) n

unvisited-set_bit :
    (n v : ℕ) (b : Bitmap)
    → get_bit b v ≡ false
    → unvisited n (set_bit b v) + (if ltb v n then 1 else 0) ≡ unvisited n b
unvisited-set_bit zero v b e = ground arith
unvisited-set_bit (suc n) v b e =
    let before = unvisited-set_bit n v b e in
    let here = get_bit-set_bit b v n in ground (arith, before, here, e)

pub contains-append :
    (z : ℕ) (xs ys : List ℕ) → contains z (xs ++ ys) ≡ (contains z xs || contains z ys)
unfolding contains
contains-append z [] ys = refl
contains-append z (x ∷ xs) ys = ground (arith, contains-append z xs ys)

-- What visiting some vertices does.
pub record Visited (n l : ℕ) (comp : Array ℕ) (vs : List ℕ) (s t : Visit) : Type 0 where
  pub bits : (v : ℕ) → get_bit t.visited v ≡ (get_bit s.visited v || contains v vs)
  pub front :
      (v : ℕ)
      → contains v t.frontier
        ≡ (contains v s.frontier || (contains v vs && not (get_bit s.visited v)))
  pub labels : (v : ℕ) → contains v vs ≡ true → comp v ≡ l
  pub work : unvisited n t.visited + length t.frontier ≡ unvisited n s.visited + length s.frontier

-- It meets another label, or visits all.
abbrev pub VisitedOr : ℕ → ℕ → Array ℕ → List ℕ → Visit → Option Visit → Type 0
VisitedOr n l comp vs s none = (v : ℕ) × (contains v vs ≡ true) × (comp v == l ≡ false)
VisitedOr n l comp vs s (some t) = Visited n l comp vs s t

visit-Visited :
    (n l v : ℕ) (comp : Array ℕ) (s : Visit)
    → v < n
    → comp v ≡ l
    → Visited n l comp (v ∷ []) s (visit v s)
unfolding visit contains
visit-Visited n l v comp s lt e = elim (Bool-cases (get_bit s.visited v)) [
  | inl old ↦ rw old (record {
    bits = λ w. ground (arith, old);
    front = λ w. ground (arith, old);
    labels = λ w c. ground (arith, e, c);
    work = refl;
  })
  | inr new ↦ rw new (record {
    bits = λ w. ground (arith, new, get_bit-set_bit s.visited v w);
    front = λ w. ground (arith, new, contains-append w s.frontier (v ∷ []));
    labels = λ w c. ground (arith, e, c);
    work =
        let less = unvisited-set_bit n v s.visited new in
        let longer = length-append s.frontier (v ∷ []) in ground (arith, less, longer, lt);
  })
]

Visited-append :
    (n l : ℕ) (comp : Array ℕ) (us vs : List ℕ) (r s t : Visit)
    → Visited n l comp us r s
    → Visited n l comp vs s t
    → Visited n l comp (us ++ vs) r t
Visited-append n l comp us vs r s t p q = record {
  bits = λ w. ground (arith, p.bits w, q.bits w, contains-append w us vs);
  front = λ w. ground (arith, p.front w, q.front w, p.bits w, contains-append w us vs);
  labels = λ w c. ground (arith, p.labels w, q.labels w, contains-append w us vs, c);
  work = q.work ∙ p.work;
}

VisitedOr-append :
    (n l : ℕ) (comp : Array ℕ) (us vs : List ℕ) (r s : Visit) (o : Option Visit)
    → Visited n l comp us r s
    → VisitedOr n l comp vs s o
    → VisitedOr n l comp (us ++ vs) r o
VisitedOr-append n l comp us vs r s none p (v, c, e) =
    (v, ground (arith, c, contains-append v us vs), e)
VisitedOr-append n l comp us vs r s (some t) p q = Visited-append n l comp us vs r s t p q

visit_each-VisitedOr :
    (n l : ℕ) (comp : Array ℕ) (vs : List ℕ) (s : Visit)
    → ((v : ℕ) → contains v vs ≡ true → v < n)
    → VisitedOr n l comp vs s (visit_each comp l vs s)
unfolding visit_each contains
visit_each-VisitedOr n l comp [] s inside = record {
  bits = λ w. ground arith;
  front = λ w. ground arith;
  labels = λ w c. ground (arith, c);
  work = refl;
}
visit_each-VisitedOr n l comp (v ∷ vs) s inside =
    let ih = visit_each-VisitedOr n l comp vs (visit v s) (λ w c. inside w (ground (arith, c))) in
    let lt : v < n = inside v (ground arith) in
    elim (Bool-cases (comp v == l)) [
      | inl e ↦ rw e (
          VisitedOr-append n l comp (v ∷ []) vs s (visit v s) (visit_each comp l vs (visit v s))
            (visit-Visited n l v comp s lt (ground (arith, e))) ih)
      | inr e ↦ rw e (v, ground arith, e)
    ]

VisitedOr-chain :
    (n l : ℕ) (comp : Array ℕ) (us vs : List ℕ) (s : Visit) (o : Option Visit)
    (f : Visit → Option Visit)
    → VisitedOr n l comp us s o
    → ((t : Visit) → VisitedOr n l comp vs t (f t))
    → VisitedOr n l comp (us ++ vs) s (chain o f)
VisitedOr-chain n l comp us vs s none f (v, c, e) h =
    (v, ground (arith, c, contains-append v us vs), e)
VisitedOr-chain n l comp us vs s (some t) f p h = VisitedOr-append n l comp us vs s t (f t) p (h t)

VisitedOr-chain-some :
    (n l : ℕ) (comp : Array ℕ) (us : List ℕ) (s : Visit) (o : Option Visit)
    → VisitedOr n l comp us s o
    → VisitedOr n l comp us s (chain o (λ t. some t))
VisitedOr-chain-some n l comp us s none p = p
VisitedOr-chain-some n l comp us s (some t) p = p

-- The neighbours of a vertex, against the direction of the edges too.
unfoldable pub near : CsrGraph → ℕ → List ℕ
near g u = if g.directed then row g u ++ column g u else row g u

pub visit_vertex-VisitedOr :
    (l : ℕ) (comp : Array ℕ) (g : CsrGraph) (u : ℕ) (s : Visit)
    → ((v : ℕ) → contains v (near g u) ≡ true → v < g.num_nodes)
    → VisitedOr g.num_nodes l comp (near g u) s (visit_vertex comp g l u s)
unfolding visit_vertex near
visit_vertex-VisitedOr l comp g u s inside = go g.directed (λ v. inside v)
  where
    n : ℕ
    n = g.num_nodes

    go :
        (d : Bool)
        → ((v : ℕ) → contains v (if d then row g u ++ column g u else row g u) ≡ true → v < n)
        → VisitedOr n l comp (if d then row g u ++ column g u else row g u) s (
            chain
              (visit_each comp l (row g u) s)
              λ t. if d then visit_each comp l (column g u) t else some t)
    go true h =
        VisitedOr-chain n l comp (row g u) (column g u) s (visit_each comp l (row g u) s)
          (visit_each comp l (column g u))
          (visit_each-VisitedOr n l comp (row g u) s
            (λ v c. h v (ground (arith, c, contains-append v (row g u) (column g u)))))
          (λ t.
            visit_each-VisitedOr n l comp (column g u) t
              (λ v c. h v (ground (arith, c, contains-append v (row g u) (column g u)))))
    go false h =
        VisitedOr-chain-some n l comp (row g u) s (visit_each comp l (row g u) s)
          (visit_each-VisitedOr n l comp (row g u) s h)
