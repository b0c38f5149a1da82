-- ===== src/Components/Verifier/Searching.antt =====
-- The search of CCVerifier from one vertex (src/cc.cc).
use shared_gapbs.Base.{
  ℕ, zero, suc, ◌+◌, ◌<◌, ◌≡◌, ap, sym, ◌∙◌, subst, arith, true, false, ◌==◌, Array, List, [], ◌∷◌,
  ◌⊎◌, length, Option, none, some, inl, inr, Bool-cases,
}
use shared_gapbs.Bitmap.{Bitmap, get_bit}
use shared_gapbs.Graph.{CsrGraph}
use shared_gapbs.Stl.{contains}
use shared_gapbs.Components.Closure.{Connected, one, back, on}
use shared_gapbs.Components.Afforest.Labels.{row, column, Edge, IsMirrored}
use shared_gapbs.Components.Verifier.{
  Visit, visit_vertex, Ending, rejected, reached, unfinished, search,
}
use shared_gapbs.Components.Verifier.Visiting.{
  near, unvisited, Visited, VisitedOr, contains-append, visit_vertex-VisitedOr,
}

near-cases :
    (g : CsrGraph) (u v : ℕ)
    → contains v (near g u) ≡ true
    → (contains v (row g u) ≡ true) ⊎ (contains v (column g u) ≡ true)
unfolding near
near-cases g u v c = elim (Bool-cases (contains v (row g u))) [
  | inl r ↦ inl r
  | inr r ↦ inr (ground (arith, c, r, contains-append v (row g u) (column g u)))
]

pub row-near : (g : CsrGraph) (u v : ℕ) → contains v (row g u) ≡ true → contains v (near g u) ≡ true
unfolding near
row-near g u v c = ground (arith, c, contains-append v (row g u) (column g u))

-- An edge is found from its other end.
pub mirror-near :
    (g : CsrGraph) (u v : ℕ) → IsMirrored g → Edge g u v → contains u (near g v) ≡ true
unfolding near
mirror-near g u v m e =
    let back = m.mirror u v e in ground (arith, back, contains-append u (row g v) (column g v))

-- Neighbours are vertices, which the edges connect with the vertex.
pub near-Connected :
    (g : CsrGraph) (u v : ℕ)
    → IsMirrored g
    → u < g.num_nodes
    → contains v (near g u) ≡ true
    → (v < g.num_nodes) × Connected (Edge g) u v
unfolding near
near-Connected g u v m lt c = elim (near-cases g u v c) [
  | inl r ↦ (m.inside u v (lt, r), one u v (lt, r))
  | inr r ↦ let e = m.in_edges u v lt r in (e.0, back v u (one v u e))
]

-- A visited vertex is connected with the source of its label.
abbrev pub IsKnown : CsrGraph → Array ℕ → Array (Option ℕ) → Bitmap → Type 0
IsKnown g comp sources b =
    (v : ℕ)
    → v < g.num_nodes
    → get_bit b v ≡ true
    → (r : ℕ) × (sources (comp v) ≡ some r) × Connected (Edge g) r v

-- The neighbours of a vertex are visited and have its label.
abbrev pub IsDone : CsrGraph → Array ℕ → Bitmap → ℕ → Type 0
IsDone g comp b v =
    (w : ℕ) → contains w (near g v) ≡ true → (get_bit b w ≡ true) × (comp w ≡ comp v)

-- Between two rounds of the search with the label `l`.
pub record Searching (g : CsrGraph) (comp : Array ℕ) (sources : Array (Option ℕ)) (l : ℕ)
    (s : Visit) : Type 0 where
  pub known : IsKnown g comp sources s.visited
  pub closed :
      (v : ℕ)
      → v < g.num_nodes
      → get_bit s.visited v ≡ true
      → (contains v s.frontier ≡ true) ⊎ IsDone g comp s.visited v
  pub front :
      (v : ℕ)
      → contains v s.frontier ≡ true
      → (v < g.num_nodes) × (get_bit s.visited v ≡ true) × (comp v ≡ l)

-- Between two searches.
pub record Settled (g : CsrGraph) (comp : Array ℕ) (sources : Array (Option ℕ)) (b : Bitmap)
    : Type 0 where
  pub known : IsKnown g comp sources b
  pub closed : (v : ℕ) → v < g.num_nodes → get_bit b v ≡ true → IsDone g comp b v

-- The search ends with neighbours that have different labels, or has done every visited vertex.
abbrev pub Ends : CsrGraph → Array ℕ → Array (Option ℕ) → Bitmap → Ending → Type 0
Ends g comp sources b rejected =
    (u : ℕ) × (v : ℕ) × (u < g.num_nodes)
    × (contains v (near g u) ≡ true)
    × (comp v == comp u ≡ false)
Ends g comp sources b (reached c) =
    Settled g comp sources c × ((v : ℕ) → get_bit b v ≡ true → get_bit c v ≡ true)
Ends g comp sources b unfinished = ⊥

-- The vertex in front of the frontier is done, and its neighbours are behind the others.
round-Searching :
    (g : CsrGraph) (comp : Array ℕ) (sources : Array (Option ℕ)) (l u : ℕ) (s t : Visit)
    → IsMirrored g
    → Searching g comp sources l (record { visited = s.visited; frontier = u ∷ s.frontier })
    → Visited g.num_nodes l comp (near g u) s t
    → Searching g comp sources l t
unfolding contains
round-Searching g comp sources l u s t m p q =
    let here = p.front u (ground arith) in
    let lt : u < g.num_nodes = here.0 in
    let label : comp u ≡ l = here.2 in
    record {
      known = λ v k b. elim (Bool-cases (get_bit s.visited v)) [
        | inl old ↦ p.known v k old
        | inr new ↦
            let c : contains v (near g u) ≡ true = ground (arith, b, new, q.bits v) in
            let (r, e, path) = p.known u lt (here.1) in
            let same : comp u ≡ comp v = label ∙ sym (q.labels v c) in
            (r, ap sources (sym same) ∙ e, on r u v path ((near-Connected g u v m lt c).1))
      ];
      closed = λ v k b. elim (Bool-cases (get_bit s.visited v)) [
        | inl old ↦ elim (p.closed v k old) [
          | inl c ↦ elim (Bool-cases (v == u)) [
            | inl e ↦
                let here : v ≡ u = ground (arith, e) in
                subst (λ x. (contains x t.frontier ≡ true) ⊎ IsDone g comp t.visited x) (sym here)
                  (inr (λ w d. (ground (arith, q.bits w, d), q.labels w d ∙ sym label)))
            | inr e ↦ inl (ground (arith, q.front v, c, e))
          ]
          | inr f ↦ inr (λ w d. (ground (arith, q.bits w, (f w d).0), (f w d).1))
        ]
        | inr new ↦ inl (ground (arith, q.front v, q.bits v, b, new))
      ];
      front = λ v c. elim (Bool-cases (contains v s.frontier)) [
        | inl old ↦
            let (k, bit, e) = p.front v (ground (arith, old)) in
            (k, ground (arith, q.bits v, bit), e)
        | inr new ↦
            let d : contains v (near g u) ≡ true = ground (arith, q.front v, c, new) in
            ((near-Connected g u v m lt d).0, ground (arith, q.bits v, d), q.labels v d)
      ];
    }

pub Ends-mono :
    (g : CsrGraph) (comp : Array ℕ) (sources : Array (Option ℕ)) (b c : Bitmap) (o : Ending)
    → ((v : ℕ) → get_bit b v ≡ true → get_bit c v ≡ true)
    → Ends g comp sources c o
    → Ends g comp sources b o
Ends-mono g comp sources b c rejected h p = p
Ends-mono g comp sources b c (reached d) h (p, k) = (p, λ v e. k v (h v e))
Ends-mono g comp sources b c unfinished h p = p

-- The search ends within the fuel, since each round visits a vertex for each that it adds.
pub search-Ends :
    (g : CsrGraph) (comp : Array ℕ) (sources : Array (Option ℕ)) (l fuel : ℕ) (b : Bitmap)
    (frontier : List ℕ)
    → IsMirrored g
    → unvisited g.num_nodes b + length frontier < fuel
    → Searching g comp sources l (record { visited = b; frontier = frontier })
    → Ends g comp sources b (search comp g l fuel b frontier)
unfolding search
search-Ends g comp sources l zero b frontier m lt p = absurd (omega (arith, lt))
search-Ends g comp sources l (suc fuel) b [] m lt p = (
  record {
    known = p.known;
    closed = λ v k bit. elim (p.closed v k bit) [
      | inl c ↦ absurd (unfold contains in (ground (arith, c)))
      | inr f ↦ f
    ];
  },
  λ v e. e,
)
search-Ends g comp sources l (suc fuel) b (u ∷ frontier) m lt p =
    go (visit_vertex comp g l u s)
      (visit_vertex-VisitedOr l comp g u s (λ v c. (near-Connected g u v m (here.0) c).0))
      (λ t. search-Ends g comp sources l fuel t.visited t.frontier m)
  where
    s : Visit
    s = record { visited = b; frontier = frontier }

    here : (u < g.num_nodes) × (get_bit b u ≡ true) × (comp u ≡ l)
    here = p.front u (unfold contains in (ground arith))

    go :
        (o : Option Visit)
        → VisitedOr g.num_nodes l comp (near g u) s o
        → ((t : Visit)
            → unvisited g.num_nodes t.visited + length t.frontier < fuel
            → Searching g comp sources l (record { visited = t.visited; frontier = t.frontier })
            → Ends g comp sources t.visited (search comp g l fuel t.visited t.frontier))
        → Ends g comp sources b
            (elim o [ none ↦ rejected | some t ↦ search comp g l fuel t.visited t.frontier ])
    go none (v, c, e) ih = (u, v, here.0, c, rw (here.2) e)
    go (some t) q ih =
        let work = q.work in
        Ends-mono g comp sources b t.visited (search comp g l fuel t.visited t.frontier)
          (λ v e. ground (arith, q.bits v, e))
          (ih t (omega (arith, lt, work)) (round-Searching g comp sources l u s t m p q))
