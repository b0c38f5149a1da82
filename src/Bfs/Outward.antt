-- ===== src/Bfs/Outward.antt =====
-- TDStep of src/bfs.cc discovers what the edges out of the queue reach.
use mathlib.Core.Option.{some-injective}
use shared_gapbs.Base.{
  ◌-◌, subst, lt_suc_cases, eq_or_ne, ℕ, ℤ, pos, negsuc, zero, suc, ◌+◌, ◌≤◌, ◌<◌, ◌≡◌, refl, ap,
  sym, ◌∙◌, inl, inr, arith, Array, true, List, [], ◌∷◌, ◌++◌, for_range, for_range_inv, slice,
  get_elem?, get_elem?-slice,
}
use shared_gapbs.Stl.{contains}
use shared_gapbs.Stl.Laws.{contains-cons, contains-nil}
use shared_gapbs.Graph.{CsrGraph, to_list, out_neigh}
use shared_gapbs.SlidingQueue.{
  SlidingQueue, QueueBuffer, IsOrdered, window, pending, new_buffer, size,
}
use shared_gapbs.SlidingQueue.Buffer.{
  IsReady, Pushed, Pushed-refl, Pushed-trans, Pushed-flush, new_buffer-IsReady, buffer_push-Pushed,
}
use shared_gapbs.Bfs.{
  negative, given_size, TopDown, top_down_edge, top_down_each, top_down_vertex, td_step,
}
use shared_gapbs.Bfs.Discovery.{
  Discovers, Discovers-nothing, Discovers-then, Discovers-map, Discovers-one, Discovers-none,
  Nowhere, Either, Only,
}

-- A part of the step: what it discovers is what it pushes.
record Advances (E : ℕ → ℕ → Type 0) (s t : TopDown) : Type 0 where
  ds : List ℕ
  discovers : Discovers E s.parent t.parent ds
  pushed : Pushed s.queue t.queue ds

Advances-then :
    (E F : ℕ → ℕ → Type 0) (s t u : TopDown)
    → Advances E s t
    → Advances F t u
    → Advances (Either E F) s u
Advances-then E F s t u a b = record {
  ds = a.ds ++ b.ds;
  discovers = Discovers-then E F s.parent t.parent u.parent a.ds b.ds a.discovers b.discovers;
  pushed = Pushed-trans a.ds b.ds a.pushed b.pushed;
}

Advances-map :
    (E F : ℕ → ℕ → Type 0) (s t : TopDown)
    → ((u v : ℕ) → E u v → F u v)
    → ((u v : ℕ) → F u v → E u v)
    → Advances E s t
    → Advances F s t
Advances-map E F s t to from a = record {
  ds = a.ds;
  discovers = Discovers-map E F s.parent t.parent a.ds to from a.discovers;
  pushed = a.pushed;
}

top_down_edge_by_parent :
    (u v : ℕ) (s : TopDown) (z : ℤ)
    → IsReady s.queue
    → s.parent v ≡ z
    → Advances (Only u v) s (top_down_edge u s v)
unfolding top_down_edge
top_down_edge_by_parent u v s (pos p) r e =
    rw (e, top_down_edge)
      (record {
        ds = [];
        discovers =
            Discovers-none (Only u v) s.parent
              (λ x y at. ap (λ y. negative (s.parent y)) at.1 ∙ ap negative e);
        pushed = Pushed-refl s.queue r;
      })
top_down_edge_by_parent u v s (negsuc k) r e =
    rw (e, top_down_edge)
      (record {
        ds = v ∷ [];
        discovers =
            Discovers-one (Only u v) u v s.parent (refl, refl) (λ x y at. at.1) (ap negative e);
        pushed = buffer_push-Pushed s.queue.0 s.queue.1 v r;
      })

top_down_edge-Advances :
    (u v : ℕ) (s : TopDown) → IsReady s.queue → Advances (Only u v) s (top_down_edge u s v)
top_down_edge-Advances u v s r = top_down_edge_by_parent u v s (s.parent v) r refl

-- The edges from a vertex to the members of a list.
abbrev To : ℕ → List ℕ → ℕ → ℕ → Type 0
To u vs x y = (x ≡ u) × (contains y vs ≡ true)

Advances-nothing : (s : TopDown) → IsReady s.queue → Advances Nowhere s s
Advances-nothing s r = record {
  ds = [];
  discovers = Discovers-nothing s.parent;
  pushed = Pushed-refl s.queue r;
}

top_down_each-Advances :
    (u : ℕ) (vs : List ℕ) (s : TopDown)
    → IsReady s.queue
    → Advances (To u vs) s (top_down_each u vs s)
unfolding top_down_each contains
top_down_each-Advances u [] s r =
    Advances-map Nowhere (To u []) s s (λ x y e. absurd e) (λ x y e. absurd (contains-nil y e.1))
      (Advances-nothing s r)
top_down_each-Advances u (v ∷ vs) s r =
    let first = top_down_edge-Advances u v s r in
    Advances-map (Either (Only u v) (To u vs)) (To u (v ∷ vs)) s
      (top_down_each u vs (top_down_edge u s v))
      (λ x y e. elim e [
        | inl at ↦ (at.0, ground (arith, at.1))
        | inr at ↦ (at.0, ground (arith, at.1))
      ])
      (λ x y e. elim (contains-cons y v vs e.1) [ inl at ↦ inl (e.0, at) | inr at ↦ inr (e.0, at) ])
      (Advances-then (Only u v) (To u vs) s (top_down_edge u s v)
        (top_down_each u vs (top_down_edge u s v)) first
        (top_down_each-Advances u vs (top_down_edge u s v) first.pushed.ready))

-- The members of a slice are its cells.
pub contains-slice :
    (a : Array ℕ) (p n x : ℕ)
    → contains x (slice a p n) ≡ true
    → (k : ℕ) × (p ≤ k) × (k < p + n) × (x ≡ a k)
contains-slice a p zero x h = absurd (contains-nil x h)
contains-slice a p (suc n) x h = elim (contains-cons x (a p) (slice a (suc p) n) h) [
  | inl e ↦ (p, omega arith, omega arith, e)
  | inr later ↦
      let (k, lo, hi, e) = contains-slice a (suc p) n x later in (k, omega arith, omega arith, e)
]

pub slice-contains :
    (a : Array ℕ) (p n k : ℕ) → p ≤ k → k < p + n → contains (a k) (slice a p n) ≡ true
unfolding contains
slice-contains a p zero k lo hi = absurd (omega arith)
slice-contains a p (suc n) k lo hi = elim (eq_or_ne k p) [
  | inl e ↦ ground (arith, ap a e)
  | inr ne ↦ let later = slice-contains a (suc p) n k (omega arith) (omega arith) in ground arith
]

-- What is pushed leaves the cells of the window alone.
Pushed-shared :
    (s t : SlidingQueue ℕ × QueueBuffer ℕ) (xs : List ℕ)
    → Pushed s t xs
    → (i : ℕ) → s.0.shared_out_start ≤ i
    → i < s.0.shared_out_end
    → t.0.shared i ≡ s.0.shared i
Pushed-shared s t xs p i lo hi =
    let k : ℕ = i - s.0.shared_out_start in
    let here : i ≡ s.0.shared_out_start + k = omega arith in
    let there : i ≡ t.0.shared_out_start + k = omega (arith, p.start_kept) in
    ap t.0.shared there
    ∙ some-injective _ _ (
        sym (
          get_elem?-slice t.0.shared t.0.shared_out_start
            (t.0.shared_out_end - t.0.shared_out_start) k (omega (arith, p.start_kept, p.end_kept)))
        ∙ ap (λ w. get_elem? w k) p.unseen
        ∙ get_elem?-slice s.0.shared s.0.shared_out_start
            (s.0.shared_out_end - s.0.shared_out_start) k (omega arith))
    ∙ ap s.0.shared (sym here)

-- An edge out of a vertex that the queue shows.
abbrev pub FromWindow : CsrGraph → SlidingQueue ℕ → ℕ → ℕ → Type 0
FromWindow g q u v =
    (contains u (window q) ≡ true) × (contains v (to_list (out_neigh g u 0)) ≡ true)

module _ (g : CsrGraph) (fresh : Array ℕ) (parent : Array ℤ) (q : SlidingQueue ℕ)
    (o : IsOrdered q) where
  -- An edge out of a vertex that stands before position `i` of the window.
  abbrev Passed : ℕ → ℕ → ℕ → Type 0
  Passed i u v =
      (k : ℕ) × (q.shared_out_start ≤ k)
      × (k < i)
      × (u ≡ q.shared k)
      × (contains v (to_list (out_neigh g u 0)) ≡ true)

  abbrev first : TopDown
  first = record { parent = parent; queue = (q, new_buffer fresh given_size); scout_count = 0 }

  next_vertex :
      (i : ℕ) (s : TopDown)
      → q.shared_out_start ≤ i
      → i < q.shared_out_start + size q
      → Advances (Passed i) first s
      → Advances (Passed (suc i)) first (top_down_vertex g i s)
  unfolding top_down_vertex size
  next_vertex i s lo hi a =
      let u : ℕ = s.queue.0.shared i in
      let same = Pushed-shared first.queue s.queue a.ds a.pushed i lo (omega arith) in
      Advances-map (Either (Passed i) (To u (to_list (out_neigh g u 0)))) (Passed (suc i)) first
        (top_down_vertex g i s)
        (λ x y e. elim e [
          | inl (k, lo', lt, at, c) ↦ (k, lo', omega arith, at, c)
          | inr (at, c) ↦ (
            i,
            lo,
            omega arith,
            at ∙ same,
            subst (λ u. contains y (to_list (out_neigh g u 0)) ≡ true) (sym at) c,
          )
        ])
        (λ x y (k, lo', lt, at, c). elim (lt_suc_cases k i lt) [
          | inl before ↦ inl (k, lo', before, at, c)
          | inr now ↦
              let here : x ≡ u = at ∙ ap q.shared now ∙ sym same in
              inr (here, subst (λ u. contains y (to_list (out_neigh g u 0)) ≡ true) here c)
        ])
        (Advances-then (Passed i) (To u (to_list (out_neigh g u 0))) first s (top_down_vertex g i s)
          a (top_down_each-Advances u (to_list (out_neigh g u 0)) s a.pushed.ready))

  -- Whatever the memory of the buffer held, a step out of an ordered queue discovers what the edges
  -- out of its window reach, adds what it discovers to what is pending, and leaves the window.
  pub td_step-Discovers :
      let t = td_step g fresh parent q in
      (ds : List ℕ) × Discovers (FromWindow g q) parent t.parent ds
      × (pending t.queue.0 ≡ pending q ++ ds)
      × (window t.queue.0 ≡ window q)
      × IsOrdered t.queue.0
  unfolding td_step size
  td_step-Discovers =
      let stop = q.shared_out_start + size q in
      let last = for_range (size q) q.shared_out_start (top_down_vertex g) first in
      let ready = new_buffer-IsReady q fresh given_size o (omega arith) in
      let a =
        for_range_inv (λ i s. Advances (Passed i) first s) stop (top_down_vertex g) (size q)
          q.shared_out_start first refl (λ i s lo hi a. next_vertex i s lo hi a)
          (Advances-map Nowhere (Passed q.shared_out_start) first first (λ u v e. absurd e)
            (λ u v (k, lo, lt, at, c). absurd (omega arith)) (Advances-nothing first ready)) in
      let (ordered, queued, unseen) = Pushed-flush q fresh given_size last.queue a.ds a.pushed in
      (
        a.ds,
        Discovers-map (Passed stop) (FromWindow g q) parent last.parent a.ds
            (λ u v (k, lo, lt, at, c). (
              subst (λ u. contains u (window q) ≡ true) (sym at)
                  (slice-contains q.shared q.shared_out_start
                    (q.shared_out_end - q.shared_out_start) k lo lt),
              c,
            ))
            (λ u v (inside, c).
              let (k, lo, lt, at) =
                contains-slice q.shared q.shared_out_start (q.shared_out_end - q.shared_out_start) u
                  inside in
              (k, lo, lt, at, c))
            a.discovers,
        queued,
        unseen,
        ordered,
      )
