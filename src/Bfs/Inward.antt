-- ===== src/Bfs/Inward.antt =====
-- BUStep of src/bfs.cc discovers what the edges out of the front reach.
use native.Mathlib.Nat.{zero-add}
use shared_gapbs.Base.{
  ◌*◌, subst, length-append, ℕ, ℤ, suc, ◌+◌, ◌≤◌, ◌<◌, ◌≡◌, refl, ap, sym, ◌∙◌, inl, inr, arith,
  Array, Bool, true, false, ◌||◌, List, [], ◌∷◌, ◌++◌, length, Bool-cases, for_range_inv,
  lt_suc_cases,
}
use shared_gapbs.Stl.{contains}
use shared_gapbs.Stl.Laws.{contains-cons, contains-head, contains-tail, contains-nil}
use shared_gapbs.Graph.{CsrGraph, to_list, in_neigh}
use shared_gapbs.Bitmap.{Bitmap, get_bit, set_bit}
use shared_gapbs.Bitmap.Laws.{get_bit-set_bit, get_bit-reset_room, set_bit_size, reset_size}
use shared_gapbs.Bitmap as Bits
use shared_gapbs.Bfs.{negative, BottomUp, find_parent, bottom_up_vertex, bu_step}
use shared_gapbs.Bfs.Discovery.{
  Discovers, Discovers-then, Discovers-map, Discovers-one, Discovers-none, Either, contains-append,
}

-- A part of the step: what it discovers is in the next front, and counted.
record Awakens (E : ℕ → ℕ → Type 0) (s t : BottomUp) : Type 0 where
  ds : List ℕ
  discovers : Discovers E s.parent t.parent ds
  bits : (v : ℕ) → get_bit t.next v ≡ (contains v ds || get_bit s.next v)
  count : t.awake_count ≡ s.awake_count + length ds
  size : t.next.count ≡ s.next.count

Awakens-then :
    (E F : ℕ → ℕ → Type 0) (s t u : BottomUp)
    → Awakens E s t
    → Awakens F t u
    → Awakens (Either E F) s u
Awakens-then E F s t u a b = record {
  ds = a.ds ++ b.ds;
  discovers = Discovers-then E F s.parent t.parent u.parent a.ds b.ds a.discovers b.discovers;
  bits = λ v. ground (arith, contains-append v a.ds b.ds, a.bits v, b.bits v);
  count = omega (arith, a.count, b.count, length-append a.ds b.ds);
  size = b.size ∙ a.size;
}

Awakens-map :
    (E F : ℕ → ℕ → Type 0) (s t : BottomUp)
    → ((u v : ℕ) → E u v → F u v)
    → ((u v : ℕ) → F u v → E u v)
    → Awakens E s t
    → Awakens F s t
Awakens-map E F s t to from a = record {
  ds = a.ds;
  discovers = Discovers-map E F s.parent t.parent a.ds to from a.discovers;
  bits = a.bits;
  count = a.count;
  size = a.size;
}

Awakens-nothing :
    (E : ℕ → ℕ → Type 0) (s : BottomUp)
    → ((u v : ℕ) → E u v → negative (s.parent v) ≡ false)
    → Awakens E s s
unfolding contains
Awakens-nothing E s h = record {
  ds = [];
  discovers = Discovers-none E s.parent h;
  bits = λ v. refl;
  count = omega arith;
  size = refl;
}

-- An edge from a vertex of the front that is in the list to `u`.
abbrev Into : Bitmap → ℕ → List ℕ → ℕ → ℕ → Type 0
Into front u vs x y = (get_bit front x ≡ true) × (contains x vs ≡ true) × (y ≡ u)

find_parent-Awakens :
    (front : Bitmap) (u : ℕ) (vs : List ℕ) (s : BottomUp)
    → negative (s.parent u) ≡ true
    → Awakens (Into front u vs) s (find_parent front u vs s)
unfolding find_parent contains
find_parent-Awakens front u [] s h =
    Awakens-nothing (Into front u []) s (λ x y e. absurd (contains-nil x e.1))
find_parent-Awakens front u (v ∷ vs) s h = elim (Bool-cases (get_bit front v)) [
  | inl set ↦ rw set (record {
    ds = u ∷ [];
    discovers =
        Discovers-one (Into front u (v ∷ vs)) v u s.parent (set, contains-head v vs, refl)
          (λ x y e. e.2) h;
    bits = λ w. ground (arith, get_bit-set_bit s.next u w);
    count = omega arith;
    size = set_bit_size s.next u;
  })
  | inr unset ↦ rw unset (
      Awakens-map (Into front u vs) (Into front u (v ∷ vs)) s (find_parent front u vs s)
        (λ x y e. (e.0, contains-tail x v vs e.1, e.2))
        (λ x y e. elim (contains-cons x v vs e.1) [
          | inl same ↦ absurd (false-is-set (ap (get_bit front) (sym same) ∙ e.0) unset)
          | inr later ↦ (e.0, later, e.2)
        ])
        (find_parent-Awakens front u vs s h))
]
  where
    false-is-set : {b : Bool} → b ≡ true → b ≡ false → ⊥
    false-is-set e f = cc

-- The edges into `u` out of the front, when `u` is below `n`.
abbrev pub FromFront : CsrGraph → Bitmap → ℕ → ℕ → Type 0
FromFront g front u v =
    (v < g.num_nodes) × (get_bit front u ≡ true) × (contains u (to_list (in_neigh g v 0)) ≡ true)

module _ (g : CsrGraph) (parent : Array ℤ) (front next : Bitmap) where
  -- The edges into vertices before `i`.
  abbrev Passed : ℕ → ℕ → ℕ → Type 0
  Passed i u v = (v < i) × (get_bit front u ≡ true) × (contains u (to_list (in_neigh g v 0)) ≡ true)

  abbrev first : BottomUp
  first = record { parent = parent; next = Bits.reset next; awake_count = 0 }

  bottom_up_vertex-Awakens :
      (u : ℕ) (s : BottomUp)
      → Awakens (Into front u (to_list (in_neigh g u 0))) s (bottom_up_vertex g front u s)
  unfolding bottom_up_vertex
  bottom_up_vertex-Awakens u s = elim (Bool-cases (negative (s.parent u))) [
    | inl unset ↦ rw unset (find_parent-Awakens front u (to_list (in_neigh g u 0)) s unset)
    | inr set ↦ rw set (
        Awakens-nothing (Into front u (to_list (in_neigh g u 0))) s
          (λ x y e. ap (λ y. negative (s.parent y)) e.2 ∙ set))
  ]

  next_vertex :
      (i : ℕ) (s : BottomUp)
      → Awakens (Passed i) first s
      → Awakens (Passed (suc i)) first (bottom_up_vertex g front i s)
  next_vertex i s a =
      Awakens-map (Either (Passed i) (Into front i (to_list (in_neigh g i 0)))) (Passed (suc i))
        first (bottom_up_vertex g front i s)
        (λ x y e. elim e [
          | inl before ↦ (omega (arith, before.0), before.1, before.2)
          | inr now ↦ (
            omega (arith, now.2),
            now.0,
            subst (λ i. contains x (to_list (in_neigh g i 0)) ≡ true) (sym now.2) now.1,
          )
        ])
        (λ x y e. elim (lt_suc_cases y i e.0) [
          | inl before ↦ inl (before, e.1, e.2)
          | inr now ↦
              inr (e.1, subst (λ i. contains x (to_list (in_neigh g i 0)) ≡ true) now e.2, now)
        ])
        (Awakens-then (Passed i) (Into front i (to_list (in_neigh g i 0))) first s
          (bottom_up_vertex g front i s) a (bottom_up_vertex-Awakens i s))

  -- When the next front has room for the vertices: a step into the vertices of the graph discovers
  -- what the edges out of the front reach. The next front is what is discovered, and it is counted.
  pub bu_step-Discovers :
      g.num_nodes ≤ 64 * next.count
      → let t = bu_step g parent front next in
        (ds : List ℕ) × Discovers (FromFront g front) parent t.parent ds
        × ((v : ℕ) → v < g.num_nodes → get_bit t.next v ≡ contains v ds)
        × (t.awake_count ≡ length ds)
        × (t.next.count ≡ next.count)
  unfolding bu_step
  bu_step-Discovers room =
      let a =
        for_range_inv (λ i s. Awakens (Passed i) first s) g.num_nodes (bottom_up_vertex g front)
          g.num_nodes 0 first (omega arith) (λ i s lo hi a. next_vertex i s a)
          (Awakens-nothing (Passed 0) first (λ x y e. absurd (omega (arith, e.0)))) in
      (
        a.ds,
        a.discovers,
        λ v h. let clear = get_bit-reset_room next v (omega arith) in ground (arith, a.bits v),
        a.count ∙ zero-add (length a.ds),
        a.size ∙ reset_size next,
      )
