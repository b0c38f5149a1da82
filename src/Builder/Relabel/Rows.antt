-- ===== src/Builder/Relabel/Rows.antt =====
-- The loop of RelabelByDegree (src/builder.h) that moves the rows: every row lands in the region of
-- its vertex's new number, with its members renumbered and sorted.
use shared_gapbs.Base.{
  ◌⊎◌, ℕ, suc, ◌+◌, ◌-◌, ◌≤◌, ◌<◌, ◌≡◌, ◌≢◌, refl, ap, sym, subst, ◌∙◌, arith, Array, List, [], ◌∷◌,
  map, write, write_all, write_all_frame, slice, slice-ext, slice-write_all, length, inl, inr,
  lt_suc_cases, eq_or_ne, lt_or_le, for_range, for_range_inv,
}
use shared_gapbs.PVector.{PVector, get, put}
use shared_gapbs.Graph.{CsrGraph, to_list, out_neigh}
use shared_gapbs.Stl.{sort}
use shared_gapbs.Stl.Laws.{length-sort}
use shared_gapbs.Builder.Csr.{Placing}
use shared_gapbs.Builder.Relabel.{move_row, move_vertex}

pub length-map : (f : ℕ → ℕ) (xs : List ℕ) → length (map f xs) ≡ length xs
length-map f [] = refl
length-map f (x ∷ xs) = ap suc (length-map f xs)

-- The inner loop writes the renumbered row from the cursor on.
move_row-neighs :
    (new_ids : PVector ℕ) (u : ℕ) (vs : List ℕ) (s : Placing)
    → (move_row new_ids u vs s).neighs
      ≡ write_all s.neighs (get s.offsets (get new_ids u)) (map (get new_ids) vs)
unfolding move_row write_all
move_row-neighs new_ids u [] s = refl
move_row-neighs new_ids u (v ∷ vs) s =
    let at = get s.offsets (get new_ids u) in
    let next : get (put s.offsets (get new_ids u) (at + 1)) (get new_ids u) ≡ suc at =
      ground arith in
    move_row-neighs new_ids u vs _
    ∙ ap (λ p. write_all (write s.neighs at (get new_ids v)) p (map (get new_ids) vs)) next

move_row-offsets :
    (new_ids : PVector ℕ) (u j : ℕ) (vs : List ℕ) (s : Placing)
    → j ≢ get new_ids u
    → get (move_row new_ids u vs s).offsets j ≡ get s.offsets j
unfolding move_row
move_row-offsets new_ids u j [] s ne = refl
move_row-offsets new_ids u j (v ∷ vs) s ne = move_row-offsets new_ids u j vs _ ne ∙ ground arith

module _ (g : CsrGraph) (index : Array ℕ) (new_ids : PVector ℕ) (base : ℕ → ℕ)
    (mono : (v w : ℕ) → v < w → w ≤ g.num_nodes → base (suc v) ≤ base w)
    (begins : (v : ℕ) → v ≤ g.num_nodes → index v ≡ base v)
    (numbered : (u : ℕ) → u < g.num_nodes → get new_ids u < g.num_nodes)
    (apart : (u v : ℕ) → u < g.num_nodes → v < g.num_nodes → get new_ids u ≡ get new_ids v → u ≡ v)
    (room : (u : ℕ)
      → u < g.num_nodes
      → base (get new_ids u) + length (to_list (out_neigh g u 0))
        ≡ base (suc (get new_ids u))) where
  abbrev n : ℕ
  n = g.num_nodes

  abbrev new_row : ℕ → List ℕ
  new_row u = map (get new_ids) (to_list (out_neigh g u 0))

  abbrev first : ℕ → ℕ
  first u = base (get new_ids u)

  degree_lem : (u : ℕ) → length (sort (new_row u)) ≡ length (new_row u)
  degree_lem u = length-sort (new_row u)

  fits : (u : ℕ) → u < n → first u + length (new_row u) ≡ base (suc (get new_ids u))
  fits u h = omega (arith, room u h, length-map (get new_ids) (to_list (out_neigh g u 0)))

  -- One round of the outer loop.
  move_vertex-neighs :
      (u : ℕ) (s : Placing)
      → u < n
      → get s.offsets (get new_ids u) ≡ first u
      → (move_vertex g index new_ids u s).neighs
        ≡ write_all (write_all s.neighs (first u) (new_row u)) (first u) (sort (new_row u))
  unfolding move_vertex
  move_vertex-neighs u s h at =
      let t = move_row new_ids u (to_list (out_neigh g u 0)) s in
      let moved : t.neighs ≡ write_all s.neighs (first u) (new_row u) =
        move_row-neighs new_ids u (to_list (out_neigh g u 0)) s
        ∙ ap (λ p. write_all s.neighs p (new_row u)) at in
      let here = begins (get new_ids u) (omega (arith, numbered u h)) in
      let next = begins (get new_ids u + 1) (omega (arith, numbered u h)) in
      let succ : base (get new_ids u + 1) ≡ base (suc (get new_ids u)) = ap base (omega arith) in
      let size : index (get new_ids u + 1) - index (get new_ids u) ≡ length (new_row u) =
        omega (arith, here, next, succ, fits u h) in
      rw (moved, size, here, slice-write_all s.neighs (first u) (new_row u)) refl

  move_vertex-cursor :
      (u v : ℕ) (s : Placing)
      → get new_ids v ≢ get new_ids u
      → get (move_vertex g index new_ids u s).offsets (get new_ids v)
        ≡ get s.offsets (get new_ids v)
  unfolding move_vertex
  move_vertex-cursor u v s ne =
      move_row-offsets new_ids u (get new_ids v) (to_list (out_neigh g u 0)) s ne

  -- A cell of another row's region is kept.
  other_cell :
      (u v p : ℕ) (s : Placing)
      → u < n
      → v < n
      → u ≢ v
      → get s.offsets (get new_ids u) ≡ first u
      → first v ≤ p
      → p < first v + length (new_row v)
      → (move_vertex g index new_ids u s).neighs p ≡ s.neighs p
  other_cell u v p s h h' ne at lo hi =
      let outside : (p < first u) ⊎ (first u + length (new_row u) ≤ p) =
        elim (lt_or_le (get new_ids u) (get new_ids v)) [
          | inl below ↦
              let over =
                mono (get new_ids u) (get new_ids v) below (omega (arith, numbered v h')) in
              inr (omega (arith, fits u h, over, lo))
          | inr above ↦ elim (eq_or_ne (get new_ids v) (get new_ids u)) [
            | inl same ↦ absurd (ne (sym (apart v u h' h same)))
            | inr other ↦
                let over =
                  mono (get new_ids v) (get new_ids u) (omega (arith, above, other))
                    (omega (arith, numbered u h)) in
                inl (omega (arith, fits v h', over, hi))
          ]
        ] in
      let length_same = degree_lem u in
      let outside' : (p < first u) ⊎ (first u + length (sort (new_row u)) ≤ p) =
        ground (arith, outside, length_same) in
      ap (λ (a : Array ℕ). a p) (move_vertex-neighs u s h at)
      ∙ write_all_frame (write_all s.neighs (first u) (new_row u)) (first u) (sort (new_row u)) p
          outside'
      ∙ write_all_frame s.neighs (first u) (new_row u) p outside

  -- Before round `i`.
  record Moved (i : ℕ) (s : Placing) : Type 0 where
    cursor : (u : ℕ) → i ≤ u → u < n → get s.offsets (get new_ids u) ≡ first u
    rows : (u : ℕ) → u < i → slice s.neighs (first u) (length (new_row u)) ≡ sort (new_row u)

  move_vertex-Moved :
      (i : ℕ) (s : Placing) → i < n → Moved i s → Moved (suc i) (move_vertex g index new_ids i s)
  move_vertex-Moved i s h m = record {
    cursor = λ u lo lt.
        move_vertex-cursor i u s (λ e. omega (arith, apart u i lt h e, lo))
        ∙ m.cursor u (omega (arith, lo)) lt;
    rows = λ u lt. elim (lt_suc_cases u i lt) [
      | inl below ↦
          slice-ext _ s.neighs (first u) (length (new_row u)) (λ p lo hi.
            other_cell i u p s h (omega arith) (λ e. omega (arith, e)) (m.cursor i (omega arith) h)
              lo hi)
          ∙ m.rows u below
      | inr e ↦
          subst
            (λ u.
              slice (move_vertex g index new_ids i s).neighs (first u) (length (new_row u))
              ≡ sort (new_row u))
            (sym e)
            (ap (λ (a : Array ℕ). slice a (first i) (length (new_row i)))
                (move_vertex-neighs i s h (m.cursor i (omega arith) h))
              ∙ ap (slice _ (first i)) (sym (degree_lem i))
              ∙ slice-write_all (write_all s.neighs (first i) (new_row i)) (first i)
                  (sort (new_row i)))
    ];
  }

  pub move_vertices :
      (s : Placing)
      → ((k : ℕ) → k < n → get s.offsets k ≡ base k)
      → (u : ℕ) → u < n
      → slice
          (for_range n 0 (move_vertex g index new_ids) s).neighs
          (base (get new_ids u))
          (length (to_list (out_neigh g u 0)))
        ≡ sort (map (get new_ids) (to_list (out_neigh g u 0)))
  move_vertices s starts u h =
      let m =
        for_range_inv Moved n (move_vertex g index new_ids) n 0 s (omega arith)
          (λ i t lo hi m. move_vertex-Moved i t hi m)
          (record {
            cursor = λ u lo lt. starts (get new_ids u) (numbered u lt);
            rows = λ u lt. absurd (omega arith);
          }) in
      ap (slice (for_range n 0 (move_vertex g index new_ids) s).neighs (base (get new_ids u)))
        (sym (length-map (get new_ids) (to_list (out_neigh g u 0))))
      ∙ m.rows u h
