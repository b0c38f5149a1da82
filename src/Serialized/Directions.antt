-- ===== src/Serialized/Directions.antt =====
-- One direction of a graph, written and read back (WriteSerializedGraph of src/writer.h,
-- ReadSerializedGraph of src/reader.h).
use mathlib.Core.Option.{some-injective}
use mathlib.Core.List.{append_assoc}
use native.Mathlib.Nat.{zero-add}
use shared_gapbs.Base.{
  ℕ, zero, suc, ◌+◌, ◌-◌, ◌^◌, ◌<◌, ◌≤◌, ◌≡◌, ap, sym, ◌∙◌, arith, true, false, Array, write_all,
  slice, List, ◌++◌, length, some, chain-some, length-slice, slice-shift, slice-write_all,
  get_elem?-slice, get_elem?,
}
use shared_gapbs.PVector.{new}
use shared_gapbs.Graph.{
  CsrGraph, begin, out_neigh, in_neigh, gen_index, num_edges_directed, vertex_offsets,
}
use shared_gapbs.Graph.Laws.{
  begin-in_neigh, begin-out_neigh, gen_index_lem, vertex_offsets_out, vertex_offsets_in,
}
use shared_gapbs.Serialized.{
  write_direction, read_numbers, write_numbers, offset_size, id_size, read_direction,
}
use shared_gapbs.Serialized.Bytes.{Fit, read_numbers-write_numbers}

write_all-slice : (a b : Array ℕ) (p n j : ℕ) → j < n → write_all a 0 (slice b p n) j ≡ b (p + j)
write_all-slice a b p n j h =
    let count = length-slice b p n in
    let same : get_elem? (slice (write_all a 0 (slice b p n)) 0 n) j ≡ some (b (p + j)) =
      ap (λ k. get_elem? (slice (write_all a 0 (slice b p n)) 0 k) j) (sym count)
      ∙ ap (λ xs. get_elem? xs j) (slice-write_all a 0 (slice b p n))
      ∙ get_elem?-slice b p n j h in
    ap (write_all a 0 (slice b p n)) (sym (zero-add j))
    ∙ some-injective _ _ (sym (get_elem?-slice (write_all a 0 (slice b p n)) 0 n j h) ∙ same)

Fit-slice :
    (size : ℕ) (a : Array ℕ) (p n : ℕ)
    → ((j : ℕ) → p ≤ j → j < p + n → a j < 256 ^ size)
    → Fit size (slice a p n)
Fit-slice size a p zero h = tt
Fit-slice size a p (suc n) h = (
  h p (omega arith) (omega arith),
  Fit-slice size a (suc p) n (λ j lo hi. h j (omega arith) (omega arith)),
)

-- One direction of a graph with `n` vertices and `m` arcs that a file can hold: the rows are among
-- the `m` cells from the first row, and the numbers fit the words of the file.
pub record IsStorable (index cells : Array ℕ) (n m : ℕ) : Type 0 where
  pub lower : (v : ℕ) → v ≤ n → index 0 ≤ index v
  pub upper : (v : ℕ) → v ≤ n → index v ≤ index 0 + m
  pub ids : (j : ℕ) → index 0 ≤ j → j < index 0 + m → cells j < 256 ^ id_size

abbrev pub new_index : Array ℕ → Array ℕ → ℕ → Array ℕ → Array ℕ
new_index offsets w n fresh =
    gen_index fresh (new (write_all offsets 0 (slice w 0 (n + 1))) (n + 1)) 0

abbrev pub new_cells : Array ℕ → Array ℕ → ℕ → ℕ → Array ℕ
new_cells neighs cells p m = write_all neighs 0 (slice cells p m)

-- What is read holds the row of each vertex.
module _ (index w offsets fresh : Array ℕ) (n : ℕ)
    (rel : (j : ℕ) → j < suc n → w j ≡ index j - index 0) where
  new_index_lem : (v : ℕ) → v < suc n → new_index offsets w n fresh v ≡ index v - index 0
  new_index_lem v h =
      let moved =
        gen_index_lem fresh (new (write_all offsets 0 (slice w 0 (n + 1))) (n + 1)) 0 v
          (omega arith) in
      let cell = write_all-slice offsets w 0 (n + 1) v (omega arith) in
      let there : w (0 + v) ≡ index v - index 0 = ap w (zero-add v) ∙ rel v h in ground arith

  pub row :
      (cells neighs : Array ℕ) (m v : ℕ)
      → IsStorable index cells n m
      → v < n
      → slice
          (new_cells neighs cells (index 0) m)
          (new_index offsets w n fresh v)
          (new_index offsets w n fresh (v + 1) - new_index offsets w n fresh v)
        ≡ slice cells (index v) (index (v + 1) - index v)
  row cells neighs m v st h =
      let lo = IsStorable.lower st v (omega arith) in
      let hi = IsStorable.upper st (v + 1) (omega arith) in
      let at = new_index_lem v (omega arith) in
      let next = new_index_lem (v + 1) (omega arith) in
      let lo' = IsStorable.lower st (v + 1) (omega arith) in
      let from = new_index offsets w n fresh v in
      let count : new_index offsets w n fresh (v + 1) - from ≡ index (v + 1) - index v =
        omega arith in
      rw count (
        slice-shift (new_cells neighs cells (index 0) m) cells from (index v)
          (index (v + 1) - index v)
          λ j lt.
            write_all-slice neighs cells (index 0) m (from + j) (omega arith)
            ∙ ap cells (omega arith))

read_counted :
    (size count : ℕ) (xs : List ℕ) (rest : List ℕ)
    → length xs ≡ count
    → Fit size xs
    → read_numbers size count (write_numbers size xs ++ rest) ≡ some (xs, rest)
read_counted size count xs rest e h =
    ap (λ k. read_numbers size k (write_numbers size xs ++ rest)) (sym e)
    ∙ read_numbers-write_numbers size xs rest h

-- What write_direction leaves, read back.
read_back :
    (offsets neighs fresh : Array ℕ) (n m : ℕ) (xs ys rest : List ℕ)
    → length xs ≡ n + 1
    → length ys ≡ m
    → Fit offset_size xs
    → Fit id_size ys
    → read_direction offsets neighs fresh n m
        ((write_numbers offset_size xs ++ write_numbers id_size ys) ++ rest)
      ≡ some (gen_index fresh (new (write_all offsets 0 xs) (n + 1)) 0, write_all neighs 0 ys, rest)
unfolding read_direction
read_back offsets neighs fresh n m xs ys rest cx cy fx fy =
    ap (read_direction offsets neighs fresh n m)
      (append_assoc (write_numbers offset_size xs) (write_numbers id_size ys) rest)
    ∙ chain-some
        (read_numbers offset_size (n + 1)
          (write_numbers offset_size xs ++ (write_numbers id_size ys ++ rest)))
        _ (xs, write_numbers id_size ys ++ rest)
        (read_counted offset_size (n + 1) xs (write_numbers id_size ys ++ rest) cx fx)
    ∙ chain-some (read_numbers id_size m (write_numbers id_size ys ++ rest)) _ (ys, rest)
        (read_counted id_size m ys rest cy fy)

-- What a file can hold: both directions of a directed graph, and one of an undirected one.
pub record IsSerializable (g : CsrGraph) : Type 0 where
  pub nodes : g.num_nodes < 256 ^ offset_size
  pub arcs : num_edges_directed g < 256 ^ offset_size
  pub outs : IsStorable g.out_index g.out_cells g.num_nodes (num_edges_directed g)
  pub ins : g.directed ≡ true → IsStorable g.in_index g.in_cells g.num_nodes (num_edges_directed g)

Fit-offsets :
    (w index : Array ℕ) (cells : Array ℕ) (n m : ℕ)
    → IsStorable index cells n m
    → m < 256 ^ offset_size
    → ((j : ℕ) → j < suc n → w j ≡ index j - index 0)
    → Fit offset_size (slice w 0 (n + 1))
Fit-offsets w index cells n m st h rel = Fit-slice offset_size w 0 (n + 1) λ j lo hi.
    let at = rel j (omega arith) in let up = IsStorable.upper st j (omega arith) in omega arith

module _ (g : CsrGraph) (is : IsSerializable g) (fresh offsets neighs index : Array ℕ) where
  pub out_back :
      (rest : List ℕ)
      → read_direction offsets neighs index g.num_nodes
          (num_edges_directed g)
          (write_direction fresh g false ++ rest)
        ≡ some (
          new_index offsets (vertex_offsets fresh g false).cells g.num_nodes index,
          new_cells neighs g.out_cells (begin (out_neigh g 0 0)) (num_edges_directed g),
          rest,
        )
  unfolding write_direction
  out_back rest =
      let w = (vertex_offsets fresh g false).cells in
      let m = num_edges_directed g in
      let p = begin (out_neigh g 0 0) in
      read_back offsets neighs index g.num_nodes m (slice w 0 (g.num_nodes + 1))
        (slice g.out_cells p m) rest (length-slice w 0 (g.num_nodes + 1))
        (length-slice g.out_cells p m)
        (Fit-offsets w g.out_index g.out_cells g.num_nodes m is.outs is.arcs
          (vertex_offsets_out fresh g))
        (rw (begin-out_neigh g)
          (Fit-slice id_size g.out_cells (g.out_index 0) m (IsStorable.ids is.outs)))

  pub in_back :
      (rest : List ℕ)
      → g.directed ≡ true
      → read_direction offsets neighs index g.num_nodes
          (num_edges_directed g)
          (write_direction fresh g true ++ rest)
        ≡ some (
          new_index offsets (vertex_offsets fresh g true).cells g.num_nodes index,
          new_cells neighs g.in_cells (begin (in_neigh g 0 0)) (num_edges_directed g),
          rest,
        )
  unfolding write_direction
  in_back rest d =
      let w = (vertex_offsets fresh g true).cells in
      let m = num_edges_directed g in
      let p = begin (in_neigh g 0 0) in
      read_back offsets neighs index g.num_nodes m (slice w 0 (g.num_nodes + 1))
        (slice g.in_cells p m) rest (length-slice w 0 (g.num_nodes + 1))
        (length-slice g.in_cells p m)
        (Fit-offsets w g.in_index g.in_cells g.num_nodes m (is.ins d) is.arcs
          (vertex_offsets_in fresh g))
        (rw (begin-in_neigh g)
          (Fit-slice id_size g.in_cells (g.in_index 0) m (IsStorable.ids (is.ins d))))
