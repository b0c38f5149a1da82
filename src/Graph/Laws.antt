-- ===== src/Graph/Laws.antt =====
-- Neighborhood, GenIndex and VertexOffsets of src/graph.h.
use shared_gapbs.Base.{
  length-slice, ap, length, true, ℕ, zero, suc, ◌+◌, ◌-◌, ◌<◌, min, ◌≡◌, ap₂, sym, ◌∙◌, false,
  arith, Array, write, slice, drop, for_range_inv, lt_suc_cases,
}
use shared_gapbs.PVector.{PVector, new, get, put}
use shared_gapbs.Graph.{
  out_degree, begin, CsrGraph, neighborhood, to_list, out_neigh, in_neigh, gen_index,
  vertex_offsets,
}

module _ (fresh : Array ℕ) (offsets : PVector ℕ) (neighs : ℕ) where
  pub gen_index_lem :
      (n : ℕ) → n < offsets.size → gen_index fresh offsets neighs n ≡ neighs + get offsets n
  unfolding gen_index
  gen_index_lem n h =
      for_range_inv (λ i index. (j : ℕ) → j < i → index j ≡ neighs + get offsets j) offsets.size
        (λ n index. write index n (neighs + get offsets n)) offsets.size 0 fresh (omega arith)
        (λ i index lo hi p j lt. ground (arith, lt_suc_cases j i lt, p j))
        (λ j lt. absurd (omega arith)) n h

drop-slice : (a : Array ℕ) (p n s : ℕ) → drop s (slice a p n) ≡ slice a (p + min s n) (n - min s n)
drop-slice a p n zero = ap₂ (slice a) (omega arith) (omega arith)
drop-slice a p zero (suc s) = let none_left : 0 - min (suc s) 0 ≡ 0 = omega arith in rw none_left
drop-slice a p (suc n) (suc s) =
    drop-slice a (suc p) n s ∙ ap₂ (slice a) (omega arith) (omega arith)

-- Iterating from an offset skips that many neighbours, and all when there are fewer.
pub to_list-neighborhood :
    (n : ℕ) (g_index cells : Array ℕ) (start_offset : ℕ)
    → to_list (neighborhood n g_index cells start_offset)
      ≡ drop start_offset (slice cells (g_index n) (g_index (n + 1) - g_index n))
unfolding neighborhood
to_list-neighborhood n g_index cells start_offset =
    ap₂ (slice cells) (omega arith) (omega arith)
    ∙ sym (drop-slice cells (g_index n) (g_index (n + 1) - g_index n) start_offset)

-- Iterating over the out-neighbours of a vertex from an offset visits its row without the first
-- start_offset cells, and nothing when there are fewer.
pub to_list-out_neigh :
    (g : CsrGraph) (n start_offset : ℕ)
    → to_list (out_neigh g n start_offset)
      ≡ drop start_offset (slice g.out_cells (g.out_index n) (g.out_index (n + 1) - g.out_index n))
unfolding out_neigh
to_list-out_neigh g n start_offset = to_list-neighborhood n g.out_index g.out_cells start_offset

pub to_list-in_neigh :
    (g : CsrGraph) (n start_offset : ℕ)
    → to_list (in_neigh g n start_offset)
      ≡ drop start_offset (slice g.in_cells (g.in_index n) (g.in_index (n + 1) - g.in_index n))
unfolding in_neigh
to_list-in_neigh g n start_offset = to_list-neighborhood n g.in_index g.in_cells start_offset

-- The offsets of an index relative to its first entry, for the direction that is asked for.
pub vertex_offsets_out :
    (fresh : Array ℕ) (g : CsrGraph) (n : ℕ)
    → n < suc g.num_nodes
    → get (vertex_offsets fresh g false) n ≡ g.out_index n - g.out_index 0
unfolding vertex_offsets
vertex_offsets_out fresh g n h =
    for_range_inv (λ i (v : PVector ℕ). (j : ℕ) → j < i → get v j ≡ g.out_index j - g.out_index 0)
      (suc g.num_nodes) (λ n offsets. put offsets n (g.out_index n - g.out_index 0))
      (g.num_nodes + 1) 0 (new fresh (g.num_nodes + 1)) (omega arith)
      (λ i v lo hi p j lt. ground (arith, lt_suc_cases j i lt, p j)) (λ j lt. absurd (omega arith))
      n h

pub vertex_offsets_in :
    (fresh : Array ℕ) (g : CsrGraph) (n : ℕ)
    → n < suc g.num_nodes
    → get (vertex_offsets fresh g true) n ≡ g.in_index n - g.in_index 0
unfolding vertex_offsets
vertex_offsets_in fresh g n h =
    for_range_inv (λ i (v : PVector ℕ). (j : ℕ) → j < i → get v j ≡ g.in_index j - g.in_index 0)
      (suc g.num_nodes) (λ n offsets. put offsets n (g.in_index n - g.in_index 0)) (g.num_nodes + 1)
      0 (new fresh (g.num_nodes + 1)) (omega arith)
      (λ i v lo hi p j lt. ground (arith, lt_suc_cases j i lt, p j)) (λ j lt. absurd (omega arith))
      n h

-- The first cell of a graph's rows.
pub begin-out_neigh : (g : CsrGraph) → begin (out_neigh g 0 0) ≡ g.out_index 0
unfolding out_neigh neighborhood
begin-out_neigh g = omega arith

pub begin-in_neigh : (g : CsrGraph) → begin (in_neigh g 0 0) ≡ g.in_index 0
unfolding in_neigh neighborhood
begin-in_neigh g = omega arith

-- The out-degree is the length of the row.
pub length-out_neigh : (g : CsrGraph) (v : ℕ) → length (to_list (out_neigh g v 0)) ≡ out_degree g v
unfolding out_degree
length-out_neigh g v =
    ap length (to_list-out_neigh g v 0)
    ∙ length-slice g.out_cells (g.out_index v) (g.out_index (v + 1) - g.out_index v)
