-- ===== src/Builder/Relabel.antt =====
-- RelabelByDegree of src/builder.h: the vertices renumbered by decreasing degree. The parallel loops
-- are run in order of their index.
pub mod Sorting
pub mod Numbering
pub mod Rows
pub mod Correct
use shared_gapbs.Base.{
  ℕ, ◌+◌, ◌-◌, Bool, ◌&&◌, ◌||◌, Array, write, write_all, slice, List, [], ◌∷◌, ltb, ◌==◌,
  if◌then◌else◌, for_range, negsuc, Run, done, exited,
}
use shared_gapbs.PVector
use shared_gapbs.PVector.{PVector, new, get, put}
use shared_gapbs.Graph.{CsrGraph, to_list, out_neigh, out_degree, gen_index, undirected}
use shared_gapbs.Stl.{sort, sort_pairs}
use shared_gapbs.Builder.PrefixSum.{parallel_prefix_sum}
use shared_gapbs.Builder.Csr.{Placing}

-- What the allocations hold before they are written to, and the edge count of the new graph.
pub record Fresh : Type 0 where
  pub degree_id_pairs : Array (ℕ × ℕ)
  pub degrees : Array ℕ
  pub new_ids : Array ℕ
  pub local_sums : Array ℕ
  pub bulk_prefix : Array ℕ
  pub offsets : Array ℕ
  pub neighs : Array ℕ
  pub index : Array ℕ
  pub unset : ℕ

degree_id_pairs : Array (ℕ × ℕ) → CsrGraph → PVector (ℕ × ℕ)
degree_id_pairs fresh g =
    for_range g.num_nodes 0 (λ n v. put v n (out_degree g n, n)) (new fresh g.num_nodes)

pub sorted_pairs : Array (ℕ × ℕ) → CsrGraph → PVector (ℕ × ℕ)
unfolding degree_id_pairs
sorted_pairs fresh g =
    let v = degree_id_pairs fresh g in
    record v { cells = write_all v.cells 0 (sort_pairs (PVector.to_list v)) }

pub record Numbered : Type 0 where
  pub degrees : PVector ℕ
  pub new_ids : PVector ℕ

-- `degrees[n] = degree_id_pairs[n].first; new_ids[degree_id_pairs[n].second] = n;`
number_vertex : PVector (ℕ × ℕ) → ℕ → Numbered → Numbered
number_vertex pairs n s = record {
  degrees = put s.degrees n (get pairs n).0;
  new_ids = put s.new_ids (get pairs n).1 n;
}

pub number_vertices : Fresh → CsrGraph → Numbered
unfolding number_vertex sorted_pairs
number_vertices fresh g =
    for_range g.num_nodes 0 (number_vertex (sorted_pairs fresh.degree_id_pairs g))
      (record { degrees = new fresh.degrees g.num_nodes; new_ids = new fresh.new_ids g.num_nodes })

-- `for (NodeID_ v : g.out_neigh(u)) neighs[offsets[new_ids[u]]++] = new_ids[v];`
pub move_row : PVector ℕ → ℕ → List ℕ → Placing → Placing
move_row new_ids u [] s = s
move_row new_ids u (v ∷ vs) s =
    let at = get s.offsets (get new_ids u) in
    move_row new_ids u vs (record {
      neighs = write s.neighs at (get new_ids v);
      offsets = put s.offsets (get new_ids u) (at + 1);
    })

-- The body of the loop over `u`, with the sort of the new row.
pub move_vertex : CsrGraph → Array ℕ → PVector ℕ → ℕ → Placing → Placing
unfolding move_row
move_vertex g index new_ids u s =
    let t = move_row new_ids u (to_list (out_neigh g u 0)) s in
    let first = index (get new_ids u) in
    let last = index (get new_ids u + 1) in
    record t { neighs = write_all t.neighs first (sort (slice t.neighs first (last - first))) }

pub relabelled : Fresh → CsrGraph → CsrGraph
unfolding number_vertices move_vertex
relabelled fresh g =
    let s = number_vertices fresh g in
    let offsets = parallel_prefix_sum fresh.local_sums fresh.bulk_prefix fresh.offsets s.degrees in
    let index = gen_index fresh.index offsets 0 in
    let t =
      for_range g.num_nodes 0 (move_vertex g index s.new_ids)
        (record { neighs = fresh.neighs; offsets = offsets }) in
    undirected fresh.unset g.num_nodes index t.neighs

unfoldable pub relabel_by_degree : Fresh → CsrGraph → Run CsrGraph
unfolding relabelled
relabel_by_degree fresh g = if g.directed then exited (negsuc 10) else done (relabelled fresh g)
