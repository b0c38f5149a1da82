-- ===== src/Graph.antt =====
-- src/graph.h: EdgePair, Neighborhood and CSRGraph, for unweighted graphs (DestID_ = NodeID_).
-- Vertices are the natural numbers below `num_nodes`. A pointer into a block of vertices is its
-- position in the block.
pub mod Laws
use shared_gapbs.Base.{
  ℕ, suc, ◌+◌, ◌-◌, ◌*◌, ◌/◌, min, Bool, true, false, ◌&&◌, Array, write, slice, List, ltb, ◌==◌,
  if◌then◌else◌, for_range,
}
use shared_gapbs.PVector.{PVector, new, get, put}

pub record EdgePair : Type 0 where
  pub u : ℕ
  pub v : ℕ

pub edge_lt : EdgePair → EdgePair → Bool
edge_lt lhs rhs = if lhs.u == rhs.u then ltb lhs.v rhs.v else ltb lhs.u rhs.u

pub edge_eq : EdgePair → EdgePair → Bool
edge_eq lhs rhs = lhs.u == rhs.u && lhs.v == rhs.v

-- `g_index` points into the block `cells`.
pub record Neighborhood : Type 0 where
  pub n : ℕ
  pub g_index : Array ℕ
  pub cells : Array ℕ
  pub start_offset : ℕ

abbrev pub begin : Neighborhood → ℕ
begin r = r.g_index r.n + r.start_offset

abbrev pub end : Neighborhood → ℕ
end r = r.g_index (r.n + 1)

pub neighborhood : ℕ → Array ℕ → Array ℕ → ℕ → Neighborhood
neighborhood n g_index cells start_offset =
    let whole : Neighborhood = record {
      n = n;
      g_index = g_index;
      cells = cells;
      start_offset = 0;
    } in
    let max_offset = end whole - begin whole in
    record whole { start_offset = min start_offset max_offset }

-- `for (v : r)`
abbrev pub to_list : Neighborhood → List ℕ
to_list r = slice r.cells (begin r) (end r - begin r)

-- `out_cells` and `in_cells` are the blocks that the two indexes point into, and `out_neighbors`
-- and `in_neighbors` are positions in them.
pub record CsrGraph : Type 0 where
  pub directed : Bool
  pub num_nodes : ℕ
  pub num_edges : ℕ
  pub out_index : Array ℕ
  pub out_neighbors : ℕ
  pub out_cells : Array ℕ
  pub in_index : Array ℕ
  pub in_neighbors : ℕ
  pub in_cells : Array ℕ

-- The constructor of an undirected graph leaves `num_edges_` as it was: `unset`.
unfoldable pub undirected : ℕ → ℕ → Array ℕ → Array ℕ → CsrGraph
undirected unset num_nodes index neighs = record {
  directed = false;
  num_nodes = num_nodes;
  num_edges = unset;
  out_index = index;
  out_neighbors = 0;
  out_cells = neighs;
  in_index = index;
  in_neighbors = 0;
  in_cells = neighs;
}

unfoldable pub directed_graph : ℕ → Array ℕ → Array ℕ → Array ℕ → Array ℕ → CsrGraph
directed_graph num_nodes out_index out_neighs in_index in_neighs = record {
  directed = true;
  num_nodes = num_nodes;
  num_edges = out_index num_nodes - out_index 0;
  out_index = out_index;
  out_neighbors = 0;
  out_cells = out_neighs;
  in_index = in_index;
  in_neighbors = 0;
  in_cells = in_neighs;
}

unfoldable pub num_edges_directed : CsrGraph → ℕ
num_edges_directed g = if g.directed then g.num_edges else 2 * g.num_edges

unfoldable pub out_degree : CsrGraph → ℕ → ℕ
out_degree g v = g.out_index (v + 1) - g.out_index v

pub in_degree : CsrGraph → ℕ → ℕ
in_degree g v = g.in_index (v + 1) - g.in_index v

pub out_neigh : CsrGraph → ℕ → ℕ → Neighborhood
unfolding neighborhood
out_neigh g n start_offset = neighborhood n g.out_index g.out_cells start_offset

pub in_neigh : CsrGraph → ℕ → ℕ → Neighborhood
unfolding neighborhood
in_neigh g n start_offset = neighborhood n g.in_index g.in_cells start_offset

-- `fresh` is what the memory of the new index held; `neighs` is the position of the block.
unfoldable pub gen_index : Array ℕ → PVector ℕ → ℕ → Array ℕ
gen_index fresh offsets neighs =
    for_range offsets.size 0 (λ n index. write index n (neighs + get offsets n)) fresh

pub vertex_offsets : Array ℕ → CsrGraph → Bool → PVector ℕ
vertex_offsets fresh g in_graph =
    for_range (g.num_nodes + 1) 0
      (λ n offsets.
        put offsets n
          (if in_graph then g.in_index n - g.in_index 0 else g.out_index n - g.out_index 0))
      (new fresh (g.num_nodes + 1))
