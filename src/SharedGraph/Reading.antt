-- ===== src/SharedGraph/Reading.antt =====
-- What a worker makes of a stored graph (src/graph.h).
use shared_gapbs.Base.{
  ℕ, zero, suc, ◌+◌, ◌-◌, ◌/◌, ◌≤◌, ◌<◌, ◌≡◌, refl, ap, ap₂, ◌∙◌, arith, Array, slice, sum_below,
  false,
}
use shared_gapbs.Graph.{CsrGraph, to_list, out_neigh, in_neigh}
use shared_gapbs.Graph.Laws.{to_list-out_neigh, to_list-in_neigh}
use shared_gapbs.SharedGraph.{Local, Pointers, shared_graph}
use shared_gapbs.SharedGraph.Writing.{IsCsr, IsStored, row, row_length, row_at}

-- A graph that has the vertices, the edge count and the neighbourhoods of the master's arrays.
pub record IsCopy (l : Local) (g : CsrGraph) : Type 0 where
  pub undirected : g.directed ≡ false
  pub nodes : g.num_nodes ≡ l.num_nodes
  pub edges : g.num_edges ≡ (l.index l.num_nodes - l.index 0) / 2
  pub out_rows : (v : ℕ) → v < l.num_nodes → to_list (out_neigh g v 0) ≡ row l v
  pub in_rows : (v : ℕ) → v < l.num_nodes → to_list (in_neigh g v 0) ≡ row l v

-- The lengths of the rows before `v` add up to the distance of the index entries.
sum_below-row_length :
    (l : Local) (c : IsCsr l) (v : ℕ)
    → v ≤ l.num_nodes
    → sum_below (row_length l) v + l.index 0 ≡ l.index v
sum_below-row_length l c zero h = omega arith
sum_below-row_length l c (suc v) h =
    let next : l.index (v + 1) ≡ l.index (suc v) = ap l.index (omega arith) in
    omega
      (arith, sum_below-row_length l c v (omega arith), next, c.monotone v (suc v) (omega arith) h)

pub shared_graph-IsCopy :
    (l : Local) (cells : Array ℕ) (s : Pointers)
    → IsCsr l
    → IsStored l cells
    → ((v : ℕ) → v < l.index_x → (s.out_index v ≡ row_at l v) × (s.in_index v ≡ row_at l v))
    → IsCopy l (shared_graph l.num_nodes cells s)
unfolding shared_graph
shared_graph-IsCopy l cells s c st points = record {
  undirected = refl;
  nodes = refl;
  edges =
      ap (λ k. k / 2)
        (omega (
          arith,
          points l.num_nodes (omega (arith, c.entries)),
          points 0 (omega (arith, c.entries)),
          sum_below-row_length l c l.num_nodes (omega arith),
        ));
  out_rows = λ v lt.
      to_list-out_neigh (shared_graph l.num_nodes cells s) v 0
      ∙ ap₂ (slice cells) (points v (omega (arith, c.entries))).0 (
          omega (
            arith,
            points v (omega (arith, c.entries)),
            points (v + 1) (omega (arith, c.entries)),
            next v,
          ))
      ∙ st.rows v lt;
  in_rows = λ v lt.
      to_list-in_neigh (shared_graph l.num_nodes cells s) v 0
      ∙ ap₂ (slice cells) (points v (omega (arith, c.entries))).1 (
          omega (
            arith,
            points v (omega (arith, c.entries)),
            points (v + 1) (omega (arith, c.entries)),
            next v,
          ))
      ∙ st.rows v lt;
}
  where
    next : (v : ℕ) → row_at l (v + 1) ≡ row_at l v + row_length l v
    next v = let e : v + 1 ≡ suc v = omega arith in omega (arith, ap (sum_below (row_length l)) e)
