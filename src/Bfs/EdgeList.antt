-- ===== src/Bfs/EdgeList.antt =====
-- The breadth-first search (src/bfs.cc) on the graph that MakeGraph (src/builder.h) makes of an edge
-- list.
use shared_gapbs.Base.{ℕ, ◌<◌, ◌≡◌, true, arith, List}
use shared_gapbs.Graph.{EdgePair, CsrGraph}
use shared_gapbs.Stl.{contains}
use shared_gapbs.Builder.Make.Correct.{IsGraphOf}
use shared_gapbs.Components.Afforest.Labels.{column, row, Edge}
use shared_gapbs.Components.EdgeList.{IsRow-Joined, IsRow-contains, within, out-Edge}
use shared_gapbs.Bfs.Rounds.{IsTransposed}

module _ (el : List EdgePair) (g : CsrGraph) (is : IsGraphOf el g) where
  into : (u v : ℕ) → Edge g u v → contains u (column g v) ≡ true
  into u v e =
      let (j, ne) = out-Edge el g is u v e in
      let below = within el g is u v j in
      IsRow-contains el v u (column g v) (is.in_rows v (omega (arith, is.nodes))) j ne

  out_of : (u v : ℕ) → v < g.num_nodes → contains u (column g v) ≡ true → Edge g u v
  out_of u v lt c =
      let (j, ne) = IsRow-Joined el v u (column g v) (is.in_rows v (omega (arith, is.nodes))) c in
      let below = within el g is v u j in
      (below, IsRow-contains el u v (row g u) (is.out_rows u (omega (arith, is.nodes))) j ne)

  -- The in-neighbours in the graph of an edge list are those with an edge to the vertex.
  pub IsGraphOf-IsTransposed : IsTransposed g
  IsGraphOf-IsTransposed = record {
    inside = λ u v e. within el g is u v (out-Edge el g is u v e).0;
    to_in = into;
    from_in = out_of;
  }
