-- ===== src/Triangles/EdgeList.antt =====
-- The triangles of an edge list, and what OrderedCount (src/tc.cc) finds on the graph that MakeGraph
-- (src/builder.h) makes of it.
use shared_gapbs.Base.{
  sum_below-ext, ℕ, ◌+◌, ◌≡◌, ap, ◌∙◌, arith, ◌&&◌, Bool, not, List, ◌==◌, some,
}
use shared_gapbs.Graph.{EdgePair, CsrGraph}
use shared_gapbs.Builder.Degrees.{find_max_node_id}
use shared_gapbs.Builder.Make.Edges.{joined}
use shared_gapbs.Builder.Make.Correct.{IsGraphOf}
use shared_gapbs.Triangles.{ordered_count}
use shared_gapbs.Triangles.Adjacency.{third, triangles_of, IsAdjacency, ordered_count-triangles_of}

-- The number of triples `w < v < u < n` that are joined pairwise.
abbrev pub triangles_in : List EdgePair → ℕ → ℕ
triangles_in el = triangles_of (λ u v. joined u v el)

-- Some edge joins two different vertices.
abbrev pub apart : List EdgePair → ℕ → ℕ → Bool
apart el u v = joined u v el && not (v == u)

pub triangles_of-apart :
    (el : List EdgePair) (n : ℕ) → triangles_of (apart el) n ≡ triangles_in el n
triangles_of-apart el n = sum_below-ext _ _ n λ u below. sum_below-ext _ _ u λ v lt.
    let inner =
      sum_below-ext (third (apart el) u v) (third (λ u v. joined u v el) u v) v
        (λ w less. ground arith) in
    ground (arith, inner)

module _ (el : List EdgePair) (g : CsrGraph) (is : IsGraphOf el g) where
  pub IsGraphOf-IsAdjacency : IsAdjacency (apart el) g
  IsGraphOf-IsAdjacency = record {
    ascending = λ v h. (is.out_rows v (omega (arith, is.nodes))).ascending;
    adjacent = λ v z h. (is.out_rows v (omega (arith, is.nodes))).adjacent z;
    irreflexive = λ v. ground arith;
  }

  -- On the simple graph of an edge list OrderedCount reads no cell past a neighbourhood and yields
  -- the number of triples w < v < u of vertices that the edges join pairwise.
  pub ordered_count-triangles_in :
      ordered_count g ≡ some (triangles_in el (find_max_node_id el + 1))
  ordered_count-triangles_in =
      ordered_count-triangles_of (apart el) g IsGraphOf-IsAdjacency
      ∙ ap some (triangles_of-apart el g.num_nodes ∙ ap (triangles_in el) is.nodes)
