-- ===== src/Triangles/Total.antt =====
-- The kernel and the verifier of src/tc.cc on the graph that MakeGraph (src/builder.h) makes of an
-- edge list.
use shared_gapbs.Base.{Array, ◌<◌, List, ℕ, ◌+◌, ◌≡◌, ap, ◌∙◌, arith, Bool, true, ◌==◌, some, done}
use shared_gapbs.Graph.{EdgePair, CsrGraph, out_degree}
use shared_gapbs.Builder.Degrees.{find_max_node_id}
use shared_gapbs.Builder.Make.Correct.{IsGraphOf}
use shared_gapbs.Builder.Relabel
use shared_gapbs.Components.EdgeList.{joined-swap, within}
use shared_gapbs.Triangles.{hybrid, tc_verifier}
use shared_gapbs.Triangles.Adjacency.{triangles_of}
use shared_gapbs.Triangles.EdgeList.{apart, triangles_in, triangles_of-apart, IsGraphOf-IsAdjacency}
use shared_gapbs.Triangles.Verifier.{tc_verifier-triangles_of}
use shared_gapbs.Triangles.Hybrid.{hybrid-triangles_of}

pub apart_comm : (el : List EdgePair) (u v : ℕ) → apart el u v ≡ apart el v u
apart_comm el u v = let swapped = joined-swap u v el in ground arith

module _ (el : List EdgePair) (g : CsrGraph) (is : IsGraphOf el g) where
  pub apart-inside : (u v : ℕ) → apart el u v ≡ true → v < g.num_nodes
  apart-inside u v e = within el g is u v (ground arith)

  total : triangles_of (apart el) g.num_nodes ≡ triangles_in el (find_max_node_id el + 1)
  total = triangles_of-apart el g.num_nodes ∙ ap (triangles_in el) is.nodes

  -- On the simple undirected graph of an edge list, when a vertex with an edge is among any `fuel`
  -- draws in a row: Hybrid ends and yields the number of triples w < v < u of vertices that the
  -- edges join pairwise, whatever is drawn, whatever comes of the comparison in floating-point
  -- numbers, so whether it relabels the graph by degree or not, and whatever memory it is given.
  pub hybrid-triangles_in :
      (fresh : Relabel.Fresh) (exceeds : ℕ → ℕ → ℕ → Bool) (draws : Array ℕ) (fuel : ℕ)
      → ((p : ℕ) → (k : ℕ) × (k < fuel) × (0 < out_degree g (draws (p + k))))
      → hybrid fresh exceeds draws fuel g
        ≡ some (done (some (triangles_in el (find_max_node_id el + 1))))
  hybrid-triangles_in fresh exceeds draws fuel often =
      hybrid-triangles_of (apart el) g (IsGraphOf-IsAdjacency el g is) (apart_comm el) apart-inside
        draws fuel often fresh exceeds is.undirected
      ∙ ap (λ k. some (done (some k))) total

  pub tc_verifier-triangles_in :
      (test_total : ℕ)
      → tc_verifier g test_total ≡ (triangles_in el (find_max_node_id el + 1) == test_total)
  tc_verifier-triangles_in test_total =
      tc_verifier-triangles_of (apart el) g (IsGraphOf-IsAdjacency el g is) (apart_comm el)
        apart-inside test_total
      ∙ ap (λ k. k == test_total) total
