-- ===== src/Tests/Building.antt =====
-- Small inputs for src/builder.h and src/graph.h.
use shared_gapbs.Base.{
  ◌^◌, ◌<◌, ℕ, ◌+◌, ◌-◌, ◌*◌, ◌≤◌, ◌≡◌, refl, true, false, not, ◌&&◌, ◌==◌, arith, Array, List, [],
  ◌∷◌, length, some, done,
}
use shared_gapbs.PVector.{PVector, get}
use shared_gapbs.Graph.{EdgePair, CsrGraph, undirected, to_list, out_neigh}
use shared_gapbs.Stl.{contains, AscendsFrom}
use shared_gapbs.Builder.PrefixSum.{prefix_sum, parallel_prefix_sum}
use shared_gapbs.Builder.PrefixSum.Blocked.{parallel_prefix_sum-prefix_sum}
use shared_gapbs.Builder.Degrees.{Options, arcs, targets}
use shared_gapbs.Builder.Degrees.Laws.{SourcesBelow}
use shared_gapbs.Builder.Csr
use shared_gapbs.Builder.Csr.{make_csr}
use shared_gapbs.Tests.Counting.{few_counted}
use shared_gapbs.Builder.Csr.Correct.{make_csr-adjacency, make_csr-sizes}
use shared_gapbs.Builder.Squish
use shared_gapbs.Builder.Squish.{squish_csr}
use shared_gapbs.Builder.Squish.Rows.{IsMonotone}
use shared_gapbs.Builder.Squish.Correct.{squished, squished_graph, squish_csr-neighbours}

abbrev garbage : Array ℕ
garbage i = 9

abbrev degrees : PVector ℕ
degrees = record { cells = λ i. i + 1; owned = true; size = 4; capacity = 4 }

parallel_prefix_sum-prefix_sum_example :
    get (parallel_prefix_sum garbage garbage garbage degrees) 4 ≡ get (prefix_sum garbage degrees) 4
parallel_prefix_sum-prefix_sum_example =
    parallel_prefix_sum-prefix_sum garbage garbage garbage garbage degrees 4 (omega arith)

-- A path 2 - 0 - 1 with a duplicate edge and a loop.
abbrev edges : List EdgePair
edges =
    record { u = 0; v = 1 }
    ∷ record { u = 2; v = 0 }
    ∷ record { u = 0; v = 1 }
    ∷ record { u = 1; v = 1 }
    ∷ []

abbrev options : Options
options = record { symmetrize = true; in_place = false }

abbrev fresh : Csr.Fresh
fresh = record {
  degrees = garbage;
  local_sums = garbage;
  bulk_prefix = garbage;
  offsets = garbage;
  neighs = garbage;
  index = garbage;
}

edges-SourcesBelow : SourcesBelow 3 (arcs true false edges)
unfolding arcs
edges-SourcesBelow = omega arith

edges-counted : (v : ℕ) → v < 3 → length (targets v (arcs true false edges)) < 2 ^ 31
edges-counted v lt = few_counted edges (omega arith) v

make_csr-adjacency_example :
    to_list (
      out_neigh
        (undirected 0 3
          (make_csr fresh options 3 edges false).index
          (make_csr fresh options 3 edges false).neighs)
        0
        0)
    ≡ 1 ∷ 2 ∷ 1 ∷ []
unfolding arcs targets
make_csr-adjacency_example =
    make_csr-adjacency fresh options 3 edges false refl edges-SourcesBelow edges-counted 0 0
      (omega arith)

eight_cells : (make_csr fresh options 3 edges false).neighs_size ≤ 100
unfolding arcs
eight_cells = omega (
  arith,
  (make_csr-sizes fresh options 3 edges false refl edges-SourcesBelow edges-counted
      (make_csr fresh options 3 edges false).neighs_size (omega arith)).0,
)

make_csr-sizes_example :
    ((make_csr fresh options 3 edges false).neighs_size ≡ length (arcs true false edges))
    × ((make_csr fresh options 3 edges false).index_x ≡ 3 + 1)
    × ((make_csr fresh options 3 edges false).neighs 100 ≡ garbage 100)
make_csr-sizes_example =
    make_csr-sizes fresh options 3 edges false refl edges-SourcesBelow edges-counted 100 eight_cells

-- Three vertices with two neighbours each; vertex 1 has itself and a duplicate.
abbrev cells : Array ℕ
cells i = 2 - i

abbrev graph : CsrGraph
graph = record {
  directed = false;
  num_nodes = 3;
  num_edges = 3;
  out_index = λ i. 2 * i;
  out_neighbors = 0;
  out_cells = cells;
  in_index = λ i. 2 * i;
  in_neighbors = 0;
  in_cells = cells;
}

graph-IsMonotone : IsMonotone 3 graph.out_index
graph-IsMonotone v w h k = omega arith

abbrev squish_fresh : Squish.Fresh
squish_fresh = record {
  diffs = garbage;
  local_sums = garbage;
  bulk_prefix = garbage;
  offsets = garbage;
  neighs = garbage;
  index = garbage;
}

squish_csr-neighbours_example :
    (squish_csr squish_fresh graph false (some 4)
      ≡ done (squished squish_fresh graph graph-IsMonotone))
    × AscendsFrom 0 (to_list (out_neigh (squished_graph squish_fresh graph graph-IsMonotone 0) 1 0))
    × (contains 0 (to_list (out_neigh (squished_graph squish_fresh graph graph-IsMonotone 0) 1 0))
        ≡ (contains 0 (to_list (out_neigh graph 1 0)) && not (0 == 1)))
squish_csr-neighbours_example =
    squish_csr-neighbours squish_fresh graph graph-IsMonotone 4 0 1 0 (omega arith)
