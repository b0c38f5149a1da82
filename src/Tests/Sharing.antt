-- ===== src/Tests/Sharing.antt =====
-- A triangle put into shared memory (src/graph.h).
use shared_gapbs.Base.{
  ℕ, ◌+◌, ◌*◌, ◌%◌, ◌<◌, ◌≡◌, refl, arith, Array, [], ◌∷◌, ◌++◌, map, length, some, for_range,
}
use shared_gapbs.Graph.{CsrGraph}
use shared_gapbs.SharedGraph.{
  Local, Mapping, master, attach, worker, store_graph, store_metadata, store_row_sizes, store_rows,
  store_neighs, point_rows, store64,
}
use shared_gapbs.SharedGraph.Writing.{IsCsr}
use shared_gapbs.SharedGraph.Reading.{IsCopy}
use shared_gapbs.SharedGraph.RoundTrip.{master-attach-IsCopy}
use shared_gapbs.SharedGraph.Publication.{state, stores, state_sync, worker-IsCopy, worker_attaches}

abbrev garbage : Array ℕ
garbage i = 9

-- The neighbours of a vertex of the triangle are the two others.
abbrev triangle : Local
triangle = record {
  num_nodes = 3;
  index = λ i. 2 * i;
  index_x = 4;
  neighs = λ i. (i + 1 + i % 2) % 3;
  neigh_size = 6;
}

triangle-IsCsr : IsCsr triangle
triangle-IsCsr = record {
  entries = refl;
  monotone = λ v w h k. omega arith;
  entries_small = omega arith;
  neighs_small = omega arith;
  rows_small = omega arith;
}

abbrev mapping : Mapping
mapping = record { cells = garbage; stores = [] }

master-attach-IsCopy_example :
    IsCopy triangle (master triangle garbage garbage mapping).1
    × IsCopy triangle (attach (master triangle garbage garbage mapping).0.cells garbage garbage)
master-attach-IsCopy_example =
    master-attach-IsCopy triangle garbage garbage garbage garbage mapping triangle-IsCsr

many_stores : 10 < length (stores triangle triangle-IsCsr garbage garbage garbage)
unfolding stores master store_graph store_metadata store_row_sizes store_rows store_neighs
    point_rows store64 for_range
many_stores = omega arith

state_sync_example : state triangle triangle-IsCsr garbage garbage garbage 10 0 ≡ 9
state_sync_example = state_sync triangle triangle-IsCsr garbage garbage garbage 10 many_stores

abbrev Attaches : Type 0
Attaches =
    (g : CsrGraph) × (worker
        (map (state triangle triangle-IsCsr garbage garbage garbage)
          ((3 ∷ 20 ∷ []) ++ length (stores triangle triangle-IsCsr garbage garbage garbage) ∷ []))
        garbage garbage
      ≡ some g)

attached : Attaches
attached =
    worker_attaches triangle triangle-IsCsr garbage garbage garbage garbage garbage (3 ∷ 20 ∷ [])

worker_attaches_example : Attaches
worker_attaches_example =
    worker_attaches triangle triangle-IsCsr garbage garbage garbage garbage garbage (3 ∷ 20 ∷ [])

worker-IsCopy_example : IsCopy triangle attached.0
worker-IsCopy_example =
    worker-IsCopy triangle triangle-IsCsr garbage garbage garbage (omega arith) garbage garbage
      ((3 ∷ 20 ∷ []) ++ length (stores triangle triangle-IsCsr garbage garbage garbage) ∷ [])
      attached.0 attached.1
