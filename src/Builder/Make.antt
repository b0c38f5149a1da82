-- ===== src/Builder/Make.antt =====
-- MakeGraphFromEL, SquishGraph and MakeGraph of src/builder.h, for unweighted graphs: from the input
-- to the shared graph, on the master (`host_id` 0) and on the workers.
pub mod Sizes
pub mod Edges
pub mod Serialized
pub mod Correct
use shared_gapbs.Base.{
  ℕ, ◌+◌, ◌*◌, leb, Bool, true, false, not, ◌&&◌, Array, List, [], ◌==◌, if◌then◌else◌, Option,
  none, some, Run, done, aborted, assert, ◌>>=◌, ◌>>◌,
}
use shared_gapbs.Graph.{EdgePair, CsrGraph, undirected}
use shared_gapbs.SharedGraph.{
  Local, Mapping, master, worker, await, load64, index_x_at, neigh_size_at, rows_at, int_size,
}
use shared_gapbs.Mapping.{System, map_graph, bytes_of}
use shared_gapbs.Builder.Degrees.{Options, find_max_node_id}
use shared_gapbs.Builder.Csr.{make_csr}
use shared_gapbs.Builder.Csr as Csr
use shared_gapbs.Builder.Squish.{Squished, squish_csr}
use shared_gapbs.Builder.Squish as Squish

-- What one run gets: what its allocations hold, where `unset` is what `num_edges_` held, the answers
-- of its system, and the two options for the mapping.
pub record Fresh : Type 0 where
  pub csr : Csr.Fresh
  pub squish : Squish.Fresh
  pub unset : ℕ
  pub out_index : Array ℕ
  pub in_index : Array ℕ
  pub system : System
  pub test_mode : ℕ
  pub size_of_shmem : ℕ

-- The allocation in the constructor of the shared graph.
abbrev pub mapped : Fresh → ℕ → Run ℕ
mapped fresh host_id = (map_graph fresh.system fresh.test_mode fresh.size_of_shmem host_id).1

-- Whether a mapping has room for the cells of a graph whose rows have `neigh_size` cells together.
-- The code does not test it: an access behind the mapping is taken to end the process.
unfoldable pub fits : ℕ → ℕ → ℕ → Bool
fits size_of_shmem index_x neigh_size =
    leb ((rows_at neigh_size index_x + neigh_size) * int_size) (bytes_of size_of_shmem)

-- The graph, and the member `index_x`. A worker's graph is the one with null pointers, `none`.
pub record Made : Type 0 where
  pub graph : Option CsrGraph
  pub index_x : Option ℕ

-- The part of MakeGraphFromEL that only the master runs; `invert` is the template's parameter, and
-- `num_nodes` is the member `num_nodes_`, `none` for -1. The code adds 1 as `int`s, which overflows at
-- the vertex 2 ^ 31 - 1; the sum here is that of numbers.
unfoldable pub build : Fresh → Options → Bool → Option ℕ → List EdgePair → Run Made
build fresh o invert num_nodes el =
    let n : ℕ = elim num_nodes [ none ↦ find_max_node_id el + 1 | some n ↦ n ] in
    let csr = make_csr fresh.csr o n el false in
    assert (not o.in_place)
    >> assert (not (not o.symmetrize && invert))
    >> done (record {
      graph = some (undirected fresh.unset n csr.index csr.neighs);
      index_x = some csr.index_x;
    })

unfoldable pub make_graph_from_el : Fresh → Options → Bool → Option ℕ → List EdgePair → ℕ → Run Made
unfolding build
make_graph_from_el fresh o invert num_nodes el host_id =
    (if host_id == 0
      then build fresh o invert num_nodes el
      else done (record { graph = none; index_x = none }))
    >>= λ made. assert o.symmetrize >> done made

-- What the constructor of the shared graph is given.
unfoldable pub squished_local : ℕ → ℕ → Squished → Local
squished_local num_nodes index_x s = record {
  num_nodes = num_nodes;
  index = s.sq_index;
  index_x = index_x;
  neighs = s.sq_neighs;
  neigh_size = s.neighs_x;
}

-- The master squishes its graph and stores it: the mapping after it, and the shared graph. A
-- directed graph fails one of the two assertions behind the squishing.
unfoldable pub squish_graph : Fresh → CsrGraph → Option ℕ → Mapping → Run (Mapping × CsrGraph)
unfolding squished_local fits
squish_graph fresh g none m = squish_csr fresh.squish g false none >> aborted
squish_graph fresh g (some index_x) m = squish_csr fresh.squish g false (some index_x) >>= λ s.
    assert (not g.directed)
    >> mapped fresh 0
    >> assert (fits fresh.size_of_shmem index_x s.neighs_x)
    >> done (master (squished_local g.num_nodes index_x s) fresh.out_index fresh.in_index m)

-- The master's input: a serialized graph, or the edges of a file or of the generator. Reading may
-- end the process.
pub data Input : Type 0 where
  serialized : Run CsrGraph → Input
  edges : Run (List EdgePair) → Input

-- MakeGraph on the master. A serialized graph is returned as it was read; it is not shared.
unfoldable pub make_graph_master :
    Fresh → Options → Bool → Input → Mapping → Run (Mapping × CsrGraph)
unfolding make_graph_from_el squish_graph
make_graph_master fresh o invert (serialized read) m = read >>= λ g. done (m, g)
make_graph_master fresh o invert (edges read) m = read >>= λ el.
    make_graph_from_el fresh o invert none el 0 >>= λ made.
    assert (not o.in_place)
    >> elim made.graph [ none ↦ aborted | some g ↦ squish_graph fresh g made.index_x m ]

-- The same for the sizes that a worker reads.
unfoldable pub fits_seen : ℕ → List (Array ℕ) → Bool
unfolding await fits
fits_seen size_of_shmem seen = elim (await seen) [
  | none ↦ true
  | some cells ↦ fits size_of_shmem (load64 cells index_x_at) (load64 cells neigh_size_at)
]

-- MakeGraph on a worker, whose polls see the mapping in the states `seen`; `none` means that it
-- still waits.
unfoldable pub make_graph_worker :
    Fresh → Options → Bool → ℕ → List (Array ℕ) → Run (Option CsrGraph)
unfolding make_graph_from_el fits_seen
make_graph_worker fresh o invert host_id seen =
    make_graph_from_el fresh o invert none [] host_id >>= λ made.
    assert (not o.in_place)
    >> mapped fresh host_id
    >> assert (fits_seen fresh.size_of_shmem seen)
    >> done (worker seen fresh.out_index fresh.in_index)
