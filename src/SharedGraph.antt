-- ===== src/SharedGraph.antt =====
-- The constructor of CSRGraph in src/graph.h that puts a graph into memory shared by several
-- hosts, with assign_sizes and assign_data. The mapping is an array of `int` cells; a 64-bit member
-- takes two of them, low half first. Pointers into the mapping are cell numbers.
pub mod Cells
pub mod Pointing
pub mod Writing
pub mod Stored
pub mod Reading
pub mod RoundTrip
pub mod Stores
pub mod Publication
use shared_gapbs.Base.{
  ℕ, suc, ◌+◌, ◌-◌, ◌*◌, ◌/◌, ◌%◌, ◌^◌, Bool, true, false, Array, write, List, [], ◌∷◌, ◌++◌, ◌==◌,
  if◌then◌else◌, for_range, Option, none, some,
}
use shared_gapbs.Graph.{CsrGraph}

-- sizeof(int), sizeof(DestID_), sizeof(int64_t) and sizeof(size_t)
abbrev pub int_size : ℕ
int_size = 4

abbrev pub dest_size : ℕ
dest_size = 4

abbrev pub int64_size : ℕ
int64_size = 8

abbrev pub size_t_size : ℕ
size_t_size = 8

abbrev pub num_nodes_at : ℕ
num_nodes_at = 1

abbrev pub index_x_at : ℕ
index_x_at = 1 + int64_size / int_size

abbrev pub neigh_size_at : ℕ
neigh_size_at = 1 + int64_size / int_size + size_t_size / int_size

abbrev pub neighs_at : ℕ
neighs_at = 1 + int64_size / int_size + 2 * size_t_size / int_size

-- `index_index_array`, the number of elements of each row
abbrev pub row_sizes_at : ℕ → ℕ
row_sizes_at neigh_size = neighs_at + neigh_size * dest_size / int_size

abbrev pub rows_at : ℕ → ℕ → ℕ
rows_at neigh_size index_x = row_sizes_at neigh_size + index_x * size_t_size / int_size

-- The mapping as the master sees it, and every store to it, in order.
pub record Mapping : Type 0 where
  pub cells : Array ℕ
  pub stores : List (ℕ × ℕ)

unfoldable pub store : Mapping → ℕ → ℕ → Mapping
store m p x = record { cells = write m.cells p x; stores = m.stores ++ (p, x) ∷ [] }

unfoldable pub store64 : Mapping → ℕ → ℕ → Mapping
unfolding store
store64 m p x = store (store m p (x % 2 ^ 32)) (p + 1) (x / 2 ^ 32 % 2 ^ 32)

abbrev pub load64 : Array ℕ → ℕ → ℕ
load64 cells p = cells p + cells (p + 1) * 2 ^ 32

-- `index_index_array[i]`
abbrev pub row_size : Array ℕ → ℕ → ℕ → ℕ
row_size cells neigh_size i = load64 cells (row_sizes_at neigh_size + i * size_t_size / int_size)

pub record Pointers : Type 0 where
  pub out_index : Array ℕ
  pub in_index : Array ℕ
  pub sum_local : ℕ

-- One round of the loop that assign_sizes and assign_data share.
unfoldable pub point_row : Array ℕ → ℕ → ℕ → ℕ → Pointers → Pointers
point_row cells index_x neigh_size i s =
    let row = rows_at neigh_size index_x + s.sum_local * dest_size / int_size in
    record {
      out_index = write s.out_index i row;
      in_index = write s.in_index i row;
      sum_local = s.sum_local + row_size cells neigh_size i;
    }

-- The two indexes are allocated by `malloc`: `fresh_out` and `fresh_in` are what they held.
unfoldable pub point_rows : Array ℕ → ℕ → ℕ → Array ℕ → Array ℕ → Pointers
unfolding point_row
point_rows cells index_x neigh_size fresh_out fresh_in =
    let first = rows_at neigh_size index_x in
    for_range index_x 0 (point_row cells index_x neigh_size) (record {
      out_index = write fresh_out 0 first;
      in_index = write fresh_in 0 first;
      sum_local = 0;
    })

-- What the master has before the constructor: `index` points into `neighs`.
pub record Local : Type 0 where
  pub num_nodes : ℕ
  pub index : Array ℕ
  pub index_x : ℕ
  pub neighs : Array ℕ
  pub neigh_size : ℕ

unfoldable pub store_metadata : Local → Mapping → Mapping
store_metadata l m =
    store64 (store64 (store64 m num_nodes_at l.num_nodes) index_x_at l.index_x) neigh_size_at
      l.neigh_size

unfoldable pub store_row_sizes : Local → Mapping → Mapping
store_row_sizes l m =
    for_range (l.index_x - 1) 0
      (λ i m.
        store64 m (row_sizes_at l.neigh_size + i * size_t_size / int_size)
          (l.index (i + 1) - l.index i))
      m

-- `for (j = 0; j < index_index_array[i]; j++) out_index_[i][j] = index[i][j];`
unfoldable pub store_row : Local → Pointers → ℕ → Mapping → Mapping
store_row l s i m =
    for_range (row_size m.cells l.neigh_size i) 0
      (λ j m. store m (s.out_index i + j) (l.neighs (l.index i + j))) m

unfoldable pub store_rows : Local → Pointers → Mapping → Mapping
unfolding store_row
store_rows l s m = for_range (l.index_x - 1) 0 (store_row l s) m

-- `out_neighbors_` and `in_neighbors_` are the same cells.
unfoldable pub store_neighs : Local → Mapping → Mapping
store_neighs l m =
    for_range l.neigh_size 0
      (λ i m. store (store m (neighs_at + i) (l.neighs i)) (neighs_at + i) (l.neighs i)) m

-- assign_data up to the store of the synchronization variable.
unfoldable pub store_graph : Local → Array ℕ → Array ℕ → Mapping → Mapping × Pointers
store_graph l fresh_out fresh_in m =
    let sized = store_row_sizes l m in
    let s = point_rows sized.cells l.index_x l.neigh_size fresh_out fresh_in in
    (store_neighs l (store_rows l s sized), s)

unfoldable pub assign_data : Local → Array ℕ → Array ℕ → Mapping → Mapping × Pointers
unfolding store_graph
assign_data l fresh_out fresh_in m =
    let (stored, s) = store_graph l fresh_out fresh_in m in (store stored 0 1, s)

unfoldable pub shared_graph : ℕ → Array ℕ → Pointers → CsrGraph
shared_graph num_nodes cells s = record {
  directed = false;
  num_nodes = num_nodes;
  num_edges = (s.out_index num_nodes - s.out_index 0) / 2;
  out_index = s.out_index;
  out_neighbors = neighs_at;
  out_cells = cells;
  in_index = s.in_index;
  in_neighbors = neighs_at;
  in_cells = cells;
}

-- The constructor of the master: `host_id == 0`.
unfoldable pub master : Local → Array ℕ → Array ℕ → Mapping → Mapping × CsrGraph
unfolding assign_data shared_graph store_metadata
master l fresh_out fresh_in m =
    let (after, s) = assign_data l fresh_out fresh_in (store_metadata l m) in
    (after, shared_graph l.num_nodes after.cells s)

-- The constructor of a worker, once it has seen the synchronization variable set.
unfoldable pub attach : Array ℕ → Array ℕ → Array ℕ → CsrGraph
unfolding point_rows shared_graph
attach cells fresh_out fresh_in =
    let index_x = load64 cells index_x_at in
    let neigh_size = load64 cells neigh_size_at in
    shared_graph (load64 cells num_nodes_at) cells
      (point_rows cells index_x neigh_size fresh_out fresh_in)

-- `while (_synch_var[0] != 1) {}` over the states of the mapping that the polls see, one after
-- another; `none` means that the worker still waits after the last of them.
unfoldable pub await : List (Array ℕ) → Option (Array ℕ)
await [] = none
await (cells ∷ later) = let rest = await later in if cells 0 == 1 then some cells else rest

unfoldable pub worker : List (Array ℕ) → Array ℕ → Array ℕ → Option CsrGraph
unfolding await attach
worker seen fresh_out fresh_in = elim (await seen) [
  | none ↦ none
  | some cells ↦ some (attach cells fresh_out fresh_in)
]
