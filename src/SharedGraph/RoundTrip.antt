-- ===== src/SharedGraph/RoundTrip.antt =====
-- A worker that attaches to a finished mapping has the master's graph (src/graph.h).
use shared_gapbs.Base.{sum_below-ext, ℕ, arith, Array}
use shared_gapbs.SharedGraph.{
  Mapping, Local, point_rows, attach, master, row_size, store_metadata, store_row_sizes,
}
use shared_gapbs.SharedGraph.Pointing.{point_rows-row_begin}
use shared_gapbs.SharedGraph.Writing.{IsCsr, IsStored, row_length}
use shared_gapbs.SharedGraph.Stored.{pointers-row_at, master-IsStored}
use shared_gapbs.SharedGraph.Reading.{IsCopy, shared_graph-IsCopy}

-- Whoever attaches to a mapping in which the graph is stored has a copy of it.
pub attach-IsCopy :
    (l : Local) (cells fresh_out fresh_in : Array ℕ)
    → IsCsr l
    → IsStored l cells
    → IsCopy l (attach cells fresh_out fresh_in)
unfolding attach
attach-IsCopy l cells fresh_out fresh_in c st =
    rw (st.num_nodes, st.index_x, st.neigh_size)
      (shared_graph-IsCopy l cells (point_rows cells l.index_x l.neigh_size fresh_out fresh_in) c st
        λ v lt.
          let begins = point_rows-row_begin cells l.index_x l.neigh_size fresh_out fresh_in v lt in
          let sums =
            sum_below-ext (row_size cells l.neigh_size) (row_length l) v
              (λ i h. st.sizes i (omega (arith, c.entries))) in
          (omega (arith, begins.0, sums), omega (arith, begins.1, sums)))

master-IsCopy :
    (l : Local) (fresh_out fresh_in : Array ℕ) (m : Mapping)
    → IsCsr l
    → IsCopy l (master l fresh_out fresh_in m).1
unfolding master
master-IsCopy l fresh_out fresh_in m c =
    let before = store_metadata l m in
    shared_graph-IsCopy l (master l fresh_out fresh_in m).0.cells
      (point_rows (store_row_sizes l before).cells l.index_x l.neigh_size fresh_out fresh_in) c
      (master-IsStored l fresh_out fresh_in m c).0 (pointers-row_at l c fresh_out fresh_in before)

-- For a graph in CSR form whose sizes fit 64 bits: after the master's constructor has written it
-- into the mapping, the master's graph and the graph of any worker that attaches to the mapping
-- have the vertices, the edge count and the neighbourhoods, in both directions, of the arrays the
-- master was given.
pub master-attach-IsCopy :
    (l : Local) (fresh_out fresh_in worker_out worker_in : Array ℕ) (m : Mapping)
    → IsCsr l
    → IsCopy l (master l fresh_out fresh_in m).1
      × IsCopy l (attach (master l fresh_out fresh_in m).0.cells worker_out worker_in)
master-attach-IsCopy l fresh_out fresh_in worker_out worker_in m c =
    let stored = (master-IsStored l fresh_out fresh_in m c).0 in
    (
      master-IsCopy l fresh_out fresh_in m c,
      attach-IsCopy l (master l fresh_out fresh_in m).0.cells worker_out worker_in c stored,
    )
