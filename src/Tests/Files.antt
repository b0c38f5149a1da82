-- ===== src/Tests/Files.antt =====
-- A small directed graph, written to a file and read back (src/writer.h, src/reader.h).
use shared_gapbs.Base.{ℕ, ◌≡◌, arith, true, Array, write_all, [], ◌∷◌, some}
use shared_gapbs.Graph.{CsrGraph, directed_graph, num_edges_directed}
use shared_gapbs.Serialized.{Fresh, write_serialized_graph, read_serialized_graph}
use shared_gapbs.Serialized.Directions.{IsStorable, IsSerializable}
use shared_gapbs.Serialized.RoundTrip.{SameGraph, read-write_serialized_graph}

abbrev junk : Array ℕ
junk i = 7

abbrev index : Array ℕ
index = write_all junk 0 (0 ∷ 2 ∷ 2 ∷ 3 ∷ [])

abbrev cells : Array ℕ
cells = write_all junk 0 (1 ∷ 2 ∷ 0 ∷ [])

abbrev in_index : Array ℕ
in_index = write_all junk 0 (0 ∷ 1 ∷ 2 ∷ 3 ∷ [])

abbrev in_cells : Array ℕ
in_cells = write_all junk 0 (2 ∷ 0 ∷ 0 ∷ [])

abbrev g : CsrGraph
g = directed_graph 3 index cells in_index in_cells

abbrev room : Fresh
room = record {
  offsets = junk;
  neighs = junk;
  index = junk;
  inv_neighs = junk;
  inv_index = junk;
  unset = 7;
}

outs : IsStorable index cells 3 3
unfolding write_all
outs = record {
  lower = λ v h. omega arith;
  upper = λ v h. ground arith;
  ids = λ j lo hi. ground arith;
}

ins : IsStorable in_index in_cells 3 3
unfolding write_all
ins = record {
  lower = λ v h. omega arith;
  upper = λ v h. ground arith;
  ids = λ j lo hi. ground arith;
}

g-IsSerializable : IsSerializable g
unfolding directed_graph num_edges_directed write_all
g-IsSerializable = record { nodes = omega arith; arcs = omega arith; outs = outs; ins = λ d. ins }

read-write_serialized_graph_example :
    (h : CsrGraph) × (read_serialized_graph room true (write_serialized_graph junk junk g) ≡ some h)
    × SameGraph g h
read-write_serialized_graph_example = read-write_serialized_graph g g-IsSerializable junk junk room
