-- ===== src/Serialized.antt =====
-- The serialized format: WriteSerializedGraph, WriteEL and WriteGraph of src/writer.h, and
-- ReadSerializedGraph of src/reader.h, for unweighted graphs with 32-bit vertices, for which the
-- tests of types at their start pass. A file is the list of its bytes, and numbers stand in it with
-- the lowest byte first.
pub mod Bytes
pub mod Directions
pub mod RoundTrip
use shared_gapbs.Base.{
  ℕ, ℤ, pos, negsuc, zero, suc, ◌+◌, ◌*◌, ◌/◌, ◌%◌, Bool, true, false, not, ◌&&◌, Array, write_all,
  slice, List, [], ◌∷◌, ◌++◌, map, if◌then◌else◌, ◌==◌, Option, none, some, Run, done, exited,
  chain,
}
use shared_gapbs.PVector.{PVector, new}
use shared_gapbs.Graph.{
  EdgePair, CsrGraph, begin, to_list, out_neigh, in_neigh, undirected, directed_graph, gen_index,
  num_edges_directed, vertex_offsets,
}

-- sizeof(bool), sizeof(SGOffset) and sizeof(SGID)
abbrev pub bool_size : ℕ
bool_size = 1

abbrev pub offset_size : ℕ
offset_size = 8

abbrev pub id_size : ℕ
id_size = 4

-- `out.write` of one number, and of an array of numbers
abbrev pub write_number : ℕ → ℕ → List ℕ
write_number zero x = []
write_number (suc size) x = x % 256 ∷ write_number size (x / 256)

abbrev pub write_numbers : ℕ → List ℕ → List ℕ
write_numbers size [] = []
write_numbers size (x ∷ xs) = write_number size x ++ write_numbers size xs

-- `file.read` of one number, and of an array of `count` numbers, with the rest of the file; `none`
-- is a file that is too short, from which the code goes on with what its variables happened to hold.
abbrev pub read_number : ℕ → List ℕ → Option (ℕ × List ℕ)
read_number zero bytes = some (0, bytes)
read_number (suc size) [] = none
read_number (suc size) (b ∷ bytes) =
    chain (read_number size bytes) λ (x, rest). some (b + 256 * x, rest)

abbrev pub read_numbers : ℕ → ℕ → List ℕ → Option (List ℕ × List ℕ)
read_numbers size zero bytes = some ([], bytes)
read_numbers size (suc count) bytes =
    chain (read_number size bytes)
      λ (x, rest). chain (read_numbers size count rest) λ (xs, rest). some (x ∷ xs, rest)

-- The offsets and the neighbours of one direction; `fresh` is what the memory of the offsets held.
unfoldable pub write_direction : Array ℕ → CsrGraph → Bool → List ℕ
write_direction fresh g in_graph =
    write_numbers offset_size (slice (vertex_offsets fresh g in_graph).cells 0 (g.num_nodes + 1))
    ++ write_numbers id_size (
        if in_graph
        then slice g.in_cells (begin (in_neigh g 0 0)) (num_edges_directed g)
        else slice g.out_cells (begin (out_neigh g 0 0)) (num_edges_directed g))

unfoldable pub write_serialized_graph : Array ℕ → Array ℕ → CsrGraph → List ℕ
unfolding write_direction
write_serialized_graph fresh fresh_in g =
    write_number bool_size (if g.directed then 1 else 0)
    ++ write_number offset_size (num_edges_directed g)
    ++ write_number offset_size g.num_nodes
    ++ write_direction fresh g false
    ++ (if g.directed then write_direction fresh_in g true else [])

-- What the allocations of the reader hold, and what `num_edges_` held.
pub record Fresh : Type 0 where
  pub offsets : Array ℕ
  pub neighs : Array ℕ
  pub index : Array ℕ
  pub inv_neighs : Array ℕ
  pub inv_index : Array ℕ
  pub unset : ℕ

-- The index and the neighbours of one direction, with the rest of the file. The array of offsets is
-- the same for both.
unfoldable pub read_direction :
    Array ℕ → Array ℕ → Array ℕ → ℕ → ℕ → List ℕ → Option (Array ℕ × Array ℕ × List ℕ)
read_direction offsets neighs index num_nodes num_edges bytes =
    chain (read_numbers offset_size (num_nodes + 1) bytes) λ (xs, bytes).
      chain (read_numbers id_size num_edges bytes) λ (ys, bytes).
        let read : PVector ℕ = new (write_all offsets 0 xs) (num_nodes + 1) in
        some (gen_index index read 0, write_all neighs 0 ys, bytes)

-- `invert` is the template's parameter. Null pointers stand for memory that is never read.
unfoldable pub read_serialized_graph : Fresh → Bool → List ℕ → Option CsrGraph
unfolding read_direction
read_serialized_graph fresh invert bytes = chain (read_number bool_size bytes) λ (directed, bytes).
    chain (read_number offset_size bytes) λ (num_edges, bytes).
      chain (read_number offset_size bytes) λ (num_nodes, bytes).
        chain (read_direction fresh.offsets fresh.neighs fresh.index num_nodes num_edges bytes)
          λ (index, neighs, bytes).
            if directed == 0
            then some (undirected fresh.unset num_nodes index neighs)
            else (if invert
                then (chain
                    (read_direction fresh.offsets fresh.inv_neighs fresh.inv_index num_nodes
                      num_edges bytes)
                    λ (inv_index, inv_neighs, bytes).
                      some (directed_graph num_nodes index neighs inv_index inv_neighs))
                else some (directed_graph num_nodes index neighs fresh.inv_index fresh.inv_neighs))

-- One line `u v` for every neighbour, in the order of the vertices.
unfoldable pub write_el : CsrGraph → ℕ → List EdgePair
write_el g zero = []
write_el g (suc u) = write_el g u ++ map (λ v. record { u = u; v = v }) (to_list (out_neigh g u 0))

-- What WriteGraph leaves in its file.
pub data Written : Type 0 where
  bytes : List ℕ → Written
  lines : List EdgePair → Written

-- `opens` tells whether the file could be opened.
unfoldable pub write_graph : Array ℕ → Array ℕ → CsrGraph → List ℕ → Bool → Bool → Run Written
unfolding write_serialized_graph write_el
write_graph fresh fresh_in g [] opens serialized = exited (negsuc 7)
write_graph fresh fresh_in g (c ∷ name) opens serialized =
    if opens
    then done (
        if serialized
        then bytes (write_serialized_graph fresh fresh_in g)
        else lines (write_el g g.num_nodes))
    else exited (negsuc 4)
