-- ===== src/Serialized/RoundTrip.antt =====
-- A serialized graph that is read back has the neighbourhoods of the graph that was written
-- (WriteSerializedGraph of src/writer.h, ReadSerializedGraph of src/reader.h).
use shared_gapbs.Serialized.{
  bool_size, offset_size, write_number, read_number, write_direction, write_serialized_graph, Fresh,
  read_direction, read_serialized_graph,
}
use shared_gapbs.Serialized.Bytes.{read_number-write_number}
use shared_gapbs.Serialized.Directions.{
  IsSerializable, row, new_index, new_cells, out_back, in_back,
}
use shared_gapbs.Graph.Laws.{
  to_list-out_neigh, to_list-in_neigh, vertex_offsets_out, vertex_offsets_in, begin-out_neigh,
  begin-in_neigh,
}
use mathlib.Core.List.{[], List, append-nil}
use shared_gapbs.Graph.{
  CsrGraph, begin, to_list, out_neigh, in_neigh, undirected, directed_graph, num_edges_directed,
  vertex_offsets,
}
use shared_gapbs.Base.{
  inr, inl, ◌++◌, ◌+◌, ◌-◌, ◌==◌, Bool-cases, slice, ◌∙◌, false, Bool, Array, true, ◌<◌, ◌≡◌, chain,
  chain-some, refl, ap, sym, arith, Option, some, if◌then◌else◌, ℕ,
}

-- The same graph as far as a program can see.
pub record SameGraph (g h : CsrGraph) : Type 0 where
  pub directed : h.directed ≡ g.directed
  pub num_nodes : h.num_nodes ≡ g.num_nodes
  pub outs : (v : ℕ) → v < g.num_nodes → to_list (out_neigh h v 0) ≡ to_list (out_neigh g v 0)
  pub ins :
      g.directed ≡ true
      → (v : ℕ) → v < g.num_nodes
      → to_list (in_neigh h v 0) ≡ to_list (in_neigh g v 0)

module _ (g : CsrGraph) (is : IsSerializable g) (fresh fresh_in : Array ℕ) (room : Fresh) where
  index : Array ℕ
  index = new_index room.offsets (vertex_offsets fresh g false).cells g.num_nodes room.index

  neighs : Array ℕ
  neighs = new_cells room.neighs g.out_cells (begin (out_neigh g 0 0)) (num_edges_directed g)

  inv_index : Array ℕ
  inv_index =
      new_index room.offsets (vertex_offsets fresh_in g true).cells g.num_nodes room.inv_index

  inv_neighs : Array ℕ
  inv_neighs = new_cells room.inv_neighs g.in_cells (begin (in_neigh g 0 0)) (num_edges_directed g)

  abbrev rest_of : List ℕ → List ℕ
  rest_of in_part =
      write_number offset_size (num_edges_directed g)
      ++ write_number offset_size g.num_nodes
      ++ write_direction fresh g false
      ++ in_part

  -- The file, with the flag apart.
  file : Bool → List ℕ
  file d =
      write_number bool_size (if d then 1 else 0)
      ++ rest_of (if d then write_direction fresh_in g true else [])

  write-file : write_serialized_graph fresh fresh_in g ≡ file g.directed
  unfolding write_serialized_graph file
  write-file = refl

  -- What is read after the flag and the two counts.
  abbrev after : ℕ → ℕ → ℕ → List ℕ → Option CsrGraph
  after directed m n bytes =
      chain (read_direction room.offsets room.neighs room.index n m bytes) λ (index, neighs, bytes).
        if directed == 0
        then some (undirected room.unset n index neighs)
        else (chain (read_direction room.offsets room.inv_neighs room.inv_index n m bytes)
            λ (inv_index, inv_neighs, bytes).
              some (directed_graph n index neighs inv_index inv_neighs))

  read_counts :
      (x : ℕ) (in_part : List ℕ)
      → x < 256
      → read_serialized_graph room true (write_number bool_size x ++ rest_of in_part)
        ≡ after x (num_edges_directed g) g.num_nodes (write_direction fresh g false ++ in_part)
  unfolding read_serialized_graph
  read_counts x in_part h =
      let m = num_edges_directed g in
      let last = write_direction fresh g false ++ in_part in
      let with_nodes : ℕ → ℕ → ℕ × List ℕ → Option CsrGraph = λ d m r. after d m r.0 r.1 in
      let with_edges : ℕ → ℕ × List ℕ → Option CsrGraph =
        λ d q. chain (read_number offset_size q.1) (with_nodes d q.0) in
      let with_flag : ℕ × List ℕ → Option CsrGraph =
        λ p. chain (read_number offset_size p.1) (with_edges p.0) in
      chain-some (read_number bool_size (write_number bool_size x ++ rest_of in_part)) with_flag
        (x, rest_of in_part) (read_number-write_number bool_size x (rest_of in_part) h)
      ∙ chain-some
          (read_number offset_size
            (write_number offset_size m ++ (write_number offset_size g.num_nodes ++ last)))
          (with_edges x) (m, write_number offset_size g.num_nodes ++ last)
          (read_number-write_number offset_size m (write_number offset_size g.num_nodes ++ last)
            is.arcs)
      ∙ chain-some (read_number offset_size (write_number offset_size g.num_nodes ++ last))
          (with_nodes x m) (g.num_nodes, last)
          (read_number-write_number offset_size g.num_nodes last is.nodes)

  read_undirected :
      read_serialized_graph room true (file false)
      ≡ some (undirected room.unset g.num_nodes index neighs)
  unfolding file index neighs
  read_undirected =
      read_counts 0 [] (omega arith)
      ∙ chain-some
          (read_direction room.offsets room.neighs room.index g.num_nodes (num_edges_directed g)
            (write_direction fresh g false ++ []))
          _ (index, neighs, []) (out_back g is fresh room.offsets room.neighs room.index [])

  read_directed :
      g.directed ≡ true
      → read_serialized_graph room true (file true)
        ≡ some (directed_graph g.num_nodes index neighs inv_index inv_neighs)
  unfolding file index neighs inv_index inv_neighs
  read_directed d =
      let in_part = write_direction fresh_in g true in
      let m = num_edges_directed g in
      read_counts 1 in_part (omega arith)
      ∙ chain-some
          (read_direction room.offsets room.neighs room.index g.num_nodes m
            (write_direction fresh g false ++ in_part))
          _ (index, neighs, in_part)
          (out_back g is fresh room.offsets room.neighs room.index in_part)
      ∙ chain-some
          (read_direction room.offsets room.inv_neighs room.inv_index g.num_nodes m in_part) _
          (inv_index, inv_neighs, [])
          (ap (read_direction room.offsets room.inv_neighs room.inv_index g.num_nodes m)
              (sym (append-nil in_part))
            ∙ in_back g is fresh_in room.offsets room.inv_neighs room.inv_index [] d)

  out_row :
      (v : ℕ)
      → v < g.num_nodes
      → slice neighs (index v) (index (v + 1) - index v)
        ≡ slice g.out_cells (g.out_index v) (g.out_index (v + 1) - g.out_index v)
  unfolding index neighs
  out_row v h =
      let m = num_edges_directed g in
      let w = (vertex_offsets fresh g false).cells in
      ap (λ p. slice (new_cells room.neighs g.out_cells p m) (index v) (index (v + 1) - index v))
        (begin-out_neigh g)
      ∙ row g.out_index w room.offsets room.index g.num_nodes (vertex_offsets_out fresh g)
          g.out_cells room.neighs m v is.outs h

  in_row :
      (v : ℕ)
      → g.directed ≡ true
      → v < g.num_nodes
      → slice inv_neighs (inv_index v) (inv_index (v + 1) - inv_index v)
        ≡ slice g.in_cells (g.in_index v) (g.in_index (v + 1) - g.in_index v)
  unfolding inv_index inv_neighs
  in_row v d h =
      let m = num_edges_directed g in
      let w = (vertex_offsets fresh_in g true).cells in
      ap
        (λ p.
          slice (new_cells room.inv_neighs g.in_cells p m) (inv_index v)
            (inv_index (v + 1) - inv_index v))
        (begin-in_neigh g)
      ∙ row g.in_index w room.offsets room.inv_index g.num_nodes (vertex_offsets_in fresh_in g)
          g.in_cells room.inv_neighs m v (is.ins d) h

  same_undirected :
      g.directed ≡ false → SameGraph g (undirected room.unset g.num_nodes index neighs)
  unfolding undirected
  same_undirected d = record {
    directed = sym d;
    num_nodes = refl;
    outs = λ v h.
        to_list-out_neigh (undirected room.unset g.num_nodes index neighs) v 0
        ∙ out_row v h
        ∙ sym (to_list-out_neigh g v 0);
    ins = λ d'. cc;
  }

  same_directed :
      g.directed ≡ true → SameGraph g (directed_graph g.num_nodes index neighs inv_index inv_neighs)
  unfolding directed_graph
  same_directed d = record {
    directed = sym d;
    num_nodes = refl;
    outs = λ v h.
        to_list-out_neigh (directed_graph g.num_nodes index neighs inv_index inv_neighs) v 0
        ∙ out_row v h
        ∙ sym (to_list-out_neigh g v 0);
    ins = λ d v h.
        to_list-in_neigh (directed_graph g.num_nodes index neighs inv_index inv_neighs) v 0
        ∙ in_row v d h
        ∙ sym (to_list-in_neigh g v 0);
  }

  -- When the rows of a graph stand within its number of arcs from its first row, its vertex
  -- identifiers fit 4 bytes, and its numbers of vertices and of arcs fit 8: ReadSerializedGraph of
  -- the file that WriteSerializedGraph leaves succeeds, whatever memory both are given, with a
  -- graph of the same kind and number of vertices, the same out-neighbours of every vertex and,
  -- when it is directed, the same in-neighbours.
  pub read-write_serialized_graph :
      (h : CsrGraph) × (read_serialized_graph room true (write_serialized_graph fresh fresh_in g)
        ≡ some h)
      × SameGraph g h
  read-write_serialized_graph = elim (Bool-cases g.directed) [
    | inl d ↦ (
      directed_graph g.num_nodes index neighs inv_index inv_neighs,
      ap (read_serialized_graph room true) (write-file ∙ ap file d) ∙ read_directed d,
      same_directed d,
    )
    | inr d ↦ (
      undirected room.unset g.num_nodes index neighs,
      ap (read_serialized_graph room true) (write-file ∙ ap file d) ∙ read_undirected,
      same_undirected d,
    )
  ]
