-- ===== src/Builder/Make/Correct.antt =====
-- MakeGraph of src/builder.h from end to end: an edge list on the master becomes the same graph on
-- every host.
use shared_gapbs.Base.{
  ℕ, suc, ◌+◌, ◌*◌, ◌^◌, ◌≤◌, ◌<◌, ◌≡◌, refl, ap, sym, subst, ◌∙◌, Bool, true, false, not, ◌&&◌,
  ◌==◌, arith, Array, List, [], ◌∷◌, length, Option, some, done, aborted, assert, ◌>>◌,
}
use shared_gapbs.Stl.{contains, AscendsFrom}
use shared_gapbs.Graph.{EdgePair, CsrGraph, undirected, to_list, out_neigh, in_neigh}
use shared_gapbs.Graph.Laws.{to_list-out_neigh}
use shared_gapbs.SharedGraph.{
  Local, Mapping, master, attach, await, worker, load64, index_x_at, neigh_size_at,
}
use shared_gapbs.SharedGraph.Writing.{IsCsr, IsStored, row}
use shared_gapbs.SharedGraph.Stored.{master-IsStored}
use shared_gapbs.SharedGraph.Reading.{IsCopy}
use shared_gapbs.SharedGraph.Publication.{worker-take}
use shared_gapbs.SharedGraph.RoundTrip.{master-attach-IsCopy}
use shared_gapbs.Builder.Degrees.{Options, find_max_node_id, arcs, targets}
use shared_gapbs.Builder.Degrees.Laws.{SourcesBelow, find_max_node_id-AllLe, arcs-SourcesBelow}
use shared_gapbs.Builder.Csr.{Csr, make_csr}
use shared_gapbs.Builder.Csr.Correct.{
  make_csr-adjacency, make_csr-sizes, make_csr_mono, make_csr_last,
}
use shared_gapbs.Builder.Squish.{Squished, squish_cells, squish_csr}
use shared_gapbs.Builder.Squish.Rows.{IsMonotone}
use shared_gapbs.Builder.Squish.Correct.{squished_graph, squish_csr-neighbours}
use shared_gapbs.Builder.Make.{
  Fresh, edges, build, make_graph_from_el, squished_local, squish_graph, make_graph_master,
  make_graph_worker, mapped, fits, fits_seen,
}
use shared_gapbs.Builder.Make.Edges.{joined, contains-targets, length-arcs}
use shared_gapbs.Builder.Make.Sizes.{squished_local-IsCsr, neighs_x_le}
use shared_gapbs.Mapping.{bytes_of}

-- The neighbours are sorted and stand once, and are the vertices joined to `v` other than itself.
pub record IsRow (el : List EdgePair) (v : ℕ) (neighbours : List ℕ) : Type 0 where
  pub ascending : AscendsFrom 0 neighbours
  pub adjacent : (z : ℕ) → contains z neighbours ≡ (joined v z el && not (z == v))

-- The simple undirected graph of an edge list.
pub record IsGraphOf (el : List EdgePair) (g : CsrGraph) : Type 0 where
  pub undirected : g.directed ≡ false
  pub nodes : g.num_nodes ≡ find_max_node_id el + 1
  pub out_rows : (v : ℕ) → v ≤ find_max_node_id el → IsRow el v (to_list (out_neigh g v 0))
  pub in_rows : (v : ℕ) → v ≤ find_max_node_id el → IsRow el v (to_list (in_neigh g v 0))

-- When the edge list is not symmetrized, or is to be built in place: MakeGraph of the edges fails
-- an assertion on the master, whatever the edge list, and on every worker.
pub make_graph-aborted :
    (fresh fresh' : Fresh) (o : Options) (invert : Bool) (el : List EdgePair) (m : Mapping)
    (host : ℕ) (seen : List (Array ℕ))
    → (o.symmetrize && not o.in_place) ≡ false
    → (make_graph_master fresh o invert (edges (done el)) m ≡ aborted)
      × (make_graph_worker fresh' o invert (suc host) seen ≡ aborted)
make_graph-aborted fresh fresh' o invert el m host seen h = (on_master, on_worker)
  where
    on_master : make_graph_master fresh o invert (edges (done el)) m ≡ aborted
    on_master =
        unfold make_graph_master in unfold make_graph_from_el in unfold build in ground arith

    on_worker : make_graph_worker fresh' o invert (suc host) seen ≡ aborted
    on_worker = unfold make_graph_worker in unfold make_graph_from_el in ground arith

pub make_graph_worker_lem :
    (fresh : Fresh) (o : Options) (invert : Bool) (host : ℕ) (seen : List (Array ℕ))
    → o.symmetrize ≡ true
    → o.in_place ≡ false
    → make_graph_worker fresh o invert (suc host) seen ≡ (
        mapped fresh (suc host)
        >> assert (fits_seen fresh.size_of_shmem seen)
        >> done (worker seen fresh.out_index fresh.in_index))
unfolding make_graph_worker make_graph_from_el
make_graph_worker_lem fresh o invert host seen symmetric apart = ground arith

fits_seen_lem :
    (size : ℕ) (cells : Array ℕ)
    → cells 0 ≡ 1
    → fits_seen size (cells ∷ []) ≡ fits size (load64 cells index_x_at) (load64 cells neigh_size_at)
unfolding fits_seen
fits_seen_lem size cells set =
    let e : (cells 0 == 1) ≡ true = ground arith in rw (e, fits_seen, await)

module _ (fresh : Fresh) (o : Options) (el : List EdgePair) (symmetric : o.symmetrize ≡ true)
    (apart : o.in_place ≡ false) (small : find_max_node_id el + 1 < 2 ^ 31)
    (counted : (v : ℕ) → length (targets v (arcs true false el)) < 2 ^ 31)
    (few : 2 * length el < 2 ^ 64) where
  abbrev n : ℕ
  n = find_max_node_id el + 1

  below : SourcesBelow n (arcs o.symmetrize false el)
  below =
      subst (λ k. SourcesBelow k (arcs o.symmetrize false el)) (omega arith)
        (arcs-SourcesBelow o.symmetrize false (find_max_node_id el) el (find_max_node_id-AllLe el))

  degrees_counted : (v : ℕ) → v < n → length (targets v (arcs o.symmetrize false el)) < 2 ^ 31
  degrees_counted v lt =
      subst (λ s. length (targets v (arcs s false el)) < 2 ^ 31) (sym symmetric) (counted v)

  abbrev csr : Csr
  csr = make_csr fresh.csr o n el false

  mono : IsMonotone n csr.index
  mono = make_csr_mono fresh.csr o n el false apart below degrees_counted

  abbrev built : CsrGraph
  built = undirected fresh.unset n csr.index csr.neighs

  abbrev squished : Squished
  squished = squish_cells fresh.squish csr.index csr.neighs n

  abbrev local : Local
  local = squished_local n csr.index_x squished

  entries : csr.index_x ≡ n + 1
  entries =
      (make_csr-sizes fresh.csr o n el false apart below degrees_counted csr.neighs_size
        (omega arith)).1

  local-IsCsr : IsCsr local
  local-IsCsr =
      let last = make_csr_last fresh.csr o n el false apart below degrees_counted in
      let count : length (arcs o.symmetrize false el) ≡ 2 * length el =
        ap (λ s. length (arcs s false el)) symmetric ∙ length-arcs false el in
      squished_local-IsCsr fresh.squish n csr.index csr.neighs mono csr.index_x entries
        (omega arith) (omega (arith, last, count))

  -- The rows have no more cells than there are arcs.
  few_cells : local.neigh_size ≤ 2 * length el
  unfolding squished_local
  few_cells =
      let last = make_csr_last fresh.csr o n el false apart below degrees_counted in
      let count : length (arcs o.symmetrize false el) ≡ 2 * length el =
        ap (λ s. length (arcs s false el)) symmetric ∙ length-arcs false el in
      omega (arith, neighs_x_le fresh.squish n csr.index csr.neighs mono, last, count)

  fits-local :
      (size : ℕ)
      → 4 * (2 * find_max_node_id el + 4 * length el + 11) ≤ bytes_of size
      → fits size local.index_x local.neigh_size ≡ true
  unfolding fits squished_local
  fits-local size room =
      let cells = few_cells in let rows = entries in ground (arith, cells, rows, room)

  built-IsMonotone : IsMonotone built.num_nodes built.out_index
  unfolding undirected
  built-IsMonotone = mono

  row-squished :
      (v : ℕ)
      → to_list (out_neigh (squished_graph fresh.squish built built-IsMonotone fresh.unset) v 0)
        ≡ row local v
  unfolding undirected squished_local
  row-squished v =
      to_list-out_neigh (squished_graph fresh.squish built built-IsMonotone fresh.unset) v 0

  built-joined :
      (v z : ℕ)
      → v ≤ find_max_node_id el
      → contains z (to_list (out_neigh built v 0)) ≡ joined v z el
  built-joined v z h =
      ap (contains z) (
        make_csr-adjacency fresh.csr o n el false apart below degrees_counted fresh.unset v
          (omega arith))
      ∙ ap (λ s. contains z (targets v (arcs s false el))) symmetric
      ∙ contains-targets false v z el

  row-IsRow : (v : ℕ) → v ≤ find_max_node_id el → IsRow el v (row local v)
  row-IsRow v h =
      let in_range : v < built.num_nodes = unfold undirected in omega arith in
      record {
        ascending =
            subst (AscendsFrom 0) (row-squished v)
              (squish_csr-neighbours fresh.squish built built-IsMonotone csr.index_x fresh.unset v 0
                in_range).1;
        adjacent = λ z.
            ap (contains z) (sym (row-squished v))
            ∙ (squish_csr-neighbours fresh.squish built built-IsMonotone csr.index_x fresh.unset v z
                in_range).2
            ∙ ap (λ b. b && not (z == v)) (built-joined v z h);
      }

  IsCopy-IsGraphOf : (g : CsrGraph) → IsCopy local g → IsGraphOf el g
  unfolding squished_local
  IsCopy-IsGraphOf g c = record {
    undirected = c.undirected;
    nodes = c.nodes;
    out_rows = λ v h. subst (IsRow el v) (sym (c.out_rows v (omega arith))) (row-IsRow v h);
    in_rows = λ v h. subst (IsRow el v) (sym (c.in_rows v (omega arith))) (row-IsRow v h);
  }

  make_graph_master_lem :
      (invert : Bool) (m : Mapping) (ptr : ℕ)
      → mapped fresh 0 ≡ done ptr
      → 4 * (2 * find_max_node_id el + 4 * length el + 11) ≤ bytes_of fresh.size_of_shmem
      → make_graph_master fresh o invert (edges (done el)) m
        ≡ done (master local fresh.out_index fresh.in_index m)
  unfolding make_graph_master squish_graph make_graph_from_el build squish_csr undirected
  make_graph_master_lem invert m ptr got room =
      let big : fits fresh.size_of_shmem csr.index_x squished.neighs_x ≡ true =
        unfold squished_local in fits-local fresh.size_of_shmem room in
      simp (symmetric, apart, got, big) refl

  -- When the edge list is symmetrized and not built in place, its largest vertex plus one is less
  -- than 2 ^ 31, less than 2 ^ 31 arcs of its two directions leave each vertex, twice its number
  -- of edges is less than 2 ^ 64, the allocations of the mapping succeed on the master and on
  -- another host, and both mappings have at least 4 * (2 * the largest vertex + 4 * the number of
  -- edges + 11) bytes: MakeGraph of the edges succeeds on the master, whose graph is the simple
  -- undirected graph of the edge list, and on the other host MakeGraph, when it sees the mapping
  -- that the master left, succeeds with a graph that is the simple undirected graph of the edge
  -- list too.
  pub make_graph-IsGraphOf :
      (fresh' : Fresh) (host ptr ptr' : ℕ) (invert : Bool) (m : Mapping)
      → mapped fresh 0 ≡ done ptr
      → mapped fresh' (suc host) ≡ done ptr'
      → 4 * (2 * find_max_node_id el + 4 * length el + 11) ≤ bytes_of fresh.size_of_shmem
      → 4 * (2 * find_max_node_id el + 4 * length el + 11) ≤ bytes_of fresh'.size_of_shmem
      → (m' : Mapping) × (g : CsrGraph) × (w : CsrGraph) × (make_graph_master fresh o invert
            (edges (done el))
            m
          ≡ done (m', g))
        × (make_graph_worker fresh' o invert (suc host) (m'.cells ∷ []) ≡ done (some w))
        × IsGraphOf el g
        × IsGraphOf el w
  make_graph-IsGraphOf fresh' host ptr ptr' invert m got got' room room' =
      let result = master local fresh.out_index fresh.in_index m in
      let (copy, worker_copy) =
        master-attach-IsCopy local fresh.out_index fresh.in_index fresh'.out_index fresh'.in_index m
          local-IsCsr in
      (
        result.0,
        result.1,
        attach result.0.cells fresh'.out_index fresh'.in_index,
        make_graph_master_lem invert m ptr got room,
        attached,
        IsCopy-IsGraphOf result.1 copy,
        IsCopy-IsGraphOf (attach result.0.cells fresh'.out_index fresh'.in_index) worker_copy,
      )
    where
      cells : Array ℕ
      cells = (master local fresh.out_index fresh.in_index m).0.cells

      stored : IsStored local cells × (cells 0 ≡ 1)
      stored = master-IsStored local fresh.out_index fresh.in_index m local-IsCsr

      seen : fits_seen fresh'.size_of_shmem (cells ∷ []) ≡ true
      seen =
          let here = stored.0 in
          fits_seen_lem fresh'.size_of_shmem cells stored.1
          ∙ rw (here.index_x, here.neigh_size) (fits-local fresh'.size_of_shmem room')

      attached :
          make_graph_worker fresh' o invert (suc host) (cells ∷ [])
          ≡ done (some (attach cells fresh'.out_index fresh'.in_index))
      attached =
          make_graph_worker_lem fresh' o invert host _ symmetric apart
          ∙ rw (got', seen)
              (ap (λ (r : Option CsrGraph). done r)
                (worker-take cells [] fresh'.out_index fresh'.in_index (stored.1)))
