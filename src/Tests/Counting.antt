-- ===== src/Tests/Counting.antt =====
-- Triangles counted on a small graph (src/tc.cc).
use shared_gapbs.Base.{
  zero, suc, ◌*◌, ◌^◌, length, ◌<◌, ◌↔◌, done, ◌∙◌, ℕ, ◌+◌, ◌≡◌, refl, true, false, arith, Array,
  List, [], ◌∷◌, some,
}
use shared_gapbs.Stl.{contains}
use shared_gapbs.Graph.Laws.{length-out_neigh}
use shared_gapbs.Graph.{to_list, out_neigh, out_degree, EdgePair, CsrGraph}
use shared_gapbs.SharedGraph.{Mapping}
use shared_gapbs.Builder.Degrees.{find_max_node_id, arcs, targets}
use shared_gapbs.Builder.Make.{Fresh, mapped}
use shared_gapbs.Builder.Make.Edges.{length-arcs, targets_le}
use shared_gapbs.Mapping.{System, map_graph, dmalloc, map_shared}
use shared_gapbs.Builder.Make.Correct.{IsGraphOf, make_graph-IsGraphOf}
use shared_gapbs.Builder.Relabel
use shared_gapbs.Builder.Relabel.{relabel_by_degree}
use shared_gapbs.Builder.Relabel.Correct.{IsRelabelled, relabel_by_degree-IsRelabelled}
use shared_gapbs.Triangles.{ordered_count, hybrid, tc_verifier}
use shared_gapbs.Triangles.Verifier.{tc_verifier-ordered_count}
use shared_gapbs.Triangles.Total.{
  apart_comm, apart-inside, hybrid-triangles_in, tc_verifier-triangles_in,
}
use shared_gapbs.Triangles.EdgeList.{apart, IsGraphOf-IsAdjacency, triangles_in}

abbrev pub garbage : Array ℕ
garbage i = 9

-- A system that grants everything.
abbrev pub sys : System
sys = record {
  opens = λ call. some 3;
  truncates = λ fd len. true;
  maps = λ len access fd. some 4096;
}

abbrev pub fresh : Fresh
fresh = record {
  csr = record {
    degrees = garbage;
    local_sums = garbage;
    bulk_prefix = garbage;
    offsets = garbage;
    neighs = garbage;
    index = garbage;
  };
  squish = record {
    diffs = garbage;
    local_sums = garbage;
    bulk_prefix = garbage;
    offsets = garbage;
    neighs = garbage;
    index = garbage;
  };
  unset = 9;
  out_index = garbage;
  in_index = garbage;
  system = sys;
  test_mode = 0;
  size_of_shmem = 1;
}

pub mapped_at : (host : ℕ) → mapped fresh host ≡ done 4096
unfolding map_graph dmalloc map_shared
mapped_at zero = refl
mapped_at (suc host) = ground arith

pub few_counted :
    (el : List EdgePair)
    → 2 * length el < 2 ^ 31
    → (v : ℕ) → length (targets v (arcs true false el)) < 2 ^ 31
few_counted el few v =
    let most = targets_le v (arcs true false el) in
    let both = length-arcs false el in omega (arith, most, both, few)

abbrev pub mapping : Mapping
mapping = record { cells = garbage; stores = [] }

-- A triangle, with a loop and a doubled edge.
abbrev edges : List EdgePair
edges =
    record { u = 0; v = 1 }
    ∷ record { u = 2; v = 0 }
    ∷ record { u = 1; v = 1 }
    ∷ record { u = 1; v = 2 }
    ∷ record { u = 2; v = 1 }
    ∷ []

edges_last : find_max_node_id edges ≡ 2
unfolding find_max_node_id
edges_last = refl

abbrev made : CsrGraph
made =
    (make_graph-IsGraphOf fresh (record { symmetrize = true; in_place = false }) edges refl refl
      (omega (arith, edges_last)) (few_counted edges (omega arith)) (omega arith) fresh 0 4096 4096
      true mapping (mapped_at 0) (mapped_at 1) (omega (arith, edges_last))
      (omega (arith, edges_last))).1

one_triangle : triangles_in edges 3 ≡ 1
one_triangle = refl

made-IsGraphOf : IsGraphOf edges made
made-IsGraphOf =
    (make_graph-IsGraphOf fresh (record { symmetrize = true; in_place = false }) edges refl refl
      (omega (arith, edges_last)) (few_counted edges (omega arith)) (omega arith) fresh 0 4096 4096
      true mapping (mapped_at 0) (mapped_at 1) (omega (arith, edges_last))
      (omega (arith, edges_last))).5

abbrev relabelling : Relabel.Fresh
relabelling = record {
  degree_id_pairs = λ i. (9, 9);
  degrees = garbage;
  new_ids = garbage;
  local_sums = garbage;
  bulk_prefix = garbage;
  offsets = garbage;
  neighs = garbage;
  index = garbage;
  unset = 9;
}

relabel_by_degree-IsRelabelled_example :
    (h : CsrGraph) × (relabel_by_degree relabelling made ≡ done h) × IsRelabelled made h
relabel_by_degree-IsRelabelled_example =
    relabel_by_degree-IsRelabelled relabelling made made-IsGraphOf.undirected

nonempty : (z : ℕ) (xs : List ℕ) → contains z xs ≡ true → 0 < length xs
unfolding contains
nonempty z [] e = absurd (ground arith)
nonempty z (x ∷ xs) e = omega arith

-- Every draw is vertex 0, which has an edge.
edge_at_0 : 0 < out_degree made 0
edge_at_0 =
    let row : ℕ → List ℕ = λ v. to_list (out_neigh made v 0) in
    let member = (made-IsGraphOf.out_rows 0 (omega arith)).adjacent 1 in
    let some_neighbour = nonempty 1 (row 0) member in
    omega (arith, some_neighbour, length-out_neigh made 0)

hybrid-triangles_in_example :
    hybrid relabelling (λ total count median. true) (λ i. 0) 1 made
    ≡ some (done (some (triangles_in edges (find_max_node_id edges + 1))))
hybrid-triangles_in_example =
    hybrid-triangles_in edges made made-IsGraphOf relabelling (λ total count median. true) (λ i. 0)
      1 (λ p. (0, omega arith, edge_at_0))

tc_verifier-ordered_count_example : (tc_verifier made 1 ≡ true) ↔ (ordered_count made ≡ some 1)
tc_verifier-ordered_count_example =
    tc_verifier-ordered_count (apart edges) made (IsGraphOf-IsAdjacency edges made made-IsGraphOf)
      (apart_comm edges) (apart-inside edges made made-IsGraphOf) 1

-- The verifier accepts the one triangle.
accepted : tc_verifier made 1 ≡ true
accepted = tc_verifier-triangles_in edges made made-IsGraphOf 1 ∙ rw edges_last refl
