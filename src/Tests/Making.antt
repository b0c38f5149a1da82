-- ===== src/Tests/Making.antt =====
-- Small runs of MakeGraph (src/builder.h).
use shared_gapbs.Base.{
  ◌>>◌, ◌≡◌, refl, true, false, arith, List, [], ◌∷◌, some, none, done, aborted, replicate,
}
use shared_gapbs.Graph.{EdgePair, CsrGraph, undirected}
use shared_gapbs.SharedGraph.{Mapping}
use shared_gapbs.Builder.Degrees.{Options, find_max_node_id}
use shared_gapbs.Builder.Make.{edges, serialized, make_graph_master, make_graph_worker, mapped}
use shared_gapbs.Tests.Counting.{garbage, fresh, mapping, mapped_at, few_counted}
use shared_gapbs.Builder.Make.Serialized.{make_graph-serialized}
use shared_gapbs.Builder.Make.Correct.{IsGraphOf, make_graph-IsGraphOf, make_graph-aborted}

abbrev star : List EdgePair
star = record { u = 0; v = 1 } ∷ record { u = 2; v = 0 } ∷ record { u = 1; v = 1 } ∷ []

star_small : find_max_node_id star ≡ 2
unfolding find_max_node_id
star_small = refl

abbrev symmetric : Options
symmetric = record { symmetrize = true; in_place = false }

make_graph-IsGraphOf_example :
    (m' : Mapping) × (g : CsrGraph) × (w : CsrGraph) × (make_graph_master fresh symmetric true
        (edges (done star))
        mapping
      ≡ done (m', g))
    × (make_graph_worker fresh symmetric true 3 (m'.cells ∷ []) ≡ done (some w))
    × IsGraphOf star g
    × IsGraphOf star w
make_graph-IsGraphOf_example =
    make_graph-IsGraphOf fresh symmetric star refl refl (omega (arith, star_small))
      (few_counted star (omega arith)) (omega arith) fresh 2 4096 4096 true mapping (mapped_at 0)
      (mapped_at 3) (omega (arith, star_small)) (omega (arith, star_small))

make_graph-aborted_example :
    (make_graph_master fresh
        (record { symmetrize = false; in_place = false })
        true
        (edges (done star))
        mapping
      ≡ aborted)
    × (make_graph_worker fresh (record { symmetrize = false; in_place = false }) true 2 []
        ≡ aborted)
make_graph-aborted_example =
    make_graph-aborted fresh fresh (record { symmetrize = false; in_place = false }) true star
      mapping 1 [] refl

-- A graph without vertices.
abbrev none_read : CsrGraph
none_read = undirected 0 0 garbage garbage

make_graph-serialized_example :
    (left : Mapping) × (make_graph_master fresh
        (record { symmetrize = true; in_place = false })
        true
        (serialized (done none_read))
        mapping
      ≡ done (left, none_read))
    × (make_graph_worker fresh
          (record { symmetrize = true; in_place = false })
          true
          3
          (replicate 4 left.cells)
        ≡ (mapped fresh 3 >> done none))
make_graph-serialized_example =
    make_graph-serialized fresh fresh (record { symmetrize = true; in_place = false }) true
      none_read mapping 2 4 refl refl (omega arith)
