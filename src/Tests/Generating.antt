-- ===== src/Tests/Generating.antt =====
-- A generated edge list and its graph (src/generator.h).
use shared_gapbs.Base.{
  ltb, if◌then◌else◌, ℕ, ◌^◌, ◌≤◌, ◌≡◌, refl, arith, true, false, List, [], ◌∷◌, length, done,
  exited, negsuc, minus_one, some, Bool, ◌==◌,
}
use mathlib.Core.List.{Permᴰ}
use shared_gapbs.PVector.{PVector}
use shared_gapbs.Graph.{EdgePair, CsrGraph}
use shared_gapbs.SharedGraph.{Mapping}
use shared_gapbs.Builder.Degrees.Laws.{AllLe}
use shared_gapbs.Builder.Make.{edges, make_graph_master, make_graph_worker}
use shared_gapbs.Builder.Make.Correct.{IsGraphOf}
use shared_gapbs.Generator.{Generator, Fresh, Point, generate}
use shared_gapbs.Generator.Correct.{generate-AllLe, generate-IsGraphOf}
use shared_gapbs.Tests.Counting.{garbage, mapped_at, fresh, mapping}

abbrev memory : Fresh
memory = record { el = λ i. record { u = 9; v = 9 }; permutation = garbage }

-- A point for each depth.
abbrev draw : ℕ → ℕ → Point
draw seed k = record { below_ab = k == 0; above_a = true; above_abc = false }

-- The first two change places.
abbrev shuffle : List ℕ → List ℕ
shuffle [] = []
shuffle (x ∷ []) = x ∷ []
shuffle (x ∷ y ∷ xs) = y ∷ x ∷ xs

permutes : (xs : List ℕ) → Permᴰ xs (shuffle xs)
permutes [] = Permᴰ.nil
permutes (x ∷ []) = Permᴰ.cons refl Permᴰ.nil
permutes (x ∷ y ∷ xs) = Permᴰ.swap refl refl

generate-IsGraphOf_example :
    (el : List EdgePair) × (m' : Mapping) × (g : CsrGraph) × (w : CsrGraph) × (generate memory draw
        shuffle 2 3 0 false
      ≡ done el)
    × (make_graph_master fresh
          (record { symmetrize = true; in_place = false })
          true
          (edges (generate memory draw shuffle 2 3 0 false))
          mapping
        ≡ done (m', g))
    × (make_graph_worker fresh
          (record { symmetrize = true; in_place = false })
          true
          3
          (m'.cells ∷ [])
        ≡ done (some w))
    × (g.num_nodes ≤ 2 ^ 2)
    × IsGraphOf el g
    × IsGraphOf el w
generate-IsGraphOf_example =
    generate-IsGraphOf memory draw shuffle permutes 2 3 0 fresh fresh
      (record { symmetrize = true; in_place = false }) 2 4096 4096 true mapping refl refl
      (omega arith) (omega arith) (mapped_at 0) (mapped_at 3) (omega arith) (omega arith)

abbrev gen : Generator
gen = record { host_id = 0; scale = 2; num_nodes = 4; num_edges = 2 }

abbrev el : PVector EdgePair
el = record { cells = λ i. record { u = i; v = 3 }; owned = true; size = 2; capacity = 2 }

generate-AllLe_example :
    (el : List EdgePair) × ((uniform : Bool)
      → generate memory draw shuffle 2 3 0 uniform ≡ (
          if ltb 2 31 then (if uniform then exited minus_one else done el) else exited (negsuc 30)))
    × (length el ≡ 12)
    × AllLe 3 el
generate-AllLe_example = generate-AllLe memory draw shuffle permutes 2 3 0 (omega arith)
