-- ===== src/Tests/Labels.antt =====
-- Linking and compressing a few vertices, and the components of a small graph (src/cc.cc,
-- src/cc_sv.cc).
use shared_gapbs.Base.{◌≤◌, ◌↔◌, refl, List, [], ◌∷◌, true, false}
use shared_gapbs.Graph.{EdgePair, CsrGraph}
use shared_gapbs.Builder.Degrees.{find_max_node_id}
use shared_gapbs.Builder.Make.Correct.{IsGraphOf, make_graph-IsGraphOf}
use shared_gapbs.Components.Closure.{Connected}
use shared_gapbs.Components.Afforest.{afforest}
use shared_gapbs.Components.Afforest.Labels.{IsMirrored, IsLabelling}
use shared_gapbs.Components.Afforest.Correct.{afforest-IsLabelling}
use shared_gapbs.Components.Hooking.{shiloach_vishkin}
use shared_gapbs.Components.Hooking.Correct.{
  shiloach_vishkin-IsLabelling, afforest-shiloach_vishkin,
}
use shared_gapbs.Components.EdgeList.{Joined, IsGraphOf-IsMirrored, afforest-components}
use shared_gapbs.Tests.Counting.{garbage, few_counted, mapped_at, fresh, mapping}
use shared_gapbs.Base.{ℕ, ◌≡◌, ◌<◌, arith, Array, some, write}
use shared_gapbs.Components.{link, compress}
use shared_gapbs.Components.Closure.{IsForest}
use shared_gapbs.Components.Linking.{Linked, link-Linked}
use shared_gapbs.Components.Compressing.{IsShorter, compress-IsShorter}

-- Every vertex is its own tree, but 3 hangs below 2, and 4 below 3.
abbrev pub comp : Array ℕ
comp = write (write (λ x. x) 3 2) 4 3

pub comp-IsForest : IsForest 5 comp
comp-IsForest x h = ground arith

link-Linked_example : (after : Array ℕ) × (link 4 1 comp ≡ some after) × Linked 5 4 1 comp after
link-Linked_example = link-Linked 5 4 1 comp (omega arith) (omega arith) comp-IsForest

compress-IsShorter_example :
    (after : Array ℕ) × (compress 5 comp ≡ some after)
    × IsShorter 5 comp after
    × ((k : ℕ) → k < 5 → after (after k) ≡ after k)
compress-IsShorter_example = compress-IsShorter 5 comp comp-IsForest

-- On the graph that is made of a list of edges with two components.
abbrev pub edges : List EdgePair
edges =
    record { u = 0; v = 1 }
    ∷ record { u = 3; v = 2 }
    ∷ record { u = 4; v = 3 }
    ∷ record { u = 1; v = 1 }
    ∷ []

pub edges_last : find_max_node_id edges ≡ 4
unfolding find_max_node_id
edges_last = refl

abbrev pub made : CsrGraph
made =
    (make_graph-IsGraphOf fresh (record { symmetrize = true; in_place = false }) edges refl refl
      (omega (arith, edges_last)) (few_counted edges (omega arith)) (omega arith) fresh 0 4096 4096
      true mapping (mapped_at 0) (mapped_at 1) (omega (arith, edges_last))
      (omega (arith, edges_last))).1

pub made-IsGraphOf : IsGraphOf edges made
made-IsGraphOf =
    (make_graph-IsGraphOf fresh (record { symmetrize = true; in_place = false }) edges refl refl
      (omega (arith, edges_last)) (few_counted edges (omega arith)) (omega arith) fresh 0 4096 4096
      true mapping (mapped_at 0) (mapped_at 1) (omega (arith, edges_last))
      (omega (arith, edges_last))).5

pub made-IsMirrored : IsMirrored made
made-IsMirrored = IsGraphOf-IsMirrored edges made made-IsGraphOf

-- The sampling picks the label of the last vertex.
abbrev pub sample : Array ℕ → ℕ
sample comp = comp 4

afforest-IsLabelling_example :
    (comp : Array ℕ) × (afforest garbage sample made 2 ≡ some comp) × IsLabelling made comp
afforest-IsLabelling_example = afforest-IsLabelling made made-IsMirrored garbage sample 2

shiloach_vishkin-IsLabelling_example :
    (comp : Array ℕ) × (shiloach_vishkin garbage made ≡ some comp) × IsLabelling made comp
shiloach_vishkin-IsLabelling_example =
    shiloach_vishkin-IsLabelling made made-IsMirrored.inside garbage

afforest-shiloach_vishkin_example :
    (a b : Array ℕ) × (afforest garbage sample made 2 ≡ some a)
    × (shiloach_vishkin garbage made ≡ some b)
    × ((x : ℕ) → x < made.num_nodes → a x ≡ b x)
afforest-shiloach_vishkin_example =
    afforest-shiloach_vishkin made garbage garbage sample 2 made-IsMirrored

afforest-components_example :
    (comp : Array ℕ) × (afforest garbage sample made 2 ≡ some comp)
    × ((x y : ℕ)
        → x ≤ find_max_node_id edges
        → y ≤ find_max_node_id edges
        → (comp x ≡ comp y) ↔ Connected (Joined edges) x y)
afforest-components_example = afforest-components edges made made-IsGraphOf garbage sample 2
