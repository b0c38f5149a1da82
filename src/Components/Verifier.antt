-- ===== src/Components/Verifier.antt =====
-- CCVerifier of src/cc.cc, which src/cc_sv.cc repeats: a search from one vertex of each label.
pub mod Correct
pub mod Searches
pub mod Searching
pub mod Visiting
use shared_gapbs.Base.{
  ℕ, zero, suc, ◌+◌, Bool, true, false, all_below, ◌==◌, Array, write, List, [], ◌∷◌, ◌++◌,
  if◌then◌else◌, Option, none, some, chain, for_range,
}
use shared_gapbs.Bitmap as Bits
use shared_gapbs.Bitmap.{Bitmap, get_bit, set_bit}
use shared_gapbs.Graph.{CsrGraph, to_list, out_neigh, in_neigh}

-- `label_to_source`: the value of each key that it has.
pub label_to_source : Array ℕ → ℕ → Array (Option ℕ)
label_to_source comp num_nodes =
    for_range num_nodes 0 (λ n m. write m (comp n) (some n)) (λ l. none)

-- `visited`, and what is in `frontier` from the iterator on.
pub record Visit : Type 0 where
  pub visited : Bitmap
  pub frontier : List ℕ

-- `if (!visited.get_bit(v)) { visited.set_bit(v); frontier.push_back(v); }`
pub visit : ℕ → Visit → Visit
visit v s =
    if get_bit s.visited v
    then s
    else record { visited = set_bit s.visited v; frontier = s.frontier ++ v ∷ [] }

-- The loop over the neighbours of a vertex; `none` is `return false`.
pub visit_each : Array ℕ → ℕ → List ℕ → Visit → Option Visit
unfolding visit
visit_each comp curr_label [] s = some s
visit_each comp curr_label (v ∷ vs) s =
    let rest = visit_each comp curr_label vs (visit v s) in
    if comp v == curr_label then rest else none

-- The body of the loop over `frontier`.
pub visit_vertex : Array ℕ → CsrGraph → ℕ → ℕ → Visit → Option Visit
unfolding visit_each
visit_vertex comp g curr_label u s =
    chain (visit_each comp curr_label (to_list (out_neigh g u 0)) s)
      λ s. if g.directed then visit_each comp curr_label (to_list (in_neigh g u 0)) s else some s

-- How a search ends: with `return false`, or behind the last element, or not within the fuel.
pub data Ending : Type 0 where
  rejected : Ending
  reached : Bitmap → Ending
  unfinished : Ending

-- The loop over `frontier`, which grows meanwhile.
pub search : Array ℕ → CsrGraph → ℕ → ℕ → Bitmap → List ℕ → Ending
unfolding visit_vertex
search comp g curr_label zero visited frontier = unfinished
search comp g curr_label (suc fuel) visited [] = reached visited
search comp g curr_label (suc fuel) visited (u ∷ frontier) =
    elim (visit_vertex comp g curr_label u (record { visited = visited; frontier = frontier })) [
      | none ↦ rejected
      | some s ↦ search comp g curr_label fuel s.visited s.frontier
    ]

-- The loop over `label_to_source`, whose labels come in the order `labels`.
pub search_each : Array ℕ → CsrGraph → ℕ → Array (Option ℕ) → List ℕ → Bitmap → Ending
unfolding search
search_each comp g fuel sources [] visited = reached visited
search_each comp g fuel sources (curr_label ∷ labels) visited = elim (sources curr_label) [
  | none ↦ search_each comp g fuel sources labels visited
  | some source ↦ elim (search comp g curr_label fuel (set_bit visited source) (source ∷ [])) [
    | rejected ↦ rejected
    | reached visited ↦ search_each comp g fuel sources labels visited
    | unfinished ↦ unfinished
  ]
]

-- The last loop.
pub all_visited : ℕ → Bitmap → Bool
all_visited num_nodes visited = all_below num_nodes (get_bit visited)

-- `labels` is the order in which the iteration over the map has the labels. A search is given two
-- rounds more than there are vertices; `none` is a search that has not ended.
unfoldable pub cc_verifier : Array ℕ → List ℕ → CsrGraph → Array ℕ → Option Bool
unfolding label_to_source search_each all_visited
cc_verifier fresh labels g comp =
    elim (search_each comp g (g.num_nodes + 2) (label_to_source comp g.num_nodes) labels
      (Bits.reset (Bits.new fresh g.num_nodes))) [
        | rejected ↦ some false
        | reached visited ↦ some (all_visited g.num_nodes visited)
        | unfinished ↦ none
      ]
