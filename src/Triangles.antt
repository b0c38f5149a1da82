-- ===== src/Triangles.antt =====
-- src/tc.cc: triangle counting on a graph whose neighbourhoods are sorted.
pub mod Scan
pub mod Correct
pub mod Adjacency
pub mod Triples
pub mod EdgeList
pub mod Verifier
pub mod Hybrid
pub mod Total
use shared_gapbs.Base.{
  sum, min, chain, Array, ℕ, zero, suc, ◌+◌, Bool, true, false, ◌&&◌, List, [], ◌∷◌, ltb, leb, ◌==◌,
  if◌then◌else◌, Option, none, some, sum_below, length, ◌/◌, Run, done, ◌>>=◌,
}
use shared_gapbs.Graph.{out_degree, CsrGraph, to_list, out_neigh}
use shared_gapbs.Stl.{contains, sort}
use shared_gapbs.Benchmark.{SourcePicker, pick_next}
use shared_gapbs.Builder.Relabel
use shared_gapbs.Builder.Relabel.{relabel_by_degree}

-- `while (*it < w) it++;` on what is left of a neighbourhood: the value `*it` and the rest behind it.
-- Running past the end of the neighbourhood is `none`.
unfoldable pub skip : ℕ → List ℕ → Option (ℕ × List ℕ)
skip w [] = none
skip w (x ∷ it) = let rest = skip w it in if ltb x w then rest else some (x, it)

-- `for (NodeID w : g.out_neigh(v))`, with `it` at the list `it`
unfoldable pub count_w : List ℕ → ℕ → List ℕ → ℕ → Option ℕ
unfolding skip
count_w it v [] total = some total
count_w it v (w ∷ ws) total = elim (ltb v w) [
  | true ↦ some total
  | false ↦ elim (skip w it) [
    | none ↦ none
    | some (x, rest) ↦ count_w (x ∷ rest) v ws (if w == x then suc total else total)
  ]
]

-- `for (NodeID v : g.out_neigh(u))`, over the neighbourhoods `row`
unfoldable pub count_v : (ℕ → List ℕ) → ℕ → List ℕ → ℕ → Option ℕ
unfolding count_w
count_v row u [] total = some total
count_v row u (v ∷ vs) total = elim (ltb u v) [
  | true ↦ some total
  | false ↦ elim (count_w (row u) v (row v) total) [
    | none ↦ none
    | some total ↦ count_v row u vs total
  ]
]

-- `for (NodeID u=0; u < g.num_nodes(); u++)`
unfoldable pub count_u : (ℕ → List ℕ) → ℕ → Option ℕ
unfolding count_v
count_u row zero = some 0
count_u row (suc u) = elim (count_u row u) [
  | none ↦ none
  | some total ↦ count_v row u (row u) total
]

unfoldable pub ordered_count : CsrGraph → Option ℕ
unfolding count_u
ordered_count g = count_u (λ u. to_list (out_neigh g u 0)) g.num_nodes

-- The loop over `trial`: the degrees of the vertices that are picked.
take_samples : Array ℕ → ℕ → CsrGraph → ℕ → SourcePicker → Option (List ℕ)
take_samples draws fuel g zero sp = some []
take_samples draws fuel g (suc trials) sp = chain (pick_next draws g fuel sp) λ picked.
    chain (take_samples draws fuel g trials picked.1)
      λ samples. some (out_degree g picked.0 ∷ samples)

-- `samples[i]`
sample_at : List ℕ → ℕ → ℕ
sample_at [] i = 0
sample_at (x ∷ xs) zero = x
sample_at (x ∷ xs) (suc i) = sample_at xs i

-- `draws` and `fuel` are those of PickNext. `exceeds` is the comparison in floating-point numbers
-- of the average, from the total and the number of samples, with the median. The division is for a
-- graph with vertices.
worth_relabelling : (ℕ → ℕ → ℕ → Bool) → Array ℕ → ℕ → CsrGraph → Option Bool
unfolding take_samples sample_at
worth_relabelling exceeds draws fuel g =
    let num_samples = min 1000 g.num_nodes in
    if ltb (g.num_edges / g.num_nodes) 10
    then some false
    else (chain (take_samples draws fuel g num_samples (record { given_source = none; drawn = 0 }))
        λ samples.
          some (exceeds (sum samples) num_samples (sample_at (sort samples) (num_samples / 2))))

-- The count when `worth` is what WorthRelabelling answers.
count_either : Relabel.Fresh → Bool → CsrGraph → Run (Option ℕ)
count_either fresh worth g =
    if worth
    then relabel_by_degree fresh g >>= (λ h. done (ordered_count h))
    else done (ordered_count g)

-- `none` is a PickNext that has not ended.
unfoldable pub hybrid :
    Relabel.Fresh → (ℕ → ℕ → ℕ → Bool) → Array ℕ → ℕ → CsrGraph → Option (Run (Option ℕ))
unfolding worth_relabelling count_either
hybrid fresh exceeds draws fuel g =
    chain (worth_relabelling exceeds draws fuel g) λ worth. some (count_either fresh worth g)

-- `std::set_intersection` of two sorted ranges: each element of the first that the second has, where
-- an element of the second is matched once.
drop_below : ℕ → List ℕ → List ℕ
drop_below x [] = []
drop_below x (y ∷ ys) = let rest = drop_below x ys in if ltb y x then rest else y ∷ ys

unfoldable pub set_intersection : List ℕ → List ℕ → List ℕ
unfolding drop_below
set_intersection [] ys = []
set_intersection (x ∷ xs) ys = elim (drop_below x ys) [
  | [] ↦ []
  | y ∷ rest ↦
      let later = set_intersection xs (if x == y then rest else y ∷ rest) in
      if x == y then x ∷ later else later
]

-- `for (NodeID v : g.out_neigh(u))` of TCVerifier, over the neighbourhoods `row`
common_of : (ℕ → List ℕ) → ℕ → List ℕ → ℕ
unfolding set_intersection
common_of row u [] = 0
common_of row u (v ∷ vs) = length (set_intersection (row u) (row v)) + common_of row u vs

unfoldable pub tc_verifier : CsrGraph → ℕ → Bool
unfolding common_of
tc_verifier g test_total =
    let row : ℕ → List ℕ = λ u. to_list (out_neigh g u 0) in
    sum_below (λ u. common_of row u (row u)) g.num_nodes / 6 == test_total

-- The number of `w` in a list that are at most `v` and in the neighbourhood `row_u`.
abbrev pub closing : List ℕ → ℕ → List ℕ → ℕ
closing row_u v [] = 0
closing row_u v (w ∷ ws) = (if leb w v && contains w row_u then 1 else 0) + closing row_u v ws

abbrev pub wedges : (ℕ → List ℕ) → ℕ → List ℕ → ℕ
wedges row u [] = 0
wedges row u (v ∷ vs) = (if leb v u then closing (row u) v (row v) else 0) + wedges row u vs

-- The number of triples `w ≤ v ≤ u` of which `v` is a neighbour of `u`, and `w` of both.
abbrev pub triangles : (ℕ → List ℕ) → ℕ → ℕ
triangles row = sum_below (λ u. wedges row u (row u))
