-- ===== src/Benchmark.antt =====
-- src/benchmark.h: SourcePicker and TopK, for keys and values that are natural numbers.
pub mod Largest
pub mod Picking
use shared_gapbs.Base.{
  ℕ, zero, suc, Bool, ◌||◌, List, [], ◌∷◌, ◌++◌, length, take, ltb, ◌==◌, if◌then◌else◌, Option,
  none, some, Array,
}
use shared_gapbs.Graph.{CsrGraph, out_degree}
use shared_gapbs.Stl.{sort_pairs}

-- `given_source`, `none` for -1, and the number of draws so far; `draws` is what `udist(rng)` yields.
pub record SourcePicker : Type 0 where
  pub given_source : Option ℕ
  pub drawn : ℕ

-- The loop of PickNext; `none` is a loop that has not ended yet.
draw_next : Array ℕ → CsrGraph → ℕ → SourcePicker → Option (ℕ × SourcePicker)
draw_next draws g zero s = none
draw_next draws g (suc fuel) s =
    let source = draws s.drawn in
    let next : SourcePicker = record s { drawn = suc s.drawn } in
    let rest = draw_next draws g fuel next in
    if out_degree g source == 0 then rest else some (source, next)

unfoldable pub pick_next : Array ℕ → CsrGraph → ℕ → SourcePicker → Option (ℕ × SourcePicker)
unfolding draw_next
pick_next draws g fuel s = elim s.given_source [
  | none ↦ draw_next draws g fuel s
  | some source ↦ some (source, s)
]

-- `top_k.back().first`; the vector is not empty where TopK reads it, unless `k` is 0.
last_value : List (ℕ × ℕ) → ℕ
last_value [] = 0
last_value (x ∷ []) = x.0
last_value (x ∷ y ∷ xs) = last_value (y ∷ xs)

pub record Top : Type 0 where
  pub top_k : List (ℕ × ℕ)
  pub min_so_far : ℕ

-- The body of the loop, for the pair of a key and a value.
top_step : ℕ → Top → ℕ × ℕ → Top
unfolding last_value
top_step k s kvp =
    let sorted = sort_pairs (s.top_k ++ (kvp.1, kvp.0) ∷ []) in
    let top_k = if ltb k (length sorted) then take k sorted else sorted in
    if ltb (length s.top_k) k || ltb s.min_so_far kvp.1
    then record { top_k = top_k; min_so_far = last_value top_k }
    else s

top_each : ℕ → Top → List (ℕ × ℕ) → Top
unfolding top_step
top_each k s [] = s
top_each k s (kvp ∷ to_sort) = top_each k (top_step k s kvp) to_sort

unfoldable pub top_k : List (ℕ × ℕ) → ℕ → List (ℕ × ℕ)
unfolding top_each
top_k to_sort k = (top_each k (record { top_k = []; min_so_far = 0 }) to_sort).top_k
