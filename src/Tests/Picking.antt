-- ===== src/Tests/Picking.antt =====
-- The largest of some values (src/benchmark.h).
use shared_gapbs.Base.{ℕ, ◌≡◌, List, [], ◌∷◌}
use shared_gapbs.Benchmark.{top_k}
use shared_gapbs.Benchmark.Largest.{top_k-largest}
use shared_gapbs.Stl.Values.{values}

-- Four keys with their values, of which the second largest is there twice.
abbrev counts : List (ℕ × ℕ)
counts = (7, 3) ∷ (8, 5) ∷ (9, 3) ∷ (6, 1) ∷ []

top_k-largest_example : values (top_k counts 3) ≡ 5 ∷ 3 ∷ 3 ∷ []
top_k-largest_example = top_k-largest counts 2
