-- ===== src/Stl.antt =====
-- The algorithms of the C++ standard library that src/builder.h applies to ranges of vertices, and
-- that it and src/benchmark.h apply to ranges of pairs.
pub mod Laws
pub mod Mapped
pub mod Pairs
pub mod Values
use shared_gapbs.Base.{
  ◌&&◌, ltb, ℕ, zero, suc, Bool, false, ◌||◌, List, [], ◌∷◌, leb, ◌==◌, if◌then◌else◌, ◌≤◌,
}

insert : ℕ → List ℕ → List ℕ
insert x [] = x ∷ []
insert x (y ∷ ys) = if leb x y then x ∷ y ∷ ys else y ∷ insert x ys

-- `std::sort`
unfoldable pub sort : List ℕ → List ℕ
unfolding insert
sort [] = []
sort (x ∷ xs) = insert x (sort xs)

-- `std::unique`: of each run of equal elements the first stays.
unique_after : ℕ → List ℕ → List ℕ
unique_after x [] = []
unique_after x (y ∷ ys) = let rest = unique_after y ys in if x == y then rest else y ∷ rest

unfoldable pub unique : List ℕ → List ℕ
unfolding unique_after
unique [] = []
unique (x ∷ xs) = x ∷ unique_after x xs

-- `std::remove`
unfoldable pub remove : ℕ → List ℕ → List ℕ
remove n [] = []
remove n (x ∷ xs) = let rest = remove n xs in if x == n then rest else x ∷ rest

-- The three in the order of SquishCSR: sorted, without duplicates, without the vertex itself.
unfoldable pub squish : ℕ → List ℕ → List ℕ
squish n xs = remove n (unique (sort xs))

unfoldable pub contains : ℕ → List ℕ → Bool
contains z [] = false
contains z (x ∷ xs) = z == x || contains z xs

-- Strictly ascending, from `m` on.
abbrev pub AscendsFrom : ℕ → List ℕ → Type 0
AscendsFrom m [] = Unit
AscendsFrom m (x ∷ xs) = (m ≤ x) × AscendsFrom (suc x) xs

abbrev RisesFrom : ℕ → List ℕ → Type 0
RisesFrom m [] = Unit
RisesFrom m (x ∷ xs) = (m ≤ x) × RisesFrom x xs

-- `std::greater` on pairs of numbers
pub pair_gt : ℕ × ℕ → ℕ × ℕ → Bool
pair_gt lhs rhs = ltb rhs.0 lhs.0 || (lhs.0 == rhs.0 && ltb rhs.1 lhs.1)

pub insert_pair : ℕ × ℕ → List (ℕ × ℕ) → List (ℕ × ℕ)
unfolding pair_gt
insert_pair x [] = x ∷ []
insert_pair x (y ∷ ys) = if pair_gt y x then y ∷ insert_pair x ys else x ∷ y ∷ ys

-- `std::sort` with `std::greater`
pub sort_pairs : List (ℕ × ℕ) → List (ℕ × ℕ)
unfolding insert_pair
sort_pairs [] = []
sort_pairs (x ∷ xs) = insert_pair x (sort_pairs xs)
