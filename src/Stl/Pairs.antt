-- ===== src/Stl/Pairs.antt =====
-- `std::sort` of pairs with `std::greater`: the same pairs, by decreasing first number.
use shared_gapbs.Base.{
  ℕ, suc, ◌+◌, ◌≤◌, ◌≡◌, refl, arith, List, [], ◌∷◌, Bool-cases, inl, inr, length, sum_list,
}
use shared_gapbs.Stl.{pair_gt, insert_pair, sort_pairs}

length-insert_pair : (x : ℕ × ℕ) (ys : List (ℕ × ℕ)) → length (insert_pair x ys) ≡ suc (length ys)
unfolding insert_pair
length-insert_pair x [] = refl
length-insert_pair x (y ∷ ys) = ground (arith, length-insert_pair x ys)

pub length-sort_pairs : (xs : List (ℕ × ℕ)) → length (sort_pairs xs) ≡ length xs
unfolding sort_pairs
length-sort_pairs [] = refl
length-sort_pairs (x ∷ xs) =
    omega (arith, length-insert_pair x (sort_pairs xs), length-sort_pairs xs)

-- The sum over a list is kept by the sort.
sum_list-insert_pair :
    (f : ℕ × ℕ → ℕ) (x : ℕ × ℕ) (ys : List (ℕ × ℕ))
    → sum_list f (insert_pair x ys) ≡ f x + sum_list f ys
unfolding insert_pair
sum_list-insert_pair f x [] = refl
sum_list-insert_pair f x (y ∷ ys) = elim (Bool-cases (pair_gt y x)) [
  | inl e ↦ rw (e, insert_pair) (omega (arith, sum_list-insert_pair f x ys))
  | inr e ↦ rw (e, insert_pair) refl
]

pub sum_list-sort_pairs :
    (f : ℕ × ℕ → ℕ) (xs : List (ℕ × ℕ)) → sum_list f (sort_pairs xs) ≡ sum_list f xs
unfolding sort_pairs
sum_list-sort_pairs f [] = refl
sum_list-sort_pairs f (x ∷ xs) =
    omega (arith, sum_list-insert_pair f x (sort_pairs xs), sum_list-sort_pairs f xs)

-- Each degree is at most the one before it, from `m` on.
abbrev pub FallsFrom : ℕ → List (ℕ × ℕ) → Type 0
FallsFrom m [] = Unit
FallsFrom m (x ∷ xs) = (x.0 ≤ m) × FallsFrom x.0 xs

FallsFrom-insert_pair :
    (m : ℕ) (x : ℕ × ℕ) (ys : List (ℕ × ℕ))
    → x.0 ≤ m
    → FallsFrom m ys
    → FallsFrom m (insert_pair x ys)
unfolding insert_pair
FallsFrom-insert_pair m x [] h r = (h, tt)
FallsFrom-insert_pair m x (y ∷ ys) h r = elim (Bool-cases (pair_gt y x)) [
  | inl above ↦
      rw (above, insert_pair)
        (r.0, FallsFrom-insert_pair y.0 x ys (unfold pair_gt in ground arith) r.1)
  | inr below ↦ rw (below, insert_pair) (h, (unfold pair_gt in ground arith, r.1))
]

FallsFrom-weaken : (m k : ℕ) (xs : List (ℕ × ℕ)) → m ≤ k → FallsFrom m xs → FallsFrom k xs
FallsFrom-weaken m k [] h r = tt
FallsFrom-weaken m k (x ∷ xs) h r = (omega (arith, r.0), r.1)

pub FallsFrom-sort_pairs :
    (xs : List (ℕ × ℕ)) → FallsFrom (sum_list (λ (x : ℕ × ℕ). x.0) xs) (sort_pairs xs)
unfolding sort_pairs
FallsFrom-sort_pairs [] = tt
FallsFrom-sort_pairs (x ∷ xs) =
    let total : ℕ = sum_list (λ (x : ℕ × ℕ). x.0) xs in
    FallsFrom-insert_pair (x.0 + total) x (sort_pairs xs) (omega arith)
      (FallsFrom-weaken total (x.0 + total) (sort_pairs xs) (omega arith) (FallsFrom-sort_pairs xs))
