-- ===== src/Stl/Laws.antt =====
-- Sorting, unique and remove together: an ascending list of the same elements without one value.
use shared_gapbs.Base.{
  false, zero, subst, take, ◌<◌, ◌⊎◌, drop, true, ℕ, suc, ◌≤◌, ◌≡◌, refl, not, ◌&&◌, ◌||◌, arith,
  List, [], ◌∷◌, leb, ◌==◌, length, inl, inr, Bool-cases,
}
use shared_gapbs.Stl.{
  insert, sort, unique_after, unique, remove, squish, contains, AscendsFrom, RisesFrom,
}

RisesFrom-insert : (m x : ℕ) (ys : List ℕ) → m ≤ x → RisesFrom m ys → RisesFrom m (insert x ys)
unfolding insert
RisesFrom-insert m x [] h r = (h, tt)
RisesFrom-insert m x (y ∷ ys) h r = elim (Bool-cases (leb x y)) [
  | inl below ↦ rw below (h, (ground arith, r.1))
  | inr above ↦ rw above (r.0, RisesFrom-insert y x ys (ground arith) r.1)
]

RisesFrom-sort : (xs : List ℕ) → RisesFrom 0 (sort xs)
unfolding sort
RisesFrom-sort [] = tt
RisesFrom-sort (x ∷ xs) = RisesFrom-insert 0 x (sort xs) (omega arith) (RisesFrom-sort xs)

AscendsFrom-mono : (m n : ℕ) (xs : List ℕ) → m ≤ n → AscendsFrom n xs → AscendsFrom m xs
AscendsFrom-mono m n [] h a = tt
AscendsFrom-mono m n (x ∷ xs) h a = (omega (arith, a.0), a.1)

AscendsFrom-unique_after :
    (x : ℕ) (ys : List ℕ) → RisesFrom x ys → AscendsFrom (suc x) (unique_after x ys)
unfolding unique_after
AscendsFrom-unique_after x [] r = tt
AscendsFrom-unique_after x (y ∷ ys) r = elim (Bool-cases (x == y)) [
  | inl same ↦ rw same (
      AscendsFrom-mono (suc x) (suc y) (unique_after y ys) (ground arith)
        (AscendsFrom-unique_after y ys r.1))
  | inr other ↦ rw other (ground arith, AscendsFrom-unique_after y ys r.1)
]

AscendsFrom-unique : (m : ℕ) (xs : List ℕ) → RisesFrom m xs → AscendsFrom m (unique xs)
unfolding unique
AscendsFrom-unique m [] r = tt
AscendsFrom-unique m (x ∷ xs) r = (r.0, AscendsFrom-unique_after x xs r.1)

AscendsFrom-remove : (m n : ℕ) (xs : List ℕ) → AscendsFrom m xs → AscendsFrom m (remove n xs)
unfolding remove
AscendsFrom-remove m n [] a = tt
AscendsFrom-remove m n (x ∷ xs) a = elim (Bool-cases (x == n)) [
  | inl here ↦ rw here (
      AscendsFrom-mono m (suc x) (remove n xs) (omega (arith, a.0))
        (AscendsFrom-remove (suc x) n xs a.1))
  | inr other ↦ rw other (a.0, AscendsFrom-remove (suc x) n xs a.1)
]

contains-insert : (z x : ℕ) (ys : List ℕ) → contains z (insert x ys) ≡ (z == x || contains z ys)
unfolding contains insert
contains-insert z x [] = refl
contains-insert z x (y ∷ ys) = ground (arith, contains-insert z x ys)

pub contains-sort : (z : ℕ) (xs : List ℕ) → contains z (sort xs) ≡ contains z xs
unfolding contains sort
contains-sort z [] = refl
contains-sort z (x ∷ xs) = ground (arith, contains-insert z x (sort xs), contains-sort z xs)

contains-unique_after :
    (z x : ℕ) (ys : List ℕ) → (z == x || contains z (unique_after x ys)) ≡ (z == x || contains z ys)
unfolding contains unique_after
contains-unique_after z x [] = refl
contains-unique_after z x (y ∷ ys) = ground (arith, contains-unique_after z y ys)

contains-unique : (z : ℕ) (xs : List ℕ) → contains z (unique xs) ≡ contains z xs
unfolding contains unique
contains-unique z [] = refl
contains-unique z (x ∷ xs) = contains-unique_after z x xs

contains-remove :
    (z n : ℕ) (xs : List ℕ) → contains z (remove n xs) ≡ (contains z xs && not (z == n))
unfolding contains remove
contains-remove z n [] = refl
contains-remove z n (x ∷ xs) = ground (arith, contains-remove z n xs)

length-insert : (x : ℕ) (ys : List ℕ) → length (insert x ys) ≡ suc (length ys)
unfolding insert
length-insert x [] = refl
length-insert x (y ∷ ys) = ground (arith, length-insert x ys)

pub length-sort : (xs : List ℕ) → length (sort xs) ≡ length xs
unfolding sort
length-sort [] = refl
length-sort (x ∷ xs) = omega (arith, length-insert x (sort xs), length-sort xs)

length-unique_after : (x : ℕ) (ys : List ℕ) → length (unique_after x ys) ≤ length ys
unfolding unique_after
length-unique_after x [] = omega arith
length-unique_after x (y ∷ ys) = ground (arith, length-unique_after y ys)

length-unique : (xs : List ℕ) → length (unique xs) ≤ length xs
unfolding unique
length-unique [] = omega arith
length-unique (x ∷ xs) = omega (arith, length-unique_after x xs)

length-remove : (n : ℕ) (xs : List ℕ) → length (remove n xs) ≤ length xs
unfolding remove
length-remove n [] = omega arith
length-remove n (x ∷ xs) = ground (arith, length-remove n xs)

pub AscendsFrom-squish : (n : ℕ) (xs : List ℕ) → AscendsFrom 0 (squish n xs)
unfolding squish
AscendsFrom-squish n xs =
    AscendsFrom-remove 0 n (unique (sort xs)) (AscendsFrom-unique 0 (sort xs) (RisesFrom-sort xs))

pub contains-squish :
    (z n : ℕ) (xs : List ℕ) → contains z (squish n xs) ≡ (contains z xs && not (z == n))
unfolding squish
contains-squish z n xs =
    ground (
      arith,
      contains-remove z n (unique (sort xs)),
      contains-unique z (sort xs),
      contains-sort z xs,
    )

pub length-squish : (n : ℕ) (xs : List ℕ) → length (squish n xs) ≤ length xs
unfolding squish
length-squish n xs =
    omega (arith, length-remove n (unique (sort xs)), length-unique (sort xs), length-sort xs)

-- Membership by cases.
pub contains-head : (x : ℕ) (xs : List ℕ) → contains x (x ∷ xs) ≡ true
unfolding contains
contains-head x xs = ground arith

pub contains-tail : (z x : ℕ) (xs : List ℕ) → contains z xs ≡ true → contains z (x ∷ xs) ≡ true
unfolding contains
contains-tail z x xs h = ground arith

pub contains-cons :
    (z x : ℕ) (xs : List ℕ) → contains z (x ∷ xs) ≡ true → (z ≡ x) ⊎ (contains z xs ≡ true)
unfolding contains
contains-cons z x xs h = ground arith

pub contains-nil : (z : ℕ) → contains z [] ≡ true → ⊥
unfolding contains
contains-nil z h = ground arith

-- A member is among the first, or behind them.
pub contains-take-drop :
    (n z : ℕ) (xs : List ℕ)
    → contains z xs ≡ true
    → ((r : ℕ) × (r < n) × (contains z (take 1 (drop r xs)) ≡ true))
      ⊎ (contains z (drop n xs) ≡ true)
contains-take-drop zero z xs h = inr h
contains-take-drop (suc n) z [] h = inr h
contains-take-drop (suc n) z (x ∷ xs) h = elim (contains-cons z x xs h) [
  | inl e ↦ inl (0, omega arith, subst (λ x. contains z (x ∷ []) ≡ true) e (contains-head z []))
  | inr later ↦ elim (contains-take-drop n z xs later) [
    | inl (r, lt, c) ↦ inl (suc r, omega arith, c)
    | inr c ↦ inr c
  ]
]

pub contains-drop : (n z : ℕ) (xs : List ℕ) → contains z (drop n xs) ≡ true → contains z xs ≡ true
contains-drop zero z xs h = h
contains-drop (suc n) z [] h = h
contains-drop (suc n) z (x ∷ xs) h = contains-tail z x xs (contains-drop n z xs h)

-- What is below the start of an ascending list is not in it.
pub AscendsFrom-contains :
    (m z : ℕ) (xs : List ℕ) → AscendsFrom m xs → z < m → contains z xs ≡ false
unfolding contains
AscendsFrom-contains m z [] a h = refl
AscendsFrom-contains m z (x ∷ xs) a h =
    ground (arith, AscendsFrom-contains (suc x) z xs a.1 (omega (arith, a.0)))
