-- ===== src/Stl/Mapped.antt =====
-- `std::sort` of a list whose members were renumbered (RelabelByDegree of src/builder.h).
use shared_gapbs.Base.{
  ℕ, suc, ◌≤◌, ◌≡◌, refl, ◌∙◌, arith, true, false, List, [], ◌∷◌, map, leb, ◌==◌, Bool-cases, inl,
  inr,
}
use shared_gapbs.Stl.{insert, sort, contains, AscendsFrom}
use shared_gapbs.Stl.Laws.{contains-sort, AscendsFrom-contains}

-- A new element goes to its place in an ascending list.
AscendsFrom-insert :
    (m x : ℕ) (ys : List ℕ)
    → m ≤ x
    → AscendsFrom m ys
    → contains x ys ≡ false
    → AscendsFrom m (insert x ys)
unfolding insert contains
AscendsFrom-insert m x [] h a new = (h, tt)
AscendsFrom-insert m x (y ∷ ys) h a new = elim (Bool-cases (leb x y)) [
  | inl below ↦ rw (below, insert) (h, (ground (arith, new), a.1))
  | inr above ↦
      rw (above, insert)
        (a.0, AscendsFrom-insert (suc y) x ys (ground arith) a.1 (ground (arith, new)))
]

-- What is a member after the renumbering.
contains-map :
    (f : ℕ → ℕ) (z y : ℕ) (xs : List ℕ)
    → ((x : ℕ) → contains x xs ≡ true → (z == f x) ≡ (y == x))
    → contains z (map f xs) ≡ contains y xs
unfolding contains
contains-map f z y [] same = refl
contains-map f z y (x ∷ xs) same =
    let here = same x (ground arith) in
    let later = contains-map f z y xs (λ w e. same w (ground arith)) in ground (arith, here, later)

pub contains-sort-map :
    (f : ℕ → ℕ) (z y : ℕ) (xs : List ℕ)
    → ((x : ℕ) → contains x xs ≡ true → (z == f x) ≡ (y == x))
    → contains z (sort (map f xs)) ≡ contains y xs
contains-sort-map f z y xs same = contains-sort z (map f xs) ∙ contains-map f z y xs same

contains-map_none :
    (f : ℕ → ℕ) (z : ℕ) (xs : List ℕ)
    → ((x : ℕ) → contains x xs ≡ true → (z == f x) ≡ false)
    → contains z (map f xs) ≡ false
unfolding contains
contains-map_none f z [] other = refl
contains-map_none f z (x ∷ xs) other =
    let here = other x (ground arith) in
    let later = contains-map_none f z xs (λ w e. other w (ground arith)) in
    ground (arith, here, later)

pub contains-sort-map_none :
    (f : ℕ → ℕ) (z : ℕ) (xs : List ℕ)
    → ((x : ℕ) → contains x xs ≡ true → (z == f x) ≡ false)
    → contains z (sort (map f xs)) ≡ false
contains-sort-map_none f z xs other = contains-sort z (map f xs) ∙ contains-map_none f z xs other

-- Members with different numbers are still different, so the sorted numbers ascend.
pub AscendsFrom-sort-map :
    (f : ℕ → ℕ) (m : ℕ) (xs : List ℕ)
    → AscendsFrom m xs
    → ((x y : ℕ) → contains x xs ≡ true → contains y xs ≡ true → (f x == f y) ≡ (x == y))
    → AscendsFrom 0 (sort (map f xs))
unfolding sort contains
AscendsFrom-sort-map f m [] a apart = tt
AscendsFrom-sort-map f m (x ∷ xs) a apart =
    let apart' : (y z : ℕ) → contains y xs ≡ true → contains z xs ≡ true → (f y == f z) ≡ (y == z) =
      λ y z e e'. apart y z (ground arith) (ground arith) in
    let new =
      contains-sort-map f (f x) x xs (λ y e. apart x y (ground arith) (ground arith))
      ∙ AscendsFrom-contains (suc x) x xs a.1 (omega arith) in
    AscendsFrom-insert 0 (f x) (sort (map f xs)) (omega arith)
      (AscendsFrom-sort-map f (suc x) xs a.1 apart') new
