-- ===== src/Base/Blocks.antt =====
-- Raw memory: a block is a function from positions to cells, so that uninitialised cells hold
-- arbitrary values. What keeps accesses inside the allocated part is stated by each component.
use Prim.Native.Nat.{ℕ, zero, suc, ◌+◌, ◌≤◌, ◌<◌}
use mathlib.Core.Path.{◌≡◌, refl, ap, ap₂, ◌∙◌}
use mathlib.Core.Logic.{◌⊎◌}
use mathlib.Core.List.{List, [], ◌∷◌, ◌++◌}
use mathlib.Core.Option.{some}
use native.Mathlib.Omega.{arith}
use native.Mathlib.Nat.{add-zero}
use shared_gapbs.Base.Tests.{◌==◌, if◌then◌else◌}
use shared_gapbs.Base.Lists.{length, get_elem?}

abbrev pub Array {ℓ} : Type ℓ → Type ℓ
Array A = ℕ → A

module _ {ℓ} {A : Type ℓ} where
  -- `a[i] = v`
  abbrev pub write : Array A → ℕ → A → Array A
  write a i v j = if j == i then v else a j

  -- `std::copy` of a list of cells to position `p`
  unfoldable pub write_all : Array A → ℕ → List A → Array A
  write_all a p [] = a
  write_all a p (x ∷ xs) = write_all (write a p x) (suc p) xs

  -- the `n` cells from position `p`
  abbrev pub slice : Array A → ℕ → ℕ → List A
  slice a p zero = []
  slice a p (suc n) = a p ∷ slice a (suc p) n

  pub length-slice : (a : Array A) (p n : ℕ) → length (slice a p n) ≡ n
  length-slice a p zero = refl
  length-slice a p (suc n) = ap suc (length-slice a (suc p) n)

  -- Blocks that agree on a range have the same slice.
  pub slice-ext :
      (a b : Array A) (p n : ℕ)
      → ((j : ℕ) → p ≤ j → j < p + n → a j ≡ b j)
      → slice a p n ≡ slice b p n
  slice-ext a b p zero h = refl
  slice-ext a b p (suc n) h =
      ap₂ ◌∷◌ (h p (omega arith) (omega arith))
        (slice-ext a b (suc p) n (λ j lo hi. h j (omega arith) (omega arith)))

  pub slice-shift :
      (a b : Array A) (p q n : ℕ)
      → ((j : ℕ) → j < n → a (p + j) ≡ b (q + j))
      → slice a p n ≡ slice b q n
  slice-shift a b p q zero h = refl
  slice-shift a b p q (suc n) h =
      ap₂ ◌∷◌ (head (h 0 (omega arith)))
        (slice-shift a b (suc p) (suc q) n (λ j lt. tail j (h (suc j) (omega arith))))
    where
      head : a (p + 0) ≡ b (q + 0) → a p ≡ b q
      head e = ground (arith, add-zero p, add-zero q)

      tail : (j : ℕ) → a (p + suc j) ≡ b (q + suc j) → a (suc p + j) ≡ b (suc q + j)
      tail j e =
          let l : suc p + j ≡ p + suc j = omega arith in
          let r : suc q + j ≡ q + suc j = omega arith in ap a l ∙ e ∙ ap b (omega arith)

  pub slice-append :
      (a : Array A) (p n m : ℕ) → slice a p (n + m) ≡ slice a p n ++ slice a (p + n) m
  slice-append a p zero m = ground (arith, add-zero p)
  slice-append a p (suc n) m =
      let count : suc n + m ≡ suc (n + m) = omega arith in
      let next : p + suc n ≡ suc p + n = omega arith in
      rw (count, next) (ap (λ xs. a p ∷ xs) (slice-append a (suc p) n m))

  pub get_elem?-slice :
      (a : Array A) (p n i : ℕ) → i < n → get_elem? (slice a p n) i ≡ some (a (p + i))
  get_elem?-slice a p zero i h = absurd (omega arith)
  get_elem?-slice a p (suc n) zero h = rw (add-zero p)
  get_elem?-slice a p (suc n) (suc i) h =
      let next : suc p + i ≡ p + suc i = omega arith in
      get_elem?-slice a (suc p) n i (omega arith) ∙ ap (λ j. some (a j)) next

  pub write_all_frame :
      (a : Array A) (p : ℕ) (xs : List A) (j : ℕ)
      → (j < p) ⊎ (p + length xs ≤ j)
      → write_all a p xs j ≡ a j
  unfolding write_all
  write_all_frame a p [] j h = refl
  write_all_frame a p (x ∷ xs) j h = ground (arith, write_all_frame (write a p x) (suc p) xs j)

  pub slice-write_all :
      (a : Array A) (p : ℕ) (xs : List A) → slice (write_all a p xs) p (length xs) ≡ xs
  unfolding write_all
  slice-write_all a p [] = refl
  slice-write_all a p (x ∷ xs) =
      ap₂ ◌∷◌ (ground (arith, write_all_frame (write a p x) (suc p) xs p))
        (slice-write_all (write a p x) (suc p) xs)

  -- One more cell, and a list of cells, at the end of a slice.
  pub slice-write_end :
      (a : Array A) (p n : ℕ) (x : A) → slice (write a (p + n) x) p (suc n) ≡ slice a p n ++ x ∷ []
  slice-write_end a p n x =
      let split : suc n ≡ n + 1 = omega arith in
      ap (slice (write a (p + n) x) p) split
      ∙ slice-append (write a (p + n) x) p n 1
      ∙ ap₂ ◌++◌ (slice-ext (write a (p + n) x) a p n (λ j lo hi. ground arith)) (ground arith)

  pub slice-write_all_end :
      (a : Array A) (p n : ℕ) (xs : List A)
      → slice (write_all a (p + n) xs) p (n + length xs) ≡ slice a p n ++ xs
  slice-write_all_end a p n xs = rw (slice-append (write_all a (p + n) xs) p n (length xs)) (
      ap₂ ◌++◌
        (slice-ext (write_all a (p + n) xs) a p n
          (λ j lo hi. ground (arith, write_all_frame a (p + n) xs j)))
        (slice-write_all a (p + n) xs))
