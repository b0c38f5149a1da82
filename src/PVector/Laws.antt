-- ===== src/PVector/Laws.antt =====
-- pvector of src/pvector.h against the list of its elements.
use mathlib.Core.List.{append-nil, append_assoc}
use shared_gapbs.Base.{
  if◌then◌else◌, false, false, ℕ, zero, suc, ◌+◌, ◌≤◌, ◌<◌, ◌≡◌, refl, ap, ap₂, ◌∙◌, arith, Array,
  write, slice, slice-shift, slice-write_end, List, [], ◌∷◌, ◌++◌, replicate, Run, done, exited,
  aborted, minus_one, ◌==◌, for_range_inv, Bool-cases, inl, inr, ◌⊎◌, length, ◌>>=◌, lt_suc_cases,
  sym,
}
use shared_gapbs.PVector.{
  move, release_resources, move_assign, reserve, null, PVector, put, new, fill, new_filled,
  new_copy, push_back, to_list,
}

module _ {ℓ} {A : Type ℓ} where
  slice-const :
      (a : Array A) (x : A) (p n : ℕ)
      → ((j : ℕ) → p ≤ j → j < p + n → a j ≡ x)
      → slice a p n ≡ replicate n x
  slice-const a x p zero h = refl
  slice-const a x p (suc n) h =
      ap₂ ◌∷◌ (h p (omega arith) (omega arith))
        (slice-const a x (suc p) n (λ j lo hi. h j (omega arith) (omega arith)))

  -- A vector made with an initial value holds that value everywhere, whatever the memory held.
  pub to_list-new_filled :
      (fresh : Array A) (n : ℕ) (x : A) → to_list (new_filled fresh n x) ≡ replicate n x
  unfolding new_filled fill
  to_list-new_filled fresh n x = slice-const _ x 0 n (λ j lo hi. ground arith)

  -- The copying constructor yields the range that it was given, whatever the memory held.
  pub to_list-new_copy :
      (fresh source : Array A) (copy_begin count : ℕ)
      → to_list (new_copy fresh source copy_begin count) ≡ slice source copy_begin count
  unfolding new_copy
  to_list-new_copy fresh source copy_begin count =
      let loop =
        for_range_inv
          (λ i v. (v.size ≡ count) × ((j : ℕ) → j < i → v.cells j ≡ source (copy_begin + j))) count
          (λ i v. put v i (source (copy_begin + i))) count 0 (new fresh count) (omega arith)
          (λ k v lo hi p. (p.0, λ j h. put_copied k v j (p.1 j) (lt_suc_cases j k h)))
          (refl, λ j h. absurd (omega arith)) in
      ap (slice (new_copy fresh source copy_begin count).cells 0) loop.0
      ∙ slice-shift _ _ 0 copy_begin count
          (λ j h. let at : 0 + j ≡ j = omega arith in rw at (loop.1 j h))
    where
      put_copied :
          (k : ℕ) (v : PVector A) (j : ℕ)
          → (j < k → v.cells j ≡ source (copy_begin + j))
          → (j < k) ⊎ (j ≡ k)
          → (put v k (source (copy_begin + k))).cells j ≡ source (copy_begin + j)
      put_copied k v j old (inl lt) = ground (arith, old)
      put_copied k v j old (inr e) = ground (arith, e)

  -- What a caller that appends a list does.
  pub append_each : PVector A → List A → Run (PVector A)
  append_each v [] = done v
  append_each v (x ∷ xs) = push_back v x >>= λ w. append_each w xs

  abbrev pub Accepts : PVector A → List A → Run (PVector A) → Type ℓ
  Accepts v xs (done w) =
      (v.size + length xs ≤ v.capacity)
      × (to_list w ≡ to_list v ++ xs)
      × (w.capacity ≡ v.capacity)
      × (w.size ≡ v.size + length xs)
  Accepts v xs (exited c) = (v.capacity < v.size + length xs) × (c ≡ minus_one) × Unit {ℓ}
  Accepts v xs aborted = ⊥ × Unit {ℓ}

  push_back-Accepts :
      (v : PVector A) (x : A) → v.size ≤ v.capacity → Accepts v (x ∷ []) (push_back v x)
  unfolding push_back
  push_back-Accepts v x h =
      let at : v.size ≡ 0 + v.size = omega arith in
      elim (Bool-cases (v.size == v.capacity)) [
        | inl full ↦ rw full (ground arith, refl, tt)
        | inr room ↦ rw room (
          ground arith,
          ap (λ i. slice (write v.cells i x) 0 (suc v.size)) at
              ∙ slice-write_end v.cells 0 v.size x,
          refl,
          omega arith,
        )
      ]

  Accepts-trans :
      (v : PVector A) (x : A) (xs : List A) (r : Run (PVector A))
      → Accepts v (x ∷ []) r
      → ((w : PVector A) → w.size ≤ w.capacity → Accepts w xs (append_each w xs))
      → Accepts v (x ∷ xs) (r >>= λ w. append_each w xs)
  Accepts-trans v x xs (exited c) a rest = (omega (arith, a.0), a.1, tt)
  Accepts-trans v x xs aborted a rest = absurd a.0
  Accepts-trans v x xs (done w) a rest = go (append_each w xs) (rest w (omega (arith, a)))
    where
      go : (r : Run (PVector A)) → Accepts w xs r → Accepts v (x ∷ xs) r
      go (done u) b = (
        omega (arith, a, b),
        b.1 ∙ ap (λ l. l ++ xs) a.1 ∙ append_assoc (to_list v) (x ∷ []) xs,
        b.2 ∙ a.2,
        omega (arith, a, b),
      )
      go (exited c) b = (omega (arith, a, b), b.1, tt)
      go aborted b = absurd b.0

  -- For a vector whose size is at most its capacity: it takes a list of elements if and only if
  -- they fit its capacity, and then holds its old elements followed by them; otherwise the process
  -- exits with -1.
  pub append_each-Accepts :
      (v : PVector A) (xs : List A) → v.size ≤ v.capacity → Accepts v xs (append_each v xs)
  unfolding append_each
  append_each-Accepts v [] h = (omega arith, sym (append-nil (to_list v)), refl, omega arith)
  append_each-Accepts v (x ∷ xs) h =
      Accepts-trans v x xs (push_back v x) (push_back-Accepts v x h)
        (λ w k. append_each-Accepts w xs k)

-- The null vector refuses an element.
pub push_back-null {ℓ} :
    {A : Type ℓ} (junk : Array A) (x : A) → push_back (null junk) x ≡ exited minus_one
unfolding push_back null reserve
push_back-null junk x = refl

-- The number of blocks that a vector owns.
abbrev owns {ℓ} : {A : Type ℓ} → PVector A → ℕ
owns v = if v.owned then 1 else 0

-- A move assignment between two vectors frees what it drops: no block is lost or owned twice.
pub move_assign-owns {ℓ} :
    {A : Type ℓ} (v other : PVector A)
    → let after = move_assign false v other in
      (to_list after.0 ≡ to_list other)
      × (owns after.0 + owns after.1 + (if after.2 then 1 else 0) ≡ owns v + owns other)
      × (release_resources after.1 ≡ false)
unfolding move_assign release_resources
move_assign-owns v other =
    (refl, unfold move in unfold null in ground arith, unfold move in unfold null in refl)
