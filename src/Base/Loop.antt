-- ===== src/Base/Loop.antt =====
-- Counted loops and their invariant rule.
use Prim.Native.Nat.{ℕ, zero, suc, ◌+◌, ◌≤◌, ◌<◌}
use mathlib.Core.Path.{◌≡◌, refl, sym, ap, ap₂, subst, ◌∙◌}
use mathlib.Core.Option.{Option, none, some}
use mathlib.Core.Logic.{inl, inr, ◌↔◌}
use mathlib.Core.Bool.{Bool, true, ◌&&◌}
use shared_gapbs.Base.Tests.{lt_suc_cases}
use native.Mathlib.Omega.{arith}

-- `for (k = i; k < i + rounds; k++) s = body(k, s);`
unfoldable pub for_range {ℓ} : {S : Type ℓ} (rounds i : ℕ) → (ℕ → S → S) → S → S
for_range zero i body s = s
for_range (suc n) i body s = for_range n (suc i) body (body i s)

pub for_range_inv {ℓ κ} :
    {S : Type ℓ} (P : ℕ → S → Type κ) (stop : ℕ) (body : ℕ → S → S) (n i : ℕ) (s : S)
    → i + n ≡ stop
    → ((k : ℕ) (t : S) → i ≤ k → k < stop → P k t → P (suc k) (body k t))
    → P i s
    → P stop (for_range n i body s)
unfolding for_range
for_range_inv P stop body zero i s e keep p = subst (λ k. P k s) (omega arith) p
for_range_inv P stop body (suc n) i s e keep p =
    for_range_inv P stop body n (suc i) (body i s) (omega arith) (λ k t lo. keep k t (omega arith))
      (keep i s (omega arith) (omega arith) p)

-- The sum of `f` over the positions below `n`.
abbrev pub sum_below : (ℕ → ℕ) → ℕ → ℕ
sum_below f zero = 0
sum_below f (suc n) = sum_below f n + f n

pub sum_below-ext :
    (f g : ℕ → ℕ) (n : ℕ) → ((i : ℕ) → i < n → f i ≡ g i) → sum_below f n ≡ sum_below g n
sum_below-ext f g zero h = refl
sum_below-ext f g (suc n) h =
    ap₂ ◌+◌ (sum_below-ext f g n (λ i lt. h i (omega arith))) (h n (omega arith))

pub sum_below-zero : (n : ℕ) → sum_below (λ v. 0) n ≡ 0
sum_below-zero zero = refl
sum_below-zero (suc n) = omega (arith, sum_below-zero n)

-- What follows a result that may be missing.
abbrev pub chain {ℓ κ} : {A : Type ℓ} {B : Type κ} → Option A → (A → Option B) → Option B
chain none f = none
chain (some a) f = f a

pub chain-some {ℓ κ} :
    {A : Type ℓ} {B : Type κ} (o : Option A) (f : A → Option B) (a : A)
    → o ≡ some a
    → chain o f ≡ f a
chain-some o f a e = ap (λ o. chain o f) e

-- A loop over the positions below `n` whose rounds may fail.
unfoldable pub for_each {ℓ} : {S : Type ℓ} → ℕ → (ℕ → S → Option S) → S → Option S
for_each zero body s = some s
for_each (suc n) body s = chain (for_each n body s) (body n)

-- When every round succeeds, keeps `I`, moves along `R` and leaves `D` of its position, which later
-- rounds keep, then the loop succeeds with `D` of every position.
pub for_each-all {ℓ} :
    {S : Type ℓ} (I : S → Type 0) (R : S → S → Type 0) (D : ℕ → S → Type 0)
    → ((s : S) → I s → R s s)
    → ((s t u : S) → R s t → R t u → R s u)
    → ((k : ℕ) (s t : S) → R s t → D k s → D k t)
    → (n : ℕ) (body : ℕ → S → Option S)
    → ((k : ℕ) (s : S) → k < n → I s → (t : S) × (body k s ≡ some t) × I t × R s t × D k t)
    → (s : S) → I s
    → (t : S) × (for_each n body s ≡ some t) × I t × R s t × ((k : ℕ) → k < n → D k t)
unfolding for_each
for_each-all I R D r tr keep zero body step s i = (s, refl, i, r s i, λ k h. absurd (omega arith))
for_each-all I R D r tr keep (suc n) body step s i =
    let (t, e, j, q, d) =
      for_each-all I R D r tr keep n body (λ k s h. step k s (omega arith)) s i in
    let (u, e', j', q', d') = step n t (omega arith) j in
    (
      u,
      ap (λ o. chain o (body n)) e ∙ e',
      j',
      tr s t u q q',
      λ k h. elim (lt_suc_cases k n h) [
        | inl lt ↦ keep k t u q' (d k lt)
        | inr at ↦ subst (λ k. D k u) (sym at) d'
      ],
    )

-- A loop over the positions below `n` that the first failing check ends.
unfoldable pub all_below : ℕ → (ℕ → Bool) → Bool
all_below zero check = true
all_below (suc n) check = all_below n check && check n

pub all_below_lem :
    (n : ℕ) (check : ℕ → Bool) → (all_below n check ≡ true) ↔ ((v : ℕ) → v < n → check v ≡ true)
unfolding all_below
all_below_lem zero check = (λ e v lt. absurd (omega (arith, lt)), λ h. refl)
all_below_lem (suc n) check =
    let (to, from) = all_below_lem n check in
    (
      λ e v lt. elim (lt_suc_cases v n lt) [
        | inl below ↦ to (ground (arith, e)) v below
        | inr at ↦ rw at (ground (arith, e))
      ],
      λ h. ground (arith, from (λ v lt. h v (omega (arith, lt))), h n (omega arith)),
    )
