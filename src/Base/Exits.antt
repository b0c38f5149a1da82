-- ===== src/Base/Exits.antt =====
-- Code that may end the process: `exit(code)` and a failed `assert` are results, and what follows
-- them does not run.
use mathlib.Core.Bool.{Bool, true, false}
use mathlib.Core.Path.{◌≡◌, ap}
use shared_gapbs.Base.Int.{ℤ}

pub data Run {ℓ} (A : Type ℓ) : Type ℓ where
  done : A → Run A
  exited : ℤ → Run A
  aborted : Run A

infixl 5 ◌>>=◌ ◌>>◌
abbrev pub ◌>>=◌ {ℓ κ} : {A : Type ℓ} {B : Type κ} → Run A → (A → Run B) → Run B
done a >>= f = f a
exited c >>= f = exited c
aborted >>= f = aborted

abbrev pub ◌>>◌ {ℓ κ} : {A : Type ℓ} {B : Type κ} → Run A → Run B → Run B
m >> k = m >>= λ _. k

-- `assert(test)`
abbrev pub assert : Bool → Run (Unit {0})
assert true = done tt
assert false = aborted

abbrev done_or {ℓ} : {A : Type ℓ} → A → Run A → A
done_or d (done a) = a
done_or d (exited c) = d
done_or d aborted = d

pub done-injective {ℓ} : {A : Type ℓ} (a b : A) → done a ≡ done b → a ≡ b
done-injective a b e = ap (done_or a) e
