-- ===== src/Components/Threads/Invariant.antt =====
-- What every call of Link knows about the shared forest, whatever the others do (src/cc.cc).
use shared_gapbs.Base.{ℕ, ◌≤◌, ◌<◌, ◌≡◌, refl, ◌∙◌, ◌⊎◌, arith, Array, write, inl, inr}
use shared_gapbs.Components.Closure.{Connected, Points, IsForest}
use shared_gapbs.Components.Linking.{hooked-IsForest, hooked_keeps}
use shared_gapbs.Components.Threads.{
  Pc, reading_u, reading_v, testing, got, climbing, grandparent, parent_of_low, finished,
}

-- A step of the forest: nothing, or a root is hooked below a smaller vertex.
pub record IsLater (size : ℕ) (comp after : Array ℕ) : Type 0 where
  pub forest : IsForest size after
  pub kept : (x y : ℕ) → Connected (Points size comp) x y → Connected (Points size after) x y
  pub inner : (x : ℕ) → x < size → comp x < x → after x ≡ comp x

pub IsLater-refl : (size : ℕ) (comp : Array ℕ) → IsForest size comp → IsLater size comp comp
IsLater-refl size comp f = record { forest = f; kept = λ x y c. c; inner = λ x h lt. refl }

pub IsLater-hook :
    (size high low : ℕ) (comp : Array ℕ)
    → IsForest size comp
    → high < size
    → low < high
    → comp high ≡ high
    → IsLater size comp (write comp high low)
IsLater-hook size high low comp f h lt root = record {
  forest = hooked-IsForest size high high comp f high low h root lt;
  kept = hooked_keeps size high high comp f high low h root lt;
  inner = λ x hx below. ground arith;
}

-- The one vertex is connected to `u` and the other to `v`.
abbrev pub Near : ℕ → Array ℕ → ℕ → ℕ → ℕ → ℕ → Type 0
Near size comp u v p q =
    (Connected (Points size comp) u p × Connected (Points size comp) v q)
    ⊎ (Connected (Points size comp) u q × Connected (Points size comp) v p)

-- What a call knows where it stands.
abbrev pub Knows : ℕ → Array ℕ → ℕ → ℕ → Pc → Type 0
Knows size comp u v reading_u = Unit
Knows size comp u v (reading_v p1) = (p1 ≤ u) × Connected (Points size comp) u p1
Knows size comp u v (testing p1 p2) = (p1 < size) × (p2 < size) × Near size comp u v p1 p2
Knows size comp u v (got high low p_high) =
    (high < size)
    × (low < high)
    × Near size comp u v high low
    × ((p_high ≡ high) ⊎ ((comp high ≡ p_high) × (p_high < high)))
Knows size comp u v (climbing high low) =
    (high < size) × (low < high) × Near size comp u v high low × (comp high < high)
Knows size comp u v (grandparent parent low) =
    (parent < size) × (low < size) × Near size comp u v parent low
Knows size comp u v (parent_of_low p1 low) = (p1 < size) × (low < size) × Near size comp u v p1 low
Knows size comp u v finished = Connected (Points size comp) u v

pub Near-later :
    (size u v p q : ℕ) (comp after : Array ℕ)
    → IsLater size comp after
    → Near size comp u v p q
    → Near size after u v p q
Near-later size u v p q comp after l (inl (c, d)) = inl (l.kept u p c, l.kept v q d)
Near-later size u v p q comp after l (inr (c, d)) = inr (l.kept u q c, l.kept v p d)

-- A call still knows it when others have moved.
pub Knows-later :
    (size u v : ℕ) (comp after : Array ℕ) (pc : Pc)
    → IsLater size comp after
    → Knows size comp u v pc
    → Knows size after u v pc
Knows-later size u v comp after reading_u l k = tt
Knows-later size u v comp after (reading_v p1) l k = (k.0, l.kept u p1 k.1)
Knows-later size u v comp after (testing p1 p2) l k =
    (k.0, k.1, Near-later size u v p1 p2 comp after l k.2)
Knows-later size u v comp after (got high low p_high) l (h, lt, n, inl e) =
    (h, lt, Near-later size u v high low comp after l n, inl e)
Knows-later size u v comp after (got high low p_high) l (h, lt, n, inr (e, below)) = (
  h,
  lt,
  Near-later size u v high low comp after l n,
  inr (l.inner high h (omega (arith, e)) ∙ e, below),
)
Knows-later size u v comp after (climbing high low) l (h, lt, n, below) =
    (h, lt, Near-later size u v high low comp after l n, omega (arith, l.inner high h below))
Knows-later size u v comp after (grandparent parent low) l k =
    (k.0, k.1, Near-later size u v parent low comp after l k.2)
Knows-later size u v comp after (parent_of_low p1 low) l k =
    (k.0, k.1, Near-later size u v p1 low comp after l k.2)
Knows-later size u v comp after finished l k = l.kept u v k
