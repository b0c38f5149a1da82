-- ===== src/Components/Closure.antt =====
-- Connectedness: the equivalence that a relation generates.
use shared_gapbs.Base.{refl, sym, ◌∙◌, ℕ, ◌≡◌, ◌⊎◌, Array, ◌≤◌, ◌<◌}

pub data Connected (R : ℕ → ℕ → Type 0) : ℕ → ℕ → Type 0 where
  one : (x y : ℕ) → R x y → Connected R x y
  same : (x : ℕ) → Connected R x x
  back : (x y : ℕ) → Connected R x y → Connected R y x
  on : (x y z : ℕ) → Connected R x y → Connected R y z → Connected R x z

pub Connected-map :
    (R S : ℕ → ℕ → Type 0)
    → ((x y : ℕ) → R x y → Connected S x y)
    → (x y : ℕ) → Connected R x y
    → Connected S x y
Connected-map R S f _ _ (one x y r) = f x y r
Connected-map R S f _ _ (same x) = same x
Connected-map R S f _ _ (back x y c) = back x y (Connected-map R S f x y c)
Connected-map R S f _ _ (on x y z c d) =
    on x y z (Connected-map R S f x y c) (Connected-map R S f y z d)

-- What related elements share, connected ones share.
pub Connected-ap :
    {A : Type 0} (R : ℕ → ℕ → Type 0) (f : ℕ → A)
    → ((x y : ℕ) → R x y → f x ≡ f y)
    → (x y : ℕ) → Connected R x y
    → f x ≡ f y
Connected-ap R f h _ _ (one x y r) = h x y r
Connected-ap R f h _ _ (same x) = refl
Connected-ap R f h _ _ (back x y c) = sym (Connected-ap R f h x y c)
Connected-ap R f h _ _ (on x y z c d) = Connected-ap R f h x y c ∙ Connected-ap R f h y z d

-- A vertex below `size` points to its parent.
abbrev pub Points : ℕ → Array ℕ → ℕ → ℕ → Type 0
Points size comp x y = (x < size) × (comp x ≡ y)

-- The same, and an edge from `u` to `v`.
abbrev pub PointsOr : ℕ → Array ℕ → ℕ → ℕ → ℕ → ℕ → Type 0
PointsOr size comp u v x y = Points size comp x y ⊎ ((x ≡ u) × (y ≡ v))

-- Parents are not above their children.
abbrev pub IsForest : ℕ → Array ℕ → Type 0
IsForest size comp = (x : ℕ) → x < size → comp x ≤ x
