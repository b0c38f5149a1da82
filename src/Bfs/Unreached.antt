-- ===== src/Bfs/Unreached.antt =====
-- The number of vertices without a parent, which the rounds of the breadth-first search make
-- smaller (src/bfs.cc).
use shared_gapbs.Base.{
  ℕ, ℤ, suc, zero, ◌≤◌, ◌<◌, ◌≡◌, ap, sym, ◌∙◌, inl, inr, arith, Array, true, false, List,
  if◌then◌else◌, sum_below, lt_suc_cases,
}
use shared_gapbs.Stl.{contains}
use shared_gapbs.Bfs.{negative}
use shared_gapbs.Bfs.Discovery.{Discovers, Discovers-stays}

-- The number of vertices below `n` without a parent.
abbrev pub unreached : Array ℤ → ℕ → ℕ
unreached p = sum_below λ v. if negative (p v) then 1 else 0

pub unreached_le : (p : Array ℤ) (n : ℕ) → unreached p n ≤ n
unreached_le p zero = omega arith
unreached_le p (suc n) = ground (arith, unreached_le p n)

pub Discovers-still :
    (E : ℕ → ℕ → Type 0) (p q : Array ℤ) (ds : List ℕ)
    → Discovers E p q ds
    → (v : ℕ) → negative (p v) ≡ false
    → negative (q v) ≡ false
Discovers-still E p q ds d v h = ap negative (Discovers-stays E p q ds d v h) ∙ h

-- A round leaves no more without a parent, and less when it discovers one of them.
pub unreached-Discovers :
    (E : ℕ → ℕ → Type 0) (p q : Array ℤ) (ds : List ℕ) (n : ℕ)
    → Discovers E p q ds
    → unreached q n ≤ unreached p n
unreached-Discovers E p q ds zero d = omega arith
unreached-Discovers E p q ds (suc n) d =
    let rest = unreached-Discovers E p q ds n d in
    let still = Discovers-still E p q ds d n in ground arith

pub unreached-found :
    (E : ℕ → ℕ → Type 0) (p q : Array ℤ) (ds : List ℕ) (n v : ℕ)
    → Discovers E p q ds
    → contains v ds ≡ true
    → v < n
    → unreached q n < unreached p n
unreached-found E p q ds zero v d h lt = absurd (omega arith)
unreached-found E p q ds (suc n) v d h lt = elim (lt_suc_cases v n lt) [
  | inl before ↦
      let rest = unreached-found E p q ds n v d h before in
      let still = Discovers-still E p q ds d n in ground arith
  | inr now ↦
      let (u, x, at) = d.found v h in
      let was : negative (p n) ≡ true = ap (λ n. negative (p n)) (sym now) ∙ d.fresh v h in
      let is : negative (q n) ≡ false = ap (λ n. negative (q n)) (sym now) ∙ ap negative at in
      let rest = unreached-Discovers E p q ds n d in ground arith
]
