-- ===== src/Benchmark/Picking.antt =====
-- PickNext of src/benchmark.h: the first draw with an edge.
use shared_gapbs.Base.{
  inl, inr, Bool-cases, sym, subst, ℕ, zero, suc, ◌+◌, ◌<◌, ◌≡◌, refl, ap, ◌∙◌, arith, Array, none,
  some, ◌==◌, if◌then◌else◌, true, false,
}
use shared_gapbs.Graph.{CsrGraph, out_degree}
use shared_gapbs.Benchmark.{draw_next, pick_next}

draw_next-first :
    (draws : Array ℕ) (g : CsrGraph) (k drawn : ℕ)
    → ((j : ℕ) → j < k → out_degree g (draws (drawn + j)) ≡ 0)
    → 0 < out_degree g (draws (drawn + k))
    → draw_next draws g (suc k) (record { given_source = none; drawn = drawn })
      ≡ some (draws (drawn + k), record { given_source = none; drawn = suc (drawn + k) })
unfolding draw_next
draw_next-first draws g zero drawn before here =
    let e : drawn + 0 ≡ drawn = omega arith in
    let more : 0 < out_degree g (draws drawn) = subst (λ p. 0 < out_degree g (draws p)) e here in
    let edges : out_degree g (draws drawn) == 0 ≡ false = ground arith in rw (e, edges) refl
draw_next-first draws g (suc k) drawn before here =
    let none_yet : out_degree g (draws drawn) == 0 ≡ true =
      let first : out_degree g (draws (drawn + 0)) ≡ 0 = before 0 (omega arith) in
      ap (λ p. out_degree g (draws p) == 0) (omega arith) ∙ ap (λ d. d == 0) first in
    let next : suc drawn + k ≡ drawn + suc k = omega arith in
    let rest =
      draw_next-first draws g k (suc drawn)
        (λ j lt.
          let shift : suc drawn + j ≡ drawn + suc j = omega arith in
          ap (λ p. out_degree g (draws p)) shift ∙ before (suc j) (omega (arith, lt)))
        (subst (λ p. 0 < out_degree g (draws p)) (sym next) here) in
    ap
      (λ b.
        if b
        then draw_next draws g (suc k) (record { given_source = none; drawn = suc drawn })
        else some (draws drawn, record { given_source = none; drawn = suc drawn }))
      none_yet
    ∙ rest
    ∙ ap (λ p. some (draws p, record { given_source = none; drawn = suc p })) next

-- Without a given source, when all draws before one fall on vertices without out-edges and that
-- one on a vertex with some: PickNext ends with that vertex, and the next call goes on behind that
-- draw.
pub pick_next-first :
    (draws : Array ℕ) (g : CsrGraph) (k drawn : ℕ)
    → ((j : ℕ) → j < k → out_degree g (draws (drawn + j)) ≡ 0)
    → 0 < out_degree g (draws (drawn + k))
    → pick_next draws g (suc k) (record { given_source = none; drawn = drawn })
      ≡ some (draws (drawn + k), record { given_source = none; drawn = suc (drawn + k) })
unfolding pick_next
pick_next-first draws g k drawn before here = draw_next-first draws g k drawn before here

-- PickNext ends when one of the next draws has an edge.
draw_next-ends :
    (draws : Array ℕ) (g : CsrGraph) (fuel drawn k : ℕ)
    → k < fuel
    → 0 < out_degree g (draws (drawn + k))
    → (v : ℕ) × (after : ℕ) × (draw_next draws g fuel
          (record { given_source = none; drawn = drawn })
        ≡ some (v, record { given_source = none; drawn = after }))
unfolding draw_next
draw_next-ends draws g zero drawn k h edge = absurd (omega arith)
draw_next-ends draws g (suc fuel) drawn zero h edge =
    let e : drawn + 0 ≡ drawn = omega arith in
    let more : 0 < out_degree g (draws drawn) = subst (λ p. 0 < out_degree g (draws p)) e edge in
    let found : out_degree g (draws drawn) == 0 ≡ false = ground arith in
    (draws drawn, suc drawn, rw found refl)
draw_next-ends draws g (suc fuel) drawn (suc k) h edge =
    elim (Bool-cases (out_degree g (draws drawn) == 0)) [
      | inr found ↦ (draws drawn, suc drawn, rw found refl)
      | inl isolated ↦
          let next : drawn + suc k ≡ suc drawn + k = omega arith in
          let (v, after, e) =
            draw_next-ends draws g fuel (suc drawn) k (omega (arith, h))
              (subst (λ p. 0 < out_degree g (draws p)) next edge) in
          (v, after, rw isolated e)
    ]

pub pick_next-ends :
    (draws : Array ℕ) (g : CsrGraph) (fuel : ℕ)
    → ((p : ℕ) → (k : ℕ) × (k < fuel) × (0 < out_degree g (draws (p + k))))
    → (drawn : ℕ)
    → (v : ℕ) × (after : ℕ) × (pick_next draws g fuel
          (record { given_source = none; drawn = drawn })
        ≡ some (v, record { given_source = none; drawn = after }))
unfolding pick_next
pick_next-ends draws g fuel often drawn =
    let (k, lt, edge) = often drawn in draw_next-ends draws g fuel drawn k lt edge
