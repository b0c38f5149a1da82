-- ===== src/Components/Linking.antt =====
-- Link of src/cc.cc joins two vertices and nothing else.
use shared_gapbs.Base.{
  ℕ, zero, suc, ◌+◌, ◌-◌, ◌≤◌, ◌<◌, max, ◌≡◌, refl, ap, sym, subst, ◌∙◌, ◌≢◌, ◌⊎◌, true, false,
  arith, Array, write, ltb, ◌==◌, if◌then◌else◌, Option, some, Bool-cases, inl, inr, eq_or_ne,
}
use shared_gapbs.Components.{Round, break, next, link_round, link_loop, link}
use shared_gapbs.Components.Closure.{
  Connected, one, same, back, on, Connected-map, Points, PointsOr, IsForest,
}

-- `after` is a forest that connects what `comp` connects, and `u` and `v`, and no more.
pub record Linked (size u v : ℕ) (comp after : Array ℕ) : Type 0 where
  pub forest : IsForest size after
  pub joined : Connected (Points size after) u v
  pub kept : (x y : ℕ) → Connected (Points size comp) x y → Connected (Points size after) x y
  pub no_more :
      (x y : ℕ) → Connected (Points size after) x y → Connected (PointsOr size comp u v) x y

module _ (size u v : ℕ) (comp : Array ℕ) (forest : IsForest size comp) where
  -- The two vertices that are compared are connected to `u` and `v`, one to each.
  abbrev pub Near : ℕ → ℕ → Type 0
  Near p q =
      (Connected (Points size comp) u p × Connected (Points size comp) v q)
      ⊎ (Connected (Points size comp) u q × Connected (Points size comp) v p)

  widen : (x y : ℕ) → Connected (Points size comp) x y → Connected (PointsOr size comp u v) x y
  widen = Connected-map (Points size comp) (PointsOr size comp u v) (λ x y e. one x y (inl e))

  -- The vertices are connected already.
  Linked-same : Connected (Points size comp) u v → Linked size u v comp comp
  Linked-same c = record { forest = forest; joined = c; kept = λ x y d. d; no_more = widen }

  -- What connects the two vertices connects `u` and `v`, and the other way round.
  Near-joins :
      (S : ℕ → ℕ → Type 0) (p q : ℕ)
      → ((x y : ℕ) → Connected (Points size comp) x y → Connected S x y)
      → Near p q
      → Connected S p q
      → Connected S u v
  Near-joins S p q f (inl (c, d)) e = on u p v (f u p c) (on p q v e (back v q (f v q d)))
  Near-joins S p q f (inr (c, d)) e =
      on u q v (f u q c) (on q p v (back p q e) (back v p (f v p d)))

  Near-meets : (p q : ℕ) → Near p q → Connected (PointsOr size comp u v) p q
  Near-meets p q n = go n
    where
      edge : Connected (PointsOr size comp u v) u v
      edge = one u v (inr (refl, refl))

      go : Near p q → Connected (PointsOr size comp u v) p q
      go (inl (c, d)) = on p u q (back u p (widen u p c)) (on u v q edge (widen v q d))
      go (inr (c, d)) = on p v q (back v p (widen v p d)) (on v u q (back u v edge) (widen u q c))

  -- Hooking a root below a smaller vertex.
  module _ (high low : ℕ) (within : high < size) (root : comp high ≡ high) (lt : low < high) where
    abbrev pub hooked : Array ℕ
    hooked = write comp high low

    pub hooked-IsForest : IsForest size hooked
    hooked-IsForest x h = ground (arith, forest x h)

    pub hooked_edge : Connected (Points size hooked) high low
    hooked_edge = one high low (within, ground arith)

    pub hooked_keeps :
        (x y : ℕ) → Connected (Points size comp) x y → Connected (Points size hooked) x y
    hooked_keeps = Connected-map (Points size comp) (Points size hooked) step
      where
        step : (x y : ℕ) → Points size comp x y → Connected (Points size hooked) x y
        step x y e = elim (eq_or_ne x high) [
          | inl at ↦
              subst (λ z. Connected (Points size hooked) x z)
                (at ∙ sym root ∙ ap comp (sym at) ∙ e.1) (same x)
          | inr other ↦ one x y (e.0, ground (arith, e.1))
        ]

    hooked_no_more :
        Connected (PointsOr size comp u v) high low
        → (x y : ℕ) → Connected (Points size hooked) x y
        → Connected (PointsOr size comp u v) x y
    hooked_no_more c = Connected-map (Points size hooked) (PointsOr size comp u v) step
      where
        step : (x y : ℕ) → Points size hooked x y → Connected (PointsOr size comp u v) x y
        step x y e = elim (eq_or_ne x high) [
          | inl at ↦
              let low_y : low ≡ y = ground (arith, e.1, at) in
              subst (λ z. Connected (PointsOr size comp u v) z y) (sym at)
                (subst (λ z. Connected (PointsOr size comp u v) high z) low_y c)
          | inr other ↦ one x y (inl (e.0, ground (arith, e.1)))
        ]

    pub hooked-Linked : Near high low → Linked size u v comp hooked
    hooked-Linked n = record {
      forest = hooked-IsForest;
      joined = Near-joins (Points size hooked) high low hooked_keeps n hooked_edge;
      kept = hooked_keeps;
      no_more = hooked_no_more (Near-meets high low n);
    }

  parent : (x : ℕ) → x < size → Connected (Points size comp) x (comp x)
  parent x h = one x (comp x) (h, refl)

  -- The parents of near vertices are near.
  Near-parents :
      (high low : ℕ) → high < size → low < size → Near high low → Near (comp (comp high)) (comp low)
  Near-parents high low h k (inl (c, d)) =
      let up = parent (comp high) (omega (arith, forest high h)) in
      inl (on _ _ _ (on _ _ _ c (parent high h)) up, on _ _ _ d (parent low k))
  Near-parents high low h k (inr (c, d)) =
      let up = parent (comp high) (omega (arith, forest high h)) in
      inr (on _ _ _ c (parent low k), on _ _ _ (on _ _ _ d (parent high h)) up)

  Near-swap : (p q : ℕ) → Near p q → Near q p
  Near-swap p q (inl (c, d)) = inr (c, d)
  Near-swap p q (inr (c, d)) = inl (c, d)

  -- What a round leaves: it has linked, or it goes on with smaller vertices.
  abbrev Moved : ℕ → Round → Type 0
  Moved high (break after) = Linked size u v comp after
  Moved high (next p1 p2 after) = (after ≡ comp) × Near p1 p2 × (max p1 p2 < high)

  -- The round, when it is known which vertex is the higher.
  abbrev ordered_round : ℕ → ℕ → Round
  ordered_round high low =
      if comp high == low
      then break comp
      else (if comp high == high
          then break (write comp high low)
          else next (comp (comp high)) (comp low) comp)

  parents_lt :
      (high low : ℕ)
      → high < size
      → low < high
      → (comp high == high) ≡ false
      → max (comp (comp high)) (comp low) < high
  parents_lt high low h lt inner =
      let first = forest high h in
      let second = forest (comp high) (omega (arith, first)) in
      ground (arith, first, second, forest low (omega arith))

  ordered_round-Moved :
      (high low : ℕ)
      → high < size
      → low < high
      → Near high low
      → Moved high (ordered_round high low)
  ordered_round-Moved high low h lt n = elim (Bool-cases (comp high == low)) [
    | inl there ↦
        let e : comp high ≡ low = ground arith in
        rw there (
          Linked-same (Near-joins (Points size comp) high low (λ x y c. c) n (one high low (h, e))))
    | inr away ↦ elim (Bool-cases (comp high == high)) [
      | inl root ↦
          let e : comp high ≡ high = ground arith in
          rw (away, root) (hooked-Linked high low h e lt n)
      | inr inner ↦
          rw (away, inner)
            (refl, Near-parents high low h (omega arith) n, parents_lt high low h lt inner)
    ]
  ]

  link_round-ordered :
      (p1 p2 : ℕ)
      → link_round p1 p2 comp ≡ (if ltb p2 p1 then ordered_round p1 p2 else ordered_round p2 p1)
  unfolding link_round
  link_round-ordered p1 p2 =
      let first : p1 + p2 - p1 ≡ p2 = omega arith in
      let second : p1 + p2 - p2 ≡ p1 = omega arith in
      elim (Bool-cases (ltb p2 p1)) [
        | inl h ↦ rw (h, first) (ground arith)
        | inr h ↦ rw (h, second) (ground arith)
      ]

  link_round-Moved :
      (p1 p2 : ℕ)
      → max p1 p2 < size
      → p1 ≢ p2
      → Near p1 p2
      → Moved (max p1 p2) (link_round p1 p2 comp)
  link_round-Moved p1 p2 top apart n =
      subst (Moved (max p1 p2)) (sym (link_round-ordered p1 p2)) (elim (Bool-cases (ltb p2 p1)) [
        | inl h ↦
            let which : max p1 p2 ≡ p1 = ground arith in
            rw (h, which) (ordered_round-Moved p1 p2 (omega arith) (ground arith) n)
        | inr h ↦
            let lt : p1 < p2 = ground (arith, apart) in
            let which : max p1 p2 ≡ p2 = omega arith in
            rw (h, which) (ordered_round-Moved p2 p1 (omega arith) lt (Near-swap p1 p2 n))
      ])

  -- The rest of the loop after a round.
  Moved-loop :
      (fuel high : ℕ)
      → high ≤ fuel
      → high < size
      → ((p1 p2 : ℕ)
          → max p1 p2 < fuel
          → max p1 p2 < size
          → Near p1 p2
          → (after : Array ℕ) × (link_loop fuel p1 p2 comp ≡ some after)
            × Linked size u v comp after)
      → (r : Round) → Moved high r
      → (after : Array ℕ) × (elim r as (λ r. Option (Array ℕ)) [
        | break comp ↦ some comp
        | next p1 p2 comp ↦ link_loop fuel p1 p2 comp
      ]
          ≡ some after)
        × Linked size u v comp after
  Moved-loop fuel high h within rest (break after) l = (after, refl, l)
  Moved-loop fuel high h within rest (next q1 q2 after) m =
      let (end, e, l) = rest q1 q2 (omega (arith, m.2)) (omega (arith, m.2)) m.1 in
      (end, ap (link_loop fuel q1 q2) m.0 ∙ e, l)

  link_loop-Linked :
      (fuel p1 p2 : ℕ)
      → max p1 p2 < fuel
      → max p1 p2 < size
      → Near p1 p2
      → (after : Array ℕ) × (link_loop fuel p1 p2 comp ≡ some after) × Linked size u v comp after
  unfolding link_loop
  link_loop-Linked zero p1 p2 h within n = absurd (omega arith)
  link_loop-Linked (suc fuel) p1 p2 h within n = elim (eq_or_ne p1 p2) [
    | inl e ↦
        let equal : (p1 == p2) ≡ true = ground arith in
        (
          comp,
          rw (equal, link_loop) refl,
          Linked-same (
              Near-joins (Points size comp) p1 p2 (λ x y c. c) n
                (subst (λ z. Connected (Points size comp) p1 z) e (same p1))),
        )
    | inr apart ↦
        let unequal : (p1 == p2) ≡ false = ground arith in
        let (after, e, l) =
          Moved-loop fuel (max p1 p2) (omega arith) within
            (λ q1 q2 lt in_size m. link_loop-Linked fuel q1 q2 lt in_size m) (link_round p1 p2 comp)
            (link_round-Moved p1 p2 within apart n) in
        (after, rw (unequal, link_loop) e, l)
  ]

-- On a forest, Link of two of its vertices ends, and leaves a forest in which two vertices are
-- connected exactly if they were connected before or are by the new edge from u to v.
pub link-Linked :
    (size u v : ℕ) (comp : Array ℕ)
    → u < size
    → v < size
    → IsForest size comp
    → (after : Array ℕ) × (link u v comp ≡ some after) × Linked size u v comp after
unfolding link
link-Linked size u v comp hu hv forest =
    link_loop-Linked size u v comp forest (suc (max (comp u) (comp v))) (comp u) (comp v)
      (omega arith) (omega (arith, forest u hu, forest v hv))
      (inl (one u (comp u) (hu, refl), one v (comp v) (hv, refl)))
