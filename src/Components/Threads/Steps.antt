-- ===== src/Components/Threads/Steps.antt =====
-- One step of a call of Link among others (src/cc.cc).
use shared_gapbs.Base.{
  ℕ, ◌+◌, ◌-◌, ◌*◌, ◌≤◌, ◌<◌, max, ◌≡◌, refl, ap, sym, subst, ◌⊎◌, true, false, arith, Array, write,
  ltb, ◌==◌, if◌then◌else◌, Bool-cases, inl, inr, eq_or_ne,
}
use shared_gapbs.Components.Closure.{
  Connected, one, same, back, on, Connected-map, Points, IsForest,
}
use shared_gapbs.Components.Threads.{
  Pc, reading_u, reading_v, testing, got, climbing, grandparent, parent_of_low, finished, link_step,
  is_finished,
}
use shared_gapbs.Components.Threads.Invariant.{IsLater, IsLater-refl, IsLater-hook, Near, Knows}

-- A bound on the steps that a call has left.
abbrev pub left : ℕ → ℕ → Pc → ℕ
left u v reading_u = 6 * max u v + 7
left u v (reading_v p1) = 6 * max u v + 6
left u v (testing p1 p2) = 6 * max p1 p2 + 5
left u v (got high low p_high) = 6 * high + 4
left u v (climbing high low) = 6 * high + 3
left u v (grandparent parent low) = 6 * max parent low + 7
left u v (parent_of_low p1 low) = 6 * max p1 low + 6
left u v finished = 0

-- What a step of a call leaves: a later forest, in which nothing is connected but by what was
-- connected before and the call's edge, and a call with fewer steps left.
pub record Stepped (size u v : ℕ) (comp : Array ℕ) (pc : Pc) (r : Array ℕ × Pc) : Type 1 where
  pub later : IsLater size comp r.0
  pub knows : Knows size r.0 u v r.1
  pub no_more :
      (S : ℕ → ℕ → Type 0)
      → ((x y : ℕ) → Connected (Points size comp) x y → Connected S x y)
      → Connected S u v
      → (x y : ℕ) → Connected (Points size r.0) x y
      → Connected S x y
  pub fewer : left u v r.1 + (if is_finished pc then 0 else 1) ≤ left u v pc

-- A failed exchange writes what it has read.
write-same : (a : Array ℕ) (x : ℕ) → write a x (a x) ≡ a
write-same a x = λ i j. cell j i
  where
    cell : (j : ℕ) → write a x (a x) j ≡ a j
    cell j = elim (eq_or_ne j x) [ inl e ↦ ground (arith, ap a e) | inr ne ↦ ground arith ]

module _ (size u v : ℕ) (comp : Array ℕ) (forest : IsForest size comp) where
  -- A step that only reads.
  reads :
      (pc pc' : Pc)
      → Knows size comp u v pc'
      → left u v pc' + (if is_finished pc then 0 else 1) ≤ left u v pc
      → Stepped size u v comp pc (comp, pc')
  reads pc pc' k f = record {
    later = IsLater-refl size comp forest;
    knows = k;
    no_more = λ S c e. c;
    fewer = f;
  }

  parent : (x : ℕ) → x < size → Connected (Points size comp) x (comp x)
  parent x h = one x (comp x) (h, refl)

  Near-up_left : (p q : ℕ) → p < size → Near size comp u v p q → Near size comp u v (comp p) q
  Near-up_left p q h (inl (c, d)) = inl (on u p (comp p) c (parent p h), d)
  Near-up_left p q h (inr (c, d)) = inr (c, on v p (comp p) d (parent p h))

  Near-up_right : (p q : ℕ) → q < size → Near size comp u v p q → Near size comp u v p (comp q)
  Near-up_right p q h (inl (c, d)) = inl (c, on v q (comp q) d (parent q h))
  Near-up_right p q h (inr (c, d)) = inr (on u q (comp q) c (parent q h), d)

  Near-swap : (p q : ℕ) → Near size comp u v p q → Near size comp u v q p
  Near-swap p q (inl (c, d)) = inr (c, d)
  Near-swap p q (inr (c, d)) = inl (c, d)

  -- What connects the near vertices connects `u` and `v`, and the other way round.
  joins :
      (S : ℕ → ℕ → Type 0) (p q : ℕ)
      → ((x y : ℕ) → Connected (Points size comp) x y → Connected S x y)
      → Near size comp u v p q
      → Connected S p q
      → Connected S u v
  joins S p q f (inl (c, d)) e = on u p v (f u p c) (on p q v e (back v q (f v q d)))
  joins S p q f (inr (c, d)) e = on u q v (f u q c) (on q p v (back p q e) (back v p (f v p d)))

  meets :
      (S : ℕ → ℕ → Type 0) (p q : ℕ)
      → ((x y : ℕ) → Connected (Points size comp) x y → Connected S x y)
      → Near size comp u v p q
      → Connected S u v
      → Connected S p q
  meets S p q f (inl (c, d)) e = on p u q (back u p (f u p c)) (on u v q e (f v q d))
  meets S p q f (inr (c, d)) e = on p v q (back v p (f v p d)) (on v u q (back u v e) (f u q c))

  hooks :
      (high low p_high : ℕ)
      → high < size
      → low < high
      → comp high ≡ high
      → Near size comp u v high low
      → Stepped size u v comp (got high low p_high) (write comp high low, finished)
  hooks high low p_high h lt root n = record {
    later = l;
    knows = joins (Points size after) high low l.kept n (one high low (h, ground arith));
    no_more = λ S f e. Connected-map (Points size after) S λ x y p. elim (eq_or_ne x high) [
      | inl at ↦
          let low_y : low ≡ y = ground (arith, p.1, at) in
          subst (λ x. Connected S x y) (sym at)
            (subst (λ y. Connected S high y) low_y (meets S high low f n e))
      | inr other ↦ f x y (one x y (p.0, ground (arith, p.1)))
    ];
    fewer = omega arith;
  }
    where
      after : Array ℕ
      after = write comp high low

      l : IsLater size comp (write comp high low)
      l = IsLater-hook size high low comp forest h lt root

  got_step :
      (high low p_high : ℕ)
      → Knows size comp u v (got high low p_high)
      → Stepped size u v comp (got high low p_high) (link_step u v comp (got high low p_high))
  unfolding link_step
  got_step high low p_high (h, lt, n, seen) = elim (Bool-cases (p_high == low)) [
    | inl there ↦
        let e : comp high ≡ low = ground arith in
        rw there (
          reads (got high low p_high) finished
            (joins (Points size comp) high low (λ x y c. c) n (one high low (h, e))) (omega arith))
    | inr away ↦ elim (Bool-cases (p_high == high)) [
      | inl was_root ↦ elim (Bool-cases (comp high == high)) [
        | inl root ↦
            let e : comp high ≡ high = ground arith in
            rw (away, was_root, root) (hooks high low p_high h lt e n)
        | inr lost ↦
            let below : comp high < high = ground (arith, forest high h) in
            rw (away, was_root, lost)
              (subst
                (λ after. Stepped size u v comp (got high low p_high) (after, climbing high low))
                (sym (write-same comp high))
                (reads (got high low p_high) (climbing high low) (h, lt, n, below) (omega arith)))
      ]
      | inr inner ↦
          let below : comp high < high = ground arith in
          rw (away, inner)
            (reads (got high low p_high) (climbing high low) (h, lt, n, below) (omega arith))
    ]
  ]

  testing_step :
      (p1 p2 : ℕ)
      → Knows size comp u v (testing p1 p2)
      → Stepped size u v comp (testing p1 p2) (link_step u v comp (testing p1 p2))
  unfolding link_step
  testing_step p1 p2 (h, k, n) = elim (eq_or_ne p1 p2) [
    | inl e ↦
        let equal : (p1 == p2) ≡ true = ground arith in
        rw equal (
          reads (testing p1 p2) finished
            (joins (Points size comp) p1 p2 (λ x y c. c) n
              (subst (λ z. Connected (Points size comp) p1 z) e (same p1)))
            (omega arith))
    | inr apart ↦
        let unequal : (p1 == p2) ≡ false = ground arith in
        let first : p1 + p2 - p1 ≡ p2 = omega arith in
        let second : p1 + p2 - p2 ≡ p1 = omega arith in
        elim (Bool-cases (ltb p2 p1)) [
          | inl lt ↦
              rw (unequal, lt, first)
                (reads (testing p1 p2) (got p1 p2 (comp p1))
                  (h, ground arith, n, root_or_below p1 h) (ground arith))
          | inr le ↦
              rw (unequal, le, second)
                (reads (testing p1 p2) (got p2 p1 (comp p2))
                  (k, ground (arith, apart), Near-swap p1 p2 n, root_or_below p2 k) (ground arith))
        ]
  ]
    where
      root_or_below : (x : ℕ) → x < size → (comp x ≡ x) ⊎ ((comp x ≡ comp x) × (comp x < x))
      root_or_below x hx = elim (eq_or_ne (comp x) x) [
        | inl e ↦ inl e
        | inr ne ↦ inr (refl, ground (arith, ne, forest x hx))
      ]

  pub link_step-Stepped :
      (pc : Pc)
      → u < size
      → v < size
      → Knows size comp u v pc
      → Stepped size u v comp pc (link_step u v comp pc)
  unfolding link_step
  link_step-Stepped reading_u hu hv k =
      reads reading_u (reading_v (comp u)) (forest u hu, parent u hu) (omega arith)
  link_step-Stepped (reading_v p1) hu hv (le, c) =
      let low = forest v hv in
      reads (reading_v p1) (testing p1 (comp v)) (omega arith, omega arith, inl (c, parent v hv))
        (omega arith)
  link_step-Stepped (testing p1 p2) hu hv k = testing_step p1 p2 k
  link_step-Stepped (got high low p_high) hu hv k = got_step high low p_high k
  link_step-Stepped (climbing high low) hu hv (h, lt, n, below) =
      reads (climbing high low) (grandparent (comp high) low)
        (omega arith, omega arith, Near-up_left high low h n) (omega arith)
  link_step-Stepped (grandparent up low) hu hv (h, k, n) =
      let le = forest up h in
      reads (grandparent up low) (parent_of_low (comp up) low)
        (omega arith, k, Near-up_left up low h n) (omega arith)
  link_step-Stepped (parent_of_low p1 low) hu hv (h, k, n) =
      let le = forest low k in
      reads (parent_of_low p1 low) (testing p1 (comp low))
        (h, omega arith, Near-up_right p1 low k n) (omega arith)
  link_step-Stepped finished hu hv k = reads finished finished k (omega arith)
