-- ===== src/Components/Compressing.antt =====
-- Compress of src/cc.cc makes every tree flat and keeps the components.
use shared_gapbs.Base.{
  ℕ, zero, suc, ◌<◌, ◌≤◌, ◌≡◌, refl, ap, sym, subst, ◌∙◌, ◌≢◌, ◌⊎◌, true, false, arith, Array,
  write, ◌==◌, some, inl, inr, eq_or_ne, lt_suc_cases,
}
use shared_gapbs.Components.{compress_vertex, compress}
use shared_gapbs.Components.Closure.{Connected, one, back, on, Connected-map, Points, IsForest}

-- `after` is a forest with the same components.
pub record IsShorter (size : ℕ) (comp after : Array ℕ) : Type 0 where
  pub forest : IsForest size after
  pub kept : (x y : ℕ) → Connected (Points size comp) x y → Connected (Points size after) x y
  pub no_more : (x y : ℕ) → Connected (Points size after) x y → Connected (Points size comp) x y

IsShorter-same : (size : ℕ) (comp : Array ℕ) → IsForest size comp → IsShorter size comp comp
IsShorter-same size comp f = record { forest = f; kept = λ x y c. c; no_more = λ x y c. c }

IsShorter-trans :
    (size : ℕ) (a b c : Array ℕ) → IsShorter size a b → IsShorter size b c → IsShorter size a c
IsShorter-trans size a b c s t = record {
  forest = t.forest;
  kept = λ x y d. t.kept x y (s.kept x y d);
  no_more = λ x y d. s.no_more x y (t.no_more x y d);
}

-- One assignment `comp[n] = comp[comp[n]]`.
module _ (size : ℕ) (comp : Array ℕ) (forest : IsForest size comp) (n : ℕ) (within : n < size)
    (deep : comp n ≢ comp (comp n)) where
  abbrev lifted : Array ℕ
  lifted = write comp n (comp (comp n))

  inner : comp n ≢ n
  inner e = deep (sym (ap comp e))

  parent : (x : ℕ) → x < size → Connected (Points size comp) x (comp x)
  parent x h = one x (comp x) (h, refl)

  up_within : comp n < size
  up_within = omega (arith, forest n within)

  lifted_keeps : (x y : ℕ) → Connected (Points size comp) x y → Connected (Points size lifted) x y
  lifted_keeps = Connected-map (Points size comp) (Points size lifted) step
    where
      around : Connected (Points size lifted) n (comp n)
      around = on n (comp (comp n)) (comp n) (one n (comp (comp n)) (within, ground arith)) (
          back (comp n) (comp (comp n))
            (one (comp n) (comp (comp n)) (up_within, ground (arith, inner))))

      step : (x y : ℕ) → Points size comp x y → Connected (Points size lifted) x y
      step x y e = elim (eq_or_ne x n) [
        | inl at ↦
            subst (λ z. Connected (Points size lifted) z y) (sym at)
              (subst (λ z. Connected (Points size lifted) n z) (ap comp (sym at) ∙ e.1) around)
        | inr other ↦ one x y (e.0, ground (arith, e.1))
      ]

  lifted_no_more : (x y : ℕ) → Connected (Points size lifted) x y → Connected (Points size comp) x y
  lifted_no_more = Connected-map (Points size lifted) (Points size comp) step
    where
      step : (x y : ℕ) → Points size lifted x y → Connected (Points size comp) x y
      step x y e = elim (eq_or_ne x n) [
        | inl at ↦
            let target : comp (comp n) ≡ y = ground (arith, e.1, at) in
            subst (λ z. Connected (Points size comp) z y) (sym at)
              (subst (λ z. Connected (Points size comp) n z) target
                (on n (comp n) (comp (comp n)) (parent n within) (parent (comp n) up_within)))
        | inr other ↦ one x y (e.0, ground (arith, e.1))
      ]

  lifted-IsShorter : IsShorter size comp lifted
  lifted-IsShorter = record {
    forest = λ x h. ground (arith, forest x h, forest (comp n) up_within, forest n within);
    kept = lifted_keeps;
    no_more = lifted_no_more;
  }

  lifted_lt : lifted n < comp n
  lifted_lt = ground (arith, forest (comp n) up_within, deep)

-- The vertex points to a root, and nothing else was written.
record IsFlat (size n : ℕ) (comp after : Array ℕ) : Type 0 where
  shorter : IsShorter size comp after
  flat : after (after n) ≡ after n
  others : (x : ℕ) → x ≢ n → after x ≡ comp x

compress_vertex-IsFlat :
    (size fuel n : ℕ) (comp : Array ℕ)
    → n < size
    → IsForest size comp
    → comp n < fuel
    → (after : Array ℕ) × (compress_vertex fuel n comp ≡ some after) × IsFlat size n comp after
unfolding compress_vertex
compress_vertex-IsFlat size zero n comp w f h = absurd (omega arith)
compress_vertex-IsFlat size (suc fuel) n comp w f h = elim (eq_or_ne (comp n) (comp (comp n))) [
  | inl e ↦
      let equal : (comp n == comp (comp n)) ≡ true = ground arith in
      (
        comp,
        rw (equal, compress_vertex) refl,
        record { shorter = IsShorter-same size comp f; flat = sym e; others = λ x o. refl },
      )
  | inr deep ↦
      let unequal : (comp n == comp (comp n)) ≡ false = ground arith in
      let lift = lifted-IsShorter size comp f n w deep in
      let (after, e, r) =
        compress_vertex-IsFlat size fuel n (lifted size comp f n w deep) w lift.forest
          (omega (arith, lifted_lt size comp f n w deep)) in
      (
        after,
        rw (unequal, compress_vertex) e,
        record {
          shorter = IsShorter-trans size comp (lifted size comp f n w deep) after lift r.shorter;
          flat = r.flat;
          others = λ x o. r.others x o ∙ ground arith;
        },
      )
]

flatten :
    (size n : ℕ) (comp after : Array ℕ)
    → n < size
    → IsForest size comp
    → IsFlat size n comp after
    → (k : ℕ) → (k < n → comp (comp k) ≡ comp k)
    → (k < n) ⊎ (k ≡ n)
    → after (after k) ≡ after k
flatten size n comp after w f r k flat (inr e) =
    subst (λ k. after (after k) ≡ after k) (sym e) r.flat
flatten size n comp after w f r k flat (inl lt) =
    let here : after k ≡ comp k = r.others k (λ e. absurd (omega arith)) in
    let above : after (comp k) ≡ comp (comp k) =
      r.others (comp k) (λ e. absurd (omega (arith, f k (omega arith)))) in
    ap after here ∙ above ∙ flat lt ∙ sym here

compress-rounds :
    (size n : ℕ) (comp : Array ℕ)
    → n ≤ size
    → IsForest size comp
    → (after : Array ℕ) × (compress n comp ≡ some after)
      × IsShorter size comp after
      × ((k : ℕ) → k < n → after (after k) ≡ after k)
unfolding compress
compress-rounds size zero comp h f =
    (comp, refl, IsShorter-same size comp f, λ k h. absurd (omega arith))
compress-rounds size (suc n) comp h f =
    let (before, e, s, flat) = compress-rounds size n comp (omega arith) f in
    let (after, e', r) =
      compress_vertex-IsFlat size (suc (before n)) n before h s.forest (omega arith) in
    (
      after,
      rw (e, compress) e',
      IsShorter-trans size comp before after s r.shorter,
      λ k h'. flatten size n before after h s.forest r k (flat k) (lt_suc_cases k n h'),
    )

-- On a forest Compress ends, and leaves a forest with the same components in which every vertex
-- below n points to the root of its tree.
pub compress-IsShorter :
    (n : ℕ) (comp : Array ℕ)
    → IsForest n comp
    → (after : Array ℕ) × (compress n comp ≡ some after)
      × IsShorter n comp after
      × ((k : ℕ) → k < n → after (after k) ≡ after k)
compress-IsShorter n comp f = compress-rounds n n comp (omega arith) f
