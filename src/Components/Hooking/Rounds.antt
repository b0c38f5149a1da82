-- ===== src/Components/Hooking/Rounds.antt =====
-- One pass of hooking (src/cc_sv.cc): it grows the forest, and makes the labels smaller or nothing
-- at all.
use shared_gapbs.Base.{
  ℕ, zero, suc, ◌+◌, ◌-◌, ◌≤◌, ◌<◌, ◌≡◌, refl, ap, sym, subst, ◌∙◌, ◌⊎◌, inl, inr, arith, true,
  false, Array, write, List, [], ◌∷◌, ltb, ◌==◌, if◌then◌else◌, sum_below, Bool-cases,
}
use shared_gapbs.Stl.{contains}
use shared_gapbs.Stl.Laws.{contains-head, contains-tail, contains-cons, contains-nil}
use shared_gapbs.Components.Closure.{Connected, one, Points, IsForest}
use shared_gapbs.Components.Linking.{hooked-Linked}
use shared_gapbs.Components.Afforest.Growing.{Grows, Grows-same, Grows-trans, Linked-Grows}
use shared_gapbs.Components.Hooking.{Hooking, hook_edge, hook_each}

sum_below-write :
    (a : Array ℕ) (i x n : ℕ)
    → sum_below (write a i x) n + (if ltb i n then a i else 0)
      ≡ sum_below a n + (if ltb i n then x else 0)
sum_below-write a i x zero = ground arith
sum_below-write a i x (suc n) = ground (arith, sum_below-write a i x n)

module _ (size : ℕ) (E : ℕ → ℕ → Type 0) where
  -- From `s` to `t` edges were handled.
  pub record Passed (s t : Hooking) : Type 0 where
    pub grows : Grows size E s.comp t.comp
    pub le : sum_below t.comp size ≤ sum_below s.comp size
    pub less : t.change ≡ true → (s.change ≡ true) ⊎ (sum_below t.comp size < sum_below s.comp size)
    pub still : t.change ≡ false → (s.change ≡ false) × (t.comp ≡ s.comp)

  pub Passed-same : (s : Hooking) → IsForest size s.comp → Passed s s
  Passed-same s f = record {
    grows = Grows-same size E s.comp f;
    le = omega arith;
    less = inl;
    still = λ e. (e, refl);
  }

  pub Passed-trans : (a b c : Hooking) → Passed a b → Passed b c → Passed a c
  Passed-trans a b c p q = record {
    grows = Grows-trans size E a.comp b.comp c.comp p.grows q.grows;
    le = omega (arith, p.le, q.le);
    less = λ e. less (q.less e);
    still = λ e. let (e', same) = q.still e in let (e'', same') = p.still e' in (e'', same ∙ same');
  }
    where
      less :
          (b.change ≡ true) ⊎ (sum_below c.comp size < sum_below b.comp size)
          → (a.change ≡ true) ⊎ (sum_below c.comp size < sum_below a.comp size)
      less (inr lt) = inr (omega (arith, p.le))
      less (inl e) = before (p.less e)
        where
          before :
              (a.change ≡ true) ⊎ (sum_below b.comp size < sum_below a.comp size)
              → (a.change ≡ true) ⊎ (sum_below c.comp size < sum_below a.comp size)
          before (inl e) = inl e
          before (inr lt) = inr (omega (arith, q.le))

  -- While nothing has changed in a flat forest, the ends of the edges that were handled have the
  -- same label.
  abbrev pub Agree : ℕ → ℕ → Hooking → Type 0
  Agree u v t =
      t.change ≡ false → ((k : ℕ) → k < size → t.comp (t.comp k) ≡ t.comp k) → t.comp u ≡ t.comp v

  pub Agree-keep : (u v : ℕ) (s t : Hooking) → Passed s t → Agree u v s → Agree u v t
  Agree-keep u v s t p a e flat =
      let (e', same) = p.still e in
      ap (λ (c : Array ℕ). c u) same
      ∙ a e' (subst (λ (c : Array ℕ). (k : ℕ) → k < size → c (c k) ≡ c k) same flat)
      ∙ ap (λ (c : Array ℕ). c v) (sym same)

  -- Hooking the higher label, a root, below the lower one.
  hook-Passed :
      (u v high low : ℕ) (s : Hooking)
      → IsForest size s.comp
      → high < size
      → low < high
      → s.comp high ≡ high
      → Connected E u v
      → (Connected (Points size s.comp) u high × Connected (Points size s.comp) v low)
        ⊎ (Connected (Points size s.comp) u low × Connected (Points size s.comp) v high)
      → Passed s (record { comp = write s.comp high low; change = true })
  hook-Passed u v high low s f h lt root c near =
      let sums = sum_below-write s.comp high low size in
      let inside : ltb high size ≡ true = ground arith in
      record {
        grows =
            Linked-Grows size E u v s.comp (write s.comp high low) c
              (hooked-Linked size u v s.comp f high low h root lt near);
        le = ground arith;
        less = λ e. inr (ground arith);
        still = λ e. absurd (ground arith);
      }

  -- The body of the loop, when it is known which label is the higher.
  abbrev ordered_hook : ℕ → ℕ → Hooking → Hooking
  ordered_hook high low s =
      if high == s.comp high then record { comp = write s.comp high low; change = true } else s

  ordered_hook-Passed :
      (u v high low : ℕ) (s : Hooking)
      → u < size
      → v < size
      → IsForest size s.comp
      → low < high
      → Connected E u v
      → ((high ≡ s.comp u) × (low ≡ s.comp v)) ⊎ ((low ≡ s.comp u) × (high ≡ s.comp v))
      → Passed s (ordered_hook high low s) × Agree u v (ordered_hook high low s)
  ordered_hook-Passed u v high low s h k f lt c which = elim (Bool-cases (high == s.comp high)) [
    | inl test ↦
        let root : s.comp high ≡ high = ground arith in
        rw test (
          hook-Passed u v high low s f (within which) lt root c (near which),
          λ e flat. absurd (ground arith),
        )
    | inr test ↦ rw test (Passed-same s f, λ e flat. absurd (flat_root which flat test))
  ]
    where
      up : (x : ℕ) → x < size → Connected (Points size s.comp) x (s.comp x)
      up x h = one x (s.comp x) (h, refl)

      within :
          ((high ≡ s.comp u) × (low ≡ s.comp v)) ⊎ ((low ≡ s.comp u) × (high ≡ s.comp v))
          → high < size
      within (inl (a, b)) = omega (arith, f u h)
      within (inr (a, b)) = omega (arith, f v k)

      near :
          ((high ≡ s.comp u) × (low ≡ s.comp v)) ⊎ ((low ≡ s.comp u) × (high ≡ s.comp v))
          → (Connected (Points size s.comp) u high × Connected (Points size s.comp) v low)
            ⊎ (Connected (Points size s.comp) u low × Connected (Points size s.comp) v high)
      near (inl (a, b)) = inl (
        subst (Connected (Points size s.comp) u) (sym a) (up u h),
        subst (Connected (Points size s.comp) v) (sym b) (up v k),
      )
      near (inr (a, b)) = inr (
        subst (Connected (Points size s.comp) u) (sym a) (up u h),
        subst (Connected (Points size s.comp) v) (sym b) (up v k),
      )

      flat_root :
          ((high ≡ s.comp u) × (low ≡ s.comp v)) ⊎ ((low ≡ s.comp u) × (high ≡ s.comp v))
          → ((k : ℕ) → k < size → s.comp (s.comp k) ≡ s.comp k)
          → (high == s.comp high) ≡ false
          → ⊥
      flat_root (inl (a, b)) flat test =
          let e = flat u h in let e' : s.comp high ≡ s.comp (s.comp u) = ap s.comp a in ground arith
      flat_root (inr (a, b)) flat test =
          let e = flat v k in let e' : s.comp high ≡ s.comp (s.comp v) = ap s.comp b in ground arith

  hook_edge-ordered :
      (u v : ℕ) (s : Hooking)
      → hook_edge u s v ≡ (
          if s.comp u == s.comp v
          then s
          else (if ltb (s.comp v) (s.comp u)
              then ordered_hook (s.comp u) (s.comp v) s
              else ordered_hook (s.comp v) (s.comp u) s))
  unfolding hook_edge
  hook_edge-ordered u v s =
      let first : s.comp u + s.comp v - s.comp u ≡ s.comp v = omega arith in
      let second : s.comp u + s.comp v - s.comp v ≡ s.comp u = omega arith in
      elim (Bool-cases (ltb (s.comp v) (s.comp u))) [
        | inl h ↦ rw (h, first) refl
        | inr h ↦ rw (h, second) refl
      ]

  hook_edge-Passed :
      (u v : ℕ) (s : Hooking)
      → u < size
      → v < size
      → Connected E u v
      → IsForest size s.comp
      → Passed s (hook_edge u s v) × Agree u v (hook_edge u s v)
  hook_edge-Passed u v s h k c f =
      subst (λ t. Passed s t × Agree u v t) (sym (hook_edge-ordered u v s))
        (elim (Bool-cases (s.comp u == s.comp v)) [
          | inl test ↦
              let e : s.comp u ≡ s.comp v = ground arith in rw test (Passed-same s f, λ _ _. e)
          | inr test ↦ elim (Bool-cases (ltb (s.comp v) (s.comp u))) [
            | inl above ↦
                rw (test, above)
                  (ordered_hook-Passed u v (s.comp u) (s.comp v) s h k f (ground arith) c
                    (inl (refl, refl)))
            | inr below ↦
                rw (test, below)
                  (ordered_hook-Passed u v (s.comp v) (s.comp u) s h k f (ground arith) c
                    (inr (refl, refl)))
          ]
        ])

  pub hook_each-Passed :
      (u : ℕ) (vs : List ℕ) (s : Hooking)
      → u < size
      → ((v : ℕ) → contains v vs ≡ true → (v < size) × Connected E u v)
      → IsForest size s.comp
      → Passed s (hook_each u vs s)
        × ((v : ℕ) → contains v vs ≡ true → Agree u v (hook_each u vs s))
  unfolding hook_each
  hook_each-Passed u [] s h near f = (Passed-same s f, λ v c. absurd (contains-nil v c))
  hook_each-Passed u (v ∷ vs) s h near f =
      let first = near v (contains-head v vs) in
      let (p, a) = hook_edge-Passed u v s h first.0 first.1 f in
      let (q, all) =
        hook_each-Passed u vs (hook_edge u s v) h (λ w c. near w (contains-tail w v vs c))
          p.grows.forest in
      (
        Passed-trans s (hook_edge u s v) (hook_each u vs (hook_edge u s v)) p q,
        λ w c. elim (contains-cons w v vs c) [
          | inl e ↦
              subst (λ w. Agree u w (hook_each u vs (hook_edge u s v))) (sym e)
                (Agree-keep u v (hook_edge u s v) (hook_each u vs (hook_edge u s v)) q a)
          | inr later ↦ all w later
        ],
      )
