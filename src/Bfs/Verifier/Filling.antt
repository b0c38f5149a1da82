-- ===== src/Bfs/Verifier/Filling.antt =====
-- The depths that BFSVerifier finds (src/bfs.cc).
use shared_gapbs.Base.{
  ==_iff, ltb, ℕ, ℤ, pos, negsuc, minus_one, ◌==ℤ◌, zero, suc, ◌+◌, ◌≤◌, ◌≡◌, ap, sym, ◌∙◌, subst,
  arith, true, false, ◌==◌, Array, write, List, [], ◌∷◌, ◌++◌, ◌⊎◌, if◌then◌else◌, inl, inr,
  Bool-cases,
}
use shared_gapbs.Stl.{contains}
use shared_gapbs.Graph.{CsrGraph}
use shared_gapbs.Components.Afforest.Labels.{Edge}
use shared_gapbs.Components.Verifier.Visiting.{contains-append}
use shared_gapbs.Bfs.{negative}
use shared_gapbs.Bfs.Walks.{Walk, along}
use shared_gapbs.Bfs.Unreached.{unreached}
use shared_gapbs.Bfs.Verifier.{Depths, reach, one_more}

pub ==ℤ_lem : (a b : ℤ) → (a ==ℤ b) ≡ true → a ≡ b
==ℤ_lem (pos a) (pos b) e = ground (arith, e)
==ℤ_lem (pos a) (negsuc b) e = absurd (ground (arith, e))
==ℤ_lem (negsuc a) (pos b) e = absurd (ground (arith, e))
==ℤ_lem (negsuc a) (negsuc b) e = ground (arith, e)

pub pos-injective : (a b : ℕ) → pos a ≡ pos b → a ≡ b
pos-injective a b e = ground (arith, e)

-- The depths along the list do not decrease, from `k` on.
abbrev pub Rising : Array ℤ → ℕ → List ℕ → Type 0
Rising depth k [] = Unit
Rising depth k (v ∷ vs) = (d : ℕ) × (depth v ≡ pos d) × (k ≤ d) × Rising depth d vs

-- While the out-neighbours of the vertex in front, at depth `k`, are looked at: `Busy` is the edges
-- that are still to be looked at.
pub record Filling (g : CsrGraph) (source : ℕ) (Busy : ℕ → ℕ → Type 0) (k : ℕ) (s : Depths)
    : Type 0 where
  pub zero_at : s.depth source ≡ pos 0
  pub shown :
      (v : ℕ)
      → (s.depth v ≡ minus_one) ⊎ ((d : ℕ) × (s.depth v ≡ pos d) × Walk g source d v × (d ≤ suc k))
  pub closed :
      (v w d : ℕ)
      → s.depth v ≡ pos d
      → Edge g v w
      → (contains v s.to_visit ≡ true) ⊎ (Busy v w ⊎ ((e : ℕ) × (s.depth w ≡ pos e) × (e ≤ suc d)))
  pub rising : Rising s.depth k s.to_visit

-- A new vertex behind the others, at the depth `m` that none of them exceeds.
Rising-append :
    (p q : Array ℤ) (v m j : ℕ) (vs : List ℕ)
    → ((w : ℕ) (d : ℕ) → p w ≡ pos d → (q w ≡ pos d) × (d ≤ m))
    → q v ≡ pos m
    → j ≤ m
    → Rising p j vs
    → Rising q j (vs ++ v ∷ [])
Rising-append p q v m j [] keep e le r = (m, e, le, tt)
Rising-append p q v m j (w ∷ vs) keep e le (d, at, lo, r) =
    let (still, hi) = keep w d at in (d, still, lo, Rising-append p q v m d vs keep e hi r)

pub unreached-write :
    (p : Array ℤ) (v d n : ℕ)
    → negative (p v) ≡ true
    → unreached (write p v (pos d)) n + (if ltb v n then 1 else 0) ≡ unreached p n
unreached-write p v d zero e = ground arith
unreached-write p v d (suc n) e =
    let before = unreached-write p v d n e in ground (arith, before, e)

pub Filling-depth :
    (g : CsrGraph) (source : ℕ) (Busy : ℕ → ℕ → Type 0) (k : ℕ) (s : Depths)
    → Filling g source Busy k s
    → (v d : ℕ) → s.depth v ≡ pos d
    → Walk g source d v × (d ≤ suc k)
Filling-depth g source Busy k s f v d e = elim (f.shown v) [
  | inl new ↦ absurd (ground (arith, new, e))
  | inr (c, at, path, le) ↦
      let same : c ≡ d = pos-injective c d (sym at ∙ e) in
      (subst (λ m. Walk g source m v) same path, omega (arith, le, same))
]

-- The depth of the vertex whose edge it is.
Busy-depth : (s : Depths) (x u d k : ℕ) → x ≡ u → s.depth u ≡ pos k → s.depth x ≡ pos d → d ≡ k
Busy-depth s x u d k is at e = pos-injective d k (sym e ∙ ap s.depth is ∙ at)

pub reach-Filling :
    (g : CsrGraph) (source u v k : ℕ) (vs : List ℕ) (s : Depths)
    → Filling g source (λ x y. (x ≡ u) × (contains y (v ∷ vs) ≡ true)) k s
    → s.depth u ≡ pos k
    → Edge g u v
    → Filling g source (λ x y. (x ≡ u) × (contains y vs ≡ true)) k (reach u s v)
unfolding reach contains
reach-Filling g source u v k vs s f at edge = elim (Bool-cases (s.depth v ==ℤ minus_one)) [
  | inl new ↦ rw new (record {
    zero_at = kept new source 0 f.zero_at;
    shown = λ w. elim (Bool-cases (w == v)) [
      | inl is ↦ inr (suc k, here w is, walk w is, omega arith)
      | inr other ↦ elim (f.shown w) [
        | inl none_yet ↦ inl (ground (arith, other, none_yet))
        | inr (d, e, path, le) ↦ inr (d, kept new w d e, path, le)
      ]
    ];
    closed = λ x y d e xy. elim (Bool-cases (x == v)) [
      | inl is ↦ inl (ground (arith, is, contains-append x s.to_visit (v ∷ [])))
      | inr other ↦ elim (f.closed x y d (ground (arith, other, e)) xy) [
        | inl c ↦ inl (ground (arith, c, contains-append x s.to_visit (v ∷ [])))
        | inr (inl (is, c)) ↦ elim (Bool-cases (y == v)) [
          | inl met ↦
              let own : d ≡ k = Busy-depth s x u d k is at (ground (arith, other, e)) in
              inr (inr (suc k, here y met, omega (arith, own)))
          | inr further ↦ inr (inl (is, ground (arith, c, further)))
        ]
        | inr (inr (m, e, le)) ↦ inr (inr (m, kept new y m e, le))
      ]
    ];
    rising =
        Rising-append s.depth next v (suc k) k s.to_visit
          (λ w d e. (kept new w d e, (bound w d e).1)) (here v (ground arith)) (omega arith)
          f.rising;
  })
  | inr old ↦ rw old (record {
    zero_at = f.zero_at;
    shown = f.shown;
    closed = λ x y d e xy. elim (f.closed x y d e xy) [
      | inl c ↦ inl c
      | inr (inl (is, c)) ↦ elim (Bool-cases (y == v)) [
        | inl met ↦
            let own : d ≡ k = Busy-depth s x u d k is at e in
            let m = set old in
            inr (inr (m.0, ap s.depth ((==_iff y v).0 met) ∙ m.1, omega (arith, own, m.2)))
        | inr further ↦ inr (inl (is, ground (arith, c, further)))
      ]
      | inr (inr ok) ↦ inr (inr ok)
    ];
    rising = f.rising;
  })
]
  where
    next : Array ℤ
    next = write s.depth v (one_more (s.depth u))

    bound : (w d : ℕ) → s.depth w ≡ pos d → Walk g source d w × (d ≤ suc k)
    bound = Filling-depth g source (λ x y. (x ≡ u) × (contains y (v ∷ vs) ≡ true)) k s f

    kept : (s.depth v ==ℤ minus_one) ≡ true → (w d : ℕ) → s.depth w ≡ pos d → next w ≡ pos d
    kept new w d e = elim (Bool-cases (w == v)) [
      | inl is ↦ absurd (
          let was : s.depth v ≡ minus_one = ==ℤ_lem (s.depth v) minus_one new in
          ground (arith, was, sym e ∙ ap s.depth ((==_iff w v).0 is)))
      | inr other ↦ ground (arith, other, e)
    ]

    here : (w : ℕ) → (w == v) ≡ true → next w ≡ pos (suc k)
    here w is = ground (arith, is, at)

    walk : (w : ℕ) → (w == v) ≡ true → Walk g source (suc k) w
    walk w is =
        subst (Walk g source (suc k)) (sym ((==_iff w v).0 is))
          (along k u v ((bound u k at).0) edge)

    set : (s.depth v ==ℤ minus_one) ≡ false → (m : ℕ) × (s.depth v ≡ pos m) × (m ≤ suc k)
    set old = elim (f.shown v) [
      | inl new ↦ absurd (ground (arith, old, new))
      | inr (m, e, path, le) ↦ (m, e, le)
    ]
