-- ===== src/Bfs/Verifier/Distances.antt =====
-- BFSVerifier finds the length of a shortest walk to each vertex (src/bfs.cc).
use shared_gapbs.Base.{
  ==_iff, ℕ, ℤ, pos, minus_one, ◌==ℤ◌, zero, suc, ◌+◌, ◌<◌, ◌≤◌, ◌≡◌, refl, ap, sym, ◌∙◌, subst,
  arith, true, ◌==◌, Array, write, List, [], ◌∷◌, ◌⊎◌, length, some, inl, inr, Bool-cases,
  length-append,
}
use shared_gapbs.Stl.{contains}
use shared_gapbs.Graph.{CsrGraph}
use shared_gapbs.Components.Afforest.Labels.{row, Edge}
use shared_gapbs.Bfs.{negative}
use shared_gapbs.Bfs.Walks.{Walk, stay, along}
use shared_gapbs.Bfs.Unreached.{unreached, unreached_le}
use shared_gapbs.Bfs.Rounds.{IsTransposed}
use shared_gapbs.Bfs.Verifier.{Depths, reach, reach_each, fill_depths, one_more}
use shared_gapbs.Bfs.Verifier.Filling.{
  Filling, reach-Filling, unreached-write, Filling-depth, ==ℤ_lem,
}

reach-work :
    (u v k n : ℕ) (s : Depths)
    → v < n
    → s.depth u ≡ pos k
    → ((reach u s v).depth u ≡ pos k)
      × (unreached (reach u s v).depth n + length (reach u s v).to_visit
          ≡ unreached s.depth n + length s.to_visit)
unfolding reach
reach-work u v k n s lt at = elim (Bool-cases (s.depth v ==ℤ minus_one)) [
  | inl new ↦
      let was : s.depth v ≡ minus_one = ==ℤ_lem (s.depth v) minus_one new in
      let next : one_more (s.depth u) ≡ pos (suc k) = ap one_more at in
      rw (new, next)
        (
          (elim (Bool-cases (u == v)) [
            | inl is ↦ absurd (ground (arith, was, sym at ∙ ap s.depth ((==_iff u v).0 is)))
            | inr other ↦ ground (arith, other, at)
          ]),
          (let less = unreached-write s.depth v (suc k) n (ap negative was) in
              let longer = length-append s.to_visit (v ∷ []) in ground (arith, less, longer, lt)),
        )
  | inr old ↦ rw old (at, refl)
]

reach_each-Filling :
    (g : CsrGraph) (source u k : ℕ) (vs : List ℕ) (s : Depths)
    → IsTransposed g
    → ((v : ℕ) → contains v vs ≡ true → Edge g u v)
    → Filling g source (λ x y. (x ≡ u) × (contains y vs ≡ true)) k s
    → s.depth u ≡ pos k
    → Filling g source (λ x y. (x ≡ u) × (contains y [] ≡ true)) k (reach_each u vs s)
      × (unreached (reach_each u vs s).depth g.num_nodes + length (reach_each u vs s).to_visit
          ≡ unreached s.depth g.num_nodes + length s.to_visit)
unfolding reach_each
reach_each-Filling g source u k [] s is edges f at = (f, refl)
reach_each-Filling g source u k (v ∷ vs) s is edges f at =
    let edge = edges v (unfold contains in (ground arith)) in
    let (at', work) = reach-work u v k g.num_nodes s (is.inside u v edge) at in
    let (f', work') =
      reach_each-Filling g source u k vs (reach u s v) is
        (λ w c. edges w (unfold contains in (ground (arith, c))))
        (reach-Filling g source u v k vs s f at edge) at' in
    (f', work' ∙ work)

-- The depth of a vertex is -1, or the length of a walk from the source that is as short as any.
pub record IsDistance (g : CsrGraph) (source : ℕ) (depth : Array ℤ) : Type 0 where
  pub shown : (v : ℕ) → (depth v ≡ minus_one) ⊎ ((d : ℕ) × (depth v ≡ pos d) × Walk g source d v)
  pub bound : (j v : ℕ) → Walk g source j v → (d : ℕ) × (depth v ≡ pos d) × (d ≤ j)

Filling-IsDistance :
    (g : CsrGraph) (source k : ℕ) (Busy : ℕ → ℕ → Type 0) (depth : Array ℤ)
    → ((x y : ℕ) → Busy x y → ⊥)
    → Filling g source Busy k (record { depth = depth; to_visit = [] })
    → IsDistance g source depth
Filling-IsDistance g source k Busy depth idle f = record {
  shown = λ v. elim (f.shown v) [ inl e ↦ inl e | inr (d, e, path, le) ↦ inr (d, e, path) ];
  bound = bound;
}
  where
    bound : (j v : ℕ) → Walk g source j v → (d : ℕ) × (depth v ≡ pos d) × (d ≤ j)
    bound _ _ stay = (0, f.zero_at, omega arith)
    bound _ _ (along k u v w edge) =
        let (d, at, le) = bound k u w in
        elim (f.closed u v d at edge) [
          | inl c ↦ absurd (unfold contains in (ground (arith, c)))
          | inr (inl busy) ↦ absurd (idle u v busy)
          | inr (inr (e, here, lt)) ↦ (e, here, omega (arith, le, lt))
        ]

Walk-inside :
    (g : CsrGraph) (source j v : ℕ)
    → IsTransposed g
    → source < g.num_nodes
    → Walk g source j v
    → v < g.num_nodes
Walk-inside g source _ _ is within stay = within
Walk-inside g source _ _ is within (along k u v w edge) = is.inside u v edge

-- Each round reaches a vertex for each that it puts behind the others.
fill_depths-IsDistance :
    (g : CsrGraph) (source k fuel : ℕ) (Busy : ℕ → ℕ → Type 0) (depth : Array ℤ) (to_visit : List ℕ)
    → IsTransposed g
    → source < g.num_nodes
    → ((x y : ℕ) → Busy x y → ⊥)
    → unreached depth g.num_nodes + length to_visit < fuel
    → Filling g source Busy k (record { depth = depth; to_visit = to_visit })
    → (found : Array ℤ) × (fill_depths fuel g depth to_visit ≡ some found)
      × IsDistance g source found
unfolding fill_depths
fill_depths-IsDistance g source k zero Busy depth q is within idle lt f = absurd (omega (arith, lt))
fill_depths-IsDistance g source k (suc fuel) Busy depth [] is within idle lt f =
    (depth, refl, Filling-IsDistance g source k Busy depth idle f)
fill_depths-IsDistance g source k (suc fuel) Busy depth (u ∷ q) is within idle lt f =
    let (d, at, lo, rest) = f.rising in
    let path =
      (Filling-depth g source Busy k (record { depth = depth; to_visit = u ∷ q }) f u d at).0 in
    let (f', work) =
      reach_each-Filling g source u d (row g u) (record { depth = depth; to_visit = q }) is
        (λ v c. (Walk-inside g source d u is within path, c))
        (record {
          zero_at = f.zero_at;
          shown = λ v. elim (f.shown v) [
            | inl e ↦ inl e
            | inr (c, e, path, le) ↦ inr (c, e, path, omega (arith, le, lo))
          ];
          closed = λ x y c e xy. elim (f.closed x y c e xy) [
            | inl met ↦ elim (Bool-cases (x == u)) [
              | inl same ↦
                  let at_u = (==_iff x u).0 same in
                  inr (inl (at_u, ap (λ z. contains y (row g z)) (sym at_u) ∙ xy.1))
              | inr other ↦ inl (unfold contains in (ground (arith, met, other)))
            ]
            | inr (inl busy) ↦ absurd (idle x y busy)
            | inr (inr ok) ↦ inr (inr ok)
          ];
          rising = rest;
        })
        at in
    let t : Depths = reach_each u (row g u) (record { depth = depth; to_visit = q }) in
    fill_depths-IsDistance g source d fuel (λ x y. (x ≡ u) × (contains y [] ≡ true)) t.depth
      t.to_visit is within (λ x y (e, c). unfold contains in (ground (arith, c)))
      (omega (arith, lt, work)) f'

pub filled-IsDistance :
    (g : CsrGraph) (source : ℕ)
    → IsTransposed g
    → source < g.num_nodes
    → (found : Array ℤ) × (fill_depths
          (g.num_nodes + 2)
          g
          (write (λ v. minus_one) source (pos 0))
          (source ∷ [])
        ≡ some found)
      × IsDistance g source found
filled-IsDistance g source is within =
    fill_depths-IsDistance g source 0 (g.num_nodes + 2) (λ x y. ⊥)
      (write (λ v. minus_one) source (pos 0)) (source ∷ []) is within (λ x y b. b)
      (omega (arith, unreached_le (write (λ v. minus_one) source (pos 0)) g.num_nodes))
      (record {
        zero_at = ground arith;
        shown = λ v. elim (Bool-cases (v == source)) [
          | inl is_source ↦ inr (
            0,
            ground (arith, is_source),
            subst (Walk g source 0) (sym ((==_iff v source).0 is_source)) stay,
            omega arith,
          )
          | inr other ↦ inl (ground (arith, other))
        ];
        closed = λ v w d e vw. elim (Bool-cases (v == source)) [
          | inl is_source ↦ inl (unfold contains in (ground (arith, is_source)))
          | inr other ↦ absurd (ground (arith, other, e))
        ];
        rising = (0, ground arith, omega arith, tt);
      })
