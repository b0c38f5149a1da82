-- ===== src/Components/Hooking/Correct.antt =====
-- ShiloachVishkin of src/cc_sv.cc ends and labels the components; so do it and Afforest of src/cc.cc
-- alike.
use shared_gapbs.Base.{
  ℕ, zero, suc, ◌≤◌, ◌<◌, ◌≡◌, refl, ap, sym, subst, ◌∙◌, arith, true, false, Array, some, Option,
  chain-some, sum_below, for_range_inv, lt_suc_cases, inl, inr, Bool-cases,
}
use shared_gapbs.Graph.{CsrGraph, to_list, out_neigh}
use shared_gapbs.Stl.{contains}
use shared_gapbs.Components.{compress}
use shared_gapbs.Components.Closure.{Connected, one, Points, IsForest}
use shared_gapbs.Components.Compressing.{compress-IsShorter}
use shared_gapbs.Components.Afforest.{init_comp, afforest}
use shared_gapbs.Components.Afforest.Growing.{Grows, Grows-trans, IsShorter-Grows}
use shared_gapbs.Components.Afforest.Labels.{
  row, Edge, IsMirrored, IsLabelling, init_comp_lem, init_comp-IsForest, Connected-label,
  Grows-IsLabelling, label-Connected,
}
use shared_gapbs.Components.Afforest.Correct.{afforest-IsLabelling}
use shared_gapbs.Components.Hooking.{Hooking, hook_each, hook_all, sv_loop, shiloach_vishkin}
use shared_gapbs.Components.Hooking.Rounds.{
  Passed, Passed-same, Passed-trans, Agree, Agree-keep, hook_each-Passed,
}

sum_below_mono :
    (f g : ℕ → ℕ) (n : ℕ) → ((i : ℕ) → i < n → f i ≤ g i) → sum_below f n ≤ sum_below g n
sum_below_mono f g zero h = omega arith
sum_below_mono f g (suc n) h =
    omega (arith, sum_below_mono f g n (λ i lt. h i (omega arith)), h n (omega arith))

module _ (g : CsrGraph) (inside : (u v : ℕ) → Edge g u v → v < g.num_nodes) where
  abbrev n : ℕ
  n = g.num_nodes

  abbrev IsFlat : Array ℕ → Type 0
  IsFlat comp = (k : ℕ) → k < n → comp (comp k) ≡ comp k

  hook_all-Passed :
      (comp : Array ℕ)
      → IsForest n comp
      → Passed n (Edge g) (record { comp = comp; change = false }) (hook_all g comp)
        × ((u v : ℕ) → Edge g u v → Agree n (Edge g) u v (hook_all g comp))
  unfolding hook_all
  hook_all-Passed comp f =
      let start : Hooking = record { comp = comp; change = false } in
      let (p, a) =
        for_range_inv
          (λ k s.
            Passed n (Edge g) start s
            × ((u v : ℕ) → u < k → contains v (row g u) ≡ true → Agree n (Edge g) u v s))
          n (λ u. hook_each u (to_list (out_neigh g u 0))) n 0 start (omega arith)
          (λ k s lo hi (p, a).
            let (q, b) =
              hook_each-Passed n (Edge g) k (row g k) s hi
                (λ v c. (inside k v (hi, c), one k v (hi, c))) p.grows.forest in
            (
              Passed-trans n (Edge g) start s (hook_each k (row g k) s) p q,
              λ u v lt c. elim (lt_suc_cases u k lt) [
                | inl old ↦ Agree-keep n (Edge g) u v s (hook_each k (row g k) s) q (a u v old c)
                | inr now ↦
                    subst
                      (λ u.
                        contains v (row g u) ≡ true
                        → Agree n (Edge g) u v (hook_each k (row g k) s))
                      (sym now) (b v) c
              ],
            ))
          (Passed-same n (Edge g) start f, λ u v lt. absurd (omega arith)) in
      (p, λ u v e. a u v e.0 e.1)

  -- Compressing does not raise a label.
  compress_le :
      (comp after : Array ℕ)
      → IsForest n comp
      → Grows n (Edge g) comp after
      → IsFlat after
      → sum_below after n ≤ sum_below comp n
  compress_le comp after f gr flat = sum_below_mono after comp n λ x h.
      let e =
        Connected-label n after flat x (comp x) (gr.kept x (comp x) (one x (comp x) (h, refl))) in
      omega (arith, e, gr.forest (comp x) (omega (arith, f x h)))

  sv_loop-Grows :
      (fuel : ℕ) (comp : Array ℕ)
      → sum_below comp n < fuel
      → IsForest n comp
      → IsFlat comp
      → (after : Array ℕ) × (sv_loop fuel g comp ≡ some after)
        × Grows n (Edge g) comp after
        × IsFlat after
        × ((u v : ℕ) → Edge g u v → Connected (Points n after) u v)
  unfolding sv_loop
  sv_loop-Grows zero comp h f flat = absurd (omega arith)
  sv_loop-Grows (suc fuel) comp h f flat =
      let s = hook_all g comp in
      let (p, a) = hook_all-Passed comp f in
      let (mid, e, sh, flat') = compress-IsShorter n s.comp p.grows.forest in
      let gm = IsShorter-Grows n (Edge g) s.comp mid sh in
      let gr = Grows-trans n (Edge g) comp s.comp mid p.grows gm in
      elim (Bool-cases s.change) [
        | inl changed ↦
            let smaller : sum_below s.comp n < sum_below comp n = elim (p.less changed) [
              | inl e ↦ absurd (ground arith)
              | inr lt ↦ lt
            ] in
            let (after, e', gr', flat'', edges) =
              sv_loop-Grows fuel mid
                (omega (arith, smaller, compress_le s.comp mid p.grows.forest gm flat')) gm.forest
                flat' in
            (
              after,
              chain-some (compress n s.comp) _ mid e
                  ∙ ap
                      (λ b. elim b as (λ b. Option (Array ℕ)) [
                        | true ↦ sv_loop fuel g mid
                        | false ↦ some mid
                      ])
                      changed
                  ∙ e',
              Grows-trans n (Edge g) comp mid after gr gr',
              flat'',
              edges,
            )
        | inr still ↦ (
          mid,
          chain-some (compress n s.comp) _ mid e
              ∙ ap
                  (λ b. elim b as (λ b. Option (Array ℕ)) [
                    | true ↦ sv_loop fuel g mid
                    | false ↦ some mid
                  ])
                  still,
          gr,
          flat',
          λ u v d. gm.kept u v (
              label-Connected n s.comp u v d.0 (inside u v d)
                (a u v d still (subst IsFlat (sym (p.still still).1) flat))),
        )
      ]

  -- On a graph whose out-neighbours are vertices, ShiloachVishkin ends within as many rounds as
  -- the sum of the vertices plus one, whatever memory it is given: every label is a vertex that
  -- labels itself and is not above the labelled one, and two vertices have the same label exactly
  -- if edges connect them.
  pub shiloach_vishkin-IsLabelling :
      (fresh : Array ℕ)
      → (comp : Array ℕ) × (shiloach_vishkin fresh g ≡ some comp) × IsLabelling g comp
  unfolding shiloach_vishkin
  shiloach_vishkin-IsLabelling fresh =
      let start = init_comp n fresh in
      let flat : IsFlat start = λ k h. ap start (init_comp_lem n fresh k h) in
      let (after, e, gr, flat', edges) =
        sv_loop-Grows (suc (sum_below start n)) start (omega arith) (init_comp-IsForest n fresh)
          flat in
      (after, e, Grows-IsLabelling g fresh after gr edges flat')

-- The labels of a graph are determined: each is the smallest vertex of its component.
IsLabelling-unique :
    (g : CsrGraph) (a b : Array ℕ)
    → ((u v : ℕ) → Edge g u v → v < g.num_nodes)
    → IsLabelling g a
    → IsLabelling g b
    → (x : ℕ) → x < g.num_nodes
    → a x ≤ b x
IsLabelling-unique g a b inside l k x h =
    let at : b x < g.num_nodes = omega (arith, k.below x h) in
    let joined = (k.agrees x (b x) h at).0 (sym (k.root x h)) in
    let e = (l.agrees x (b x) h at).1 joined in omega (arith, e, l.below (b x) at)

-- On a graph whose neighbours are vertices and whose edges are found from both ends, Afforest and
-- ShiloachVishkin both end, and give every vertex the same label, whatever Afforest samples.
pub afforest-shiloach_vishkin :
    (g : CsrGraph) (fresh fresh' : Array ℕ) (sample : Array ℕ → ℕ) (neighbor_rounds : ℕ)
    → IsMirrored g
    → (a b : Array ℕ) × (afforest fresh sample g neighbor_rounds ≡ some a)
      × (shiloach_vishkin fresh' g ≡ some b)
      × ((x : ℕ) → x < g.num_nodes → a x ≡ b x)
afforest-shiloach_vishkin g fresh fresh' sample k is =
    let (a, e, l) = afforest-IsLabelling g is fresh sample k in
    let (b, e', l') = shiloach_vishkin-IsLabelling g is.inside fresh' in
    (
      a,
      b,
      e,
      e',
      λ x h. omega (
        arith,
        IsLabelling-unique g a b is.inside l l' x h,
        IsLabelling-unique g b a is.inside l' l x h,
      ),
    )
