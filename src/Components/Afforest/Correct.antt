-- ===== src/Components/Afforest/Correct.antt =====
-- Afforest of src/cc.cc labels the components, whatever component its sampling picks.
use shared_gapbs.Base.{
  chain-some, Bool, ℕ, ◌<◌, ◌≡◌, refl, ap, subst, ◌∙◌, ◌⊎◌, inl, inr, arith, Array, List, true,
  false, take, drop, if◌then◌else◌, ◌==◌, some, chain, for_each, eq_or_ne, Bool-cases,
}
use shared_gapbs.Graph.{CsrGraph, to_list, out_neigh}
use shared_gapbs.Stl.{contains}
use shared_gapbs.Stl.Laws.{contains-take-drop, contains-drop}
use shared_gapbs.Components.{compress}
use shared_gapbs.Components.Closure.{Connected, one, back, on, Points, IsForest}
use shared_gapbs.Components.Compressing.{compress-IsShorter}
use shared_gapbs.Components.Afforest.{
  init_comp, link_each, link_first, sample_round, link_rest, afforest,
}
use shared_gapbs.Components.Afforest.Growing.{
  grow_each, Grows, Grows-same, Grows-trans, IsShorter-Grows, Near, All, link_each-Grows,
  link_first-Grows,
}
use shared_gapbs.Components.Afforest.Labels.{
  row, column, Edge, IsMirrored, IsLabelling, init_comp-IsForest, Grows-IsLabelling,
  out_neigh_offset,
}

module _ (g : CsrGraph) (is : IsMirrored g) where
  abbrev n : ℕ
  n = g.num_nodes

  abbrev Grow : Array ℕ → Array ℕ → Type 0
  Grow = Grows n (Edge g)

  All-keep :
      (u : ℕ) (vs : List ℕ) (s t : Array ℕ)
      → Grow s t
      → All n (Edge g) u vs s
      → All n (Edge g) u vs t
  All-keep u vs s t gr all v c = gr.kept u v (all v c)

  Near-row : (u r : ℕ) → u < n → Near n (Edge g) u (drop r (row g u))
  Near-row u r h v c =
      let e : Edge g u v = (h, contains-drop r v (row g u) c) in (is.inside u v e, one u v e)

  Near-column : (u : ℕ) → u < n → Near n (Edge g) u (column g u)
  Near-column u h v c = let e = is.in_edges u v h c in (e.0, back v u (one v u e))

  -- What a round of sampling leaves: every vertex is connected to its neighbour number `r`.
  abbrev Sampled : ℕ → Array ℕ → Type 0
  Sampled r comp = (u : ℕ) → u < n → All n (Edge g) u (take 1 (drop r (row g u))) comp

  compress-Grows :
      (comp : Array ℕ)
      → IsForest n comp
      → (after : Array ℕ) × (compress n comp ≡ some after)
        × Grow comp after
        × ((k : ℕ) → k < n → after (after k) ≡ after k)
  compress-Grows comp f =
      let (after, e, s, flat) = compress-IsShorter n comp f in
      (after, e, IsShorter-Grows n (Edge g) comp after s, flat)

  sample_round-Sampled :
      (r : ℕ) (comp : Array ℕ)
      → IsForest n comp
      → (after : Array ℕ) × (sample_round g r comp ≡ some after)
        × IsForest n after
        × Grow comp after
        × Sampled r after
  unfolding sample_round
  sample_round-Sampled r comp f =
      let (mid, e, gr, all) =
        grow_each n (Edge g) (λ u comp. All n (Edge g) u (take 1 (drop r (row g u))) comp)
          (λ u s t gr. All-keep u (take 1 (drop r (row g u))) s t gr) n
          (λ u. link_first u (to_list (out_neigh g u r))) (step r) comp f in
      let (after, e', gr', flat) = compress-Grows mid gr.forest in
      (
        after,
        ap (λ o. chain o (compress n)) e ∙ e',
        gr'.forest,
        Grows-trans n (Edge g) comp mid after gr gr',
        λ u h. All-keep u (take 1 (drop r (row g u))) mid after gr' (all u h),
      )
    where
      step :
          (r u : ℕ) (s : Array ℕ)
          → u < n
          → IsForest n s
          → (t : Array ℕ) × (link_first u (to_list (out_neigh g u r)) s ≡ some t)
            × Grow s t
            × All n (Edge g) u (take 1 (drop r (row g u))) t
      step r u s h f =
          rw (out_neigh_offset g u r)
            (link_first-Grows n (Edge g) u (drop r (row g u)) s h (Near-row u r h) f)

  -- What the final loop leaves of a vertex: it is in the component `c`, or all that sampling left of
  -- its edges is linked.
  abbrev Rest : ℕ → ℕ → ℕ → Array ℕ → Type 0
  Rest k c u comp =
      Connected (Points n comp) u c
      ⊎ (All n (Edge g) u (drop k (row g u)) comp
          × (g.directed ≡ true → All n (Edge g) u (column g u) comp))

  Rest-keep : (k c u : ℕ) (s t : Array ℕ) → Grow s t → Rest k c u s → Rest k c u t
  Rest-keep k c u s t gr (inl d) = inl (gr.kept u c d)
  Rest-keep k c u s t gr (inr (out, into)) =
      inr (All-keep u _ s t gr out, λ d. All-keep u _ s t gr (into d))

  link_rest-Rest :
      (k c u : ℕ) (comp : Array ℕ)
      → u < n
      → IsForest n comp
      → (after : Array ℕ) × (link_rest g k c u comp ≡ some after)
        × Grow comp after
        × Rest k c u after
  unfolding link_rest
  link_rest-Rest k c u comp h f = elim (eq_or_ne (comp u) c) [
    | inl e ↦
        let test : (comp u == c) ≡ true = ground arith in
        (comp, rw test refl, Grows-same n (Edge g) comp f, inl (one u c (h, e)))
    | inr other ↦
        let test : (comp u == c) ≡ false = ground arith in
        let (mid, e, gr, all) =
          link_each-Grows n (Edge g) u (drop k (row g u)) comp h (Near-row u k h) f in
        let (after, e', gr', all') =
          link_each-Grows n (Edge g) u (column g u) mid h (Near-column u h) gr.forest in
        elim (Bool-cases g.directed) [
          | inl d ↦ (
            after,
            rw (test, out_neigh_offset g u k)
                (which d ∙ ap (λ o. chain o (link_each u (column g u))) e ∙ e'),
            Grows-trans n (Edge g) comp mid after gr gr',
            inr (All-keep u _ mid after gr' all, λ d. all'),
          )
          | inr d ↦ (
            mid,
            rw (test, out_neigh_offset g u k) (which d ∙ e),
            gr,
            inr (all, λ d'. absurd (ground arith)),
          )
        ]
  ]
    where
      which :
          {b : Bool}
          → g.directed ≡ b
          → (if g.directed
              then chain (link_each u (drop k (row g u)) comp) (link_each u (column g u))
              else link_each u (drop k (row g u)) comp)
            ≡ (if b
                then chain (link_each u (drop k (row g u)) comp) (link_each u (column g u))
                else link_each u (drop k (row g u)) comp)
      which d =
          ap
            (λ b.
              if b
              then chain (link_each u (drop k (row g u)) comp) (link_each u (column g u))
              else link_each u (drop k (row g u)) comp)
            d

  -- Every edge is connected once all vertices are sampled and handled.
  edges_connected :
      (k c : ℕ) (comp : Array ℕ)
      → ((r : ℕ) → r < k → Sampled r comp)
      → ((u : ℕ) → u < n → Rest k c u comp)
      → (u v : ℕ) → Edge g u v
      → Connected (Points n comp) u v
  edges_connected k c comp sampled rest u v e = elim (contains-take-drop k v (row g u) e.1) [
    | inl (r, lt, h) ↦ sampled r lt u e.0 v h
    | inr h ↦ elim (rest u e.0) [
      | inr (out, into) ↦ out v h
      | inl here ↦ from here (rest v (is.inside u v e))
    ]
  ]
    where
      mirrored :
          (out : All n (Edge g) v (drop k (row g v)) comp)
          (into : g.directed ≡ true → All n (Edge g) v (column g v) comp)
          → Connected (Points n comp) v u
      mirrored out into = elim (Bool-cases g.directed) [
        | inl d ↦
            into d u (
              subst (λ b. contains u (if b then column g v else row g v) ≡ true) d
                (is.mirror u v e))
        | inr d ↦
            elim (contains-take-drop k u (row g v) (
              subst (λ b. contains u (if b then column g v else row g v) ≡ true) d
                (is.mirror u v e))) [
                  | inl (r, lt, h) ↦ sampled r lt v (is.inside u v e) u h
                  | inr h ↦ out u h
                ]
      ]

      from : Connected (Points n comp) u c → Rest k c v comp → Connected (Points n comp) u v
      from here (inl there) = on u c v here (back v c there)
      from here (inr (out, into)) = back v u (mirrored out into)

  -- On a graph, directed or not, whose neighbours are vertices and whose edges are found from both
  -- ends, Afforest ends, whatever memory it is given, however many rounds it samples and whichever
  -- component the sampling picks: every label is a vertex that labels itself and is not above the
  -- labelled one, and two vertices have the same label exactly if edges connect them.
  pub afforest-IsLabelling :
      (fresh : Array ℕ) (sample : Array ℕ → ℕ) (neighbor_rounds : ℕ)
      → (comp : Array ℕ) × (afforest fresh sample g neighbor_rounds ≡ some comp)
        × IsLabelling g comp
  unfolding afforest
  afforest-IsLabelling fresh sample k =
      let start = init_comp n fresh in
      let (a, ea, ga, sampled) =
        grow_each n (Edge g) Sampled (λ r s t gr d u h. All-keep u _ s t gr (d u h)) k
          (sample_round g)
          (λ r s lt f. let (t, e, f', gr, d) = sample_round-Sampled r s f in (t, e, gr, d)) start
          (init_comp-IsForest n fresh) in
      let (b, eb, gb, rest) =
        grow_each n (Edge g) (Rest k (sample a)) (Rest-keep k (sample a)) n
          (link_rest g k (sample a)) (λ u s h f. link_rest-Rest k (sample a) u s h f) a ga.forest in
      let (c, ec, gc, flat) = compress-Grows b gb.forest in
      (
        c,
        chain-some (for_each k (sample_round g) start) _ a ea
            ∙ chain-some (for_each n (link_rest g k (sample a)) a) (compress n) b eb
            ∙ ec,
        Grows-IsLabelling g fresh c
            (Grows-trans n (Edge g) start a c ga (Grows-trans n (Edge g) a b c gb gc))
            (edges_connected k (sample a) c
              (λ r lt u h. All-keep u _ a c (Grows-trans n (Edge g) a b c gb gc) (sampled r lt u h))
              (λ u h. Rest-keep k (sample a) u b c gc (rest u h)))
            flat,
      )
