-- ===== src/Triangles/Hybrid.antt =====
-- Hybrid of src/tc.cc: whether it relabels the graph or not, it counts the same triangles.
use shared_gapbs.Base.{
  sum, refl, ◌+◌, ◌/◌, min, none, suc, zero, List, [], ◌∷◌, chain-some, Array, Rearranges-below,
  Rearranges, inr, inl, subst, Bool-cases, ℕ, ◌<◌, ◌≡◌, ap, sym, ◌∙◌, arith, Bool, true, false,
  ◌&&◌, ◌==◌, ltb, some, done, Run, sum_below, sum_below-ext, map, ◌>>=◌,
}
use shared_gapbs.Graph.{CsrGraph, out_degree, to_list, out_neigh}
use shared_gapbs.Stl.{sort, contains, AscendsFrom}
use shared_gapbs.Stl.Mapped.{contains-sort-map, contains-sort-map_none, AscendsFrom-sort-map}
use shared_gapbs.Builder.Relabel
use shared_gapbs.Builder.Relabel.{relabel_by_degree}
use shared_gapbs.Builder.Relabel.Correct.{IsRelabelled, relabel_by_degree-IsRelabelled}
use shared_gapbs.Benchmark.Picking.{pick_next-ends}
use shared_gapbs.Triangles.{
  ordered_count, take_samples, sample_at, worth_relabelling, count_either, hybrid,
}
use shared_gapbs.Triangles.Adjacency.{triangles_of, IsAdjacency, ordered_count-triangles_of}
use shared_gapbs.Triangles.Triples.{pairs, triple, triples, triples-triangles_of}

-- A sum over all triples is kept by a rearrangement of the vertices.
Rearranges-triples :
    (f : ℕ → ℕ → ℕ → ℕ) (n : ℕ) (σ : ℕ → ℕ)
    → Rearranges n σ
    → triples (λ u v w. f (σ u) (σ v) (σ w)) n ≡ triples f n
Rearranges-triples f n σ keeps =
    sum_below-ext _ _ n (λ u h.
      sum_below-ext _ _ n (λ v h'. keeps (f (σ u) (σ v))) ∙ keeps (λ v. sum_below (f (σ u) v) n))
    ∙ keeps (λ u. pairs (f u) n)

module _ (adj : ℕ → ℕ → Bool) (g : CsrGraph) (is : IsAdjacency adj g)
    (comm : (u v : ℕ) → adj u v ≡ adj v u)
    (inside : (u v : ℕ) → adj u v ≡ true → v < g.num_nodes) where
  module _ (h : CsrGraph) (r : IsRelabelled g h) where
    abbrev n : ℕ
    n = g.num_nodes

    -- The relation of the renumbered vertices.
    abbrev moved : ℕ → ℕ → Bool
    moved k l = ltb k n && ltb l n && adj (r.old_id k) (r.old_id l)

    abbrev row : ℕ → List ℕ
    row k = to_list (out_neigh g (r.old_id k) 0)

    member : (k x : ℕ) → k < n → contains x (row k) ≡ true → x < n
    member k x h' e =
        let lt = Rearranges-below n r.old_id r.keeps k h' in
        inside (r.old_id k) x (sym (is.adjacent (r.old_id k) x lt) ∙ e)

    -- A new number, and the vertex it stands for.
    renumbered : (z x : ℕ) → z < n → x < n → (z == r.new_id x) ≡ (r.old_id z == x)
    renumbered z x h' h'' =
        let back = r.back z h' in
        let (lt, forth) = r.forth x h'' in ground (arith, back, forth, ap r.new_id, ap r.old_id)

    row-AscendsFrom : (k : ℕ) → k < n → AscendsFrom 0 (sort (map r.new_id (row k)))
    row-AscendsFrom k h' =
        let lt = Rearranges-below n r.old_id r.keeps k h' in
        AscendsFrom-sort-map r.new_id 0 (row k) (is.ascending (r.old_id k) lt) (λ x y e e'.
          let x_below = member k x h' e in
          let y_below = member k y h' e' in
          let (x_new, x_old) = r.forth x x_below in
          renumbered (r.new_id x) y x_new y_below ∙ ap (λ u. u == y) x_old)

    row-contains : (k z : ℕ) → k < n → contains z (sort (map r.new_id (row k))) ≡ moved k z
    row-contains k z h' =
        let lt = Rearranges-below n r.old_id r.keeps k h' in
        elim (Bool-cases (ltb z n)) [
          | inl below ↦
              contains-sort-map r.new_id z (r.old_id z) (row k)
                (λ x e. renumbered z x (ground arith) (member k x h' e))
              ∙ is.adjacent (r.old_id k) (r.old_id z) lt
              ∙ ground arith
          | inr above ↦
              contains-sort-map_none r.new_id z (row k)
                (λ x e. let (x_new, x_old) = r.forth x (member k x h' e) in ground arith)
              ∙ ground arith
        ]

    moved-IsAdjacency : IsAdjacency moved h
    moved-IsAdjacency = record {
      ascending = λ v lt.
          let lt' : v < n = omega (arith, lt, r.nodes) in
          subst (AscendsFrom 0) (sym (r.rows v lt')) (row-AscendsFrom v lt');
      adjacent = λ v z lt.
          let lt' : v < n = omega (arith, lt, r.nodes) in
          ap (contains z) (r.rows v lt') ∙ row-contains v z lt';
      irreflexive = λ v. let none = is.irreflexive (r.old_id v) in ground arith;
    }

    -- The renumbered relation has as many triangles.
    triangles_of-moved : triangles_of moved n ≡ triangles_of adj n
    triangles_of-moved =
        let moved_twice =
          triples-triangles_of moved (λ u v. let c = comm (r.old_id u) (r.old_id v) in ground arith)
            moved-IsAdjacency.irreflexive n in
        let once = triples-triangles_of adj comm is.irreflexive n in
        let same : triples (triple moved) n ≡ triples (triple adj) n =
          sum_below-ext _ _ n
            (λ u hu. sum_below-ext _ _ n (λ v hv. sum_below-ext _ _ n (λ w hw. ground arith)))
          ∙ Rearranges-triples (triple adj) n r.old_id r.keeps in
        omega (arith, moved_twice, once, same)

    relabelled_count : ordered_count h ≡ some (triangles_of adj n)
    relabelled_count =
        ordered_count-triangles_of moved h moved-IsAdjacency
        ∙ ap some (ap (triangles_of moved) r.nodes ∙ triangles_of-moved)

  count_either-triangles_of :
      (fresh : Relabel.Fresh) (worth : Bool)
      → g.directed ≡ false
      → count_either fresh worth g ≡ done (some (triangles_of adj g.num_nodes))
  unfolding count_either
  count_either-triangles_of fresh false undirected = ap done (ordered_count-triangles_of adj g is)
  count_either-triangles_of fresh true undirected =
      let (h, e, r) = relabel_by_degree-IsRelabelled fresh g undirected in
      ap (λ (m : Run CsrGraph). m >>= (λ h. done (ordered_count h))) e
      ∙ ap done (relabelled_count h r)

  module _ (draws : Array ℕ) (fuel : ℕ)
      (often : (p : ℕ) → (k : ℕ) × (k < fuel) × (0 < out_degree g (draws (p + k)))) where
    take_samples-ends :
        (trials drawn : ℕ)
        → (samples : List ℕ) × (take_samples draws fuel g trials
              (record { given_source = none; drawn = drawn })
            ≡ some samples)
    unfolding take_samples
    take_samples-ends zero drawn = ([], refl)
    take_samples-ends (suc trials) drawn =
        let (v, after, e) = pick_next-ends draws g fuel often drawn in
        let (samples, e') = take_samples-ends trials after in
        (out_degree g v ∷ samples, rw (e, e') refl)

    worth_relabelling-ends :
        (exceeds : ℕ → ℕ → ℕ → Bool)
        → (worth : Bool) × (worth_relabelling exceeds draws fuel g ≡ some worth)
    unfolding worth_relabelling
    worth_relabelling-ends exceeds = elim (Bool-cases (ltb (g.num_edges / g.num_nodes) 10)) [
      | inl sparse ↦ (false, rw sparse refl)
      | inr dense ↦
          let (samples, e) = take_samples-ends (min 1000 g.num_nodes) 0 in
          (
            exceeds (sum samples) (min 1000 g.num_nodes)
                (sample_at (sort samples) (min 1000 g.num_nodes / 2)),
            rw (dense, e) refl,
          )
    ]

    pub hybrid-triangles_of :
        (fresh : Relabel.Fresh) (exceeds : ℕ → ℕ → ℕ → Bool)
        → g.directed ≡ false
        → hybrid fresh exceeds draws fuel g ≡ some (done (some (triangles_of adj g.num_nodes)))
    unfolding hybrid
    hybrid-triangles_of fresh exceeds undirected =
        let (worth, e) = worth_relabelling-ends exceeds in
        chain-some (worth_relabelling exceeds draws fuel g)
          (λ worth. some (count_either fresh worth g)) worth e
        ∙ ap some (count_either-triangles_of fresh worth undirected)
