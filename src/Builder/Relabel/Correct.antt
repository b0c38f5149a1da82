-- ===== src/Builder/Relabel/Correct.antt =====
-- The graph that RelabelByDegree (src/builder.h) makes.
use shared_gapbs.Base.{
  Rearranges-below, Rearranges, ℕ, zero, suc, ◌+◌, ◌-◌, ◌≤◌, ◌<◌, ◌≡◌, refl, ap, sym, ◌∙◌, arith,
  Bool, exited, negsuc, if◌then◌else◌, false, map, done, slice, length, inl, inr, lt_suc_cases,
  sum_below,
}
use shared_gapbs.PVector.{PVector, get}
use shared_gapbs.Graph.{CsrGraph, undirected, to_list, out_neigh, out_degree}
use shared_gapbs.Graph.Laws.{gen_index_lem, to_list-out_neigh, length-out_neigh}
use shared_gapbs.Stl.{sort}
use shared_gapbs.Stl.Laws.{length-sort}
use shared_gapbs.Builder.PrefixSum.{parallel_prefix_sum}
use shared_gapbs.Builder.PrefixSum.Blocked.{parallel_prefix_sum-sum_below, size-parallel_prefix_sum}
use shared_gapbs.Builder.Relabel.{Fresh, Numbered, number_vertices, relabelled, relabel_by_degree}
use shared_gapbs.Builder.Relabel.Numbering.{
  old_id, old_id-Rearranges, degrees_size, degree_lem, degrees_fall, new_id-old_id, old_id-new_id,
}
use shared_gapbs.Builder.Relabel.Rows.{length-map, move_vertices}

-- `h` is `g` with vertex `old_id k` numbered `k`, by decreasing degree and with sorted rows.
pub record IsRelabelled (g h : CsrGraph) : Type 0 where
  pub old_id : ℕ → ℕ
  pub new_id : ℕ → ℕ
  pub nodes : h.num_nodes ≡ g.num_nodes
  pub undirected : h.directed ≡ false
  pub keeps : Rearranges g.num_nodes old_id
  pub back : (k : ℕ) → k < g.num_nodes → new_id (old_id k) ≡ k
  pub forth : (u : ℕ) → u < g.num_nodes → (new_id u < g.num_nodes) × (old_id (new_id u) ≡ u)
  pub rows :
      (k : ℕ)
      → k < g.num_nodes
      → to_list (out_neigh h k 0) ≡ sort (map new_id (to_list (out_neigh g (old_id k) 0)))
  pub falls : (k : ℕ) → suc k < g.num_nodes → out_degree h (suc k) ≤ out_degree h k

module _ (fresh : Fresh) (g : CsrGraph) where
  abbrev n : ℕ
  n = g.num_nodes

  abbrev s : Numbered
  s = number_vertices fresh g

  abbrev σ : ℕ → ℕ
  σ = old_id fresh g

  abbrev offsets : PVector ℕ
  offsets = parallel_prefix_sum fresh.local_sums fresh.bulk_prefix fresh.offsets s.degrees

  -- Where the region of a new number begins.
  abbrev base : ℕ → ℕ
  base = sum_below s.degrees.cells

  base_mono : (v w : ℕ) → v < w → w ≤ n → base (suc v) ≤ base w
  base_mono v zero h k = absurd (omega arith)
  base_mono v (suc w) h k = elim (lt_suc_cases v w h) [
    | inl lt ↦ omega (arith, base_mono v w lt)
    | inr e ↦ omega (arith, ap base e, ap s.degrees.cells e)
  ]

  offsets-base : (v : ℕ) → v ≤ n → get offsets v ≡ base v
  offsets-base v h =
      parallel_prefix_sum-sum_below fresh.local_sums fresh.bulk_prefix fresh.offsets s.degrees v
        (omega (arith, degrees_size fresh g))

  abbrev graph : CsrGraph
  graph = relabelled fresh g

  index-base : (v : ℕ) → v ≤ n → graph.out_index v ≡ base v
  unfolding relabelled undirected
  index-base v h =
      let room =
        size-parallel_prefix_sum fresh.local_sums fresh.bulk_prefix fresh.offsets s.degrees in
      omega (
        arith,
        gen_index_lem fresh.index offsets 0 v (omega (arith, degrees_size fresh g, room)),
        offsets-base v h,
      )

  degree_room :
      (u : ℕ)
      → u < n
      → base (get s.new_ids u) + length (to_list (out_neigh g u 0)) ≡ base (suc (get s.new_ids u))
  degree_room u h =
      let (lt, e) = old_id-new_id fresh g u h in
      omega
        (arith, degree_lem fresh g (get s.new_ids u) lt, ap (out_degree g) e, length-out_neigh g u)

  moved :
      (u : ℕ)
      → u < n
      → slice graph.out_cells (base (get s.new_ids u)) (length (to_list (out_neigh g u 0)))
        ≡ sort (map (get s.new_ids) (to_list (out_neigh g u 0)))
  unfolding relabelled undirected
  moved u h =
      move_vertices g graph.out_index s.new_ids base base_mono index-base
        (λ u h. (old_id-new_id fresh g u h).0)
        (λ u v h h' e. sym (old_id-new_id fresh g u h).1 ∙ ap σ e ∙ (old_id-new_id fresh g v h').1)
        degree_room _ (λ k lt. offsets-base k (omega (arith, lt))) u h

  row_lem :
      (k : ℕ)
      → k < n
      → to_list (out_neigh graph k 0) ≡ sort (map (get s.new_ids) (to_list (out_neigh g (σ k) 0)))
  row_lem k h =
      let u = σ k in
      let lt = Rearranges-below n σ (old_id-Rearranges fresh g) k h in
      let at : get s.new_ids u ≡ k = new_id-old_id fresh g k h in
      let here = index-base k (omega (arith, h)) in
      let next = index-base (k + 1) (omega (arith, h)) in
      let more : k + 1 ≡ suc k = omega arith in
      let next' : graph.out_index (k + 1) ≡ base (suc k) = next ∙ ap base more in
      let room = degree_room u lt in
      let size : graph.out_index (k + 1) - graph.out_index k ≡ length (to_list (out_neigh g u 0)) =
        omega (arith, here, next', room, ap base at, ap s.degrees.cells at) in
      to_list-out_neigh graph k 0
      ∙ ap (slice graph.out_cells (graph.out_index k)) size
      ∙ ap (λ p. slice graph.out_cells p (length (to_list (out_neigh g u 0))))
          (here ∙ sym (ap base at))
      ∙ moved u lt

  row_degree : (k : ℕ) → k < n → out_degree graph k ≡ out_degree g (σ k)
  row_degree k h =
      sym (length-out_neigh graph k)
      ∙ ap length (row_lem k h)
      ∙ length-sort (map (get s.new_ids) (to_list (out_neigh g (σ k) 0)))
      ∙ length-map (get s.new_ids) (to_list (out_neigh g (σ k) 0))
      ∙ length-out_neigh g (σ k)

  relabelled-IsRelabelled : IsRelabelled g (relabelled fresh g)
  relabelled-IsRelabelled = record {
    old_id = σ;
    new_id = get s.new_ids;
    nodes = unfold relabelled undirected in refl;
    undirected = unfold relabelled undirected in refl;
    keeps = old_id-Rearranges fresh g;
    back = new_id-old_id fresh g;
    forth = old_id-new_id fresh g;
    rows = row_lem;
    falls = λ k h.
        omega
          (arith, degrees_fall fresh g k h, row_degree k (omega (arith, h)), row_degree (suc k) h);
  }

  -- On an undirected graph RelabelByDegree yields, whatever memory it is given, an undirected
  -- graph with as many vertices; the old number of each new one and the new number of each old one
  -- undo one another, the row of a new vertex is the row of the old one with its members
  -- renumbered and sorted, and no vertex has a higher degree than the one before it.
  pub relabel_by_degree-IsRelabelled :
      g.directed ≡ false → (h : CsrGraph) × (relabel_by_degree fresh g ≡ done h) × IsRelabelled g h
  unfolding relabel_by_degree
  relabel_by_degree-IsRelabelled e = (
    relabelled fresh g,
    ap (λ (b : Bool). if b then exited (negsuc 10) else done (relabelled fresh g)) e,
    relabelled-IsRelabelled,
  )
