-- ===== src/Builder/Relabel/Numbering.antt =====
-- The new numbers of the vertices in RelabelByDegree (src/builder.h).
use shared_gapbs.Base.{
  sum_below-none, Rearranges-onto, Rearranges-apart, Rearranges, ℕ, suc, ◌≤◌, ◌<◌, ◌≡◌, refl, ap,
  sym, ◌∙◌, arith, inl, inr, ◌==◌, if◌then◌else◌, lt_suc_cases, sum_below-ext, sum_below-zero,
  for_range_inv,
}
use shared_gapbs.PVector.{PVector, get}
use shared_gapbs.Graph.{CsrGraph, out_degree}
use shared_gapbs.Builder.Relabel.{Fresh, Numbered, sorted_pairs, number_vertex, number_vertices}
use shared_gapbs.Builder.Relabel.Sorting.{pairs_sum, pairs_fall}

module _ (fresh : Fresh) (g : CsrGraph) where
  abbrev n : ℕ
  n = g.num_nodes

  abbrev pairs : PVector (ℕ × ℕ)
  pairs = sorted_pairs fresh.degree_id_pairs g

  -- The vertex that is numbered `k`.
  abbrev pub old_id : ℕ → ℕ
  old_id k = (get pairs k).1

  pub old_id-Rearranges : Rearranges g.num_nodes old_id
  old_id-Rearranges h = pairs_sum fresh.degree_id_pairs g (λ p. h p.1)

  pair_degree : (k : ℕ) → k < n → (get pairs k).0 ≡ out_degree g (old_id k)
  pair_degree k h =
      let none =
        pairs_sum fresh.degree_id_pairs g (λ p. if p.0 == out_degree g p.1 then 0 else 1)
        ∙ sum_below-ext (λ v. if out_degree g v == out_degree g v then 0 else 1) (λ v. 0) n
            (λ v lt. ground arith)
        ∙ sum_below-zero n in
      let cell =
        sum_below-none (λ k. if (get pairs k).0 == out_degree g (old_id k) then 0 else 1) n k none
          h in
      ground (arith, cell)

  -- After the rounds below `i`.
  record IsNumbered (i : ℕ) (s : Numbered) : Type 0 where
    size : s.degrees.size ≡ n
    degree : (k : ℕ) → k < i → get s.degrees k ≡ (get pairs k).0
    number : (k : ℕ) → k < i → get s.new_ids (old_id k) ≡ k

  numbered : IsNumbered n (number_vertices fresh g)
  unfolding number_vertices number_vertex
  numbered =
      for_range_inv IsNumbered n (number_vertex pairs) n 0 _ (omega arith)
        (λ i s lo hi p. record {
          size = p.size;
          degree = λ k lt. ground (arith, p.degree k, lt_suc_cases k i lt);
          number = λ k lt. elim (lt_suc_cases k i lt) [
            | inl below ↦
                let other = Rearranges-apart n old_id old_id-Rearranges k i below hi in
                let before = p.number k below in ground (arith, other, before)
            | inr at ↦ ground (arith, at)
          ];
        })
        (record {
          size = refl;
          degree = λ k lt. absurd (omega arith);
          number = λ k lt. absurd (omega arith);
        })

  abbrev s : Numbered
  s = number_vertices fresh g

  pub degrees_size : s.degrees.size ≡ g.num_nodes
  degrees_size = numbered.size

  -- The degrees of the new numbers.
  pub degree_lem : (k : ℕ) → k < g.num_nodes → get s.degrees k ≡ out_degree g (old_id k)
  degree_lem k h = numbered.degree k h ∙ pair_degree k h

  pub degrees_fall :
      (k : ℕ) → suc k < g.num_nodes → out_degree g (old_id (suc k)) ≤ out_degree g (old_id k)
  degrees_fall k h = omega (
    arith,
    pairs_fall fresh.degree_id_pairs g k h,
    pair_degree k (omega arith),
    pair_degree (suc k) h,
  )

  pub new_id-old_id : (k : ℕ) → k < g.num_nodes → get s.new_ids (old_id k) ≡ k
  new_id-old_id k h = numbered.number k h

  -- The number of a vertex is below `n`, and is that of no other vertex.
  pub old_id-new_id :
      (u : ℕ) → u < g.num_nodes → (get s.new_ids u < g.num_nodes) × (old_id (get s.new_ids u) ≡ u)
  old_id-new_id u h =
      let (k, lt, e) = Rearranges-onto n old_id old_id-Rearranges u h in
      let number : get s.new_ids u ≡ k = sym (ap (get s.new_ids) e) ∙ new_id-old_id k lt in
      (omega (arith, number), ap old_id number ∙ e)
