-- ===== src/Builder/Relabel/Sorting.antt =====
-- The sorted pairs of RelabelByDegree (src/builder.h): the same pairs, by decreasing degree.
use shared_gapbs.Base.{
  ℕ, zero, suc, ◌+◌, ◌≤◌, ◌<◌, ◌≡◌, refl, ap, sym, ◌∙◌, arith, Array, slice, slice-write_all,
  length, length-slice, sum_list, sum_list-slice_zero, lt_suc_cases, sum_below, sum_below-ext,
  for_range_inv, subst,
}
use shared_gapbs.PVector
use shared_gapbs.PVector.{PVector, get}
use shared_gapbs.Graph.{CsrGraph, out_degree}
use shared_gapbs.Stl.{sort_pairs}
use shared_gapbs.Stl.Pairs.{length-sort_pairs, sum_list-sort_pairs, FallsFrom, FallsFrom-sort_pairs}
use shared_gapbs.Builder.Relabel.{degree_id_pairs, sorted_pairs}

FallsFrom-slice :
    (m : ℕ) (a : Array (ℕ × ℕ)) (p n k : ℕ)
    → FallsFrom m (slice a p n)
    → suc k < n
    → (a (p + suc k)).0 ≤ (a (p + k)).0
FallsFrom-slice m a p zero k r h = absurd (omega arith)
FallsFrom-slice m a p (suc zero) zero r h = absurd (omega arith)
FallsFrom-slice m a p (suc (suc n)) zero r h =
    let here : (a (p + 0)).0 ≡ (a p).0 = ap (λ j. (a j).0) (omega arith) in
    let next : (a (p + 1)).0 ≡ (a (suc p)).0 = ap (λ j. (a j).0) (omega arith) in
    omega (arith, r.1.0, here, next)
FallsFrom-slice m a p (suc n) (suc k) r h =
    let here : (a (p + suc k)).0 ≡ (a (suc p + k)).0 = ap (λ j. (a j).0) (omega arith) in
    let next : (a (p + suc (suc k))).0 ≡ (a (suc p + suc k)).0 = ap (λ j. (a j).0) (omega arith) in
    omega (arith, FallsFrom-slice (a p).0 a (suc p) n k r.1 (omega arith), here, next)

module _ (fresh : Array (ℕ × ℕ)) (g : CsrGraph) where
  Filled : ℕ → PVector (ℕ × ℕ) → Type 0
  Filled i v = (v.size ≡ g.num_nodes) × ((k : ℕ) → k < i → get v k ≡ (out_degree g k, k))

  filled : Filled g.num_nodes (degree_id_pairs fresh g)
  unfolding degree_id_pairs Filled
  filled =
      for_range_inv Filled g.num_nodes _ g.num_nodes 0 _ (omega arith)
        (λ k v lo hi p. (p.0, λ j lt. ground (arith, p.1 j, lt_suc_cases j k lt)))
        (refl, λ k lt. absurd (omega arith))

  abbrev pairs : PVector (ℕ × ℕ)
  pairs = sorted_pairs fresh g

  pairs_list :
      slice pairs.cells 0 g.num_nodes ≡ sort_pairs (PVector.to_list (degree_id_pairs fresh g))
  unfolding sorted_pairs Filled
  pairs_list =
      let v = degree_id_pairs fresh g in
      let count : g.num_nodes ≡ length (sort_pairs (PVector.to_list v)) =
        omega
          (arith, filled.0, length-slice v.cells 0 v.size, length-sort_pairs (PVector.to_list v)) in
      ap (slice pairs.cells 0) count ∙ slice-write_all v.cells 0 (sort_pairs (PVector.to_list v))

  -- A sum over the sorted pairs is one over the vertices.
  pub pairs_sum :
      (f : ℕ × ℕ → ℕ)
      → sum_below (λ k. f (get pairs k)) g.num_nodes
        ≡ sum_below (λ v. f (out_degree g v, v)) g.num_nodes
  unfolding Filled
  pairs_sum f =
      sym (sum_list-slice_zero f pairs.cells g.num_nodes)
      ∙ ap (sum_list f) pairs_list
      ∙ sum_list-sort_pairs f (PVector.to_list (degree_id_pairs fresh g))
      ∙ sum_list-slice_zero f (degree_id_pairs fresh g).cells (degree_id_pairs fresh g).size
      ∙ ap (sum_below (λ i. f ((degree_id_pairs fresh g).cells i))) filled.0
      ∙ sum_below-ext _ (λ v. f (out_degree g v, v)) g.num_nodes (λ v lt. ap f (filled.1 v lt))

  pub pairs_fall : (k : ℕ) → suc k < g.num_nodes → (get pairs (suc k)).0 ≤ (get pairs k).0
  pairs_fall k h =
      let at : (j : ℕ) → (pairs.cells (0 + j)).0 ≡ (pairs.cells j).0 =
        λ j. ap (λ j. (pairs.cells j).0) (omega arith) in
      let falls =
        FallsFrom-slice _ pairs.cells 0 g.num_nodes k
          (subst (FallsFrom _) (sym pairs_list) (FallsFrom-sort_pairs _)) h in
      omega (arith, falls, at k, at (suc k))
