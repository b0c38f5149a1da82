-- ===== src/Builder/Csr/Correct.antt =====
-- MakeCSR of src/builder.h builds the adjacency lists of the edge list.
use shared_gapbs.Base.{
  ℕ, zero, suc, ◌+◌, ◌^◌, ◌-◌, ◌≤◌, ◌<◌, ◌≡◌, refl, ap, sym, ◌∙◌, false, Bool, arith, Array, slice,
  List, length, sum_below, inl, inr, lt_suc_cases,
}
use shared_gapbs.PVector.{PVector, get}
use shared_gapbs.Graph.{EdgePair, CsrGraph, undirected, to_list, out_neigh}
use shared_gapbs.Graph.Laws.{gen_index_lem, to_list-out_neigh}
use shared_gapbs.Builder.PrefixSum.{parallel_prefix_sum}
use shared_gapbs.Builder.PrefixSum.Blocked.{parallel_prefix_sum-sum_below, size-parallel_prefix_sum}
use shared_gapbs.Builder.Degrees.{Options, arcs, targets, count_degrees}
use shared_gapbs.Builder.Degrees.Laws.{
  SourcesBelow, size-count_degrees, count_degrees-targets, sum_below-targets,
}
use shared_gapbs.Builder.Csr.{Fresh, Csr, Placing, make_csr}
use shared_gapbs.Builder.Csr.Regions.{Placed, place_arcs, place_each-arcs, place_arcs-Placed}

module _ (fresh : Fresh) (o : Options) (n : ℕ) (el : List EdgePair) (t : Bool)
    (apart : o.in_place ≡ false) (below : SourcesBelow n (arcs o.symmetrize t el))
    (counted : (v : ℕ) → v < n → length (targets v (arcs o.symmetrize t el)) < 2 ^ 31) where
  abbrev ps : List (ℕ × ℕ)
  ps = arcs o.symmetrize t el

  -- Where the region of a vertex begins.
  abbrev base : ℕ → ℕ
  base = sum_below (λ v. length (targets v ps))

  abbrev offsets : PVector ℕ
  offsets =
      parallel_prefix_sum fresh.local_sums fresh.bulk_prefix fresh.offsets
        (count_degrees fresh.degrees o n el t)

  base_mono : (v w : ℕ) → v < w → base (suc v) ≤ base w
  base_mono v zero h = absurd (omega arith)
  base_mono v (suc w) h = elim (lt_suc_cases v w h) [
    | inl lt ↦ omega (arith, base_mono v w lt)
    | inr e ↦ omega (arith, ap base e, ap (λ (k : ℕ). length (targets k ps)) e)
  ]

  degrees_sum : (v : ℕ) → v ≤ n → sum_below (count_degrees fresh.degrees o n el t).cells v ≡ base v
  degrees_sum zero h = refl
  degrees_sum (suc v) h = omega (
    arith,
    degrees_sum v,
    count_degrees-targets fresh.degrees o n el t v apart (omega arith) (counted v (omega arith)),
  )

  offsets-base : (v : ℕ) → v ≤ n → get offsets v ≡ base v
  offsets-base v h =
      let size = size-count_degrees fresh.degrees o n el t in
      parallel_prefix_sum-sum_below fresh.local_sums fresh.bulk_prefix fresh.offsets
        (count_degrees fresh.degrees o n el t) v (omega (arith, size))
      ∙ degrees_sum v h

  abbrev csr : Csr
  csr = make_csr fresh o n el t

  start : Placing
  start = record { neighs = fresh.neighs; offsets = offsets }

  placed : Placed n base (λ v w h k. base_mono v w h) start ps (place_arcs start ps)
  unfolding start
  placed =
      place_arcs-Placed n base (λ v w h k. base_mono v w h) start ps below
        (record {
          from = λ v lt. omega (arith, offsets-base v);
          room = λ v lt. omega (arith, offsets-base v);
        })

  index-base : (v : ℕ) → v ≤ n → csr.index v ≡ base v
  unfolding make_csr
  index-base v h =
      let size = size-count_degrees fresh.degrees o n el t in
      let room =
        size-parallel_prefix_sum fresh.local_sums fresh.bulk_prefix fresh.offsets
          (count_degrees fresh.degrees o n el t) in
      omega
        (arith, gen_index_lem fresh.index offsets 0 v (omega (arith, size, room)), offsets-base v)

  -- The index does not decrease, and ends with the number of arcs.
  pub make_csr_mono : (v w : ℕ) → v ≤ w → w ≤ n → csr.index v ≤ csr.index w
  make_csr_mono v w h k =
      let here = index-base v (omega arith) in
      let there = index-base w k in
      elim (lt_suc_cases v w (omega arith)) [
        | inl lt ↦ omega (arith, base_mono v w lt, here, there)
        | inr e ↦ omega (arith, ap csr.index e)
      ]

  pub make_csr_last : csr.index n ≡ length ps
  make_csr_last = index-base n (omega arith) ∙ sum_below-targets n ps below

  neighs-placed : csr.neighs ≡ (place_arcs start ps).neighs
  unfolding make_csr start
  neighs-placed = ap (λ (s : Placing). s.neighs) (place_each-arcs o t start el)

  -- The graph made of the result.
  abbrev graph : ℕ → CsrGraph
  graph unset = undirected unset n csr.index csr.neighs

  module _ (v : ℕ) (lt : v < n) where
    abbrev degree : ℕ
    degree = length (targets v ps)

    region : slice (place_arcs start ps).neighs (base v) degree ≡ targets v ps
    region = ap (λ p. slice (place_arcs start ps).neighs p degree) (sym cursor) ∙ placed.filled v lt
      where
        cursor : get start.offsets v ≡ base v
        cursor = unfold start in offsets-base v (omega arith)

    csr_region : slice csr.neighs (csr.index v) (csr.index (v + 1) - csr.index v) ≡ targets v ps
    csr_region =
        let here = index-base v (omega arith) in
        let next = index-base (suc v) lt in
        let succ : csr.index (v + 1) ≡ csr.index (suc v) = ap csr.index (omega arith) in
        let size : csr.index (v + 1) - csr.index v ≡ degree = omega (arith, here, next, succ) in
        rw (neighs-placed, size, here) region

  -- When the graph is not built in place, every arc leaves a vertex below n and less than 2 ^ 31
  -- arcs leave each of them: the out-neighbours of a vertex below n in the graph that MakeCSR
  -- builds are the targets of its arcs, as often and in the order in which the edge list has them.
  pub make_csr-adjacency :
      (unset v : ℕ) → v < n → to_list (out_neigh (graph unset) v 0) ≡ targets v ps
  unfolding undirected
  make_csr-adjacency unset v lt = to_list-out_neigh (graph unset) v 0 ∙ csr_region v lt

  -- When the graph is not built in place, every arc leaves a vertex below n and less than 2 ^ 31
  -- arcs leave each of them: the array of targets has one cell for each arc, the index has one
  -- entry more than there are vertices, and no cell beyond the array is written.
  pub make_csr-sizes :
      (p : ℕ)
      → csr.neighs_size ≤ p
      → (csr.neighs_size ≡ length ps) × (csr.index_x ≡ n + 1) × (csr.neighs p ≡ fresh.neighs p)
  unfolding make_csr
  make_csr-sizes p lo =
      let all = offsets-base n (omega arith) in
      let size = size-count_degrees fresh.degrees o n el t in
      let entries =
        size-parallel_prefix_sum fresh.local_sums fresh.bulk_prefix fresh.offsets
          (count_degrees fresh.degrees o n el t) in
      (
        omega (arith, all, sum_below-targets n ps below),
        omega (arith, size, entries),
        ap (λ (a : Array ℕ). a p) neighs-placed
            ∙ unfold start in placed.beyond p (omega (arith, all)),
      )
