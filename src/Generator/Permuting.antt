-- ===== src/Generator/Permuting.antt =====
-- PermuteIDs of src/generator.h: the ends of all edges are renumbered by a rearrangement.
use shared_gapbs.Base.{
  ◌==◌, ℕ, ◌≤◌, ◌<◌, ◌≡◌, inl, inr, refl, ap, sym, ◌∙◌, arith, true, false, Array, List, [], ◌∷◌,
  write_all, slice, slice-write_all, length, length-slice, lt_suc_cases, for_range, for_range_inv,
  sum_list, sum_list-slice_zero, sum_below, sum_below-ext, Rearranges,
}
use mathlib.Core.List.{Permᴰ}
use shared_gapbs.PVector.{PVector, new, get, put, to_list}
use shared_gapbs.Graph.{EdgePair}
use shared_gapbs.Generator.{Generator, shuffled, permute_ids}

sum_list_kept : (f : ℕ → ℕ) (xs ys : List ℕ) → Permᴰ xs ys → sum_list f xs ≡ sum_list f ys
sum_list_kept f _ _ Permᴰ.nil = refl
sum_list_kept f _ _ (Permᴰ.cons e p) = omega (arith, ap f e, sum_list_kept f _ _ p)
sum_list_kept f _ _ (Permᴰ.swap e e') = omega (arith, ap f e, ap f e')
sum_list_kept f _ _ (Permᴰ.trans p q) = sum_list_kept f _ _ p ∙ sum_list_kept f _ _ q

sum_list_ones : (xs : List ℕ) → sum_list (λ x. 1) xs ≡ length xs
sum_list_ones [] = refl
sum_list_ones (x ∷ xs) = omega (arith, sum_list_ones xs)

-- An edge between the new numbers.
abbrev pub renumbered : (ℕ → ℕ) → EdgePair → EdgePair
renumbered σ e = record { u = σ e.u; v = σ e.v }

same_number : (i j : ℕ) → i ≡ j → i == j ≡ true
same_number i j e = ground arith

permute_each :
    (σ : ℕ → ℕ) (n : ℕ) (el : PVector EdgePair)
    → let after : PVector EdgePair =
        for_range n 0 (λ e el. put el e (renumbered σ (get el e))) el in
      (after.size ≡ el.size) × ((e : ℕ) → e < n → get after e ≡ renumbered σ (get el e))
permute_each σ n el =
    let (size, moved, rest) =
      for_range_inv
        (λ i (v : PVector EdgePair).
          (v.size ≡ el.size)
          × ((e : ℕ) → e < i → get v e ≡ renumbered σ (get el e))
          × ((e : ℕ) → i ≤ e → get v e ≡ get el e))
        n (λ e el. put el e (renumbered σ (get el e))) n 0 el (omega arith)
        (λ i v lo hi p. (
          p.0,
          λ e lt. elim (lt_suc_cases e i lt) [
            | inl below ↦
                let before = p.1 e below in
                let other : e == i ≡ false = ground arith in rw other before
            | inr at ↦
                rw (same_number e i at)
                  (ap (renumbered σ) (p.2 i (omega arith) ∙ ap (get el) (sym at)))
          ],
          λ e le. let other : e == i ≡ false = ground arith in rw other (p.2 e (omega (arith, le))),
        ))
        (refl, λ e lt. absurd (omega arith), λ e le. refl) in
    (size, moved)

module _ (shuffle : List ℕ → List ℕ) (permutes : (xs : List ℕ) → Permᴰ xs (shuffle xs)) where
  -- The shuffled identity rearranges the vertices.
  shuffled-Rearranges : (fresh : Array ℕ) (n : ℕ) → Rearranges n (get (shuffled fresh shuffle n))
  unfolding shuffled
  shuffled-Rearranges fresh n h =
      let v : PVector ℕ = for_range n 0 (λ n v. put v n n) (new fresh n) in
      let (size, cells) : (v.size ≡ n) × ((k : ℕ) → k < n → get v k ≡ k) =
        for_range_inv (λ i (v : PVector ℕ). (v.size ≡ n) × ((k : ℕ) → k < i → get v k ≡ k)) n
          (λ n v. put v n n) n 0 (new fresh n) (omega arith)
          (λ i v lo hi p. (p.0, λ k lt. ground (arith, lt_suc_cases k i lt, p.1 k)))
          (refl, λ k lt. absurd (omega arith)) in
      let kept : (f : ℕ → ℕ) → sum_list f (shuffle (to_list v)) ≡ sum_list f (to_list v) =
        λ f. sym (sum_list_kept f _ _ (permutes (to_list v))) in
      let count : n ≡ length (shuffle (to_list v)) = omega (
        arith,
        kept (λ x. 1),
        sum_list_ones (shuffle (to_list v)),
        sum_list_ones (to_list v),
        length-slice v.cells 0 v.size,
        size,
      ) in
      let σ : Array ℕ = write_all v.cells 0 (shuffle (to_list v)) in
      sym (sum_list-slice_zero h σ n)
      ∙ ap (λ k. sum_list h (slice σ 0 k)) count
      ∙ ap (sum_list h) (slice-write_all v.cells 0 (shuffle (to_list v)))
      ∙ kept h
      ∙ sum_list-slice_zero h v.cells v.size
      ∙ ap (sum_below (λ i. h (v.cells i))) size
      ∙ sum_below-ext (λ i. h (v.cells i)) h n (λ i lt. ap h (cells i lt))

  -- With a shuffle that permutes, PermuteIDs keeps the number of edges and renumbers both ends of
  -- every edge by one rearrangement of the vertices.
  pub permute_ids-renumbered :
      (fresh : Array ℕ) (gen : Generator) (el : PVector EdgePair)
      → (σ : ℕ → ℕ) × Rearranges gen.num_nodes σ
        × ((permute_ids fresh shuffle gen el).size ≡ el.size)
        × ((e : ℕ)
            → e < gen.num_edges
            → get (permute_ids fresh shuffle gen el) e ≡ renumbered σ (get el e))
  unfolding permute_ids
  permute_ids-renumbered fresh gen el =
      let σ : ℕ → ℕ = get (shuffled fresh shuffle gen.num_nodes) in
      let done = permute_each σ gen.num_edges el in
      (σ, shuffled-Rearranges fresh gen.num_nodes, done.0, done.1)
