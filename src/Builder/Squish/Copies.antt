-- ===== src/Builder/Squish/Copies.antt =====
-- The second loop of SquishCSR (src/builder.h): the squished rows are copied one after the other.
use shared_gapbs.Base.{
  ℕ, zero, suc, ◌+◌, ◌≤◌, ◌<◌, ◌≡◌, refl, ap, ◌∙◌, arith, Array, write_all, slice, length, List,
  for_range_inv, sum_below, Laid, Laid-start, Laid-write_all,
}
use shared_gapbs.PVector.{get}
use shared_gapbs.Graph.Laws.{gen_index_lem}
use shared_gapbs.Stl.{squish}
use shared_gapbs.Builder.PrefixSum.Blocked.{parallel_prefix_sum-sum_below, size-parallel_prefix_sum}
use shared_gapbs.Builder.Squish.{Fresh, Squishing, squish_rows, sq_offsets, copy_row, squish_cells}
use shared_gapbs.Builder.Squish.Rows.{IsMonotone, row, Rows, squish_rows-Rows}

module _ (fresh : Fresh) (n : ℕ) (index cells : Array ℕ) (mono : IsMonotone n index) where
  abbrev pub squished_row : ℕ → List ℕ
  squished_row v = squish v (row n index cells mono v)

  -- Where a row begins in the new block.
  abbrev pub start : ℕ → ℕ
  start = sum_below (λ v. length (squished_row v))

  rows : Squishing
  rows = squish_rows fresh index cells n

  rows_lem : Rows n index cells mono n rows
  unfolding rows
  rows_lem = squish_rows-Rows n index cells mono fresh

  diffs_sum : (v : ℕ) → v ≤ n → sum_below rows.diffs.cells v ≡ start v
  diffs_sum zero h = refl
  diffs_sum (suc v) h = omega (arith, diffs_sum v (omega arith), rows_lem.degree v h)

  offsets-start : (v : ℕ) → v ≤ n → get (sq_offsets fresh rows.diffs) v ≡ start v
  unfolding sq_offsets
  offsets-start v h =
      let size = rows_lem.count in
      parallel_prefix_sum-sum_below fresh.local_sums fresh.bulk_prefix fresh.offsets rows.diffs v
        (omega (arith, size))
      ∙ diffs_sum v h

  pub sq_index-start : (v : ℕ) → v ≤ n → (squish_cells fresh index cells n).sq_index v ≡ start v
  unfolding squish_cells
  sq_index-start v h =
      unfold rows in
      let entries =
        size-parallel_prefix_sum fresh.local_sums fresh.bulk_prefix fresh.offsets rows.diffs in
      omega (
        arith,
        offsets-start v h,
        gen_index_lem fresh.index (sq_offsets fresh rows.diffs) 0 v
            (unfold sq_offsets in omega (arith, entries, rows_lem.count)),
      )

  pub neighs_x-start : (squish_cells fresh index cells n).neighs_x ≡ start n
  unfolding squish_cells
  neighs_x-start = unfold rows in offsets-start n (omega arith)

  abbrev at : ℕ → ℕ
  at = (squish_cells fresh index cells n).sq_index

  pub at-step : (v : ℕ) → v < n → at v + length (squished_row v) ≡ at (suc v)
  at-step v lt = omega (arith, sq_index-start v (omega arith), sq_index-start (suc v) lt)

  copy_row-write_all :
      (k : ℕ) (m : Array ℕ)
      → k < n
      → copy_row index rows at k m ≡ write_all m (at k) (squished_row k)
  unfolding copy_row
  copy_row-write_all k m lt =
      ap (write_all m (at k))
        (ap (slice rows.cells (index k)) (rows_lem.degree k lt) ∙ rows_lem.squished k lt)

  -- Every row is in its place in the new block, and no cell beyond the rows is written.
  pub squish_cells-Laid :
      Laid n at squished_row at-step fresh.neighs n (squish_cells fresh index cells n).sq_neighs
  unfolding squish_cells
  squish_cells-Laid =
      unfold rows in
      for_range_inv (Laid n at squished_row at-step fresh.neighs) n (copy_row index rows at) n 0
        fresh.neighs (omega arith)
        (λ k m lo hi l.
          rw (copy_row-write_all k m hi)
            (Laid-write_all n at squished_row at-step fresh.neighs k m hi l))
        (Laid-start n at squished_row at-step fresh.neighs)
