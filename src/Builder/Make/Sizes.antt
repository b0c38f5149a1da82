-- ===== src/Builder/Make/Sizes.antt =====
-- The arrays that SquishCSR leaves are in CSR form and fit the mapping (src/builder.h).
use shared_gapbs.Base.{ℕ, zero, suc, ◌+◌, ◌^◌, ◌≤◌, ◌<◌, ◌≡◌, ap, arith, Array, at_mono}
use shared_gapbs.SharedGraph.Writing.{IsCsr}
use shared_gapbs.Builder.Squish.{Fresh, squish_cells}
use shared_gapbs.Builder.Squish.Rows.{IsMonotone, room}
use shared_gapbs.Builder.Squish.Copies.{
  squished_row, start, sq_index-start, neighs_x-start, at-step,
}
use shared_gapbs.Builder.Make.{squished_local}

module _ (fresh : Fresh) (n : ℕ) (index cells : Array ℕ) (mono : IsMonotone n index) where
  abbrev first : ℕ → ℕ
  first = start fresh n index cells mono

  -- The squished rows take no more room than the rows took.
  start_le : (v : ℕ) → v ≤ n → first v + index 0 ≤ index v
  start_le zero h = omega arith
  start_le (suc v) h =
      let next : index (v + 1) ≡ index (suc v) = ap index (omega arith) in
      omega (
        arith,
        start_le v (omega arith),
        room n index cells mono v h,
        next,
        mono v (suc v) (omega arith) h,
      )

  pub squished_local-IsCsr :
      (index_x : ℕ)
      → index_x ≡ n + 1
      → n + 1 < 2 ^ 64
      → index n < 2 ^ 64
      → IsCsr (squished_local n index_x (squish_cells fresh index cells n))
  unfolding squished_local
  squished_local-IsCsr index_x e small fits =
      let total = start_le n (omega arith) in
      record {
        entries = e;
        monotone =
            at_mono n (squish_cells fresh index cells n).sq_index
              (squished_row fresh n index cells mono) (at-step fresh n index cells mono);
        entries_small = omega arith;
        neighs_small = omega (arith, neighs_x-start fresh n index cells mono, total);
        rows_small = omega (arith, sq_index-start fresh n index cells mono n (omega arith), total);
      }

  -- Nor do they take more together.
  pub neighs_x_le : (squish_cells fresh index cells n).neighs_x ≤ index n
  neighs_x_le =
      let total = start_le n (omega arith) in
      omega (arith, neighs_x-start fresh n index cells mono, total)
