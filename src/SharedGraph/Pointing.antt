-- ===== src/SharedGraph/Pointing.antt =====
-- The loop of src/graph.h that turns row sizes into pointers, on either kind of host.
use shared_gapbs.Base.{
  ℕ, suc, ◌+◌, ◌<◌, ◌≡◌, refl, ap, arith, Array, write, for_range_inv, lt_suc_cases, sum_below,
}
use shared_gapbs.SharedGraph.{Pointers, point_row, point_rows, row_size, rows_at}

module _ (cells : Array ℕ) (index_x neigh_size : ℕ) (fresh_out fresh_in : Array ℕ) where
  abbrev row_begin : ℕ → ℕ
  row_begin i = rows_at neigh_size index_x + sum_below (row_size cells neigh_size) i

  record Pointed (k : ℕ) (s : Pointers) : Type 0 where
    out : (i : ℕ) → i < k → s.out_index i ≡ row_begin i
    into : (i : ℕ) → i < k → s.in_index i ≡ row_begin i
    total : s.sum_local ≡ sum_below (row_size cells neigh_size) k

  point_row-Pointed :
      (k : ℕ) (s : Pointers)
      → Pointed k s
      → Pointed (suc k) (point_row cells index_x neigh_size k s)
  unfolding point_row
  point_row-Pointed k s p = record {
    out = λ i lt. ground (arith, lt_suc_cases i k lt, p.out i, p.total);
    into = λ i lt. ground (arith, lt_suc_cases i k lt, p.into i, p.total);
    total = ap (λ t. t + row_size cells neigh_size k) p.total;
  }

  -- Every row begins where the rows before it end, in both indexes.
  pub point_rows-row_begin :
      (i : ℕ)
      → i < index_x
      → ((point_rows cells index_x neigh_size fresh_out fresh_in).out_index i
          ≡ rows_at neigh_size index_x + sum_below (row_size cells neigh_size) i)
        × ((point_rows cells index_x neigh_size fresh_out fresh_in).in_index i
            ≡ rows_at neigh_size index_x + sum_below (row_size cells neigh_size) i)
  unfolding point_rows
  point_rows-row_begin i lt =
      let p =
        for_range_inv Pointed index_x (point_row cells index_x neigh_size) index_x 0
          (record {
            out_index = write fresh_out 0 (rows_at neigh_size index_x);
            in_index = write fresh_in 0 (rows_at neigh_size index_x);
            sum_local = 0;
          })
          (omega arith) (λ k s lo hi p. point_row-Pointed k s p)
          (record {
            out = λ i h. absurd (omega arith);
            into = λ i h. absurd (omega arith);
            total = refl;
          }) in
      (p.out i lt, p.into i lt)
