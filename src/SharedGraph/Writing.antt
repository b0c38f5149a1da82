-- ===== src/SharedGraph/Writing.antt =====
-- The row sizes and the rows that the master's constructor stores (src/graph.h).
use shared_gapbs.Base.{
  ℕ, suc, ◌+◌, ◌-◌, ◌*◌, ◌/◌, ◌^◌, ◌≤◌, ◌<◌, ◌≡◌, refl, ap, ap₂, sym, subst, ◌∙◌, inl, arith, Array,
  List, write_all, slice, length, length-slice, for_range_inv, sum_below, Laid, Laid-start,
  Laid-write_all,
}
use shared_gapbs.SharedGraph.{
  Mapping, Local, Pointers, store64, load64, row_size, row_sizes_at, rows_at, store_row_sizes,
  store_row, store_rows,
}
use shared_gapbs.SharedGraph.Cells.{store_each-write_all, Stored64, store64-Stored64}

abbrev pub row_length : Local → ℕ → ℕ
row_length l v = l.index (v + 1) - l.index v

abbrev pub row : Local → ℕ → List ℕ
row l v = slice l.neighs (l.index v) (row_length l v)

-- The master's graph is in CSR form, and its sizes fit 64 bits.
pub record IsCsr (l : Local) : Type 0 where
  pub entries : l.index_x ≡ l.num_nodes + 1
  pub monotone : (v w : ℕ) → v ≤ w → w ≤ l.num_nodes → l.index v ≤ l.index w
  pub entries_small : l.index_x < 2 ^ 64
  pub neighs_small : l.neigh_size < 2 ^ 64
  pub rows_small : l.index l.num_nodes < 2 ^ 64

-- Where a row begins in the mapping.
abbrev pub row_at : Local → ℕ → ℕ
row_at l v = rows_at l.neigh_size l.index_x + sum_below (row_length l) v

-- Everything that a worker reads is in place, but for the synchronization variable.
pub record IsStored (l : Local) (cells : Array ℕ) : Type 0 where
  pub num_nodes : load64 cells 1 ≡ l.num_nodes
  pub index_x : load64 cells 3 ≡ l.index_x
  pub neigh_size : load64 cells 5 ≡ l.neigh_size
  pub sizes : (v : ℕ) → v < l.num_nodes → row_size cells l.neigh_size v ≡ row_length l v
  pub rows : (v : ℕ) → v < l.num_nodes → slice cells (row_at l v) (row_length l v) ≡ row l v
  pub neighs : (i : ℕ) → i < l.neigh_size → cells (7 + i) ≡ l.neighs i

module _ (l : Local) (c : IsCsr l) where
  row_length_small : (v : ℕ) → v < l.num_nodes → row_length l v < 2 ^ 64
  row_length_small v lt =
      omega (arith, c.monotone (v + 1) l.num_nodes (omega arith) (omega arith), c.rows_small)

  -- The row sizes stand between the targets and the rows.
  pub store_row_sizes-Stored64 :
      (m : Mapping)
      → Stored64
          (row_sizes_at l.neigh_size)
          (row_length l)
          m.cells
          l.num_nodes
          (store_row_sizes l m)
  unfolding store_row_sizes
  store_row_sizes-Stored64 m =
      let rounds : l.index_x - 1 ≡ l.num_nodes = omega (arith, c.entries) in
      rw rounds (
        for_range_inv (λ k m'. Stored64 (row_sizes_at l.neigh_size) (row_length l) m.cells k m')
          l.num_nodes (λ i m. store64 m (row_sizes_at l.neigh_size + i * 8 / 4) (row_length l i))
          l.num_nodes 0 m (omega arith)
          (λ k m' lo hi s.
            store64-Stored64 (row_sizes_at l.neigh_size) (row_length l) m.cells k m'
              (row_length_small k hi) s)
          (record { stored = λ i h. absurd (omega arith); frame = λ a h. refl }))

  module _ (sized : Mapping) (s : Pointers)
      (sizes : (v : ℕ) → v < l.num_nodes → row_size sized.cells l.neigh_size v ≡ row_length l v)
      (points : (v : ℕ) → v < l.index_x → s.out_index v ≡ row_at l v) where
    pub at-step : (v : ℕ) → v < l.num_nodes → s.out_index v + length (row l v) ≡ s.out_index (suc v)
    at-step v lt = omega (
      arith,
      c.entries,
      points v,
      points (suc v),
      length-slice l.neighs (l.index v) (row_length l v),
    )

    abbrev pub LaidRows : ℕ → Mapping → Type 0
    LaidRows k m = Laid l.num_nodes s.out_index (row l) at-step sized.cells k m.cells

    store_row-LaidRows :
        (k : ℕ) (m : Mapping)
        → k < l.num_nodes
        → LaidRows k m
        → LaidRows (suc k) (store_row l s k m)
    unfolding store_row
    store_row-LaidRows k m lt r =
        rw (size, store_each-write_all (s.out_index k) (l.index k) l.neighs (row_length l k) 0 m)
          (subst (λ xs. Laid l.num_nodes s.out_index (row l) at-step sized.cells (suc k) xs)
            (sym whole)
            (Laid-write_all l.num_nodes s.out_index (row l) at-step sized.cells k m.cells lt r))
      where
        first : s.out_index 0 ≡ rows_at l.neigh_size l.index_x
        first = omega (arith, points 0, c.entries)

        size : row_size m.cells l.neigh_size k ≡ row_length l k
        size =
            ap₂ (λ x y. x + y * 2 ^ 32) (r.frame _ (inl (omega (arith, first, c.entries))))
              (r.frame _ (inl (omega (arith, first, c.entries))))
            ∙ sizes k lt

        whole :
            write_all m.cells (s.out_index k + 0) (slice l.neighs (l.index k + 0) (row_length l k))
            ≡ write_all m.cells (s.out_index k) (row l k)
        whole =
            ap₂ (write_all m.cells) (omega arith)
              (ap (λ q. slice l.neighs q (row_length l k)) (omega arith))

    pub store_rows-LaidRows : LaidRows l.num_nodes (store_rows l s sized)
    unfolding store_rows
    store_rows-LaidRows =
        let rounds : l.index_x - 1 ≡ l.num_nodes = omega (arith, c.entries) in
        rw rounds (
          for_range_inv LaidRows l.num_nodes (store_row l s) l.num_nodes 0 sized (omega arith)
            (λ k m lo hi r. store_row-LaidRows k m hi r)
            (Laid-start l.num_nodes s.out_index (row l) at-step sized.cells))
