-- ===== src/SharedGraph/Stored.antt =====
-- What the master's constructor leaves in the mapping (src/graph.h).
use shared_gapbs.Base.{
  sum_below-ext, ℕ, suc, ◌+◌, ◌*◌, ◌^◌, ◌≤◌, ◌<◌, ◌≡◌, refl, ap₂, sym, ◌∙◌, ◌⊎◌, inl, inr, arith,
  Array, write, slice, slice-ext, length-slice, for_range_inv, lt_suc_cases,
}
use shared_gapbs.SharedGraph.{
  Mapping, Local, Pointers, store, store64, load64, row_size, rows_at, point_rows, store_metadata,
  store_row_sizes, store_rows, store_neighs, master,
}
use shared_gapbs.SharedGraph.Pointing.{point_rows-row_begin}
use shared_gapbs.SharedGraph.Writing.{
  IsCsr, IsStored, row, row_length, row_at, store_row_sizes-Stored64, LaidRows, store_rows-LaidRows,
}

-- The copy of the one-dimensional array: each cell is stored twice with one value.
record Copied (l : Local) (before : Array ℕ) (k : ℕ) (m : Mapping) : Type 0 where
  copied : (i : ℕ) → i < k → m.cells (7 + i) ≡ l.neighs i
  frame : (a : ℕ) → (a < 7) ⊎ (7 + k ≤ a) → m.cells a ≡ before a

store_neighs-Copied : (l : Local) (m : Mapping) → Copied l m.cells l.neigh_size (store_neighs l m)
unfolding store_neighs
store_neighs-Copied l m =
    for_range_inv (Copied l m.cells) l.neigh_size
      (λ i m. store (store m (7 + i) (l.neighs i)) (7 + i) (l.neighs i)) l.neigh_size 0 m
      (omega arith) (λ k m' lo hi r. next k m' r)
      (record { copied = λ i h. absurd (omega arith); frame = λ a h. refl })
  where
    next :
        (k : ℕ) (m' : Mapping)
        → Copied l m.cells k m'
        → Copied l m.cells (suc k) (store (store m' (7 + k) (l.neighs k)) (7 + k) (l.neighs k))
    next k m' r =
        unfold store in
        record {
          copied = λ i h. ground (arith, lt_suc_cases i k h, r.copied i);
          frame = λ a h. ground (arith, r.frame a);
        }

module _ (l : Local) (c : IsCsr l) (fresh_out fresh_in : Array ℕ) (m : Mapping) where
  abbrev sized : Mapping
  sized = store_row_sizes l m

  abbrev pointers : Pointers
  pointers = point_rows sized.cells l.index_x l.neigh_size fresh_out fresh_in

  abbrev rowed : Mapping
  rowed = store_rows l pointers sized

  abbrev stored : Mapping
  stored = store_neighs l rowed

  sizes_lem : (v : ℕ) → v < l.num_nodes → row_size sized.cells l.neigh_size v ≡ row_length l v
  sizes_lem v lt = (store_row_sizes-Stored64 l c m).stored v lt

  pub pointers-row_at :
      (v : ℕ)
      → v < l.index_x
      → (pointers.out_index v ≡ row_at l v) × (pointers.in_index v ≡ row_at l v)
  pointers-row_at v lt =
      let begins =
        point_rows-row_begin sized.cells l.index_x l.neigh_size fresh_out fresh_in v lt in
      let sums =
        sum_below-ext (row_size sized.cells l.neigh_size) (row_length l) v
          (λ i h. sizes_lem i (omega (arith, c.entries))) in
      (omega (arith, begins.0, sums), omega (arith, begins.1, sums))

  points : (v : ℕ) → v < l.index_x → pointers.out_index v ≡ row_at l v
  points v lt = (pointers-row_at v lt).0

  laid : LaidRows l c sized pointers sizes_lem points l.num_nodes rowed
  laid = store_rows-LaidRows l c sized pointers sizes_lem points

  copied : Copied l rowed.cells l.neigh_size stored
  copied = store_neighs-Copied l rowed

  first : pointers.out_index 0 ≡ rows_at l.neigh_size l.index_x
  first = omega (arith, points 0, c.entries)

  -- The metadata and the synchronization variable stay as they were.
  stored_low : (a : ℕ) → a < 7 → stored.cells a ≡ m.cells a
  stored_low a h =
      copied.frame a (inl h)
      ∙ laid.frame a (inl (omega (arith, first)))
      ∙ (store_row_sizes-Stored64 l c m).frame a (inl (omega arith))

  stored_size : (v : ℕ) → v < l.num_nodes → row_size stored.cells l.neigh_size v ≡ row_length l v
  stored_size v lt =
      ap₂ (λ x y. x + y * 2 ^ 32) (kept _ (omega arith) (omega (arith, c.entries)))
        (kept _ (omega arith) (omega (arith, c.entries)))
      ∙ sizes_lem v lt
    where
      kept :
          (a : ℕ)
          → 7 + l.neigh_size ≤ a
          → a < rows_at l.neigh_size l.index_x
          → stored.cells a ≡ sized.cells a
      kept a lo hi = copied.frame a (inr lo) ∙ laid.frame a (inl (omega (arith, first)))

  stored_row :
      (v : ℕ) → v < l.num_nodes → slice stored.cells (row_at l v) (row_length l v) ≡ row l v
  stored_row v lt =
      slice-ext stored.cells rowed.cells (row_at l v) (row_length l v)
        (λ j lo hi. copied.frame j (inr (omega arith)))
      ∙ ap₂ (slice rowed.cells) (sym (points v (omega (arith, c.entries))))
          (sym (length-slice l.neighs (l.index v) (row_length l v)))
      ∙ laid.laid v lt

  store_graph-IsStored :
      load64 m.cells 1 ≡ l.num_nodes
      → load64 m.cells 3 ≡ l.index_x
      → load64 m.cells 5 ≡ l.neigh_size
      → IsStored l stored.cells
  store_graph-IsStored e1 e3 e5 = record {
    num_nodes =
        ap₂ (λ x y. x + y * 2 ^ 32) (stored_low 1 (omega arith)) (stored_low 2 (omega arith)) ∙ e1;
    index_x =
        ap₂ (λ x y. x + y * 2 ^ 32) (stored_low 3 (omega arith)) (stored_low 4 (omega arith)) ∙ e3;
    neigh_size =
        ap₂ (λ x y. x + y * 2 ^ 32) (stored_low 5 (omega arith)) (stored_low 6 (omega arith)) ∙ e5;
    sizes = stored_size;
    rows = stored_row;
    neighs = copied.copied;
  }

metadata_lem :
    (l : Local) (c : IsCsr l) (m : Mapping)
    → (load64 (store_metadata l m).cells 1 ≡ l.num_nodes)
      × (load64 (store_metadata l m).cells 3 ≡ l.index_x)
      × (load64 (store_metadata l m).cells 5 ≡ l.neigh_size)
unfolding store_metadata
metadata_lem l c m =
    unfold store64 store in
    (
      omega (arith, c.entries, c.entries_small),
      omega (arith, c.entries_small),
      omega (arith, c.neighs_small),
    )

-- The synchronization variable is no part of the graph.
IsStored-write_sync :
    (l : Local) (cells : Array ℕ) → IsStored l cells → IsStored l (write cells 0 1)
IsStored-write_sync l cells s = record {
  num_nodes = s.num_nodes;
  index_x = s.index_x;
  neigh_size = s.neigh_size;
  sizes = λ v lt.
      ap₂ (λ x y. x + y * 2 ^ 32) (apart _ (omega arith)) (apart _ (omega arith)) ∙ s.sizes v lt;
  rows = λ v lt. slice-ext _ _ _ _ (λ j lo hi. apart j (omega arith)) ∙ s.rows v lt;
  neighs = λ i lt. apart _ (omega arith) ∙ s.neighs i lt;
}
  where
    apart : (a : ℕ) → 0 < a → write cells 0 1 a ≡ cells a
    apart a h = ground arith

-- The master leaves the whole graph in the mapping, with the synchronization variable set.
pub master-IsStored :
    (l : Local) (fresh_out fresh_in : Array ℕ) (m : Mapping)
    → IsCsr l
    → IsStored l (master l fresh_out fresh_in m).0.cells
      × ((master l fresh_out fresh_in m).0.cells 0 ≡ 1)
unfolding master store
master-IsStored l fresh_out fresh_in m c =
    let meta = metadata_lem l c m in
    (
      IsStored-write_sync l _
          (store_graph-IsStored l c fresh_out fresh_in (store_metadata l m) meta.0 meta.1 meta.2),
      refl,
    )
