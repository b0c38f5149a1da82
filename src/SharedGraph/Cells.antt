-- ===== src/SharedGraph/Cells.antt =====
-- Single stores to the mapping, and runs of them (src/graph.h).
use shared_gapbs.Base.{
  ℕ, zero, suc, ◌+◌, ◌*◌, ◌/◌, ◌^◌, ◌≤◌, ◌<◌, ◌≡◌, refl, ap, ap₂, sym, ◌∙◌, ◌⊎◌, inl, inr, arith,
  Array, write, write_all, slice, for_range, lt_suc_cases,
}
use shared_gapbs.SharedGraph.{Mapping, store, store64, load64}

-- A 64-bit value is read back from its two cells.
pub load64-store64 : (m : Mapping) (p x : ℕ) → x < 2 ^ 64 → load64 (store64 m p x).cells p ≡ x
unfolding store64
load64-store64 m p x h = ground arith

pub store64_frame :
    (m : Mapping) (p x a : ℕ) → (a < p) ⊎ (p + 2 ≤ a) → (store64 m p x).cells a ≡ m.cells a
unfolding store64
store64_frame m p x a h = ground arith

-- A copying loop writes a slice.
pub store_each-write_all :
    (p q : ℕ) (from : Array ℕ) (n i : ℕ) (m : Mapping)
    → (for_range n i (λ j m. store m (p + j) (from (q + j))) m).cells
      ≡ write_all m.cells (p + i) (slice from (q + i) n)
unfolding for_range write_all store
store_each-write_all p q from zero i m = refl
store_each-write_all p q from (suc n) i m =
    store_each-write_all p q from n (suc i) (store m (p + i) (from (q + i)))
    ∙ ap₂ (write_all (write m.cells (p + i) (from (q + i)))) (omega arith)
        (ap (λ k. slice from k n) (omega arith))

-- A loop of 64-bit stores, two cells for each round.
module _ (p : ℕ) (f : ℕ → ℕ) (before : Array ℕ) where
  pub record Stored64 (k : ℕ) (m : Mapping) : Type 0 where
    pub stored : (i : ℕ) → i < k → load64 m.cells (p + i * 8 / 4) ≡ f i
    pub frame : (a : ℕ) → (a < p) ⊎ (p + 2 * k ≤ a) → m.cells a ≡ before a

  pub store64-Stored64 :
      (k : ℕ) (m : Mapping)
      → f k < 2 ^ 64
      → Stored64 k m
      → Stored64 (suc k) (store64 m (p + k * 8 / 4) (f k))
  store64-Stored64 k m h s = record {
    stored = λ i lt. elim (lt_suc_cases i k lt) [
      | inl old ↦ kept i old ∙ s.stored i old
      | inr e ↦
          ap (λ j. load64 after (p + j * 8 / 4)) e
          ∙ load64-store64 m (p + k * 8 / 4) (f k) h
          ∙ ap f (sym e)
    ];
    frame =
        λ a out. store64_frame m (p + k * 8 / 4) (f k) a (omega arith) ∙ s.frame a (omega arith);
  }
    where
      after : Array ℕ
      after = (store64 m (p + k * 8 / 4) (f k)).cells

      kept : (i : ℕ) → i < k → load64 after (p + i * 8 / 4) ≡ load64 m.cells (p + i * 8 / 4)
      kept i lt =
          ap₂ (λ x y. x + y * 2 ^ 32)
            (store64_frame m (p + k * 8 / 4) (f k) (p + i * 8 / 4) (omega arith))
            (store64_frame m (p + k * 8 / 4) (f k) (p + i * 8 / 4 + 1) (omega arith))
