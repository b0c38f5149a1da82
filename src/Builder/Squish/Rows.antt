-- ===== src/Builder/Squish/Rows.antt =====
-- The first loop of SquishCSR (src/builder.h): every row is squished in place.
use shared_gapbs.Base.{
  ℕ, suc, ◌+◌, ◌-◌, ◌≤◌, ◌<◌, ◌≡◌, refl, ap, sym, subst, ◌∙◌, arith, Array, write_all,
  write_all_frame, slice, slice-ext, slice-write_all, length, length-slice, inl, inr, lt_suc_cases,
  for_range_inv, ◌⊎◌, List,
}
use shared_gapbs.PVector.{new, get}
use shared_gapbs.Stl.{sort, squish}
use shared_gapbs.Stl.Laws.{length-sort, length-squish}
use shared_gapbs.Builder.Squish.{Fresh, Squishing, squish_row, squish_rows}

-- The index of a graph does not decrease.
abbrev pub IsMonotone : ℕ → Array ℕ → Type 0
IsMonotone n index = (v w : ℕ) → v ≤ w → w ≤ n → index v ≤ index w

module _ (n : ℕ) (index cells : Array ℕ) (mono : IsMonotone n index) where
  abbrev pub row : ℕ → List ℕ
  row v = slice cells (index v) (index (v + 1) - index v)

  pub record Rows (k : ℕ) (s : Squishing) : Type 0 where
    pub count : s.diffs.size ≡ n
    pub degree : (v : ℕ) → v < k → get s.diffs v ≡ length (squish v (row v))
    pub squished :
        (v : ℕ) → v < k → slice s.cells (index v) (length (squish v (row v))) ≡ squish v (row v)
    pub rest : (p : ℕ) → index k ≤ p → s.cells p ≡ cells p

  -- A squished row fits where the row was.
  pub room : (v : ℕ) → v < n → length (squish v (row v)) ≤ index (v + 1) - index v
  room v lt =
      omega (arith, length-squish v (row v), length-slice cells (index v) (index (v + 1) - index v))

  module _ (k : ℕ) (s : Squishing) (lt : k < n) (r : Rows k s) where
    next : index k ≤ index (k + 1)
    next = mono k (k + 1) (omega arith) (omega arith)

    row_kept : slice s.cells (index k) (index (k + 1) - index k) ≡ row k
    row_kept = slice-ext s.cells cells (index k) (index (k + 1) - index k) (λ j lo hi. r.rest j lo)

    sizes :
        (length (sort (row k)) ≡ index (k + 1) - index k)
        × (length (squish k (row k)) ≤ index (k + 1) - index k)
    sizes =
        let whole = length-slice cells (index k) (index (k + 1) - index k) in
        (omega (arith, length-sort (row k), whole), omega (arith, length-squish k (row k), whole))

    -- What the round writes lies in row `k`.
    row_frame :
        (p : ℕ)
        → (p < index k) ⊎ (index (k + 1) ≤ p)
        → write_all (write_all s.cells (index k) (sort (row k))) (index k) (squish k (row k)) p
          ≡ s.cells p
    row_frame p h =
        write_all_frame (write_all s.cells (index k) (sort (row k))) (index k) (squish k (row k)) p
          (omega (arith, sizes, next))
        ∙ write_all_frame s.cells (index k) (sort (row k)) p (omega (arith, sizes, next))

    abbrev after : Array ℕ
    after = write_all (write_all s.cells (index k) (sort (row k))) (index k) (squish k (row k))

    here : slice after (index k) (length (squish k (row k))) ≡ squish k (row k)
    here = slice-write_all (write_all s.cells (index k) (sort (row k))) (index k) (squish k (row k))

    earlier : (v : ℕ) → v < k → slice after (index v) (length (squish v (row v))) ≡ squish v (row v)
    earlier v old =
        slice-ext after s.cells (index v) (length (squish v (row v))) (λ j lo hi. row_frame j (
          inl (
            omega (
              arith,
              room v (omega arith),
              mono v (v + 1) (omega arith),
              mono (v + 1) k (omega arith),
            ))))
        ∙ r.squished v old

    squish_row-Rows : Rows (suc k) (squish_row index k s)
    unfolding squish_row
    squish_row-Rows = rw row_kept (record {
      count = r.count;
      degree = λ v h. ground (arith, lt_suc_cases v k h, r.degree v);
      squished = λ v h. elim (lt_suc_cases v k h) [
        | inl old ↦ earlier v old
        | inr e ↦
            subst (λ w. slice after (index w) (length (squish w (row w))) ≡ squish w (row w))
              (sym e) here
      ];
      rest = λ p h.
          row_frame p (inr (omega (arith, same, h))) ∙ r.rest p (omega (arith, same, next, h));
    })
      where
        same : index (k + 1) ≡ index (suc k)
        same = ap index (omega arith)

  pub squish_rows-Rows : (fresh : Fresh) → Rows n (squish_rows fresh index cells n)
  unfolding squish_rows
  squish_rows-Rows fresh =
      for_range_inv Rows n (squish_row index) n 0
        (record { cells = cells; diffs = new fresh.diffs n }) (omega arith)
        (λ k s lo hi r. squish_row-Rows k s hi r)
        (record {
          count = refl;
          degree = λ v h. absurd (omega arith);
          squished = λ v h. absurd (omega arith);
          rest = λ p h. refl;
        })
