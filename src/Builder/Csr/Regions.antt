-- ===== src/Builder/Csr/Regions.antt =====
-- The placing loop of MakeCSR (src/builder.h): each vertex's targets land in its own region.
use shared_gapbs.Base.{
  ℕ, suc, ◌+◌, Bool, List, [], ◌∷◌, ◌≡◌, ◌≤◌, ◌<◌, arith, refl, ap, ap₂, sym, subst, ==_self, ◌∙◌,
  length, slice, inl, inr, lt_or_le, eq_or_ne, ◌≢◌,
}
use shared_gapbs.PVector.{get}
use shared_gapbs.Graph.{EdgePair}
use shared_gapbs.Builder.Degrees.{Options, arcs, targets}
use shared_gapbs.Builder.Degrees.Laws.{SourcesBelow}
use shared_gapbs.Builder.Csr.{Placing, place, place_edge, place_each}

-- The loop over arcs that the loop over edges amounts to.
pub place_arcs : Placing → List (ℕ × ℕ) → Placing
place_arcs s [] = s
place_arcs s ((u, x) ∷ ps) = place_arcs (place u x s) ps

pub place_each-arcs :
    (o : Options) (t : Bool) (s : Placing) (el : List EdgePair)
    → place_each o t s el ≡ place_arcs s (arcs o.symmetrize t el)
unfolding place_each place_edge arcs place_arcs
place_each-arcs o t s [] = refl
place_each-arcs o t s (e ∷ el) = ground (arith, place_each-arcs o t (place_edge o t s e) el)

module _ (n : ℕ) (base : ℕ → ℕ) (mono : (v w : ℕ) → v < w → w ≤ n → base (suc v) ≤ base w) where
  -- Every cursor is in its region, with just enough room for the targets still to come.
  pub record HasRoom (s : Placing) (ps : List (ℕ × ℕ)) : Type 0 where
    pub from : (v : ℕ) → v < n → base v ≤ get s.offsets v
    pub room : (v : ℕ) → v < n → get s.offsets v + length (targets v ps) ≡ base (suc v)

  place-HasRoom :
      (s : Placing) (u x : ℕ) (ps : List (ℕ × ℕ))
      → HasRoom s ((u, x) ∷ ps)
      → HasRoom (place u x s) ps
  unfolding place targets
  place-HasRoom s u x ps h = record {
    from = λ v lt. ground (arith, h.from v);
    room = λ v lt. ground (arith, h.room v);
  }

  -- What the loop does to the memory.
  pub record Placed (s : Placing) (ps : List (ℕ × ℕ)) (t : Placing) : Type 0 where
    pub kept : (v p : ℕ) → v < n → base v ≤ p → p < get s.offsets v → t.neighs p ≡ s.neighs p
    pub filled :
        (v : ℕ) → v < n → slice t.neighs (get s.offsets v) (length (targets v ps)) ≡ targets v ps
    pub beyond : (p : ℕ) → base n ≤ p → t.neighs p ≡ s.neighs p

  -- The cell that is written next lies in its own region, below the end of it.
  next_cell :
      (s : Placing) (u x : ℕ) (ps : List (ℕ × ℕ))
      → u < n
      → HasRoom s ((u, x) ∷ ps)
      → get s.offsets u < base (suc u)
  unfolding targets
  next_cell s u x ps lt h = ground (arith, h.room u)

  -- A cell of another region, or beyond all of them, is another cell.
  outside :
      (s : Placing) (u x : ℕ) (ps : List (ℕ × ℕ)) (v p : ℕ)
      → u < n
      → v < n
      → HasRoom s ((u, x) ∷ ps)
      → base v ≤ p
      → p < get s.offsets v
      → p ≢ get s.offsets u
  outside s u x ps v p lt lt' h lo hi = elim (eq_or_ne u v) [
    | inl same ↦ ground arith
    | inr other ↦ elim (lt_or_le u v) [
      | inl below ↦ omega (arith, mono u v, next_cell s u x ps lt h)
      | inr above ↦ omega (arith, mono v u, h.room v lt', h.from u lt)
    ]
  ]

  module _ (s : Placing) (u x : ℕ) (ps : List (ℕ × ℕ)) (lt : u < n)
      (h : HasRoom s ((u, x) ∷ ps)) where
    abbrev after : Placing
    after = place_arcs (place u x s) ps

    targets_same : targets u ((u, x) ∷ ps) ≡ x ∷ targets u ps
    unfolding targets
    targets_same = rw (==_self u)

    targets_other : (v : ℕ) → u ≢ v → targets v ((u, x) ∷ ps) ≡ targets v ps
    unfolding targets
    targets_other v ne = ground arith

    cursor_same : get (place u x s).offsets u ≡ suc (get s.offsets u)
    unfolding place
    cursor_same = ground arith

    cursor_other : (v : ℕ) → u ≢ v → get (place u x s).offsets v ≡ get s.offsets v
    unfolding place
    cursor_other v ne = ground arith

    module _ (r : Placed (place u x s) ps after) where
      filled_same :
          slice after.neighs (get s.offsets u) (length (targets u ((u, x) ∷ ps)))
          ≡ targets u ((u, x) ∷ ps)
      filled_same = rw targets_same (
          ap₂ ◌∷◌ first (
            ap (λ p. slice after.neighs p (length (targets u ps))) (sym cursor_same)
            ∙ r.filled u lt))
        where
          first : after.neighs (get s.offsets u) ≡ x
          first =
              r.kept u (get s.offsets u) lt (h.from u lt) (omega (arith, cursor_same))
              ∙ unfold place in ground arith

      filled_other :
          (v : ℕ)
          → v < n
          → u ≢ v
          → slice after.neighs (get s.offsets v) (length (targets v ((u, x) ∷ ps)))
            ≡ targets v ((u, x) ∷ ps)
      filled_other v lt' ne = rw (targets_other v ne) (
          ap (λ p. slice after.neighs p (length (targets v ps))) (sym (cursor_other v ne))
          ∙ r.filled v lt')

      kept_cell : (v p : ℕ) → v < n → base v ≤ p → p < get s.offsets v → after.neighs p ≡ s.neighs p
      kept_cell v p lt' lo hi = elim (eq_or_ne u v) [
        | inl same ↦ r.kept v p lt' lo (later v same hi) ∙ unwritten
        | inr other ↦ r.kept v p lt' lo (omega (arith, cursor_other v other)) ∙ unwritten
      ]
        where
          unwritten : (place u x s).neighs p ≡ s.neighs p
          unwritten = let ne = outside s u x ps v p lt lt' h lo hi in unfold place in ground arith

          later : (v : ℕ) → u ≡ v → p < get s.offsets v → p < get (place u x s).offsets v
          later v same hi = unfold place in ground arith

      place_arcs-Placed_cons : Placed s ((u, x) ∷ ps) (place_arcs s ((u, x) ∷ ps))
      unfolding place_arcs
      place_arcs-Placed_cons = record {
        kept = kept_cell;
        filled = λ v lt'. elim (eq_or_ne u v) [
          | inl same ↦
              subst
                (λ w.
                  slice after.neighs (get s.offsets w) (length (targets w ((u, x) ∷ ps)))
                  ≡ targets w ((u, x) ∷ ps))
                same filled_same
          | inr other ↦ filled_other v lt' other
        ];
        beyond = λ p lo. r.beyond p lo ∙ beyond_cell p lo;
      }
        where
          beyond_cell : (p : ℕ) → base n ≤ p → (place u x s).neighs p ≡ s.neighs p
          beyond_cell p lo =
              let cell = next_cell s u x ps lt h in
              let last = mono u n lt in unfold place in ground (arith, last (omega arith))

  pub place_arcs-Placed :
      (s : Placing) (ps : List (ℕ × ℕ))
      → SourcesBelow n ps
      → HasRoom s ps
      → Placed s ps (place_arcs s ps)
  place_arcs-Placed s [] b h =
      unfold place_arcs targets in
      record { kept = λ v p lt lo hi. refl; filled = λ v lt. refl; beyond = λ p lo. refl }
  place_arcs-Placed s ((u, x) ∷ ps) b h =
      place_arcs-Placed_cons s u x ps b.0 h
        (place_arcs-Placed (place u x s) ps b.1 (place-HasRoom s u x ps h))
