-- ===== src/Benchmark/Largest.antt =====
-- TopK of src/benchmark.h: the largest values.
use shared_gapbs.Base.{
  ◌||◌, true, ℕ, zero, suc, ◌≤◌, ◌≡◌, refl, ap, sym, ◌∙◌, arith, Bool-cases, inl, inr, List, [],
  ◌∷◌, ◌++◌, map, length, take, ltb, leb, if◌then◌else◌,
}
use shared_gapbs.Stl.{sort_pairs}
use shared_gapbs.Stl.Values.{
  values, insert_value, sort_values, take-insert_value, values-sort_pairs, sort_values_last,
  sort_values_middle, FallsFrom-sort_values, values-append, values-take, FallsFrom-take, take_twice,
}
use shared_gapbs.Stl.Pairs.{FallsFrom, FallsFrom-sort_pairs}
use shared_gapbs.Benchmark.{Top, last_value, top_step, top_each, top_k}

take_all : (k : ℕ) (ps : List (ℕ × ℕ)) → length ps ≤ k → take k ps ≡ ps
take_all zero [] h = refl
take_all zero (p ∷ ps) h = absurd (omega arith)
take_all (suc k) [] h = refl
take_all (suc k) (p ∷ ps) h = ap (λ xs. p ∷ xs) (take_all k ps (omega (arith, h)))

-- Every value is at least `b`.
abbrev AtLeast : ℕ → List (ℕ × ℕ) → Type 0
AtLeast b [] = Unit
AtLeast b (p ∷ ps) = (b ≤ p.0) × AtLeast b ps

last_value-AtLeast : (m : ℕ) (ps : List (ℕ × ℕ)) → FallsFrom m ps → AtLeast (last_value ps) ps
unfolding last_value
last_value-AtLeast m [] f = tt
last_value-AtLeast m (p ∷ []) f = (omega arith, tt)
last_value-AtLeast m (p ∷ q ∷ ps) f =
    let rest = last_value-AtLeast p.0 (q ∷ ps) f.1 in (omega (arith, rest.0, f.1.0), rest)

-- A value that is not above the others goes behind them.
take_smaller :
    (k v b : ℕ) (ps : List (ℕ × ℕ))
    → v ≤ b
    → AtLeast b ps
    → k ≤ length ps
    → take k (insert_value v (values ps)) ≡ take k (values ps)
take_smaller zero v b ps h a full = refl
take_smaller (suc k) v b [] h a full = absurd (omega arith)
take_smaller (suc k) v b (p ∷ ps) h a full =
    let on : leb v p.0 ≡ true = ground (arith, a.0) in
    rw on (ap (λ xs. p.0 ∷ xs) (take_smaller k v b ps h a.1 (omega (arith, full))))

-- After some pairs, whose values are `seen` in decreasing order.
record IsTop (k : ℕ) (seen : List ℕ) (s : Top) : Type 0 where
  largest : values s.top_k ≡ take k seen
  bound : ℕ
  falls : FallsFrom bound s.top_k
  least : AtLeast s.min_so_far s.top_k

cut : (k : ℕ) (ps : List (ℕ × ℕ)) → (if ltb k (length ps) then take k ps else ps) ≡ take k ps
cut k ps = elim (Bool-cases (ltb k (length ps))) [
  | inl long ↦ rw long refl
  | inr short ↦ rw short (sym (take_all k ps (ground arith)))
]

top_step-IsTop :
    (k : ℕ) (seen : List ℕ) (s : Top) (kvp : ℕ × ℕ)
    → IsTop k seen s
    → IsTop k (insert_value kvp.1 seen) (top_step k s kvp)
unfolding top_step
top_step-IsTop k seen s kvp t =
    let more : List (ℕ × ℕ) = s.top_k ++ (kvp.1, kvp.0) ∷ [] in
    let sorted = sort_pairs more in
    let in_order =
      values-sort_pairs more
      ∙ ap sort_values (values-append s.top_k (kvp.1, kvp.0))
      ∙ sort_values_last (values s.top_k) kvp.1
      ∙ ap (insert_value kvp.1) (FallsFrom-sort_values t.bound s.top_k t.falls ∙ t.largest) in
    let falls = FallsFrom-take _ k sorted (FallsFrom-sort_pairs more) in
    elim (Bool-cases (ltb (length s.top_k) k || ltb s.min_so_far kvp.1)) [
      | inl test ↦
          rw (test, cut k sorted)
            (record {
              largest =
                  values-take k sorted ∙ ap (take k) in_order ∙ take-insert_value k kvp.1 seen;
              bound = _;
              falls = falls;
              least = last_value-AtLeast _ (take k sorted) falls;
            })
      | inr test ↦
          let full : k ≤ length s.top_k = ground arith in
          let small : kvp.1 ≤ s.min_so_far = ground arith in
          rw test (record {
            largest =
                t.largest
                ∙ sym (take_twice k seen)
                ∙ ap (take k) (sym t.largest)
                ∙ sym (take_smaller k kvp.1 s.min_so_far s.top_k small t.least full)
                ∙ ap (λ ws. take k (insert_value kvp.1 ws)) t.largest
                ∙ take-insert_value k kvp.1 seen;
            bound = t.bound;
            falls = t.falls;
            least = t.least;
          })
    ]

abbrev pub second_values : List (ℕ × ℕ) → List ℕ
second_values ps = map (λ (p : ℕ × ℕ). p.1) ps

top_each-IsTop :
    (k : ℕ) (seen : List ℕ) (s : Top) (to_sort : List (ℕ × ℕ))
    → IsTop k (sort_values seen) s
    → values (top_each k s to_sort).top_k ≡ take k (sort_values (second_values to_sort ++ seen))
unfolding top_each
top_each-IsTop k seen s [] t = t.largest
top_each-IsTop k seen s (kvp ∷ to_sort) t =
    top_each-IsTop k (kvp.1 ∷ seen) (top_step k s kvp) to_sort
      (top_step-IsTop k (sort_values seen) s kvp t)
    ∙ ap (take k) (sort_values_middle (second_values to_sort) seen kvp.1)

append_nil : (vs : List ℕ) → vs ++ [] ≡ vs
append_nil [] = refl
append_nil (v ∷ vs) = ap (λ ws. v ∷ ws) (append_nil vs)

-- When at least one pair is asked for, the values of the pairs that TopK yields are the first of
-- all values sorted by decreasing size.
pub top_k-largest :
    (to_sort : List (ℕ × ℕ)) (k : ℕ)
    → values (top_k to_sort (suc k)) ≡ take (suc k) (sort_values (second_values to_sort))
unfolding top_k
top_k-largest to_sort k =
    top_each-IsTop (suc k) [] (record { top_k = []; min_so_far = 0 }) to_sort
      (record { largest = refl; bound = 0; falls = tt; least = tt })
    ∙ ap (λ vs. take (suc k) (sort_values vs)) (append_nil (second_values to_sort))
