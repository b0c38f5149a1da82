-- ===== src/Stl/Values.antt =====
-- The first numbers of sorted pairs: numbers in decreasing order.
use shared_gapbs.Base.{
  ℕ, zero, suc, ◌≤◌, ◌≡◌, refl, ap, sym, subst, ◌∙◌, arith, Bool-cases, inl, inr, true, List, [],
  ◌∷◌, ◌++◌, map, take, leb, if◌then◌else◌,
}
use shared_gapbs.Stl.{pair_gt, insert_pair, sort_pairs}
use shared_gapbs.Stl.Pairs.{FallsFrom, FallsFrom-sort_pairs}

-- Values in decreasing order, one inserted after the other.
abbrev pub insert_value : ℕ → List ℕ → List ℕ
insert_value v [] = v ∷ []
insert_value v (w ∷ ws) = let rest = insert_value v ws in if leb v w then w ∷ rest else v ∷ w ∷ ws

abbrev pub sort_values : List ℕ → List ℕ
sort_values [] = []
sort_values (v ∷ vs) = insert_value v (sort_values vs)

abbrev pub values : List (ℕ × ℕ) → List ℕ
values ps = map (λ (p : ℕ × ℕ). p.0) ps

pub insert_value_comm :
    (v w : ℕ) (ws : List ℕ)
    → insert_value v (insert_value w ws) ≡ insert_value w (insert_value v ws)
insert_value_comm v w [] = ground arith
insert_value_comm v w (x ∷ ws) = ground (arith, insert_value_comm v w ws)

take_shorter : (k : ℕ) (ws : List ℕ) → take k (take (suc k) ws) ≡ take k ws
take_shorter zero ws = refl
take_shorter (suc k) [] = refl
take_shorter (suc k) (w ∷ ws) = ap (λ xs. w ∷ xs) (take_shorter k ws)

take_cons : (k w : ℕ) (ws : List ℕ) → take k (w ∷ take k ws) ≡ take k (w ∷ ws)
take_cons zero w ws = refl
take_cons (suc k) w ws = ap (λ xs. w ∷ xs) (take_shorter k ws)

-- The first values of a list hold the first values of the list with one more.
pub take-insert_value :
    (k v : ℕ) (ws : List ℕ) → take k (insert_value v (take k ws)) ≡ take k (insert_value v ws)
take-insert_value zero v ws = refl
take-insert_value (suc k) v [] = refl
take-insert_value (suc k) v (w ∷ ws) = elim (Bool-cases (leb v w)) [
  | inl on ↦ rw on (ap (λ xs. w ∷ xs) (take-insert_value k v ws))
  | inr here ↦ rw here (ap (λ xs. v ∷ xs) (take_cons k w ws))
]

-- A value goes in front of those that fall from it.
insert_value_head :
    (v : ℕ) (ps : List (ℕ × ℕ)) → FallsFrom v ps → insert_value v (values ps) ≡ v ∷ values ps
insert_value_head v [] f = refl
insert_value_head v (p ∷ ps) f = elim (Bool-cases (leb v p.0)) [
  | inl on ↦
      let same : p.0 ≡ v = ground (arith, f.0) in
      rw on (
        ap (λ xs. p.0 ∷ xs) (insert_value_head v ps (subst (λ w. FallsFrom w ps) same f.1))
        ∙ rw same refl)
  | inr here ↦ rw here refl
]

values-insert_pair :
    (m : ℕ) (x : ℕ × ℕ) (ys : List (ℕ × ℕ))
    → FallsFrom m ys
    → values (insert_pair x ys) ≡ insert_value x.0 (values ys)
unfolding insert_pair
values-insert_pair m x [] f = refl
values-insert_pair m x (y ∷ ys) f = elim (Bool-cases (pair_gt y x)) [
  | inl above ↦
      let on : leb x.0 y.0 ≡ true = unfold pair_gt in ground arith in
      rw (above, on, insert_pair) (ap (λ xs. y.0 ∷ xs) (values-insert_pair y.0 x ys f.1))
  | inr below ↦
      let le : y.0 ≤ x.0 = unfold pair_gt in ground arith in
      rw (below, insert_pair) (sym (insert_value_head x.0 (y ∷ ys) (le, f.1)))
]

pub values-sort_pairs : (ps : List (ℕ × ℕ)) → values (sort_pairs ps) ≡ sort_values (values ps)
unfolding sort_pairs
values-sort_pairs [] = refl
values-sort_pairs (p ∷ ps) =
    values-insert_pair _ p (sort_pairs ps) (FallsFrom-sort_pairs ps)
    ∙ ap (insert_value p.0) (values-sort_pairs ps)

pub sort_values_last :
    (ws : List ℕ) (v : ℕ) → sort_values (ws ++ v ∷ []) ≡ insert_value v (sort_values ws)
sort_values_last [] v = refl
sort_values_last (w ∷ ws) v =
    ap (insert_value w) (sort_values_last ws v) ∙ insert_value_comm w v (sort_values ws)

-- What falls is sorted.
pub FallsFrom-sort_values :
    (m : ℕ) (ps : List (ℕ × ℕ)) → FallsFrom m ps → sort_values (values ps) ≡ values ps
FallsFrom-sort_values m [] f = refl
FallsFrom-sort_values m (p ∷ ps) f =
    ap (insert_value p.0) (FallsFrom-sort_values p.0 ps f.1) ∙ insert_value_head p.0 ps f.1

pub values-append : (ps : List (ℕ × ℕ)) (p : ℕ × ℕ) → values (ps ++ p ∷ []) ≡ values ps ++ p.0 ∷ []
values-append [] p = refl
values-append (q ∷ ps) p = ap (λ xs. q.0 ∷ xs) (values-append ps p)

pub values-take : (k : ℕ) (ps : List (ℕ × ℕ)) → values (take k ps) ≡ take k (values ps)
values-take zero ps = refl
values-take (suc k) [] = refl
values-take (suc k) (p ∷ ps) = ap (λ xs. p.0 ∷ xs) (values-take k ps)

pub FallsFrom-take : (m k : ℕ) (ps : List (ℕ × ℕ)) → FallsFrom m ps → FallsFrom m (take k ps)
FallsFrom-take m zero ps f = tt
FallsFrom-take m (suc k) [] f = tt
FallsFrom-take m (suc k) (p ∷ ps) f = (f.0, FallsFrom-take p.0 k ps f.1)

pub take_twice : (k : ℕ) (ws : List ℕ) → take k (take k ws) ≡ take k ws
take_twice zero ws = refl
take_twice (suc k) [] = refl
take_twice (suc k) (w ∷ ws) = ap (λ xs. w ∷ xs) (take_twice k ws)

pub sort_values_middle :
    (vs ws : List ℕ) (v : ℕ) → sort_values (vs ++ v ∷ ws) ≡ insert_value v (sort_values (vs ++ ws))
sort_values_middle [] ws v = refl
sort_values_middle (w ∷ vs) ws v =
    ap (insert_value w) (sort_values_middle vs ws v)
    ∙ insert_value_comm w v (sort_values (vs ++ ws))
