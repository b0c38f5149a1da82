-- ===== src/Triangles/Scan.antt =====
-- The scan of a sorted neighbourhood in OrderedCount (src/tc.cc): it never runs past the end.
use shared_gapbs.Base.{
  ℕ, suc, ◌+◌, ◌≤◌, ◌≡◌, refl, ap, ◌∙◌, arith, true, false, List, [], ◌∷◌, ltb, ◌==◌, if◌then◌else◌,
  some, Bool-cases, inl, inr,
}
use shared_gapbs.Stl.{contains, AscendsFrom}
use shared_gapbs.Stl.Laws.{AscendsFrom-contains}
use shared_gapbs.Triangles.{skip, count_w, closing}

-- Where the scan for `w` stops.
record Stop (w : ℕ) (it : List ℕ) : Type 0 where
  x : ℕ
  rest : List ℕ
  found : skip w it ≡ some (x, rest)
  reached : w ≤ x
  ascends : AscendsFrom (suc x) rest
  kept : (z : ℕ) → w ≤ z → contains z (x ∷ rest) ≡ contains z it

skip-Stop : (m w v : ℕ) (it : List ℕ) → AscendsFrom m it → w ≤ v → contains v it ≡ true → Stop w it
unfolding skip contains
skip-Stop m w v [] a h c = absurd (ground arith)
skip-Stop m w v (x ∷ it) a h c = elim (Bool-cases (ltb x w)) [
  | inl below ↦
      let later : contains v it ≡ true = ground arith in
      let s = skip-Stop (suc x) w v it a.1 h later in
      record {
        x = s.x;
        rest = s.rest;
        found = rw below s.found;
        reached = s.reached;
        ascends = s.ascends;
        kept = λ z le. s.kept z le ∙ ground arith;
      }
  | inr here ↦ record {
    x = x;
    rest = it;
    found = rw here refl;
    reached = ground arith;
    ascends = a.1;
    kept = λ z le. refl;
  }
]

pub AscendsFrom-weaken :
    (w v : ℕ) (ws : List ℕ) → v ≤ w → AscendsFrom (suc w) ws → AscendsFrom (suc v) ws
AscendsFrom-weaken w v [] h a = tt
AscendsFrom-weaken w v (x ∷ ws) h a = (omega (arith, a.0), a.1)

-- A list that starts above `v` has nothing to count.
closing_none : (row : List ℕ) (v : ℕ) (ws : List ℕ) → AscendsFrom (suc v) ws → closing row v ws ≡ 0
closing_none row v [] a = refl
closing_none row v (w ∷ ws) a =
    let later = closing_none row v ws (AscendsFrom-weaken w v ws (omega (arith, a.0)) a.1) in
    ground (arith, later, a.0)

-- Counting with the moving scan finds exactly the common neighbours that are at most `v`.
pub count_w_lem :
    (row it : List ℕ) (m v k : ℕ) (ws : List ℕ) (total : ℕ)
    → AscendsFrom m it
    → AscendsFrom k ws
    → contains v it ≡ true
    → ((z : ℕ) → k ≤ z → contains z it ≡ contains z row)
    → count_w it v ws total ≡ some (closing row v ws + total)
unfolding count_w contains
count_w_lem row it m v k [] total a b c same = ap some (omega arith)
count_w_lem row it m v k (w ∷ ws) total a b c same = elim (Bool-cases (ltb v w)) [
  | inl above ↦
      let rest = closing_none row v (w ∷ ws) (ground arith, b.1) in
      rw (above, count_w) (ap some (omega (arith, rest)))
  | inr within ↦
      let s = skip-Stop m w v it a (ground arith) c in
      let kept = s.kept in
      let again =
        count_w_lem row (s.x ∷ s.rest) s.x v (suc w) ws (if w == s.x then suc total else total)
          (omega arith, s.ascends) b.1 (s.kept v (ground arith) ∙ c)
          (λ z le. s.kept z (omega arith) ∙ same z (omega (arith, b.0))) in
      rw (within, s.found, count_w) (again ∙ ap some (counted s.x (hit s) within))
]
  where
    hit : (s : Stop w it) → (w == s.x) ≡ contains w row
    hit s =
        let behind = AscendsFrom-contains (suc s.x) w s.rest s.ascends (omega (arith, s.reached)) in
        let seen = s.kept w (omega arith) ∙ same w (omega (arith, b.0)) in
        ground (arith, behind, seen)

    counted :
        (x : ℕ)
        → (w == x) ≡ contains w row
        → ltb v w ≡ false
        → closing row v ws + (if w == x then suc total else total) ≡ closing row v (w ∷ ws) + total
    counted x e h = ground (arith)
