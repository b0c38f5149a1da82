-- ===== src/Triangles/Verifier.antt =====
-- TCVerifier of src/tc.cc: it counts every triangle six times.
use shared_gapbs.Base.{
  subst, ℕ, suc, List, [], ◌∷◌, ◌≡◌, ◌*◌, ◌/◌, ◌≤◌, ◌<◌, ◌⊎◌, ◌↔◌, inl, inr, refl, sym, ap, ◌∙◌,
  arith, Bool, true, false, Bool-cases, ltb, ◌==◌, if◌then◌else◌, length, some, sum_list, sum_below,
  sum_below-ext,
}
use shared_gapbs.Graph.{CsrGraph, to_list, out_neigh}
use shared_gapbs.Stl.{contains, AscendsFrom}
use shared_gapbs.Triangles.{drop_below, set_intersection, common_of, tc_verifier, ordered_count}
use shared_gapbs.Stl.Laws.{AscendsFrom-contains}
use shared_gapbs.Triangles.Adjacency.{
  sum_upto, sum_upto-sum_below, third, triangles_of, IsAdjacency, ordered_count-triangles_of,
}
use shared_gapbs.Triangles.Triples.{if_sum, pairs, triple, triples-triangles_of}

sum_list-sum_upto :
    (b : ℕ) (f : ℕ → ℕ) (xs : List ℕ)
    → ((x : ℕ) → contains x xs ≡ true → x ≤ b)
    → sum_list f xs ≡ sum_upto b f xs
unfolding contains
sum_list-sum_upto b f [] h = refl
sum_list-sum_upto b f (x ∷ xs) h =
    let head = h x (ground arith) in
    let rest = sum_list-sum_upto b f xs (λ z e. h z (ground arith)) in ground (arith, head, rest)

list_cases : (xs : List ℕ) → (xs ≡ []) ⊎ ((x : ℕ) × (ys : List ℕ) × (xs ≡ x ∷ ys))
list_cases [] = inl refl
list_cases (x ∷ xs) = inr (x, xs, refl)

-- What is left of an ascending list once the elements below `w` are dropped.
drop_below-AscendsFrom :
    (w m : ℕ) (ys : List ℕ) → AscendsFrom m ys → AscendsFrom w (drop_below w ys)
unfolding drop_below
drop_below-AscendsFrom w m [] a = tt
drop_below-AscendsFrom w m (y ∷ ys) a = elim (Bool-cases (ltb y w)) [
  | inl below ↦ rw (below, drop_below) (drop_below-AscendsFrom w (suc y) ys a.1)
  | inr here ↦ rw (here, drop_below) (ground arith, a.1)
]

contains-drop_below : (w z : ℕ) (ys : List ℕ) → w ≤ z → contains z (drop_below w ys) ≡ contains z ys
unfolding drop_below contains
contains-drop_below w z [] h = refl
contains-drop_below w z (y ∷ ys) h = ground (arith, contains-drop_below w z ys h)

sum_list-none :
    (f : ℕ → ℕ) (m : ℕ) (xs : List ℕ)
    → AscendsFrom m xs
    → ((z : ℕ) → m ≤ z → f z ≡ 0)
    → sum_list f xs ≡ 0
sum_list-none f m [] a h = refl
sum_list-none f m (x ∷ xs) a h =
    omega (arith, h x a.0, sum_list-none f (suc x) xs a.1 (λ z le. h z (omega (arith, a.0))))

-- The second range once its first element is matched.
next_ascends :
    (x y : ℕ) (rest : List ℕ)
    → AscendsFrom x (y ∷ rest)
    → AscendsFrom (suc x) (if x == y then rest else y ∷ rest)
next_ascends x y rest a = elim (Bool-cases (x == y)) [
  | inl e ↦ let same : y ≡ x = ground arith in rw e (subst (λ k. AscendsFrom (suc k) rest) same a.1)
  | inr e ↦ rw e (ground (arith, a.0), a.1)
]

next_contains :
    (x y z : ℕ) (rest : List ℕ)
    → x < z
    → contains z (if x == y then rest else y ∷ rest) ≡ contains z (y ∷ rest)
unfolding contains
next_contains x y z rest h = ground arith

-- The intersection with what is left of a list is the number of its members in the whole list.
length-set_intersection :
    (m k : ℕ) (xs it row : List ℕ)
    → AscendsFrom m xs
    → AscendsFrom k it
    → ((z : ℕ) → m ≤ z → contains z it ≡ contains z row)
    → length (set_intersection xs it) ≡ sum_list (λ x. if contains x row then 1 else 0) xs
unfolding set_intersection contains
length-set_intersection m k [] it row a b same = refl
length-set_intersection m k (x ∷ xs) it row a b same =
    let ascends = drop_below-AscendsFrom x k it b in
    let kept : (z : ℕ) → x ≤ z → contains z (drop_below x it) ≡ contains z row =
      λ z le. contains-drop_below x z it le ∙ same z (omega (arith, a.0)) in
    elim (list_cases (drop_below x it)) [
      | inl e ↦
          let absent : (z : ℕ) → x ≤ z → contains z row ≡ false =
            λ z le. sym (kept z le) ∙ ap (contains z) e in
          let none =
            sum_list-none (λ z. if contains z row then 1 else 0) x (x ∷ xs) (omega arith, a.1)
              (λ z le. ap (λ b. if b then 1 else 0) (absent z le)) in
          rw (e, set_intersection) (sym none)
      | inr (y, rest, e) ↦
          let rising : AscendsFrom x (y ∷ rest) = subst (AscendsFrom x) e ascends in
          let absent = AscendsFrom-contains (suc y) x rest rising.1 (omega (arith, rising.0)) in
          let here : contains x (y ∷ rest) ≡ contains x row =
            sym (ap (contains x) e) ∙ kept x (omega arith) in
          let next : List ℕ = if x == y then rest else y ∷ rest in
          let again =
            length-set_intersection (suc x) (suc x) xs next row a.1 (next_ascends x y rest rising)
              (λ z le.
                next_contains x y z rest le
                ∙ sym (ap (contains z) e)
                ∙ kept z (omega (arith, le))) in
          rw (e, set_intersection) (ground (arith, again, here, absent))
    ]

common_of-sum_list :
    (row : ℕ → List ℕ) (u : ℕ) (vs : List ℕ)
    → common_of row u vs ≡ sum_list (λ v. length (set_intersection (row u) (row v))) vs
unfolding common_of
common_of-sum_list row u [] = refl
common_of-sum_list row u (v ∷ vs) = omega (arith, common_of-sum_list row u vs)

module _ (adj : ℕ → ℕ → Bool) (g : CsrGraph) (is : IsAdjacency adj g)
    (comm : (u v : ℕ) → adj u v ≡ adj v u)
    (inside : (u v : ℕ) → adj u v ≡ true → v < g.num_nodes) where
  abbrev row : ℕ → List ℕ
  row v = to_list (out_neigh g v 0)

  -- The sum over a row is one over all vertices.
  row_sum :
      (f : ℕ → ℕ) (v : ℕ)
      → v < g.num_nodes
      → sum_list f (row v) ≡ sum_below (λ w. if adj v w then f w else 0) g.num_nodes
  row_sum f v h =
      let n = g.num_nodes in
      let past : adj v n ≡ true → n < n = inside v n in
      let others =
        sum_below-ext (λ w. if contains w (row v) then f w else 0) (λ w. if adj v w then f w else 0)
          n (λ w below. ap (λ b. if b then f w else 0) (is.adjacent v w h)) in
      let member = is.adjacent v n h in
      sum_list-sum_upto n f (row v) (λ w e. omega (arith, inside v w (sym (is.adjacent v w h) ∙ e)))
      ∙ sum_upto-sum_below n 0 f (row v) (is.ascending v h)
      ∙ rw member (ground (arith, past, others))

  common :
      (u v : ℕ)
      → u < g.num_nodes
      → v < g.num_nodes
      → length (set_intersection (row u) (row v)) ≡ sum_below (third adj u v) g.num_nodes
  common u v h h' =
      length-set_intersection 0 0 (row u) (row v) (row v) (is.ascending u h) (is.ascending v h')
        (λ z le. refl)
      ∙ row_sum (λ w. if contains w (row v) then 1 else 0) u h
      ∙ sum_below-ext _ (third adj u v) g.num_nodes (λ w below. ground (arith, is.adjacent v w h'))

  common_of_lem :
      (u : ℕ) → u < g.num_nodes → common_of row u (row u) ≡ pairs (triple adj u) g.num_nodes
  common_of_lem u h =
      common_of-sum_list row u (row u)
      ∙ row_sum (λ v. length (set_intersection (row u) (row v))) u h
      ∙ sum_below-ext _ (λ v. sum_below (triple adj u v) g.num_nodes) g.num_nodes
          (λ v below.
            ap (λ k. if adj u v then k else 0) (common u v h below)
            ∙ if_sum (adj u v) (third adj u v) g.num_nodes)

  -- Before the division, the total of TCVerifier is six for each triangle.
  common-triangles_of :
      sum_below (λ u. common_of row u (row u)) g.num_nodes ≡ 6 * triangles_of adj g.num_nodes
  common-triangles_of =
      sum_below-ext _ (λ u. pairs (triple adj u) g.num_nodes) g.num_nodes common_of_lem
      ∙ triples-triangles_of adj comm is.irreflexive g.num_nodes

  pub tc_verifier-triangles_of :
      (test_total : ℕ) → tc_verifier g test_total ≡ (triangles_of adj g.num_nodes == test_total)
  unfolding tc_verifier
  tc_verifier-triangles_of test_total =
      ap (λ k. k / 6 == test_total) common-triangles_of ∙ ap (λ k. k == test_total) (omega arith)

  -- On a graph whose rows are ascending and list the neighbours of a symmetric and irreflexive
  -- relation of its vertices, TCVerifier accepts a total exactly if OrderedCount yields it.
  pub tc_verifier-ordered_count :
      (test_total : ℕ) → (tc_verifier g test_total ≡ true) ↔ (ordered_count g ≡ some test_total)
  tc_verifier-ordered_count test_total =
      let found = ordered_count-triangles_of adj g is in
      let verdict = tc_verifier-triangles_of test_total in
      (
        λ accepted.
            let same : triangles_of adj g.num_nodes ≡ test_total = ground (arith, verdict) in
            found ∙ ap some same,
        λ yields.
            let same : some (triangles_of adj g.num_nodes) ≡ some test_total = sym found ∙ yields in
            ground (arith, verdict),
      )
