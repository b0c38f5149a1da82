-- ===== src/Triangles/Adjacency.antt =====
-- The triangles of a graph whose rows list the neighbours of a relation (src/tc.cc).
use shared_gapbs.Base.{
  sum_below-ext, sum_below-zero, ℕ, zero, suc, ◌+◌, ◌<◌, ◌≡◌, refl, ap, sym, ◌∙◌, arith, Bool,
  false, ◌&&◌, List, [], ◌∷◌, ltb, leb, ◌==◌, if◌then◌else◌, some, sum_below,
}
use shared_gapbs.Graph.{CsrGraph, to_list, out_neigh}
use shared_gapbs.Stl.{contains, AscendsFrom}
use shared_gapbs.Triangles.{ordered_count, closing, wedges}
use shared_gapbs.Stl.Laws.{AscendsFrom-contains}
use shared_gapbs.Triangles.Correct.{ordered_count-triangles}

-- Whether `w` is adjacent to `u` and to `v`, as a number.
abbrev pub third : (ℕ → ℕ → Bool) → ℕ → ℕ → ℕ → ℕ
third adj u v w = if adj u w && adj v w then 1 else 0

-- The number of triples `w < v < u < n` that are adjacent pairwise.
abbrev pub triangles_of : (ℕ → ℕ → Bool) → ℕ → ℕ
triangles_of adj =
    sum_below λ u. sum_below (λ v. if adj u v then sum_below (third adj u v) v else 0) u

-- Adding one position to what is summed.
sum_below-insert :
    (f g h : ℕ → ℕ) (x n : ℕ)
    → ((i : ℕ) → h i ≡ (if i == x then f x else g i))
    → g x ≡ 0
    → sum_below h n ≡ (if ltb x n then f x else 0) + sum_below g n
sum_below-insert f g h x zero e gone = ground arith
sum_below-insert f g h x (suc n) e gone =
    let before = sum_below-insert f g h x n e gone in
    let here = e n in ground (arith, before, here, ap g)

-- The members of an ascending list that are at most `b`, summed position by position.
abbrev pub sum_upto : ℕ → (ℕ → ℕ) → List ℕ → ℕ
sum_upto b f [] = 0
sum_upto b f (x ∷ xs) = (if leb x b then f x else 0) + sum_upto b f xs

pub sum_upto-sum_below :
    (b m : ℕ) (f : ℕ → ℕ) (xs : List ℕ)
    → AscendsFrom m xs
    → sum_upto b f xs ≡ sum_below (λ i. if contains i xs then f i else 0) (suc b)
unfolding contains
sum_upto-sum_below b m f [] a = sym (sum_below-zero (suc b))
sum_upto-sum_below b m f (x ∷ xs) a =
    let absent = AscendsFrom-contains (suc x) x xs a.1 (omega arith) in
    let rest = sum_upto-sum_below b (suc x) f xs a.1 in
    let split =
      sum_below-insert f (λ i. if contains i xs then f i else 0)
        (λ i. if contains i (x ∷ xs) then f i else 0) x (suc b) (λ i. ground (arith, ap f))
        (rw absent refl) in
    ground (arith, rest, split)

closing-sum_upto :
    (row_u : List ℕ) (v : ℕ) (ws : List ℕ)
    → closing row_u v ws ≡ sum_upto v (λ w. if contains w row_u then 1 else 0) ws
closing-sum_upto row_u v [] = refl
closing-sum_upto row_u v (w ∷ ws) = ground (arith, closing-sum_upto row_u v ws)

wedges-sum_upto :
    (row : ℕ → List ℕ) (u : ℕ) (vs : List ℕ)
    → wedges row u vs ≡ sum_upto u (λ v. closing (row u) v (row v)) vs
wedges-sum_upto row u [] = refl
wedges-sum_upto row u (v ∷ vs) = ground (arith, wedges-sum_upto row u vs)

-- The rows of the graph are ascending, and list the neighbours of an irreflexive relation.
pub record IsAdjacency (adj : ℕ → ℕ → Bool) (g : CsrGraph) : Type 0 where
  pub ascending : (v : ℕ) → v < g.num_nodes → AscendsFrom 0 (to_list (out_neigh g v 0))
  pub adjacent : (v z : ℕ) → v < g.num_nodes → contains z (to_list (out_neigh g v 0)) ≡ adj v z
  pub irreflexive : (v : ℕ) → adj v v ≡ false

module _ (adj : ℕ → ℕ → Bool) (g : CsrGraph) (is : IsAdjacency adj g) where
  abbrev row : ℕ → List ℕ
  row v = to_list (out_neigh g v 0)

  -- The sum over a row, up to its own vertex.
  row_sum :
      (f : ℕ → ℕ) (v : ℕ)
      → v < g.num_nodes
      → sum_upto v f (row v) ≡ sum_below (λ w. if adj v w then f w else 0) v
  row_sum f v h =
      let last = is.irreflexive v in
      let member = is.adjacent v v h in
      let others =
        sum_below-ext (λ w. if contains w (row v) then f w else 0) (λ w. if adj v w then f w else 0)
          v (λ w below. ap (λ b. if b then f w else 0) (is.adjacent v w h)) in
      sum_upto-sum_below v 0 f (row v) (is.ascending v h) ∙ ground (arith, last, member, others)

  closing_lem :
      (u v : ℕ) → u < g.num_nodes → v < u → closing (row u) v (row v) ≡ sum_below (third adj u v) v
  closing_lem u v h lt =
      closing-sum_upto (row u) v (row v)
      ∙ row_sum (λ w. if contains w (row u) then 1 else 0) v (omega arith)
      ∙ sum_below-ext (λ w. if adj v w then (if contains w (row u) then 1 else 0) else 0)
          (third adj u v) v (λ w below. ground (arith, is.adjacent u w h))

  wedges_lem :
      (u : ℕ)
      → u < g.num_nodes
      → wedges row u (row u) ≡ sum_below (λ v. if adj u v then sum_below (third adj u v) v else 0) u
  wedges_lem u h =
      wedges-sum_upto row u (row u)
      ∙ row_sum (λ v. closing (row u) v (row v)) u h
      ∙ sum_below-ext (λ v. if adj u v then closing (row u) v (row v) else 0)
          (λ v. if adj u v then sum_below (third adj u v) v else 0) u
          (λ v below. ap (λ k. if adj u v then k else 0) (closing_lem u v h below))

  -- OrderedCount yields the number of triangles.
  pub ordered_count-triangles_of : ordered_count g ≡ some (triangles_of adj g.num_nodes)
  ordered_count-triangles_of =
      ordered_count-triangles g is.ascending
      ∙ ap some (sum_below-ext (λ u. wedges row u (row u)) _ g.num_nodes wedges_lem)
