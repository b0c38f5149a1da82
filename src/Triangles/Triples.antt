-- ===== src/Triangles/Triples.antt =====
-- Every triangle is six triples of vertices, in whichever order they are counted (src/tc.cc).
use shared_gapbs.Base.{
  ℕ, zero, suc, ◌+◌, ◌*◌, ◌≡◌, refl, sym, ◌∙◌, arith, Bool, true, false, if◌then◌else◌, sum_below,
  sum_below-ext, sum_below-zero,
}
use shared_gapbs.Triangles.Adjacency.{third, triangles_of}

pub sum_below-add :
    (f g : ℕ → ℕ) (n : ℕ) → sum_below (λ i. f i + g i) n ≡ sum_below f n + sum_below g n
sum_below-add f g zero = refl
sum_below-add f g (suc n) = omega (arith, sum_below-add f g n)

-- The sum over all pairs below `n`.
abbrev pub pairs : (ℕ → ℕ → ℕ) → ℕ → ℕ
pairs f n = sum_below (λ u. sum_below (f u) n) n

pairs-suc :
    (f : ℕ → ℕ → ℕ) (n : ℕ)
    → pairs f (suc n) ≡ pairs f n + sum_below (λ u. f u n) n + sum_below (f n) n + f n n
pairs-suc f n = omega (arith, sum_below-add (λ u. sum_below (f u) n) (λ u. f u n) n)

-- A symmetric relation counts every pair twice.
pairs_twice :
    (f : ℕ → ℕ → ℕ) (n : ℕ)
    → ((u v : ℕ) → f u v ≡ f v u)
    → ((v : ℕ) → f v v ≡ 0)
    → pairs f n ≡ 2 * sum_below (λ u. sum_below (f u) u) n
pairs_twice f zero comm none = refl
pairs_twice f (suc n) comm none = omega (
  arith,
  pairs-suc f n,
  pairs_twice f n comm none,
  none n,
  sum_below-ext (λ u. f u n) (f n) n (λ u lt. comm u n),
)

-- Whether three vertices are adjacent pairwise, as a number.
abbrev pub triple : (ℕ → ℕ → Bool) → ℕ → ℕ → ℕ → ℕ
triple adj u v w = if adj u v then third adj u v w else 0

-- The sum over all triples below `n`.
abbrev pub triples : (ℕ → ℕ → ℕ → ℕ) → ℕ → ℕ
triples f n = sum_below (λ u. pairs (f u) n) n

triples-suc :
    (f : ℕ → ℕ → ℕ → ℕ) (n : ℕ)
    → ((u v : ℕ) → f u v v ≡ 0)
    → ((u v : ℕ) → f u v u ≡ 0)
    → ((u v : ℕ) → f u u v ≡ 0)
    → triples f (suc n)
      ≡ triples f n + pairs (λ u v. f u v n) n + pairs (λ u w. f u n w) n + pairs (f n) n
triples-suc f n none none' none'' =
    let inner : (u : ℕ)
        → pairs (f u) (suc n) ≡ pairs (f u) n + sum_below (λ v. f u v n) n + sum_below (f u n) n =
      λ u. omega (arith, pairs-suc (f u) n, none u n) in
    let low = sum_below-ext (λ u. pairs (f u) (suc n)) _ n (λ u lt. inner u) in
    let split =
      sum_below-add (λ u. pairs (f u) n + sum_below (λ v. f u v n) n) (λ u. sum_below (f u n) n)
        n in
    let split' = sum_below-add (λ u. pairs (f u) n) (λ u. sum_below (λ v. f u v n) n) n in
    let last = inner n in
    let gone : sum_below (λ v. f n v n) n ≡ 0 =
      sum_below-ext (λ v. f n v n) (λ v. 0) n (λ v lt. none' n v) ∙ sum_below-zero n in
    let gone' : sum_below (f n n) n ≡ 0 =
      sum_below-ext (f n n) (λ v. 0) n (λ v lt. none'' n v) ∙ sum_below-zero n in
    omega (arith, low, split, split', last, gone, gone')

pub if_sum :
    (b : Bool) (f : ℕ → ℕ) (n : ℕ)
    → (if b then sum_below f n else 0) ≡ sum_below (λ i. if b then f i else 0) n
if_sum true f n = refl
if_sum false f n = sym (sum_below-zero n)

module _ (adj : ℕ → ℕ → Bool) (comm : (u v : ℕ) → adj u v ≡ adj v u)
    (irreflexive : (v : ℕ) → adj v v ≡ false) where
  triple_swap : (u v w : ℕ) → triple adj u v w ≡ triple adj u w v
  triple_swap u v w = let c = comm v w in ground arith

  triple_turn : (u v w : ℕ) → triple adj u v w ≡ triple adj w u v
  triple_turn u v w = let c = comm u w in let d = comm v w in ground arith

  triple_none : (u v : ℕ) → triple adj u v v ≡ 0
  triple_none u v = let none = irreflexive v in ground arith

  triple_none' : (u v : ℕ) → triple adj u u v ≡ 0
  triple_none' u v = let none = irreflexive u in ground arith

  pub triples-triangles_of : (n : ℕ) → triples (triple adj) n ≡ 6 * triangles_of adj n
  triples-triangles_of zero = refl
  triples-triangles_of (suc n) =
      let split =
        triples-suc (triple adj) n triple_none (λ u v. triple_swap u v u ∙ triple_none' u v)
          triple_none' in
      let first : pairs (λ u v. triple adj u v n) n ≡ pairs (triple adj n) n =
        sum_below-ext _ _ n (λ u lt. sum_below-ext _ _ n (λ v lt'. triple_turn u v n)) in
      let second : pairs (λ u w. triple adj u n w) n ≡ pairs (triple adj n) n =
        sum_below-ext _ _ n
          (λ u lt. sum_below-ext _ _ n (λ v lt'. triple_swap u n v ∙ triple_turn u v n)) in
      let twice = pairs_twice (triple adj n) n (triple_swap n) (triple_none n) in
      let shape =
        sum_below-ext (λ v. if adj n v then sum_below (third adj n v) v else 0) _ n
          (λ v lt. if_sum (adj n v) (third adj n v) v) in
      omega (arith, split, first, second, twice, shape, triples-triangles_of n)
