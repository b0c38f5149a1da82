-- ===== src/Builder/Degrees/Laws.antt =====
-- What FindMaxNodeID and CountDegrees of src/builder.h compute.
use shared_gapbs.Base.{
  ℕ, suc, ◌+◌, ◌^◌, max, Bool, true, false, Array, List, [], ◌∷◌, length, ◌≡◌, ◌≤◌, ◌<◌, arith,
  refl, ◌∙◌, sum_below, sum_below-zero, zero, ltb, if◌then◌else◌,
}
use shared_gapbs.PVector.{PVector, new_filled, get}
use shared_gapbs.Graph.{EdgePair}
use shared_gapbs.Builder.Degrees.{
  Options, find_max, find_max_node_id, bump, count_edge, count_each, count_degrees, arcs, targets,
}

-- Every endpoint is at most `n`.
abbrev pub AllLe : ℕ → List EdgePair → Type 0
AllLe n [] = Unit
AllLe n (e ∷ el) = (e.u ≤ n) × (e.v ≤ n) × AllLe n el

find_max_ge : (m : ℕ) (el : List EdgePair) → m ≤ find_max m el
unfolding find_max
find_max_ge m [] = omega arith
find_max_ge m (e ∷ el) = omega (arith, find_max_ge (max (max m e.u) e.v) el)

AllLe-mono : (m n : ℕ) (el : List EdgePair) → m ≤ n → AllLe m el → AllLe n el
AllLe-mono m n [] h a = tt
AllLe-mono m n (e ∷ el) h a = (omega arith, omega arith, AllLe-mono m n el h a.2)

find_max-AllLe : (m : ℕ) (el : List EdgePair) → AllLe (find_max m el) el
unfolding find_max
find_max-AllLe m [] = tt
find_max-AllLe m (e ∷ el) =
    let top = find_max_ge (max (max m e.u) e.v) el in
    (omega arith, omega arith, find_max-AllLe (max (max m e.u) e.v) el)

-- No endpoint exceeds the result.
pub find_max_node_id-AllLe : (el : List EdgePair) → AllLe (find_max_node_id el) el
unfolding find_max_node_id
find_max_node_id-AllLe el = find_max-AllLe 0 el

count_edge-targets :
    (o : Options) (t : Bool) (degrees : PVector ℕ) (e : EdgePair) (v : ℕ)
    → o.in_place ≡ false
    → get degrees v + length (targets v (arcs o.symmetrize t (e ∷ []))) < 2 ^ 31
    → get (count_edge o t degrees e) v
      ≡ get degrees v + length (targets v (arcs o.symmetrize t (e ∷ [])))
unfolding count_edge bump arcs targets
count_edge-targets o t degrees e v h low = ground arith

targets-arcs_cons :
    (s t : Bool) (e : EdgePair) (el : List EdgePair) (v : ℕ)
    → length (targets v (arcs s t (e ∷ el)))
      ≡ length (targets v (arcs s t (e ∷ []))) + length (targets v (arcs s t el))
unfolding arcs targets
targets-arcs_cons true t e el v = ground arith
targets-arcs_cons false true e el v = ground arith
targets-arcs_cons false false e el v = ground arith

count_each-targets :
    (o : Options) (t : Bool) (degrees : PVector ℕ) (el : List EdgePair) (v : ℕ)
    → o.in_place ≡ false
    → get degrees v + length (targets v (arcs o.symmetrize t el)) < 2 ^ 31
    → get (count_each o t degrees el) v
      ≡ get degrees v + length (targets v (arcs o.symmetrize t el))
unfolding count_each
count_each-targets o t degrees [] v h low = unfold arcs targets in omega arith
count_each-targets o t degrees (e ∷ el) v h low =
    let split = targets-arcs_cons o.symmetrize t e el v in
    let one = count_edge-targets o t degrees e v h (omega (arith, low, split)) in
    let rest =
      count_each-targets o t (count_edge o t degrees e) el v h (omega (arith, low, split, one)) in
    omega (arith, rest, one, split)

size-count_each :
    (o : Options) (t : Bool) (degrees : PVector ℕ) (el : List EdgePair)
    → (count_each o t degrees el).size ≡ degrees.size
unfolding count_each
size-count_each o t degrees [] = refl
size-count_each o t degrees (e ∷ el) =
    size-count_each o t (count_edge o t degrees e) el ∙ size-count_edge
  where
    size-count_edge : (count_edge o t degrees e).size ≡ degrees.size
    size-count_edge = unfold count_edge bump in ground arith

pub size-count_degrees :
    (fresh : Array ℕ) (o : Options) (n : ℕ) (el : List EdgePair) (t : Bool)
    → (count_degrees fresh o n el t).size ≡ n
unfolding count_degrees new_filled
size-count_degrees fresh o n el t = size-count_each o t (new_filled fresh n 0) el

-- When the graph is not built in place: the degree counted for a vertex below n with less than
-- 2 ^ 31 arcs out of it is their number, in every combination of symmetrizing and transposing.
pub count_degrees-targets :
    (fresh : Array ℕ) (o : Options) (n : ℕ) (el : List EdgePair) (t : Bool) (v : ℕ)
    → o.in_place ≡ false
    → v < n
    → length (targets v (arcs o.symmetrize t el)) < 2 ^ 31
    → get (count_degrees fresh o n el t) v ≡ length (targets v (arcs o.symmetrize t el))
unfolding count_degrees new_filled
count_degrees-targets fresh o n el t v h lt low =
    let start : get (new_filled fresh n 0) v ≡ 0 = ground arith in
    omega (
      arith,
      count_each-targets o t (new_filled fresh n 0) el v h (omega (arith, low, start)),
      start,
    )

-- Every arc leaves a vertex below `n`.
abbrev pub SourcesBelow : ℕ → List (ℕ × ℕ) → Type 0
SourcesBelow n [] = Unit
SourcesBelow n ((u, x) ∷ ps) = (u < n) × SourcesBelow n ps

pub arcs-SourcesBelow :
    (s t : Bool) (n : ℕ) (el : List EdgePair) → AllLe n el → SourcesBelow (suc n) (arcs s t el)
unfolding arcs
arcs-SourcesBelow s t n [] a = tt
arcs-SourcesBelow true t n (e ∷ el) a =
    (omega arith, (omega arith, arcs-SourcesBelow true t n el a.2))
arcs-SourcesBelow false true n (e ∷ el) a = (omega arith, arcs-SourcesBelow false true n el a.2)
arcs-SourcesBelow false false n (e ∷ el) a = (omega arith, arcs-SourcesBelow false false n el a.2)

sum_below-targets_cons :
    (n u x : ℕ) (ps : List (ℕ × ℕ))
    → sum_below (λ v. length (targets v ((u, x) ∷ ps))) n
      ≡ (if ltb u n then 1 else 0) + sum_below (λ v. length (targets v ps)) n
unfolding targets
sum_below-targets_cons zero u x ps = ground arith
sum_below-targets_cons (suc n) u x ps = ground (arith, sum_below-targets_cons n u x ps)

-- The degrees of all vertices add up to the number of arcs.
pub sum_below-targets :
    (n : ℕ) (ps : List (ℕ × ℕ))
    → SourcesBelow n ps
    → sum_below (λ v. length (targets v ps)) n ≡ length ps
sum_below-targets n [] h = unfold targets in sum_below-zero n
sum_below-targets n ((u, x) ∷ ps) h =
    ground (arith, sum_below-targets_cons n u x ps, sum_below-targets n ps)
