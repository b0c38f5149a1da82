-- ===== src/Builder/Make/Edges.antt =====
-- The edges that a symmetrized edge list stands for (src/builder.h).
use shared_gapbs.Base.{
  ℕ, ◌*◌, Bool, true, false, ◌&&◌, ◌||◌, List, [], ◌∷◌, length, ◌≡◌, ◌≤◌, arith, refl, ◌==◌,
}
use shared_gapbs.Graph.{EdgePair}
use shared_gapbs.Stl.{contains}
use shared_gapbs.Builder.Degrees.{arcs, targets}

-- Some edge joins `v` and `z`, in one direction or the other.
abbrev pub joined : ℕ → ℕ → List EdgePair → Bool
joined v z [] = false
joined v z (e ∷ el) = (e.u == v && e.v == z) || (e.v == v && e.u == z) || joined v z el

pub contains-targets :
    (t : Bool) (v z : ℕ) (el : List EdgePair)
    → contains z (targets v (arcs true t el)) ≡ joined v z el
unfolding arcs targets contains
contains-targets t v z [] = refl
contains-targets t v z (e ∷ el) = ground (arith, contains-targets t v z el)

pub length-arcs : (t : Bool) (el : List EdgePair) → length (arcs true t el) ≡ 2 * length el
unfolding arcs
length-arcs t [] = refl
length-arcs t (e ∷ el) = omega (arith, length-arcs t el)

pub targets_le : (v : ℕ) (ps : List (ℕ × ℕ)) → length (targets v ps) ≤ length ps
unfolding targets
targets_le v [] = omega arith
targets_le v ((u, x) ∷ ps) = ground (arith, targets_le v ps)
