-- ===== src/Builder/Degrees.antt =====
-- FindMaxNodeID and CountDegrees of src/builder.h.
pub mod Laws
use shared_gapbs.Base.{
  ℕ, suc, ◌+◌, ◌%◌, ◌^◌, max, Bool, true, false, not, ◌&&◌, ◌||◌, Array, write, List, [], ◌∷◌, ◌++◌,
  ◌==◌, if◌then◌else◌, length, ◌≡◌, ◌≤◌, ◌<◌, arith, Bool-cases, inl, inr, refl, ap, ◌∙◌,
  length-append,
}
use shared_gapbs.Atomics.{fetch_and_add}
use shared_gapbs.PVector.{PVector, new_filled, get, put}
use shared_gapbs.Graph.{EdgePair}

-- The members of BuilderBase that the construction reads.
pub record Options : Type 0 where
  pub symmetrize : Bool
  pub in_place : Bool

-- `max_seen` starts at 0.
unfoldable pub find_max : ℕ → List EdgePair → ℕ
find_max max_seen [] = max_seen
find_max max_seen (e ∷ el) = find_max (max (max max_seen e.u) e.v) el

unfoldable pub find_max_node_id : List EdgePair → ℕ
unfolding find_max
find_max_node_id el = find_max 0 el

-- A degree is a NodeID_ of 32 bits, here by its bits: from 2 ^ 31 on it stands for a negative number.
pub bump : ℕ → PVector ℕ → PVector ℕ
bump n degrees = put degrees n ((fetch_and_add (get degrees n) 1).1 % 2 ^ 32)

-- The body of the loop of CountDegrees.
pub count_edge : Options → Bool → PVector ℕ → EdgePair → PVector ℕ
unfolding bump
count_edge o transpose degrees e =
    let out =
      if o.symmetrize || (not o.symmetrize && not transpose) then bump e.u degrees else degrees in
    if (o.symmetrize && not o.in_place) || (not o.symmetrize && transpose)
    then bump e.v out
    else out

count_each : Options → Bool → PVector ℕ → List EdgePair → PVector ℕ
count_each o transpose degrees [] = degrees
count_each o transpose degrees (e ∷ el) =
    count_each o transpose (count_edge o transpose degrees e) el

pub count_degrees : Array ℕ → Options → ℕ → List EdgePair → Bool → PVector ℕ
unfolding count_each new_filled
count_degrees fresh o num_nodes el transpose =
    count_each o transpose (new_filled fresh num_nodes 0) el

-- The arcs (source, target) that an edge list stands for: both directions when it is symmetrized,
-- else the edges, or the reversed edges of the transposed graph.
unfoldable pub arcs : Bool → Bool → List EdgePair → List (ℕ × ℕ)
arcs symmetrize transpose [] = []
arcs true transpose (e ∷ el) = (e.u, e.v) ∷ (e.v, e.u) ∷ arcs true transpose el
arcs false true (e ∷ el) = (e.v, e.u) ∷ arcs false true el
arcs false false (e ∷ el) = (e.u, e.v) ∷ arcs false false el

-- The targets of the arcs out of `v`, in order.
unfoldable pub targets : ℕ → List (ℕ × ℕ) → List ℕ
targets v [] = []
targets v ((u, x) ∷ ps) = if u == v then x ∷ targets v ps else targets v ps
