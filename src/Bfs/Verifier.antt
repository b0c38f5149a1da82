-- ===== src/Bfs/Verifier.antt =====
-- BFSVerifier of src/bfs.cc: a serial search from the source, and a look at every parent.
pub mod Parents
pub mod Correct
pub mod Distances
pub mod Filling
use shared_gapbs.Base.{
  all_below, ℕ, ℤ, pos, negsuc, minus_one, ◌==ℤ◌, zero, suc, ◌+◌, Bool, true, false, not, ◌&&◌,
  ◌==◌, Array, write, List, [], ◌∷◌, ◌++◌, if◌then◌else◌, Option, none, some, chain,
}
use shared_gapbs.Graph.{CsrGraph, to_list, out_neigh, in_neigh}

-- `k + 1` and `k - 1` on `int`.
abbrev pub one_more : ℤ → ℤ
one_more (pos k) = pos (suc k)
one_more (negsuc zero) = pos 0
one_more (negsuc (suc k)) = negsuc k

abbrev pub one_less : ℤ → ℤ
one_less (pos zero) = minus_one
one_less (pos (suc k)) = pos k
one_less (negsuc k) = negsuc (suc k)

-- `depth`, and what is in `to_visit` behind the iterator.
pub record Depths : Type 0 where
  pub depth : Array ℤ
  pub to_visit : List ℕ

-- The body of the loop over the out-neighbours of `u`.
pub reach : ℕ → Depths → ℕ → Depths
reach u s v =
    if s.depth v ==ℤ minus_one
    then record { depth = write s.depth v (one_more (s.depth u)); to_visit = s.to_visit ++ v ∷ [] }
    else s

pub reach_each : ℕ → List ℕ → Depths → Depths
unfolding reach
reach_each u [] s = s
reach_each u (v ∷ vs) s = reach_each u vs (reach u s v)

-- The loop over `to_visit`, which grows meanwhile; `none` is that the fuel ran out.
pub fill_depths : ℕ → CsrGraph → Array ℤ → List ℕ → Option (Array ℤ)
unfolding reach_each
fill_depths zero g depth to_visit = none
fill_depths (suc fuel) g depth [] = some depth
fill_depths (suc fuel) g depth (u ∷ to_visit) =
    let s =
      reach_each u (to_list (out_neigh g u 0)) (record { depth = depth; to_visit = to_visit }) in
    fill_depths fuel g s.depth s.to_visit

-- The loop over the in-neighbours of a vertex with its `break`, for its parent and its depth.
pub find_edge : Array ℤ → ℤ → ℤ → List ℕ → Bool
find_edge depth parent own [] = false
find_edge depth parent own (v ∷ vs) =
    let rest = find_edge depth parent own vs in
    if pos v ==ℤ parent then depth v ==ℤ one_less own else rest

-- The body of the loop over the vertices, which `false` ends.
pub check_vertex : CsrGraph → ℕ → Array ℤ → Array ℤ → ℕ → Bool
unfolding find_edge
check_vertex g source parent depth u =
    if not (depth u ==ℤ minus_one) && not (parent u ==ℤ minus_one)
    then (if u == source
        then parent u ==ℤ pos u && depth u ==ℤ pos 0
        else find_edge depth (parent u) (depth u) (to_list (in_neigh g u 0)))
    else (depth u ==ℤ parent u)

-- The search is given two rounds more than there are vertices.
unfoldable pub bfs_verifier : CsrGraph → ℕ → Array ℤ → Option Bool
unfolding fill_depths check_vertex
bfs_verifier g source parent =
    chain (fill_depths (g.num_nodes + 2) g (write (λ v. minus_one) source (pos 0)) (source ∷ []))
      λ depth. some (all_below g.num_nodes (check_vertex g source parent depth))
