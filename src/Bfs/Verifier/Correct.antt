-- ===== src/Bfs/Verifier/Correct.antt =====
-- The verdict of BFSVerifier (src/bfs.cc).
use shared_gapbs.Base.{
  all_below, all_below_lem, ℕ, ℤ, pos, ◌<◌, ◌≡◌, ◌↔◌, refl, ap, sym, ◌∙◌, arith, Bool, true, Array,
  some, inl, inr,
}
use shared_gapbs.Graph.{CsrGraph}
use shared_gapbs.Bfs.{Memory, dobfs}
use shared_gapbs.Bfs.Rounds.{IsTransposed}
use shared_gapbs.Bfs.Correct.{IsBfsTree, dobfs-IsBfsTree}
use shared_gapbs.Bfs.Verifier.{check_vertex, bfs_verifier}
use shared_gapbs.Bfs.Verifier.Filling.{pos-injective}
use shared_gapbs.Bfs.Verifier.Distances.{IsDistance, filled-IsDistance}
use shared_gapbs.Bfs.Walks.{Chain-Walk}
use shared_gapbs.Bfs.Verifier.Parents.{
  Chain-negative, IsDistance-Walk, check_vertex-new, Chain-depth, check_vertex-Chain,
}

check-IsBfsTree :
    (g : CsrGraph) (source : ℕ) (parent depth : Array ℤ)
    → IsTransposed g
    → IsDistance g source depth
    → ((v : ℕ) → v < g.num_nodes → check_vertex g source parent depth v ≡ true)
    → IsBfsTree g source parent
check-IsBfsTree g source parent depth is far ok = record {
  tree = λ v lt. elim (far.shown v) [
    | inl new ↦ inl (check_vertex-new g source parent depth v new (ok v lt))
    | inr (d, at, path) ↦ inr (record {
      depth = d;
      parents = Chain-depth g source parent depth is far ok d v lt at;
      shortest = λ j w.
          let (m, at_v, le) = far.bound j v w in
          let same : d ≡ m = pos-injective d m (sym at ∙ at_v) in omega (arith, le, same);
    })
  ];
  complete = λ j v lt w.
      let (d, at, le) = far.bound j v w in
      Chain-negative g source parent d v (Chain-depth g source parent depth is far ok d v lt at);
}

IsBfsTree-check :
    (g : CsrGraph) (source : ℕ) (parent depth : Array ℤ)
    → IsTransposed g
    → IsDistance g source depth
    → IsBfsTree g source parent
    → (v : ℕ) → v < g.num_nodes
    → check_vertex g source parent depth v ≡ true
unfolding check_vertex
IsBfsTree-check g source parent depth is far t v lt = elim (t.tree v lt) [
  | inl orphan ↦ elim (far.shown v) [
    | inl new ↦ rw (orphan, new) (ground arith)
    | inr (d, at, path) ↦ let has = t.complete d v lt path in absurd (ground (arith, has, orphan))
  ]
  | inr p ↦
      let (d, at, le) = far.bound p.depth v (Chain-Walk g source parent p.depth v p.parents) in
      let least = p.shortest d (IsDistance-Walk g source depth far v d at) in
      let same : d ≡ p.depth = omega (arith, le, least) in
      check_vertex-Chain g source parent depth p.depth v is far (at ∙ ap pos same) p.parents
]

-- On a graph whose out-neighbours are vertices and whose in-neighbours are the vertices with an
-- edge to the vertex, and from a source in the graph: BFSVerifier ends, and it answers true
-- exactly if every vertex has the parent -1 or there is a walk from the source that follows the
-- parents to it and is as short as any, and every vertex that a walk from the source leads to has
-- a parent.
pub bfs_verifier-IsBfsTree :
    (g : CsrGraph) (source : ℕ) (parent : Array ℤ)
    → IsTransposed g
    → source < g.num_nodes
    → (verdict : Bool) × (bfs_verifier g source parent ≡ some verdict)
      × ((verdict ≡ true) ↔ IsBfsTree g source parent)
unfolding bfs_verifier
bfs_verifier-IsBfsTree g source parent is within =
    let (depth, filled, far) = filled-IsDistance g source is within in
    let check : ℕ → Bool = check_vertex g source parent depth in
    let (to, from) = all_below_lem g.num_nodes check in
    (
      all_below g.num_nodes check,
      rw filled refl,
      (
        λ ok. check-IsBfsTree g source parent depth is far (to ok),
        λ tree. from (λ v lt. IsBfsTree-check g source parent depth is far tree v lt),
      ),
    )

-- On a graph whose out-neighbours are vertices and whose in-neighbours are the vertices with an
-- edge to the vertex, and from a source in the graph: DOBFS ends, whatever memory it is given and
-- whatever alpha and beta make of the directions, and BFSVerifier answers true for its parents.
pub bfs_verifier-dobfs :
    (fresh : Memory) (g : CsrGraph) (source alpha beta : ℕ)
    → IsTransposed g
    → source < g.num_nodes
    → (parent : Array ℤ) × (dobfs fresh g source alpha beta ≡ some parent)
      × (bfs_verifier g source parent ≡ some true)
bfs_verifier-dobfs fresh g source alpha beta is within =
    let (parent, e, tree) = dobfs-IsBfsTree fresh g is source within alpha beta in
    let (verdict, v, accepts) = bfs_verifier-IsBfsTree g source parent is within in
    (parent, e, v ∙ ap some (accepts.1 tree))
