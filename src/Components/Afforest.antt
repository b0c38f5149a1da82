-- ===== src/Components/Afforest.antt =====
-- Afforest of src/cc.cc, as one thread runs it.
pub mod Growing
pub mod Labels
pub mod Correct
use shared_gapbs.Base.{
  ℕ, Array, write, List, [], ◌∷◌, if◌then◌else◌, Option, some, ◌==◌, for_range, for_each, chain,
}
use shared_gapbs.Graph.{CsrGraph, to_list, out_neigh, in_neigh}
use shared_gapbs.Components.{link, compress}

-- Every vertex is its own tree; `fresh` is what the allocated memory held.
unfoldable pub init_comp : ℕ → Array ℕ → Array ℕ
init_comp n fresh = for_range n 0 (λ n comp. write comp n n) fresh

-- `for (NodeID v : vs) Link(u, v, comp);`
unfoldable pub link_each : ℕ → List ℕ → Array ℕ → Option (Array ℕ)
link_each u [] comp = some comp
link_each u (v ∷ vs) comp = chain (link u v comp) (link_each u vs)

-- The same loop with a `break` behind Link.
unfoldable pub link_first : ℕ → List ℕ → Array ℕ → Option (Array ℕ)
link_first u [] comp = some comp
link_first u (v ∷ vs) comp = link u v comp

-- A round of sampling: every vertex is linked to its neighbour number `r`, if there is one.
unfoldable pub sample_round : CsrGraph → ℕ → Array ℕ → Option (Array ℕ)
unfolding link_first
sample_round g r comp =
    chain (for_each g.num_nodes (λ u. link_first u (to_list (out_neigh g u r))) comp)
      (compress g.num_nodes)

-- The body of the final loop, for a vertex `u` and the component `c` that is skipped.
unfoldable pub link_rest : CsrGraph → ℕ → ℕ → ℕ → Array ℕ → Option (Array ℕ)
unfolding link_each
link_rest g neighbor_rounds c u comp =
    let out = link_each u (to_list (out_neigh g u neighbor_rounds)) comp in
    if comp u == c
    then some comp
    else (if g.directed then chain out (link_each u (to_list (in_neigh g u 0))) else out)

-- `sample` is SampleFrequentElement.
unfoldable pub afforest : Array ℕ → (Array ℕ → ℕ) → CsrGraph → ℕ → Option (Array ℕ)
unfolding init_comp sample_round link_rest
afforest fresh sample g neighbor_rounds =
    chain (for_each neighbor_rounds (sample_round g) (init_comp g.num_nodes fresh)) λ comp.
      chain (for_each g.num_nodes (link_rest g neighbor_rounds (sample comp)) comp)
        (compress g.num_nodes)
