-- ===== src/Components/Hooking.antt =====
-- ShiloachVishkin of src/cc_sv.cc, as one thread runs it.
pub mod Rounds
pub mod Correct
use shared_gapbs.Base.{
  ℕ, zero, suc, ◌+◌, ◌-◌, Bool, true, false, Array, write, List, [], ◌∷◌, ltb, ◌==◌, if◌then◌else◌,
  Option, none, some, for_range, chain, sum_below,
}
use shared_gapbs.Graph.{CsrGraph, to_list, out_neigh}
use shared_gapbs.Components.{compress}
use shared_gapbs.Components.Afforest.{init_comp}

pub record Hooking : Type 0 where
  pub comp : Array ℕ
  pub change : Bool

-- The body of the inner loop.
unfoldable pub hook_edge : ℕ → Hooking → ℕ → Hooking
hook_edge u s v =
    let comp_u = s.comp u in
    let comp_v = s.comp v in
    let high_comp = if ltb comp_v comp_u then comp_u else comp_v in
    let low_comp = comp_u + comp_v - high_comp in
    if comp_u == comp_v
    then s
    else (if high_comp == s.comp high_comp
        then record { comp = write s.comp high_comp low_comp; change = true }
        else s)

unfoldable pub hook_each : ℕ → List ℕ → Hooking → Hooking
hook_each u [] s = s
hook_each u (v ∷ vs) s = hook_each u vs (hook_edge u s v)

unfoldable pub hook_all : CsrGraph → Array ℕ → Hooking
unfolding hook_each
hook_all g comp =
    for_range g.num_nodes 0 (λ u. hook_each u (to_list (out_neigh g u 0)))
      (record { comp = comp; change = false })

-- `while (change)`; `none` is that the fuel ran out.
unfoldable pub sv_loop : ℕ → CsrGraph → Array ℕ → Option (Array ℕ)
unfolding hook_all
sv_loop zero g comp = none
sv_loop (suc fuel) g comp =
    let s = hook_all g comp in
    chain (compress g.num_nodes s.comp)
      λ comp. elim s.change [ true ↦ sv_loop fuel g comp | false ↦ some comp ]

-- A round with a change makes the sum of the labels smaller.
unfoldable pub shiloach_vishkin : Array ℕ → CsrGraph → Option (Array ℕ)
unfolding sv_loop
shiloach_vishkin fresh g =
    let comp = init_comp g.num_nodes fresh in sv_loop (suc (sum_below comp g.num_nodes)) g comp
