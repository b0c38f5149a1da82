-- ===== src/Components.antt =====
-- Link and Compress of src/cc.cc, the two steps of the connected components algorithm, run by one
-- thread: no other thread writes `comp` between two reads.
pub mod Closure
pub mod Linking
pub mod Compressing
pub mod Afforest
pub mod Hooking
pub mod EdgeList
pub mod Threads
pub mod Verifier
use shared_gapbs.Base.{
  ℕ, zero, suc, ◌+◌, ◌-◌, max, Bool, true, false, Array, write, ltb, ◌==◌, if◌then◌else◌, Option,
  none, some,
}
use shared_gapbs.Atomics.{compare_and_swap}

-- The body of the loop of Link: it breaks, or goes on with new values of `p1` and `p2`.
pub data Round : Type 0 where
  break : Array ℕ → Round
  next : ℕ → ℕ → Array ℕ → Round

unfoldable pub link_round : ℕ → ℕ → Array ℕ → Round
link_round p1 p2 comp =
    let high = if ltb p2 p1 then p1 else p2 in
    let low = p1 + p2 - high in
    let p_high = comp high in
    let (swapped, cell) = compare_and_swap (comp high) high low in
    if p_high == low
    then break comp
    else (if p_high == high
        then (let written = write comp high cell in
            if swapped then break written else next (written (written high)) (written low) written)
        else next (comp (comp high)) (comp low) comp)

-- `none` is that the fuel ran out.
unfoldable pub link_loop : ℕ → ℕ → ℕ → Array ℕ → Option (Array ℕ)
unfolding link_round
link_loop zero p1 p2 comp = none
link_loop (suc fuel) p1 p2 comp = elim (p1 == p2) [
  | true ↦ some comp
  | false ↦ elim (link_round p1 p2 comp) [
    | break comp ↦ some comp
    | next p1 p2 comp ↦ link_loop fuel p1 p2 comp
  ]
]

-- The parents that are compared get smaller, so the larger one bounds the rounds.
unfoldable pub link : ℕ → ℕ → Array ℕ → Option (Array ℕ)
unfolding link_loop
link u v comp = link_loop (suc (max (comp u) (comp v))) (comp u) (comp v) comp

-- `while (comp[n] != comp[comp[n]]) comp[n] = comp[comp[n]];`
unfoldable pub compress_vertex : ℕ → ℕ → Array ℕ → Option (Array ℕ)
compress_vertex zero n comp = none
compress_vertex (suc fuel) n comp = elim (comp n == comp (comp n)) [
  | true ↦ some comp
  | false ↦ compress_vertex fuel n (write comp n (comp (comp n)))
]

-- The vertices below `n`, in order.
unfoldable pub compress : ℕ → Array ℕ → Option (Array ℕ)
unfolding compress_vertex
compress zero comp = some comp
compress (suc n) comp = elim (compress n comp) [
  | none ↦ none
  | some comp ↦ compress_vertex (suc (comp n)) n comp
]
