-- ===== src/Components/Threads.antt =====
-- Calls of Link of src/cc.cc that run at once, as the parallel loops of Afforest make them. A step
-- reads or writes one cell of `comp`; the steps of the calls come in any order.
pub mod Invariant
pub mod Steps
pub mod Schedules
use shared_gapbs.Base.{
  ℕ, ◌+◌, ◌-◌, ◌*◌, max, Array, write, List, [], ◌∷◌, ltb, ◌==◌, if◌then◌else◌, Bool, true, false,
}
use shared_gapbs.Atomics.{compare_and_swap}

-- Where a call stands, with the local variables that are live there.
pub data Pc : Type 0 where
  reading_u : Pc
  reading_v : (p1 : ℕ) → Pc
  testing : (p1 p2 : ℕ) → Pc  -- `while (p1 != p2)`
  got : (high low p_high : ℕ) → Pc  -- before the `if`
  climbing : (high low : ℕ) → Pc  -- before `comp[high]` of `comp[comp[high]]`
  grandparent : (parent low : ℕ) → Pc  -- before the outer access of it
  parent_of_low : (p1 low : ℕ) → Pc  -- before `comp[low]`
  finished : Pc

-- One step of a call for the edge from `u` to `v`.
unfoldable pub link_step : ℕ → ℕ → Array ℕ → Pc → Array ℕ × Pc
link_step u v comp reading_u = (comp, reading_v (comp u))
link_step u v comp (reading_v p1) = (comp, testing p1 (comp v))
link_step u v comp (testing p1 p2) =
    let high = if ltb p2 p1 then p1 else p2 in
    let low = p1 + p2 - high in
    if p1 == p2 then (comp, finished) else (comp, got high low (comp high))
link_step u v comp (got high low p_high) =
    let (swapped, cell) = compare_and_swap (comp high) high low in
    if p_high == low
    then (comp, finished)
    else (if p_high == high
        then (write comp high cell, if swapped then finished else climbing high low)
        else (comp, climbing high low))
link_step u v comp (climbing high low) = (comp, grandparent (comp high) low)
link_step u v comp (grandparent parent low) = (comp, parent_of_low (comp parent) low)
link_step u v comp (parent_of_low p1 low) = (comp, testing p1 (comp low))
link_step u v comp finished = (comp, finished)

-- Call `i` is for the edge from `us i` to `vs i`.
pub record Links : Type 0 where
  pub comp : Array ℕ
  pub pc : Array Pc

abbrev pub start : Array ℕ → Links
start comp = record { comp = comp; pc = λ i. reading_u }

-- The next step is that of call `i`.
unfoldable pub turn : Array ℕ → Array ℕ → ℕ → Links → Links
unfolding link_step
turn us vs i s =
    let (comp, pc) = link_step (us i) (vs i) s.comp (s.pc i) in
    record { comp = comp; pc = write s.pc i pc }

-- The steps come in the order of the schedule.
unfoldable pub run : Array ℕ → Array ℕ → List ℕ → Links → Links
unfolding turn
run us vs [] s = s
run us vs (i ∷ schedule) s = run us vs schedule (turn us vs i s)

abbrev pub is_finished : Pc → Bool
is_finished reading_u = false
is_finished (reading_v p1) = false
is_finished (testing p1 p2) = false
is_finished (got high low p_high) = false
is_finished (climbing high low) = false
is_finished (grandparent parent low) = false
is_finished (parent_of_low p1 low) = false
is_finished finished = true

-- The number of steps that a schedule gives to calls that have not returned.
unfoldable pub work : Array ℕ → Array ℕ → List ℕ → Links → ℕ
unfolding turn
work us vs [] s = 0
work us vs (i ∷ schedule) s =
    (if is_finished (s.pc i) then 0 else 1) + work us vs schedule (turn us vs i s)
