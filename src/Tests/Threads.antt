-- ===== src/Tests/Threads.antt =====
-- Two calls of Link that run at once (src/cc.cc).
use shared_gapbs.Base.{
  ℕ, zero, suc, ◌+◌, ◌*◌, ◌≤◌, ◌<◌, ◌≡◌, refl, true, arith, Array, write, List, [], ◌∷◌, max,
  sum_below,
}
use shared_gapbs.Components.Threads.{start, run, work, is_finished}
use shared_gapbs.Components.Threads.Schedules.{AllBelow, IsJoined, run-IsJoined, run-work}
use shared_gapbs.Tests.Labels.{comp, comp-IsForest}

-- One call is for the edge from 4 to 1, the other for that from 2 to 0.
abbrev us : Array ℕ
us = write (λ i. 2) 0 4

abbrev vs : Array ℕ
vs = write (λ i. 0) 0 1

us_below : (i : ℕ) → i < 2 → us i < 5
us_below i h = ground arith

vs_below : (i : ℕ) → i < 2 → vs i < 5
vs_below i h = ground arith

-- They take turns.
abbrev turns : ℕ → List ℕ
turns zero = []
turns (suc k) = 0 ∷ 1 ∷ turns k

turns-AllBelow : (k : ℕ) → AllBelow 2 (turns k)
turns-AllBelow zero = tt
turns-AllBelow (suc k) = (omega arith, (omega arith, turns-AllBelow k))

abbrev schedule : List ℕ
schedule = turns 20

both_finished : (i : ℕ) → i < 2 → is_finished ((run us vs schedule (start comp)).pc i) ≡ true
unfolding run
both_finished zero h = refl
both_finished (suc zero) h = refl
both_finished (suc (suc i)) h = absurd (omega arith)

run-IsJoined_example :
    IsJoined 5 2 us vs comp us_below vs_below (run us vs schedule (start comp)).comp
run-IsJoined_example =
    run-IsJoined 5 2 us vs comp us_below vs_below schedule comp-IsForest (turns-AllBelow 20)
      both_finished

run-work_example : work us vs schedule (start comp) ≤ sum_below (λ i. 6 * max (us i) (vs i) + 7) 2
run-work_example =
    run-work 5 2 us vs comp us_below vs_below schedule comp-IsForest (turns-AllBelow 20)
