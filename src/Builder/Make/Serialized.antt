-- ===== src/Builder/Make/Serialized.antt =====
-- MakeGraph of a serialized graph (src/builder.h).
use shared_gapbs.Base.{
  ℕ, zero, suc, ◌≡◌, ◌≢◌, refl, ◌∙◌, Bool, true, false, Array, none, done, replicate, Run, exited,
  aborted, assert, ◌>>◌, arith, ◌==◌,
}
use shared_gapbs.Graph.{CsrGraph}
use shared_gapbs.Builder.Degrees.{Options}
use shared_gapbs.SharedGraph.{Mapping, worker, await}
use shared_gapbs.SharedGraph.Publication.{worker-skip}
use shared_gapbs.Builder.Make.{
  Fresh, serialized, make_graph_master, make_graph_worker, mapped, fits_seen,
}
use shared_gapbs.Builder.Make.Correct.{make_graph_worker_lem}

worker-unchanged :
    (polls : ℕ) (cells fresh_out fresh_in : Array ℕ)
    → cells 0 ≢ 1
    → worker (replicate polls cells) fresh_out fresh_in ≡ none
worker-unchanged zero cells fresh_out fresh_in unset = unfold worker in refl
worker-unchanged (suc polls) cells fresh_out fresh_in unset =
    worker-skip cells (replicate polls cells) fresh_out fresh_in unset
    ∙ worker-unchanged polls cells fresh_out fresh_in unset

fits_seen-unchanged :
    (size polls : ℕ) (cells : Array ℕ) → cells 0 ≢ 1 → fits_seen size (replicate polls cells) ≡ true
unfolding fits_seen
fits_seen-unchanged size zero cells unset = unfold await in refl
fits_seen-unchanged size (suc polls) cells unset =
    let e : (cells 0 == 1) ≡ false = ground arith in
    rw (e, fits_seen, await) (fits_seen-unchanged size polls cells unset)

assert-true : {A : Type 0} (m : Run ℕ) (r : Run A) → (m >> assert true >> r) ≡ (m >> r)
assert-true (done x) r = refl
assert-true (exited code) r = refl
assert-true aborted r = refl

-- With symmetrize and without in-place construction, when the synchronization variable of the
-- mapping is not 1 and the input is a serialized graph: MakeGraph on the master yields the graph
-- as it was read, and MakeGraph on any other host ends as the allocation of its mapping does when
-- that fails, and otherwise still waits after any number of polls of the mapping that the master
-- has left.
pub make_graph-serialized :
    (fresh fresh' : Fresh) (o : Options) (invert : Bool) (g : CsrGraph) (m : Mapping)
    (host polls : ℕ)
    → o.symmetrize ≡ true
    → o.in_place ≡ false
    → m.cells 0 ≢ 1
    → (left : Mapping) × (make_graph_master fresh o invert (serialized (done g)) m ≡ done (left, g))
      × (make_graph_worker fresh' o invert (suc host) (replicate polls left.cells)
          ≡ (mapped fresh' (suc host) >> done none))
make_graph-serialized fresh fresh' o invert g m host polls symmetric apart unset = (
  m,
  unfold make_graph_master in refl,
  make_graph_worker_lem fresh' o invert host (replicate polls m.cells) symmetric apart
      ∙ rw
          (
            fits_seen-unchanged fresh'.size_of_shmem polls m.cells unset,
            worker-unchanged polls m.cells fresh'.out_index fresh'.in_index unset,
          )
          (assert-true (mapped fresh' (suc host)) (done none)),
)
