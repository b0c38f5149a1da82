-- ===== src/Tests/Searching.antt =====
-- A breadth-first search of the small graph that the labels are tested on (src/bfs.cc).
use shared_gapbs.Base.{
  ◌↔◌, Bool, ◌<◌, true, lt_or_le, inl, inr, ℕ, ℤ, pos, negsuc, ◌≡◌, refl, arith, Array, ◌&&◌, ltb,
  some, write,
}
use shared_gapbs.Stl.{contains}
use shared_gapbs.Bitmap.{Bitmap, get_bit, set_bit, reset, new}
use shared_gapbs.Bitmap.Laws.{get_bit-reset, get_bit-set_bit, set_bit_size, new_size}
use shared_gapbs.SlidingQueue.{SlidingQueue, IsOrdered, window, pending}
use shared_gapbs.Bfs.{Memory, dobfs, td_step, bu_step}
use shared_gapbs.Bfs.Loop.{IsReady, search_loop-IsReady}
use shared_gapbs.Bfs.Unreached.{unreached_le}
use shared_gapbs.Bfs.{Search, search_loop, first_search}
use shared_gapbs.SlidingQueue.{empty}
use shared_gapbs.Bfs.Verifier.{bfs_verifier}
use shared_gapbs.Bfs.Verifier.Correct.{bfs_verifier-IsBfsTree, bfs_verifier-dobfs}
use shared_gapbs.Bfs.Correct.{start-IsReady, IsBfsTree, dobfs-IsBfsTree}
use shared_gapbs.Bfs.Agree.{td_step-bu_step}
use shared_gapbs.Bfs.EdgeList.{IsGraphOf-IsTransposed}
use shared_gapbs.Bfs.Rounds.{IsTransposed}
use shared_gapbs.Tests.Counting.{garbage}
use shared_gapbs.Tests.Labels.{edges, edges_last, made, made-IsGraphOf}

abbrev memory : Memory
memory = record {
  parent = λ i. pos 7;
  queue = garbage;
  curr = garbage;
  front = garbage;
  buffer = garbage;
}

made-IsTransposed : IsTransposed made
made-IsTransposed = IsGraphOf-IsTransposed edges made made-IsGraphOf

made_nodes : made.num_nodes ≡ 5
made_nodes = omega (arith, made-IsGraphOf.nodes, edges_last)

dobfs-IsBfsTree_example :
    (parent : Array ℤ) × (dobfs memory made 2 15 18 ≡ some parent) × IsBfsTree made 2 parent
dobfs-IsBfsTree_example =
    dobfs-IsBfsTree memory made made-IsTransposed 2 (omega (arith, made_nodes)) 15 18

-- The queue and the front both hold vertex 3, which only 2 does not know yet.
abbrev queue : SlidingQueue ℕ
queue = record {
  shared = λ i. 3;
  shared_in = 1;
  shared_out_start = 0;
  shared_out_end = 1;
  room = 5;
}

abbrev front : Bitmap
front = set_bit (reset (new garbage 5)) 3

abbrev parents : Array ℤ
parents = write (λ i. negsuc 0) 3 (pos 3)

queue-IsOrdered : IsOrdered queue
queue-IsOrdered = record { start_le = omega arith; end_le = omega arith }

same : (v : ℕ) → contains v (window queue) ≡ (ltb v made.num_nodes && get_bit front v)
same v = elim (lt_or_le v 5) [
  | inl lt ↦
      let others = get_bit-reset garbage 5 v lt in
      let bits = get_bit-set_bit (reset (new garbage 5)) 3 v in
      unfold contains in ground (arith, made_nodes)
  | inr le ↦ unfold contains in ground (arith, made_nodes)
]

td_step-bu_step_example :
    contains 2 (pending (td_step made garbage parents queue).queue.0)
    ≡ get_bit (bu_step made parents front front).next 2
td_step-bu_step_example =
    td_step-bu_step made garbage parents queue front front made-IsTransposed queue-IsOrdered refl
      same (omega (arith, made_nodes, set_bit_size (reset (new garbage 5)) 3, new_size garbage 5)) 2
      (omega (arith, made_nodes))

made_within : 2 < made.num_nodes
made_within = omega (arith, made_nodes)

search_loop-IsReady_example :
    (t : Search) × (d : ℕ) × (search_loop 9 made garbage 15 18 (first_search memory made 2)
      ≡ some t)
    × IsReady made made-IsTransposed 2 t d
    × (empty t.queue ≡ true)
search_loop-IsReady_example =
    search_loop-IsReady made made-IsTransposed 2 garbage 15 18 9 (first_search memory made 2) 0
      (start-IsReady memory made made-IsTransposed 2 made_within) (omega arith)
      (λ more.
        let all = unreached_le (first_search memory made 2).parent made.num_nodes in
        omega (arith, made_nodes))

-- The tree of the search from vertex 2, which leaves out 0 and 1.
abbrev tree : Array ℤ
tree = write (write (write (λ i. negsuc 0) 2 (pos 2)) 3 (pos 2)) 4 (pos 3)

bfs_verifier-IsBfsTree_example :
    (verdict : Bool) × (bfs_verifier made 2 tree ≡ some verdict)
    × ((verdict ≡ true) ↔ IsBfsTree made 2 tree)
bfs_verifier-IsBfsTree_example = bfs_verifier-IsBfsTree made 2 tree made-IsTransposed made_within

bfs_verifier-dobfs_example :
    (parent : Array ℤ) × (dobfs memory made 2 15 18 ≡ some parent)
    × (bfs_verifier made 2 parent ≡ some true)
bfs_verifier-dobfs_example = bfs_verifier-dobfs memory made 2 15 18 made-IsTransposed made_within
