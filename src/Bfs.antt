-- ===== src/Bfs.antt =====
-- src/bfs.cc: breadth-first search that changes its direction, as one thread runs it. A vertex that
-- is not reached has a negative parent.
pub mod Discovery
pub mod Outward
pub mod Inward
pub mod Walks
pub mod Unreached
pub mod Fronts
pub mod Rounds
pub mod Loop
pub mod Correct
pub mod Agree
pub mod EdgeList
pub mod Verifier
use shared_gapbs.Base.{
  ℕ, ℤ, pos, negsuc, zero, suc, ◌+◌, ◌-◌, ◌*◌, ◌/◌, Bool, true, false, ◌||◌, Array, write, List, [],
  ◌∷◌, ltb, leb, ◌==◌, if◌then◌else◌, Option, none, some, for_range, chain,
}
use shared_gapbs.Graph.{CsrGraph, to_list, out_neigh, in_neigh, out_degree, num_edges_directed}
use shared_gapbs.Bitmap.{Bitmap, set_bit_atomic, get_bit}
use shared_gapbs.Bitmap as Bits
use shared_gapbs.SlidingQueue.{
  SlidingQueue, QueueBuffer, new_buffer, buffer_push, flush, push_back, slide_window, empty, size,
}
use shared_gapbs.SlidingQueue as Queue

-- `p < 0`
abbrev pub negative : ℤ → Bool
negative (pos n) = false
negative (negsuc n) = true

-- The default of QueueBuffer's constructor.
abbrev pub given_size : ℕ
given_size = 16384

pub record BottomUp : Type 0 where
  pub parent : Array ℤ
  pub next : Bitmap
  pub awake_count : ℕ

-- `for (NodeID v : g.in_neigh(u))` with its `break`
unfoldable pub find_parent : Bitmap → ℕ → List ℕ → BottomUp → BottomUp
find_parent front u [] s = s
find_parent front u (v ∷ vs) s =
    let rest = find_parent front u vs s in
    if get_bit front v
    then record {
      parent = write s.parent u (pos v);
      next = Bits.set_bit s.next u;
      awake_count = s.awake_count + 1;
    }
    else rest

unfoldable pub bottom_up_vertex : CsrGraph → Bitmap → ℕ → BottomUp → BottomUp
unfolding find_parent
bottom_up_vertex g front u s =
    if negative (s.parent u) then find_parent front u (to_list (in_neigh g u 0)) s else s

unfoldable pub bu_step : CsrGraph → Array ℤ → Bitmap → Bitmap → BottomUp
unfolding bottom_up_vertex
bu_step g parent front next =
    for_range g.num_nodes 0 (bottom_up_vertex g front)
      (record { parent = parent; next = Bits.reset next; awake_count = 0 })

pub record TopDown : Type 0 where
  pub parent : Array ℤ
  pub queue : SlidingQueue ℕ × QueueBuffer ℕ
  pub scout_count : ℕ

-- The one thread's compare_and_swap finds the value that it has just read.
unfoldable pub top_down_edge : ℕ → TopDown → ℕ → TopDown
top_down_edge u s v = elim (s.parent v) [
  | pos p ↦ s
  | negsuc k ↦ record {
    parent = write s.parent v (pos u);
    queue = buffer_push s.queue v;
    scout_count = s.scout_count + suc k;
  }
]

unfoldable pub top_down_each : ℕ → List ℕ → TopDown → TopDown
unfolding top_down_edge
top_down_each u [] s = s
top_down_each u (v ∷ vs) s = top_down_each u vs (top_down_edge u s v)

-- The vertex that the queue holds at position `i`.
unfoldable pub top_down_vertex : CsrGraph → ℕ → TopDown → TopDown
unfolding top_down_each
top_down_vertex g i s = let u = s.queue.0.shared i in top_down_each u (to_list (out_neigh g u 0)) s

-- `fresh` is what the memory of the buffer held.
unfoldable pub td_step : CsrGraph → Array ℕ → Array ℤ → SlidingQueue ℕ → TopDown
unfolding top_down_vertex
td_step g fresh parent queue =
    let s : TopDown =
      for_range (size queue) queue.shared_out_start (top_down_vertex g) (record {
        parent = parent;
        queue = (queue, new_buffer fresh given_size);
        scout_count = 0;
      }) in
    record s { queue = flush s.queue }

unfoldable pub queue_to_bitmap : SlidingQueue ℕ → Bitmap → Bitmap
queue_to_bitmap queue bm =
    for_range (size queue) queue.shared_out_start (λ i bm. set_bit_atomic bm (queue.shared i)) bm

unfoldable pub bitmap_to_queue : CsrGraph → Array ℕ → Bitmap → SlidingQueue ℕ → SlidingQueue ℕ
bitmap_to_queue g fresh bm queue =
    slide_window
      (flush (
        for_range g.num_nodes 0
          (λ n (q : SlidingQueue ℕ × QueueBuffer ℕ). if get_bit bm n then buffer_push q n else q)
          (queue, new_buffer fresh given_size))).0

-- `g.out_degree(n) != 0 ? -g.out_degree(n) : -1`
unfoldable pub init_parent : CsrGraph → Array ℤ → Array ℤ
init_parent g fresh =
    for_range g.num_nodes 0 (λ n parent. write parent n (negsuc (out_degree g n - 1))) fresh

-- The rounds of BUStep, where `awake_count` is that of the round before; `none` is that the fuel
-- ran out. `front.swap(curr)` follows every round.
unfoldable pub bottom_up_rounds :
    ℕ → CsrGraph → ℕ → ℕ → Array ℤ → Bitmap → Bitmap → Option (Array ℤ × Bitmap × Bitmap)
bottom_up_rounds zero g beta awake_count parent front curr = none
bottom_up_rounds (suc fuel) g beta old_awake_count parent front curr =
    let t = bu_step g parent front curr in
    let (front, curr) = Bits.swap (front, t.next) in
    let rest = bottom_up_rounds fuel g beta t.awake_count t.parent front curr in
    if leb old_awake_count t.awake_count || ltb (g.num_nodes / beta) t.awake_count
    then rest
    else some (t.parent, front, curr)

pub record Search : Type 0 where
  pub parent : Array ℤ
  pub queue : SlidingQueue ℕ
  pub front : Bitmap
  pub curr : Bitmap
  pub edges_to_check : ℤ
  pub scout_count : ℕ

-- `scout_count > edges_to_check / alpha`, where the division rounds towards zero
abbrev pub exceeds : ℕ → ℤ → ℕ → Bool
exceeds scout_count (pos edges) alpha = ltb (edges / alpha) scout_count
exceeds scout_count (negsuc edges) alpha = ltb 0 (scout_count + suc edges / alpha)

-- `edges_to_check -= scout_count`
abbrev pub minus : ℤ → ℕ → ℤ
minus (pos edges) scout =
    if leb scout edges then pos (edges - scout) else negsuc (scout - edges - 1)
minus (negsuc edges) scout = negsuc (edges + scout)

-- The body of the loop; the rounds of BUStep are given one more than there are vertices.
unfoldable pub search_round : CsrGraph → Array ℕ → ℕ → ℕ → Search → Option Search
unfolding bottom_up_rounds queue_to_bitmap bitmap_to_queue td_step
search_round g fresh alpha beta s =
    let t = td_step g fresh s.parent s.queue in
    let inward =
      bottom_up_rounds (suc g.num_nodes) g beta (size s.queue) s.parent
        (queue_to_bitmap s.queue s.front) s.curr in
    if exceeds s.scout_count s.edges_to_check alpha
    then (chain inward λ (parent, front, curr). some (record {
      parent = parent;
      queue = bitmap_to_queue g fresh front (slide_window s.queue);
      front = front;
      curr = curr;
      edges_to_check = s.edges_to_check;
      scout_count = 1;
    }))
    else some (record {
      parent = t.parent;
      queue = slide_window t.queue.0;
      front = s.front;
      curr = s.curr;
      edges_to_check = minus s.edges_to_check s.scout_count;
      scout_count = t.scout_count;
    })

-- `while (!queue.empty())`
unfoldable pub search_loop : ℕ → CsrGraph → Array ℕ → ℕ → ℕ → Search → Option Search
unfolding search_round
search_loop zero g fresh alpha beta s = none
search_loop (suc fuel) g fresh alpha beta s =
    let rest = chain (search_round g fresh alpha beta s) (search_loop fuel g fresh alpha beta) in
    if empty s.queue then some s else rest

-- `if (parent[n] < -1) parent[n] = -1;`
unfoldable pub clear_degrees : ℕ → Array ℤ → Array ℤ
clear_degrees n parent =
    for_range n 0 (λ n parent. if negative (parent n) then write parent n (negsuc 0) else parent)
      parent

-- What the allocations hold.
pub record Memory : Type 0 where
  pub parent : Array ℤ
  pub queue : Array ℕ
  pub curr : Array ℕ
  pub front : Array ℕ
  pub buffer : Array ℕ

-- What the loop starts with.
unfoldable pub first_search : Memory → CsrGraph → ℕ → Search
unfolding init_parent
first_search fresh g source = record {
  parent = write (init_parent g fresh.parent) source (pos source);
  queue = slide_window (push_back (Queue.new fresh.queue g.num_nodes) source);
  front = Bits.reset (Bits.new fresh.front g.num_nodes);
  curr = Bits.reset (Bits.new fresh.curr g.num_nodes);
  edges_to_check = pos (num_edges_directed g);
  scout_count = out_degree g source;
}

-- The loop is given two rounds more than there are vertices.
unfoldable pub dobfs : Memory → CsrGraph → ℕ → ℕ → ℕ → Option (Array ℤ)
unfolding first_search search_loop clear_degrees
dobfs fresh g source alpha beta =
    chain (search_loop (g.num_nodes + 2) g fresh.buffer alpha beta (first_search fresh g source))
      λ s. some (clear_degrees g.num_nodes s.parent)
