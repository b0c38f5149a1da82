-- ===== src/Bfs/Loop.antt =====
-- The loop of DOBFS (src/bfs.cc) ends, in whichever direction it takes its rounds.
use shared_gapbs.Base.{
  ℕ, ℤ, zero, suc, ◌*◌, ◌≤◌, ◌<◌, ◌≡◌, refl, ap, sym, ◌∙◌, inl, inr, arith, Array, true, false, [],
  ◌++◌, Bool-cases, Option, some, chain, chain-some,
}
use shared_gapbs.Stl.{contains}
use shared_gapbs.Graph.{CsrGraph}
use shared_gapbs.Bitmap.{Bitmap, get_bit}
use shared_gapbs.SlidingQueue.{SlidingQueue, IsOrdered, window, pending, slide_window, size, empty}
use shared_gapbs.Bfs.{
  negative, td_step, bottom_up_rounds, queue_to_bitmap, bitmap_to_queue, Search, search_round,
  search_loop, exceeds, minus,
}
use shared_gapbs.Bfs.Outward.{FromWindow, td_step-Discovers}
use shared_gapbs.Bfs.Walks.{Searching, Searching-step, Searching-map}
use shared_gapbs.Bfs.Unreached.{unreached, unreached_le, unreached-found, Discovers-still}
use shared_gapbs.Bfs.Fronts.{
  queue_to_bitmap_lem, bitmap_to_queue_lem, slide_window_lem, window_member,
}
use shared_gapbs.Bfs.Rounds.{IsTransposed, InFront, InWindow, bottom_up_rounds-Searching}

size_positive : (q : SlidingQueue ℕ) → IsOrdered q → empty q ≡ false → 0 < size q
unfolding size empty
size_positive q o h = ground (arith, o.start_le)

module _ (g : CsrGraph) (is : IsTransposed g) (source : ℕ) where
  -- Between two rounds: the queue shows the active vertices and nothing is pending, and the old
  -- front holds vertices with a parent.
  pub record IsReady (s : Search) (d : ℕ) : Type 0 where
    pub searching : Searching g source s.parent (InWindow g is source s.queue) d
    pub stale : (v : ℕ) → v < g.num_nodes → get_bit s.front v ≡ true → negative (s.parent v) ≡ false
    pub ordered : IsOrdered s.queue
    pub none_pending : pending s.queue ≡ []
    pub front_room : g.num_nodes ≤ 64 * s.front.count
    pub curr_room : g.num_nodes ≤ 64 * s.curr.count

  -- A round that leaves something to do has found a parent for a vertex.
  record Round (s : Search) (o : Option Search) : Type 0 where
    next : Search
    level : ℕ
    result : o ≡ some next
    ready : IsReady next level
    fewer :
        empty next.queue ≡ false
        → unreached next.parent g.num_nodes < unreached s.parent g.num_nodes

  module _ (fresh : Array ℕ) (alpha beta : ℕ) (s : Search) (d : ℕ) (r : IsReady s d) where
    outward :
        exceeds s.scout_count s.edges_to_check alpha ≡ false
        → Round s (search_round g fresh alpha beta s)
    unfolding search_round
    outward h =
        let t = td_step g fresh s.parent s.queue in
        let (ds, disc, queued, unseen, ordered) =
          td_step-Discovers g fresh s.parent s.queue r.ordered in
        let (shown, rest, ordered') = slide_window_lem t.queue.0 ordered in
        let all : window (slide_window t.queue.0) ≡ ds =
          shown ∙ queued ∙ ap (λ l. l ++ ds) r.none_pending in
        let E = FromWindow g s.queue in
        let active = r.searching.active in
        let s' =
          Searching-step g source is.inside E (InWindow g is source s.queue) s.parent t.parent ds d
            r.searching disc (λ u v e. (e.0, ((active u e.0).0, e.1))) (λ u v a e. (a, e.1)) in
        rw (h, search_round)
          (record {
            next = record {
              parent = t.parent;
              queue = slide_window t.queue.0;
              front = s.front;
              curr = s.curr;
              edges_to_check = minus s.edges_to_check s.scout_count;
              scout_count = t.scout_count;
            };
            level = suc d;
            result = refl;
            ready = record {
              searching =
                  Searching-map g source t.parent (λ v. contains v ds ≡ true)
                    (InWindow g is source (slide_window t.queue.0)) (suc d)
                    (λ v a. s'.active v (ap (contains v) (sym all) ∙ a))
                    (λ v lt a. ap (contains v) all ∙ a) s';
              stale = λ v lt b. Discovers-still E s.parent t.parent ds disc v (r.stale v lt b);
              ordered = ordered';
              none_pending = rest;
              front_room = r.front_room;
              curr_room = r.curr_room;
            };
            fewer = λ more.
                let (v, c) = window_member (slide_window t.queue.0) ordered' more in
                let found = ap (contains v) (sym all) ∙ c in
                unreached-found E s.parent t.parent ds g.num_nodes v disc found
                  (s'.active v found).0;
          })

    abbrev after_inward : Array ℤ → Bitmap → Bitmap → Search
    after_inward q front' curr' = record {
      parent = q;
      queue = bitmap_to_queue g fresh front' (slide_window s.queue);
      front = front';
      curr = curr';
      edges_to_check = s.edges_to_check;
      scout_count = 1;
    }

    inward_result :
        (q : Array ℤ) (front' curr' : Bitmap)
        → exceeds s.scout_count s.edges_to_check alpha ≡ true
        → bottom_up_rounds
            (suc g.num_nodes)
            g
            beta
            (size s.queue)
            s.parent
            (queue_to_bitmap s.queue s.front)
            s.curr
          ≡ some (q, front', curr')
        → search_round g fresh alpha beta s ≡ some (after_inward q front' curr')
    unfolding search_round
    inward_result q front' curr' h e =
        let go : Array ℤ × Bitmap × Bitmap → Option Search =
          λ (q, front', curr'). some (after_inward q front' curr') in
        rw (h, search_round) (ap (λ o. chain o go) e)

    -- The vertices that the queue shows and those of the old front have a parent.
    front_visited :
        (v : ℕ)
        → InFront g is source (queue_to_bitmap s.queue s.front) v
        → (v < g.num_nodes) × (negative (s.parent v) ≡ false)
    front_visited v (lt, b) =
        let bits = (queue_to_bitmap_lem s.queue s.front).0 v in
        elim (Bool-cases (contains v (window s.queue))) [
          | inl shown ↦ r.searching.active v shown
          | inr hidden ↦ let old : get_bit s.front v ≡ true = ground arith in (lt, r.stale v lt old)
        ]

    front-Searching :
        Searching g source s.parent (InFront g is source (queue_to_bitmap s.queue s.front)) d
    front-Searching =
        Searching-map g source s.parent (InWindow g is source s.queue)
          (InFront g is source (queue_to_bitmap s.queue s.front)) d front_visited
          (λ v lt a. (lt, let b = (queue_to_bitmap_lem s.queue s.front).0 v in ground arith))
          r.searching

    inward :
        empty s.queue ≡ false
        → exceeds s.scout_count s.edges_to_check alpha ≡ true
        → Round s (search_round g fresh alpha beta s)
    inward some_left h =
        let front = queue_to_bitmap s.queue s.front in
        let count = (queue_to_bitmap_lem s.queue s.front).1 in
        let all = unreached_le s.parent g.num_nodes in
        let (q, front', curr', d', e, s', a, b, le, found) =
          bottom_up_rounds-Searching g is source (suc g.num_nodes) beta (size s.queue) s.parent
            front s.curr d (omega arith) (size_positive s.queue r.ordered some_left)
            (omega (arith, r.front_room)) r.curr_room front-Searching in
        let (shown, rest, ordered) = slide_window_lem s.queue r.ordered in
        let (members, none, ordered') =
          bitmap_to_queue_lem g fresh front' (slide_window s.queue) ordered rest in
        let queue' = bitmap_to_queue g fresh front' (slide_window s.queue) in
        let in_front : (v : ℕ) → InWindow g is source queue' v → InFront g is source front' v =
          λ v c. let m = members v in (ground arith, ground arith) in
        record {
          next = after_inward q front' curr';
          level = d';
          result = inward_result q front' curr' h e;
          ready = record {
            searching =
                Searching-map g source q (InFront g is source front') (InWindow g is source queue')
                  d' (λ v c. s'.active v (in_front v c))
                  (λ v lt f. let m = members v in let set = f.1 in ground arith) s';
            stale = λ v lt bit. (s'.active v (lt, bit)).1;
            ordered = ordered';
            none_pending = none;
            front_room = a;
            curr_room = b;
          };
          fewer = λ more. let (v, c) = window_member queue' ordered' more in found v (in_front v c);
        }

    a_round : empty s.queue ≡ false → Round s (search_round g fresh alpha beta s)
    a_round some_left = elim (Bool-cases (exceeds s.scout_count s.edges_to_check alpha)) [
      | inl in_ ↦ inward some_left in_
      | inr out ↦ outward out
    ]

  -- On a graph whose out-neighbours are vertices and whose in-neighbours are the vertices with an
  -- edge to the vertex, from a state between two rounds of DOBFS: after some number of rounds, the
  -- vertices with a parent are those with a walk from the source of at most that many edges, with
  -- a shortest one along the parents, the queue shows all vertices out of which an edge may lead
  -- to one without a parent, nothing is pending, and the old front holds vertices with a parent.
  -- When the loop is given a round, and at least two more than there are vertices without a parent
  -- if its queue is not empty, it ends in such a state, with an empty queue.
  pub search_loop-IsReady :
      (fresh : Array ℕ) (alpha beta fuel : ℕ) (s : Search) (d : ℕ)
      → IsReady s d
      → 0 < fuel
      → (empty s.queue ≡ false → suc (unreached s.parent g.num_nodes) < fuel)
      → (t : Search) × (d' : ℕ) × (search_loop fuel g fresh alpha beta s ≡ some t)
        × IsReady t d'
        × (empty t.queue ≡ true)
  unfolding search_loop
  search_loop-IsReady fresh alpha beta zero s d r some_fuel enough = absurd (omega arith)
  search_loop-IsReady fresh alpha beta (suc fuel) s d r some_fuel enough =
      elim (Bool-cases (empty s.queue)) [
        | inl done ↦ (s, d, rw (done, search_loop) refl, r, done)
        | inr more ↦
            let left = enough more in
            let a = a_round fresh alpha beta s d r more in
            let (t, d', e, r', done) =
              search_loop-IsReady fresh alpha beta fuel a.next a.level a.ready (omega arith)
                (λ some_left. let less = a.fewer some_left in omega arith) in
            (
              t,
              d',
              rw (more, search_loop)
                  (chain-some (search_round g fresh alpha beta s)
                      (search_loop fuel g fresh alpha beta) a.next a.result
                    ∙ e),
              r',
              done,
            )
      ]
