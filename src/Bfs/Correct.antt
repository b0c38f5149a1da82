-- ===== src/Bfs/Correct.antt =====
-- DOBFS of src/bfs.cc finds shortest walks.
use shared_gapbs.Base.{
  ℕ, ℤ, pos, negsuc, suc, ◌+◌, ◌-◌, ◌≤◌, ◌<◌, ◌≡◌, refl, ap, sym, ◌∙◌, ◌⊎◌, inl, inr, arith, Array,
  true, false, [], ◌∷◌, if◌then◌else◌, Bool-cases, some, chain-some, for_range_inv, lt_suc_cases,
  write, eq_or_ne, subst,
}
use shared_gapbs.Stl.{contains}
use shared_gapbs.Stl.Laws.{contains-cons, contains-head, contains-nil}
use shared_gapbs.Graph.{CsrGraph, out_degree}
use shared_gapbs.Bitmap.Laws.{get_bit-reset, new_size}
use shared_gapbs.SlidingQueue as Queue
use shared_gapbs.SlidingQueue.{
  SlidingQueue, IsOrdered, window, pending, slide_window, push_back, empty,
}
use shared_gapbs.Bfs.{
  negative, Memory, Search, search_loop, first_search, init_parent, clear_degrees, dobfs,
}
use shared_gapbs.Bfs.Walks.{
  Walk-to_source, Walk, Chain, root, child, IsShortest, Searching, Searching-end,
}
use shared_gapbs.Bfs.Unreached.{unreached_le}
use shared_gapbs.Bfs.Fronts.{empty-window}
use shared_gapbs.Bfs.Rounds.{IsTransposed, InWindow}
use shared_gapbs.Bfs.Loop.{IsReady, search_loop-IsReady}

-- A vertex has the parent -1, or a shortest walk from the source follows the parents to it, and
-- every vertex that a walk leads to has a parent.
pub record IsBfsTree (g : CsrGraph) (source : ℕ) (parent : Array ℤ) : Type 0 where
  pub tree : (v : ℕ) → v < g.num_nodes → (parent v ≡ negsuc 0) ⊎ IsShortest g source parent v
  pub complete : (j v : ℕ) → v < g.num_nodes → Walk g source j v → negative (parent v) ≡ false

init_parent-negative :
    (g : CsrGraph) (fresh : Array ℤ) (v : ℕ)
    → v < g.num_nodes
    → negative (init_parent g fresh v) ≡ true
unfolding init_parent
init_parent-negative g fresh v h =
    for_range_inv (λ i (p : Array ℤ). (v : ℕ) → v < i → negative (p v) ≡ true) g.num_nodes
      (λ n parent. write parent n (negsuc (out_degree g n - 1))) g.num_nodes 0 fresh (omega arith)
      (λ i p lo hi was v lt. ground (arith, lt_suc_cases v i lt, was v))
      (λ v lt. absurd (omega arith)) v h

clear_degrees_lem :
    (p : Array ℤ) (n v : ℕ)
    → v < n
    → clear_degrees n p v ≡ (if negative (p v) then negsuc 0 else p v)
unfolding clear_degrees
clear_degrees_lem p n v h =
    let body : ℕ → Array ℤ → Array ℤ =
      λ n parent. if negative (parent n) then write parent n (negsuc 0) else parent in
    let all =
      for_range_inv
        (λ i (q : Array ℤ).
          (v : ℕ)
          → ((v < i) × (q v ≡ (if negative (p v) then negsuc 0 else p v)))
            ⊎ ((i ≤ v) × (q v ≡ p v)))
        n body n 0 p (omega arith)
        (λ i q lo hi was v. elim (eq_or_ne v i) [
          | inl e ↦
              subst
                (λ v.
                  ((v < suc i) × (body i q v ≡ (if negative (p v) then negsuc 0 else p v)))
                  ⊎ ((suc i ≤ v) × (body i q v ≡ p v)))
                (sym e) (now i q (was i))
          | inr ne ↦ ground (arith, was v)
        ])
        (λ v. inr (omega arith, refl)) v in
    elim all [ inl (lt, e) ↦ e | inr (le, e) ↦ absurd (omega arith) ]
  where
    now :
        (i : ℕ) (q : Array ℤ)
        → ((i < i) × (q i ≡ (if negative (p i) then negsuc 0 else p i))) ⊎ ((i ≤ i) × (q i ≡ p i))
        → ((i < suc i)
            × ((if negative (q i) then write q i (negsuc 0) else q) i
                ≡ (if negative (p i) then negsuc 0 else p i)))
          ⊎ ((suc i ≤ i) × ((if negative (q i) then write q i (negsuc 0) else q) i ≡ p i))
    now i q (inl (lt, e)) = absurd (omega arith)
    now i q (inr (le, e)) =
        inl (omega arith, cell i q ∙ ap (λ z. if negative z then negsuc 0 else z) e)
      where
        cell :
            (i : ℕ) (q : Array ℤ)
            → (if negative (q i) then write q i (negsuc 0) else q) i
              ≡ (if negative (q i) then negsuc 0 else q i)
        cell i q = ground arith

module _ (fresh : Memory) (g : CsrGraph) (is : IsTransposed g) (source : ℕ)
    (within : source < g.num_nodes) where
  abbrev start : Search
  start = first_search fresh g source

  only_source : (v : ℕ) → v < g.num_nodes → negative (start.parent v) ≡ false → v ≡ source
  unfolding first_search
  only_source v h e = let others = init_parent-negative g fresh.parent v h in ground arith

  start_source : start.parent source ≡ pos source
  unfolding first_search
  start_source = ground arith

  start_window : window start.queue ≡ source ∷ []
  unfolding first_search slide_window push_back Queue.new Queue.reset
  start_window = refl

  shows_source : (v : ℕ) → contains v (window start.queue) ≡ true → v ≡ source
  shows_source v h = elim (contains-cons v source [] (ap (contains v) (sym start_window) ∙ h)) [
    | inl e ↦ e
    | inr c ↦ absurd (contains-nil v c)
  ]

  at_source : (v : ℕ) → v ≡ source → negative (start.parent v) ≡ false
  at_source v e = ap (λ v. negative (start.parent v)) e ∙ ap negative start_source

  start-Searching : Searching g source start.parent (InWindow g is source start.queue) 0
  start-Searching = record {
    active = λ v a.
        let e = shows_source v a in (subst (λ v. v < g.num_nodes) (sym e) within, at_source v e);
    closed = λ v lt h. inl (
        ap (λ l. contains v l) start_window
        ∙ subst (λ s. contains v (s ∷ []) ≡ true) (only_source v lt h) (contains-head v []));
    tree = λ v lt h.
        let e = only_source v lt h in
        subst (λ v. (s : IsShortest g source start.parent v) × (s.depth ≤ 0)) (sym e)
          (
            record { depth = 0; parents = root start_source; shortest = λ j w. omega arith },
            omega arith,
          );
    near = λ j v w h. at_source v (Walk-to_source g source j v w (omega (arith, h)));
  }

  pub start-IsReady : IsReady g is source start 0
  unfolding first_search slide_window push_back Queue.new Queue.reset
  start-IsReady = record {
    searching = start-Searching;
    stale = λ v lt b. let clear = get_bit-reset fresh.front g.num_nodes v lt in absurd cc;
    ordered = record { start_le = omega arith; end_le = omega arith };
    none_pending = refl;
    front_room = new_size fresh.front g.num_nodes;
    curr_room = new_size fresh.curr g.num_nodes;
  }

  -- The last parents are those of the search, but for the vertices without one.
  cleared :
      (p : Array ℤ) (v : ℕ)
      → v < g.num_nodes
      → negative (p v) ≡ false
      → clear_degrees g.num_nodes p v ≡ p v
  cleared p v lt h = clear_degrees_lem p g.num_nodes v lt ∙ ap (λ b. if b then negsuc 0 else p v) h

  Chain-cleared :
      (p : Array ℤ) (k v : ℕ)
      → Chain g source p k v
      → Chain g source (clear_degrees g.num_nodes p) k v
  Chain-cleared p _ _ (root e) = root (cleared p source within (ap negative e) ∙ e)
  Chain-cleared p _ _ (child k u v c x e) =
      child k u v (Chain-cleared p k u c) x (cleared p v (is.inside u v x) (ap negative e) ∙ e)

  -- On a graph whose out-neighbours are vertices and whose in-neighbours are the vertices with an
  -- edge to the vertex, and from a source in the graph: DOBFS ends, whatever memory it is given
  -- and whatever alpha and beta make of the directions; every vertex has the parent -1 or there is
  -- a walk from the source that follows the parents to it and is as short as any, and every vertex
  -- that a walk from the source leads to has a parent.
  pub dobfs-IsBfsTree :
      (alpha beta : ℕ)
      → (parent : Array ℤ) × (dobfs fresh g source alpha beta ≡ some parent)
        × IsBfsTree g source parent
  unfolding dobfs
  dobfs-IsBfsTree alpha beta =
      let all = unreached_le start.parent g.num_nodes in
      let (t, d, e, r, done) =
        search_loop-IsReady g is source fresh.buffer alpha beta (g.num_nodes + 2) start 0
          start-IsReady (omega arith) (λ more. omega arith) in
      let shown_none : (v : ℕ) → InWindow g is source t.queue v → ⊥ =
        λ v c. contains-nil v (ap (contains v) (sym (empty-window t.queue done)) ∙ c) in
      let known =
        Searching-end g source t.parent (InWindow g is source t.queue) d r.searching shown_none in
      (
        clear_degrees g.num_nodes t.parent,
        chain-some (search_loop (g.num_nodes + 2) g fresh.buffer alpha beta start)
            (λ s. some (clear_degrees g.num_nodes s.parent)) t e,
        record {
          tree = λ v lt. elim (Bool-cases (negative (t.parent v))) [
            | inl none ↦ inl (
                clear_degrees_lem t.parent g.num_nodes v lt
                ∙ ap (λ b. if b then negsuc 0 else t.parent v) none)
            | inr set ↦
                let s = (r.searching.tree v lt set).0 in
                inr (record {
                  depth = s.depth;
                  parents = Chain-cleared t.parent s.depth v s.parents;
                  shortest = s.shortest;
                })
          ];
          complete = λ j v lt w. ap negative (cleared t.parent v lt (known j v w)) ∙ known j v w;
        },
      )
