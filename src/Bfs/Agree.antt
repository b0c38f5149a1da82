-- ===== src/Bfs/Agree.antt =====
-- TDStep and BUStep of src/bfs.cc discover the same vertices.
use shared_gapbs.Base.{ℕ, ℤ, ◌*◌, ◌≤◌, ◌<◌, ◌≡◌, ap, sym, ◌∙◌, arith, Array, ◌&&◌, ltb, [], ◌++◌}
use shared_gapbs.Stl.{contains}
use shared_gapbs.Graph.{CsrGraph}
use shared_gapbs.Bitmap.{Bitmap, get_bit}
use shared_gapbs.SlidingQueue.{SlidingQueue, IsOrdered, window, pending}
use shared_gapbs.Components.Afforest.Labels.{Edge}
use shared_gapbs.Bfs.{bu_step, td_step}
use shared_gapbs.Bfs.Discovery.{Discovers-map, Discovers-same}
use shared_gapbs.Bfs.Outward.{FromWindow, td_step-Discovers}
use shared_gapbs.Bfs.Inward.{FromFront, bu_step-Discovers}
use shared_gapbs.Bfs.Rounds.{IsTransposed}

-- On a graph whose out-neighbours are vertices and whose in-neighbours are the vertices with an
-- edge to the vertex, from the same parents, with an ordered queue that shows the vertices of the
-- front and has nothing pending, and a next front with room for the vertices: the vertices that
-- TDStep pushes are those whose bit BUStep sets.
pub td_step-bu_step :
    (g : CsrGraph) (fresh : Array ℕ) (p : Array ℤ) (q : SlidingQueue ℕ) (front next : Bitmap)
    → IsTransposed g
    → IsOrdered q
    → pending q ≡ []
    → ((v : ℕ) → contains v (window q) ≡ (ltb v g.num_nodes && get_bit front v))
    → g.num_nodes ≤ 64 * next.count
    → (v : ℕ) → v < g.num_nodes
    → contains v (pending (td_step g fresh p q).queue.0) ≡ get_bit (bu_step g p front next).next v
td_step-bu_step g fresh p q front next is o none same room v lt =
    let t = td_step g fresh p q in
    let b = bu_step g p front next in
    let (ds, disc, queued, unseen, ordered) = td_step-Discovers g fresh p q o in
    let (es, disc', bits, count, size) = bu_step-Discovers g p front next room in
    let to : (u v : ℕ) → FromFront g front u v → FromWindow g q u v = λ u v e.
      let edge = is.from_in u v e.0 e.2 in
      let here = same u in let inside = edge.0 in let set = e.1 in (ground arith, edge.1) in
    let from : (u v : ℕ) → FromWindow g q u v → FromFront g front u v = λ u v e.
      let here = same u in
      let shown = e.0 in
      let below : u < g.num_nodes = ground arith in
      let edge : Edge g u v = (below, e.1) in
      (is.inside u v edge, ground arith, is.to_in u v edge) in
    let known =
      Discovers-same (FromWindow g q) p t.parent b.parent ds es disc
        (Discovers-map (FromFront g front) (FromWindow g q) p b.parent es to from disc') v in
    ap (contains v) (queued ∙ ap (λ l. l ++ ds) none) ∙ known ∙ sym (bits v lt)
