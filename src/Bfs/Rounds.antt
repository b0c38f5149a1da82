-- ===== src/Bfs/Rounds.antt =====
-- The rounds of BUStep, and one round of the loop of DOBFS (src/bfs.cc).
use shared_gapbs.Base.{
  ℕ, ℤ, zero, suc, ◌*◌, ◌/◌, ◌≤◌, ◌<◌, ◌≡◌, refl, ap, sym, ◌∙◌, inl, inr, arith, Array, true, ◌||◌,
  ltb, leb, length, Bool-cases, List-cases, some,
}
use shared_gapbs.Stl.{contains}
use shared_gapbs.Stl.Laws.{contains-head}
use shared_gapbs.Graph.{CsrGraph}
use shared_gapbs.Bitmap.{Bitmap, get_bit, swap}
use shared_gapbs.SlidingQueue.{SlidingQueue, window, size}
use shared_gapbs.Components.Afforest.Labels.{column, Edge}
use shared_gapbs.Bfs.{bu_step, bottom_up_rounds}
use shared_gapbs.Bfs.Inward.{FromFront, bu_step-Discovers}
use shared_gapbs.Bfs.Walks.{Searching, Searching-step, Searching-map}
use shared_gapbs.Bfs.Unreached.{unreached, unreached-Discovers, unreached-found}

-- The neighbours are vertices, and the in-neighbours of a vertex are those with an edge to it.
pub record IsTransposed (g : CsrGraph) : Type 0 where
  pub inside : (u v : ℕ) → Edge g u v → v < g.num_nodes
  pub to_in : (u v : ℕ) → Edge g u v → contains u (column g v) ≡ true
  pub from_in : (u v : ℕ) → v < g.num_nodes → contains u (column g v) ≡ true → Edge g u v

module _ (g : CsrGraph) (is : IsTransposed g) (source : ℕ) where
  abbrev n : ℕ
  n = g.num_nodes

  -- A vertex in a front, and one that the queue shows.
  abbrev pub InFront : Bitmap → ℕ → Type 0
  InFront front v = (v < g.num_nodes) × (get_bit front v ≡ true)

  abbrev pub InWindow : SlidingQueue ℕ → ℕ → Type 0
  InWindow q v = contains v (window q) ≡ true

  bu_step-Searching :
      (p : Array ℤ) (front curr : Bitmap) (d : ℕ)
      → n ≤ 64 * curr.count
      → Searching g source p (InFront front) d
      → let t = bu_step g p front curr in
        Searching g source t.parent (InFront t.next) (suc d)
        × (unreached t.parent n ≤ unreached p n)
        × ((v : ℕ) → InFront t.next v → unreached t.parent n < unreached p n)
        × (0 < t.awake_count → unreached t.parent n < unreached p n)
        × (t.next.count ≡ curr.count)
  bu_step-Searching p front curr d room s =
      let t = bu_step g p front curr in
      let (ds, disc, bits, count, size) = bu_step-Discovers g p front curr room in
      let to : (u v : ℕ) → FromFront g front u v → InFront front u × Edge g u v =
        λ u v e. let edge = is.from_in u v e.0 e.2 in ((edge.0, e.1), edge) in
      let from : (u v : ℕ) → InFront front u → Edge g u v → FromFront g front u v =
        λ u v a e. (is.inside u v e, a.1, is.to_in u v e) in
      let s' =
        Searching-step g source is.inside (FromFront g front) (InFront front) p t.parent ds d s disc
          to from in
      let fewer : (v : ℕ) → contains v ds ≡ true → unreached t.parent n < unreached p n =
        λ v h. unreached-found (FromFront g front) p t.parent ds n v disc h (s'.active v h).0 in
      (
        Searching-map g source t.parent (λ v. contains v ds ≡ true) (InFront t.next) (suc d)
            (λ v a. s'.active v (sym (bits v a.0) ∙ a.1)) (λ v lt h. (lt, bits v lt ∙ h)) s',
        unreached-Discovers (FromFront g front) p t.parent ds n disc,
        λ v a. fewer v (sym (bits v a.0) ∙ a.1),
        λ awake. elim (List-cases ds) [
          | inl e ↦ let none_counted = ap length e in absurd (omega arith)
          | inr (x, xs, e) ↦ fewer x (ap (contains x) e ∙ contains-head x xs)
        ],
        size,
      )

  -- Given enough fuel, the rounds end.
  pub bottom_up_rounds-Searching :
      (fuel beta awake : ℕ) (p : Array ℤ) (front curr : Bitmap) (d : ℕ)
      → unreached p n < fuel
      → 0 < awake
      → n ≤ 64 * front.count
      → n ≤ 64 * curr.count
      → Searching g source p (InFront front) d
      → (q : Array ℤ) × (front' : Bitmap) × (curr' : Bitmap) × (d' : ℕ) × (bottom_up_rounds fuel g
            beta awake p front curr
          ≡ some (q, front', curr'))
        × Searching g source q (InFront front') d'
        × (n ≤ 64 * front'.count)
        × (n ≤ 64 * curr'.count)
        × (unreached q n ≤ unreached p n)
        × ((v : ℕ) → InFront front' v → unreached q n < unreached p n)
  unfolding bottom_up_rounds swap
  bottom_up_rounds-Searching zero beta awake p front curr d enough some_awake r r' s =
      absurd (omega arith)
  bottom_up_rounds-Searching (suc fuel) beta awake p front curr d enough some_awake r r' s =
      let t = bu_step g p front curr in
      let (s', le, found, awoken, size) = bu_step-Searching p front curr d r' s in
      let next_room : n ≤ 64 * t.next.count = omega arith in
      elim (Bool-cases (leb awake t.awake_count || ltb (g.num_nodes / beta) t.awake_count)) [
        | inl again ↦
            let woke : 0 < t.awake_count = ground arith in
            let less = awoken woke in
            let (q, front', curr', d', e, s'', a, b, le', found') =
              bottom_up_rounds-Searching fuel beta t.awake_count t.parent t.next front (suc d)
                (omega arith) woke next_room r s' in
            (
              q,
              front',
              curr',
              d',
              rw (again, bottom_up_rounds) e,
              s'',
              a,
              b,
              omega arith,
              λ v h. omega arith,
            )
        | inr last ↦ (
          t.parent,
          t.next,
          front,
          suc d,
          rw (last, bottom_up_rounds) refl,
          s',
          next_room,
          r,
          le,
          found,
        )
      ]
