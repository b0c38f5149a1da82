-- ===== src/Bfs/Fronts.antt =====
-- QueueToBitmap and BitmapToQueue of src/bfs.cc, and what the sliding of a window shows.
use shared_gapbs.Base.{
  ℕ, zero, suc, ◌-◌, ◌<◌, ◌≡◌, refl, ap, ◌∙◌, inl, inr, arith, Array, true, false, ◌||◌, ◌&&◌, ltb,
  List, [], ◌∷◌, ◌++◌, slice, if◌then◌else◌, Bool-cases, for_range, for_range_inv,
}
use shared_gapbs.Stl.{contains}
use shared_gapbs.Graph.{CsrGraph}
use shared_gapbs.Bitmap.{Bitmap, get_bit, set_bit_atomic}
use shared_gapbs.Bitmap.Laws.{get_bit-set_bit_atomic, set_bit_atomic_size}
use shared_gapbs.SlidingQueue.{
  SlidingQueue, QueueBuffer, IsOrdered, window, pending, new_buffer, buffer_push, flush,
  slide_window, size, empty,
}
use shared_gapbs.SlidingQueue.Buffer.{
  Pushed, Pushed-refl, Pushed-trans, Pushed-flush, buffer_push-Pushed, new_buffer-IsReady,
}
use shared_gapbs.Bfs.{given_size, queue_to_bitmap, bitmap_to_queue}
use shared_gapbs.Bfs.Discovery.{contains-append}
use shared_gapbs.Bfs.Outward.{slice-contains}

set_each :
    (cells : Array ℕ) (n i v : ℕ) (bm : Bitmap)
    → get_bit (for_range n i (λ i bm. set_bit_atomic bm (cells i)) bm) v
      ≡ (contains v (slice cells i n) || get_bit bm v)
unfolding for_range contains
set_each cells zero i v bm = refl
set_each cells (suc n) i v bm =
    let rest = set_each cells n (suc i) v (set_bit_atomic bm (cells i)) in
    let here = get_bit-set_bit_atomic bm (cells i) v in ground arith

set_each_size :
    (cells : Array ℕ) (n i : ℕ) (bm : Bitmap)
    → (for_range n i (λ i bm. set_bit_atomic bm (cells i)) bm).count ≡ bm.count
unfolding for_range
set_each_size cells zero i bm = refl
set_each_size cells (suc n) i bm =
    set_each_size cells n (suc i) (set_bit_atomic bm (cells i)) ∙ set_bit_atomic_size bm (cells i)

-- The bitmap gets what the queue shows.
pub queue_to_bitmap_lem :
    (q : SlidingQueue ℕ) (bm : Bitmap)
    → ((v : ℕ) → get_bit (queue_to_bitmap q bm) v ≡ (contains v (window q) || get_bit bm v))
      × ((queue_to_bitmap q bm).count ≡ bm.count)
unfolding queue_to_bitmap size
queue_to_bitmap_lem q bm = (
  λ v. set_each q.shared (size q) q.shared_out_start v bm,
  set_each_size q.shared (size q) q.shared_out_start bm,
)

-- A window shows what was pending, and nothing is pending any more.
pub slide_window_lem :
    (q : SlidingQueue ℕ)
    → IsOrdered q
    → (window (slide_window q) ≡ pending q)
      × (pending (slide_window q) ≡ [])
      × IsOrdered (slide_window q)
unfolding slide_window
slide_window_lem q o =
    let none_left : q.shared_in - q.shared_in ≡ 0 = omega arith in
    (
      refl,
      ap (slice q.shared q.shared_in) none_left,
      record { start_le = o.end_le; end_le = omega arith },
    )

-- What an empty and any other queue shows.
pub empty-window : (q : SlidingQueue ℕ) → empty q ≡ true → window q ≡ []
unfolding empty
empty-window q h =
    let none_left : q.shared_out_end - q.shared_out_start ≡ 0 = ground arith in
    ap (slice q.shared q.shared_out_start) none_left

pub window_member :
    (q : SlidingQueue ℕ) → IsOrdered q → empty q ≡ false → (v : ℕ) × (contains v (window q) ≡ true)
unfolding empty
window_member q o h =
    let apart : q.shared_out_start < q.shared_out_end = ground (arith, o.start_le) in
    (
      q.shared q.shared_out_start,
      slice-contains q.shared q.shared_out_start (q.shared_out_end - q.shared_out_start)
          q.shared_out_start (omega arith) (omega arith),
    )

module _ (bm : Bitmap) (q : SlidingQueue ℕ) (fresh : Array ℕ) (o : IsOrdered q) where
  abbrev first : SlidingQueue ℕ × QueueBuffer ℕ
  first = (q, new_buffer fresh given_size)

  -- The vertices below `i` whose bit is set are pushed.
  record Filed (i : ℕ) (s : SlidingQueue ℕ × QueueBuffer ℕ) : Type 0 where
    xs : List ℕ
    pushed : Pushed first s xs
    members : (v : ℕ) → contains v xs ≡ (ltb v i && get_bit bm v)

  file :
      (i : ℕ) (s : SlidingQueue ℕ × QueueBuffer ℕ)
      → Filed i s
      → Filed (suc i) (if get_bit bm i then buffer_push s i else s)
  unfolding contains
  file i s f = elim (Bool-cases (get_bit bm i)) [
    | inl set ↦ rw set (record {
      xs = f.xs ++ i ∷ [];
      pushed = Pushed-trans f.xs (i ∷ []) f.pushed (buffer_push-Pushed s.0 s.1 i f.pushed.ready);
      members = λ v.
          let split = contains-append v f.xs (i ∷ []) in
          let earlier = f.members v in
          let here : v ≡ i → get_bit bm v ≡ get_bit bm i = λ e. ap (get_bit bm) e in ground arith;
    })
    | inr unset ↦ rw unset (record {
      xs = f.xs;
      pushed = f.pushed;
      members = λ v.
          let earlier = f.members v in
          let here : v ≡ i → get_bit bm v ≡ get_bit bm i = λ e. ap (get_bit bm) e in ground arith;
    })
  ]

  filed :
      (n : ℕ)
      → Filed n (
          for_range n 0
            (λ n (q : SlidingQueue ℕ × QueueBuffer ℕ). if get_bit bm n then buffer_push q n else q)
            first)
  filed n =
      for_range_inv Filed n
        (λ n (q : SlidingQueue ℕ × QueueBuffer ℕ). if get_bit bm n then buffer_push q n else q) n 0
        first (omega arith) (λ i s lo hi f. file i s f)
        (record {
          xs = [];
          pushed = Pushed-refl first (new_buffer-IsReady q fresh given_size o (omega arith));
          members = λ v. unfold contains in ground arith;
        })

-- When nothing is pending: the queue shows the vertices whose bit is set, and nothing is pending.
pub bitmap_to_queue_lem :
    (g : CsrGraph) (fresh : Array ℕ) (bm : Bitmap) (q : SlidingQueue ℕ)
    → IsOrdered q
    → pending q ≡ []
    → let r = bitmap_to_queue g fresh bm q in
      ((v : ℕ) → contains v (window r) ≡ (ltb v g.num_nodes && get_bit bm v))
      × (pending r ≡ [])
      × IsOrdered r
unfolding bitmap_to_queue
bitmap_to_queue_lem g fresh bm q o none =
    let f = filed bm q fresh o g.num_nodes in
    let s =
      for_range g.num_nodes 0
        (λ n (q : SlidingQueue ℕ × QueueBuffer ℕ). if get_bit bm n then buffer_push q n else q)
        (q, new_buffer fresh given_size) in
    let (ordered, queued, unseen) = Pushed-flush q fresh given_size s f.xs f.pushed in
    let (shown, rest, ordered') = slide_window_lem (flush s).0 ordered in
    (λ v. ap (contains v) (shown ∙ queued ∙ ap (λ l. l ++ f.xs) none) ∙ f.members v, rest, ordered')
