-- ===== src/SlidingQueue/Window.antt =====
-- SlidingQueue of src/sliding_queue.h against two lists: the window and what is pending.
use shared_gapbs.Base.{
  suc, ◌+◌, ◌-◌, ◌≡◌, refl, ap, ◌∙◌, true, ◌↔◌, arith, [], ◌∷◌, ◌++◌, write, slice, slice-ext,
  slice-write_end, length, length-slice,
}
use shared_gapbs.SlidingQueue.{
  SlidingQueue, IsOrdered, push_back, empty, slide_window, window, pending,
}

module _ {ℓ} {A : Type ℓ} where
  pub push_back-IsOrdered : (q : SlidingQueue A) (x : A) → IsOrdered q → IsOrdered (push_back q x)
  unfolding push_back
  push_back-IsOrdered q x o = omega arith

  pub slide_window-IsOrdered : (q : SlidingQueue A) → IsOrdered q → IsOrdered (slide_window q)
  unfolding slide_window
  slide_window-IsOrdered q o = omega arith

  -- For an ordered queue: an append is not seen through the window, and goes to the end of what is
  -- pending.
  pub push_back-window :
      (q : SlidingQueue A) (x : A)
      → IsOrdered q
      → (window (push_back q x) ≡ window q) × (pending (push_back q x) ≡ pending q ++ x ∷ [])
  unfolding push_back
  push_back-window q x o =
      let at : q.shared_in ≡ q.shared_out_end + (q.shared_in - q.shared_out_end) =
        omega (arith, o.end_le) in
      let more : suc q.shared_in - q.shared_out_end ≡ suc (q.shared_in - q.shared_out_end) =
        omega (arith, o.end_le) in
      (
        slice-ext _ _ _ _ (λ j lo hi. ground (arith, o.start_le, o.end_le)),
        rw more (
            ap
              (λ i.
                slice (write q.shared i x) q.shared_out_end (suc (q.shared_in - q.shared_out_end)))
              at
            ∙ slice-write_end q.shared q.shared_out_end (q.shared_in - q.shared_out_end) x),
      )

  -- Sliding shows exactly what was pending, and leaves nothing pending.
  pub slide_window-window :
      (q : SlidingQueue A) → (window (slide_window q) ≡ pending q) × (pending (slide_window q) ≡ [])
  unfolding slide_window
  slide_window-window q =
      let none_left : q.shared_in - q.shared_in ≡ 0 = omega arith in (refl, rw none_left)

  -- For an ordered queue: it says that it is empty exactly when the window is.
  pub empty-window_iff : (q : SlidingQueue A) → IsOrdered q → (empty q ≡ true) ↔ (window q ≡ [])
  unfolding empty
  empty-window_iff q o = (
    λ e. let same : q.shared_out_end - q.shared_out_start ≡ 0 = ground arith in rw same,
    λ e. ground (
      arith,
      o.start_le,
      ap length e,
      length-slice q.shared q.shared_out_start (q.shared_out_end - q.shared_out_start),
    ),
  )
