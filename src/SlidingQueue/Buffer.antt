-- ===== src/SlidingQueue/Buffer.antt =====
-- QueueBuffer of src/sliding_queue.h: items pushed through it reach the queue in order.
use mathlib.Core.List.{append-nil, append_assoc}
use shared_gapbs.Base.{
  ℕ, suc, ◌+◌, ◌-◌, ◌≤◌, ◌<◌, ◌≡◌, refl, ap, sym, ◌∙◌, inl, inr, arith, List, [], ◌∷◌, ◌++◌, Array,
  write, write_all, write_all_frame, slice, slice-ext, slice-write_end, slice-write_all_end, length,
  length-append, length-slice, ◌==◌, Bool-cases,
}
use shared_gapbs.SlidingQueue.{
  SlidingQueue, QueueBuffer, IsOrdered, flush, store_local, buffer_push, push_each, window, pending,
  held, new_buffer,
}

module _ {ℓ} {A : Type ℓ} where
  -- What the queue and the buffer together hold back from readers.
  abbrev pub waiting : SlidingQueue A × QueueBuffer A → List A
  waiting (q, b) = pending q ++ held b

  pub record IsReady (s : SlidingQueue A × QueueBuffer A) : Type 0 where
    pub ordered : IsOrdered s.0
    pub fits : s.1.count ≤ s.1.local_size
    pub nonempty : 0 < s.1.local_size

  flush-pending :
      (q : SlidingQueue A) (b : QueueBuffer A)
      → IsOrdered q
      → pending (flush (q, b)).0 ≡ pending q ++ held b
  unfolding flush
  flush-pending q b o =
      let n : ℕ = q.shared_in - q.shared_out_end in
      let at : q.shared_in ≡ q.shared_out_end + n = omega (arith, o.end_le) in
      let len = length-slice b.local_queue 0 b.count in
      let more : q.shared_in + b.count - q.shared_out_end ≡ n + length (held b) =
        omega (arith, o.end_le, len) in
      rw more (
        ap (λ i. slice (write_all q.shared i (held b)) q.shared_out_end (n + length (held b))) at
        ∙ slice-write_all_end q.shared q.shared_out_end n (held b))

  flush-window :
      (q : SlidingQueue A) (b : QueueBuffer A) → IsOrdered q → window (flush (q, b)).0 ≡ window q
  unfolding flush
  flush-window q b o = slice-ext _ _ _ _ (λ j lo hi.
      write_all_frame q.shared q.shared_in (held b) j (inl (omega (arith, o.start_le, o.end_le))))

  store_local-held :
      (q : SlidingQueue A) (b : QueueBuffer A) (x : A)
      → held (store_local (q, b) x).1 ≡ held b ++ x ∷ []
  unfolding store_local
  store_local-held q b x =
      let at : b.count ≡ 0 + b.count = omega arith in
      ap (λ i. slice (write b.local_queue i x) 0 (suc b.count)) at
      ∙ slice-write_end b.local_queue 0 b.count x

  -- One push through the buffer: in order, unseen, and one cell more.
  pub record Pushed (s t : SlidingQueue A × QueueBuffer A) (xs : List A) : Type ℓ where
    pub ready : IsReady t
    pub unseen : window t.0 ≡ window s.0
    pub queued : waiting t ≡ waiting s ++ xs
    pub cells : t.0.shared_in + t.1.count ≡ s.0.shared_in + s.1.count + length xs
    pub room_kept : t.0.room ≡ s.0.room
    pub start_kept : t.0.shared_out_start ≡ s.0.shared_out_start
    pub end_kept : t.0.shared_out_end ≡ s.0.shared_out_end

  store_local-Pushed :
      (q : SlidingQueue A) (b : QueueBuffer A) (x : A)
      → IsReady (q, b)
      → b.count < b.local_size
      → Pushed (q, b) (store_local (q, b) x) (x ∷ [])
  unfolding store_local
  store_local-Pushed q b x r lt = record {
    ready = record { ordered = r.ordered; fits = omega arith; nonempty = r.nonempty };
    unseen = refl;
    queued =
        ap (λ l. pending q ++ l) (store_local-held q b x)
        ∙ sym (append_assoc (pending q) (held b) (x ∷ []));
    cells = omega arith;
    room_kept = refl;
    start_kept = refl;
    end_kept = refl;
  }

  pub flush-Pushed :
      (q : SlidingQueue A) (b : QueueBuffer A) → IsReady (q, b) → Pushed (q, b) (flush (q, b)) []
  unfolding flush
  flush-Pushed q b r = record {
    ready = record {
      ordered = omega (arith, r.ordered);
      fits = omega arith;
      nonempty = r.nonempty;
    };
    unseen = flush-window q b r.ordered;
    queued =
        append-nil (pending (flush (q, b)).0)
        ∙ flush-pending q b r.ordered
        ∙ sym (append-nil (pending q ++ held b));
    cells = omega arith;
    room_kept = refl;
    start_kept = refl;
    end_kept = refl;
  }

  pub Pushed-trans :
      {s t u : SlidingQueue A × QueueBuffer A} (xs ys : List A)
      → Pushed s t xs
      → Pushed t u ys
      → Pushed s u (xs ++ ys)
  Pushed-trans {s} {t} {u} xs ys h k = record {
    ready = k.ready;
    unseen = k.unseen ∙ h.unseen;
    queued = k.queued ∙ ap (λ l. l ++ ys) h.queued ∙ append_assoc (waiting s) xs ys;
    cells = omega (arith, h.cells, k.cells, length-append xs ys);
    room_kept = k.room_kept ∙ h.room_kept;
    start_kept = k.start_kept ∙ h.start_kept;
    end_kept = k.end_kept ∙ h.end_kept;
  }

  pub buffer_push-Pushed :
      (q : SlidingQueue A) (b : QueueBuffer A) (x : A)
      → IsReady (q, b)
      → Pushed (q, b) (buffer_push (q, b) x) (x ∷ [])
  unfolding buffer_push
  buffer_push-Pushed q b x r = elim (Bool-cases (b.count == b.local_size)) [
    | inl full ↦
        let f = flush-Pushed q b r in
        rw full (
          Pushed-trans [] (x ∷ []) f
            (store_local-Pushed (flush (q, b)).0 (flush (q, b)).1 x f.ready (flush_leaves_room)))
    | inr free ↦ rw free (store_local-Pushed q b x r (ground (arith, r.fits)))
  ]
    where
      flush_leaves_room : (flush (q, b)).1.count < (flush (q, b)).1.local_size
      flush_leaves_room = r.nonempty

  push_each-Pushed :
      (s : SlidingQueue A × QueueBuffer A) (xs : List A) → IsReady s → Pushed s (push_each s xs) xs
  unfolding push_each
  push_each-Pushed s [] r = record {
    ready = r;
    unseen = refl;
    queued = sym (append-nil (waiting s));
    cells = omega arith;
    room_kept = refl;
    start_kept = refl;
    end_kept = refl;
  }
  push_each-Pushed s (x ∷ xs) r =
      let first = buffer_push-Pushed s.0 s.1 x r in
      Pushed-trans (x ∷ []) xs first (push_each-Pushed (buffer_push s x) xs first.ready)

  -- For an ordered queue and a buffer of positive size: a thread that pushes items through the
  -- buffer and flushes at the end adds exactly those items, in order, behind what was pending,
  -- changes nothing that is seen, and claims as many cells as there are items.
  pub push_each-flush :
      (q : SlidingQueue A) (fresh : Array A) (given_size : ℕ) (xs : List A)
      → IsOrdered q
      → 0 < given_size
      → let t = (flush (push_each (q, new_buffer fresh given_size) xs)).0 in
        (pending t ≡ pending q ++ xs)
        × (window t ≡ window q)
        × (t.shared_in ≡ q.shared_in + length xs)
  unfolding new_buffer
  push_each-flush q fresh given_size xs o pos =
      let s : SlidingQueue A × QueueBuffer A = (q, new_buffer fresh given_size) in
      let p = push_each-Pushed s xs (record { ordered = o; fits = omega arith; nonempty = pos }) in
      let t = push_each s xs in
      (
        flush-pending t.0 t.1 p.ready.ordered
            ∙ p.queued
            ∙ ap (λ l. l ++ xs) (append-nil (pending q)),
        flush-window t.0 t.1 p.ready.ordered ∙ p.unseen,
        omega (arith, flush_cells t.0 t.1, p.cells),
      )
    where
      flush_cells :
          (r : SlidingQueue A) (b : QueueBuffer A)
          → (flush (r, b)).0.shared_in ≡ r.shared_in + b.count
      flush_cells r b = unfold flush in refl

  pub Pushed-refl : (s : SlidingQueue A × QueueBuffer A) → IsReady s → Pushed s s []
  Pushed-refl s r = unfold push_each in push_each-Pushed s [] r

  pub new_buffer-IsReady :
      (q : SlidingQueue A) (fresh : Array A) (given_size : ℕ)
      → IsOrdered q
      → 0 < given_size
      → IsReady (q, new_buffer fresh given_size)
  unfolding new_buffer
  new_buffer-IsReady q fresh given_size o pos = record {
    ordered = o;
    fits = omega arith;
    nonempty = pos;
  }

  -- A flush at the end of a thread's run shows what it pushed.
  pub Pushed-flush :
      (q : SlidingQueue A) (fresh : Array A) (given_size : ℕ) (t : SlidingQueue A × QueueBuffer A)
      (xs : List A)
      → Pushed (q, new_buffer fresh given_size) t xs
      → IsOrdered (flush t).0
        × (pending (flush t).0 ≡ pending q ++ xs)
        × (window (flush t).0 ≡ window q)
  unfolding new_buffer
  Pushed-flush q fresh given_size t xs p = (
    (flush-Pushed t.0 t.1 p.ready).ready.ordered,
    flush-pending t.0 t.1 p.ready.ordered ∙ p.queued ∙ ap (λ l. l ++ xs) (append-nil (pending q)),
    flush-window t.0 t.1 p.ready.ordered ∙ p.unseen,
  )
