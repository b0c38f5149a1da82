-- ===== src/SlidingQueue.antt =====
-- src/sliding_queue.h: SlidingQueue, a double-buffered queue whose appends stay unseen until the
-- window slides, and QueueBuffer, a thread's local buffer in front of it.
pub mod Window
pub mod Buffer
use shared_gapbs.Base.{
  ℕ, suc, ◌+◌, ◌-◌, ◌≤◌, Bool, List, [], ◌∷◌, Array, write, write_all, slice, ◌==◌, if◌then◌else◌,
}

-- `room` is the number of cells allocated at `shared`.
pub record SlidingQueue {ℓ} (A : Type ℓ) : Type ℓ where
  pub shared : Array A
  pub shared_in : ℕ
  pub shared_out_start : ℕ
  pub shared_out_end : ℕ
  pub room : ℕ

-- `in` of the source is a reserved word here, and `local_size` counts the cells of `local_queue`.
pub record QueueBuffer {ℓ} (A : Type ℓ) : Type ℓ where
  pub count : ℕ
  pub local_queue : Array A
  pub local_size : ℕ

module _ {ℓ} {A : Type ℓ} where
  unfoldable pub reset : SlidingQueue A → SlidingQueue A
  reset q = record q { shared_out_start = 0; shared_out_end = 0; shared_in = 0 }

  -- `fresh` is what the allocated memory held.
  unfoldable pub new : Array A → ℕ → SlidingQueue A
  unfolding reset
  new fresh size = reset (record {
    shared = fresh;
    shared_in = 0;
    shared_out_start = 0;
    shared_out_end = 0;
    room = size;
  })

  unfoldable pub push_back : SlidingQueue A → A → SlidingQueue A
  push_back q x = record q { shared = write q.shared q.shared_in x; shared_in = suc q.shared_in }

  unfoldable pub empty : SlidingQueue A → Bool
  empty q = q.shared_out_start == q.shared_out_end

  unfoldable pub slide_window : SlidingQueue A → SlidingQueue A
  slide_window q = record q { shared_out_start = q.shared_out_end; shared_out_end = q.shared_in }

  unfoldable pub size : SlidingQueue A → ℕ
  size q = q.shared_out_end - q.shared_out_start

  pub new_buffer : Array A → ℕ → QueueBuffer A
  new_buffer fresh given_size = record { count = 0; local_queue = fresh; local_size = given_size }

  -- The shared cells are claimed by `fetch_and_add`, then the local ones are copied there.
  pub flush : SlidingQueue A × QueueBuffer A → SlidingQueue A × QueueBuffer A
  flush (q, b) =
      let copy_start = q.shared_in in
      (
        record q {
          shared = write_all q.shared copy_start (slice b.local_queue 0 b.count);
          shared_in = copy_start + b.count;
        },
        record b { count = 0 },
      )

  pub store_local : SlidingQueue A × QueueBuffer A → A → SlidingQueue A × QueueBuffer A
  store_local (q, b) x =
      (q, record b { local_queue = write b.local_queue b.count x; count = suc b.count })

  pub buffer_push : SlidingQueue A × QueueBuffer A → A → SlidingQueue A × QueueBuffer A
  unfolding flush store_local
  buffer_push (q, b) x = store_local (if b.count == b.local_size then flush (q, b) else (q, b)) x

  -- A thread's whole run: it pushes every item, then flushes.
  pub push_each : SlidingQueue A × QueueBuffer A → List A → SlidingQueue A × QueueBuffer A
  push_each s [] = s
  push_each s (x ∷ xs) = push_each (buffer_push s x) xs

  -- What a reader sees, and what waits for the next `slide_window`.
  abbrev pub window : SlidingQueue A → List A
  window q = slice q.shared q.shared_out_start (q.shared_out_end - q.shared_out_start)

  abbrev pub pending : SlidingQueue A → List A
  pending q = slice q.shared q.shared_out_end (q.shared_in - q.shared_out_end)

  abbrev pub held : QueueBuffer A → List A
  held b = slice b.local_queue 0 b.count

  pub record IsOrdered (q : SlidingQueue A) : Type 0 where
    pub start_le : q.shared_out_start ≤ q.shared_out_end
    pub end_le : q.shared_out_end ≤ q.shared_in
