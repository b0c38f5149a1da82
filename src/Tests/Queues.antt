-- ===== src/Tests/Queues.antt =====
-- Small inputs for src/sliding_queue.h, src/bitmap.h and src/pvector.h.
use shared_gapbs.Base.{ℕ, ◌+◌, ◌≡◌, arith, Array, [], ◌∷◌, ◌++◌}
use shared_gapbs.SlidingQueue.{SlidingQueue, new_buffer, flush, push_each, window, pending}
use shared_gapbs.SlidingQueue.Buffer.{push_each-flush}
use shared_gapbs.Bitmap.{Bitmap}

-- Memory that holds a 9 everywhere.
abbrev garbage : Array ℕ
garbage i = 9

-- Cells 0 and 1 were read, 2 is in the window, 3 and 4 wait.
abbrev queue : SlidingQueue ℕ
queue = record {
  shared = λ i. i + 10;
  shared_in = 5;
  shared_out_start = 2;
  shared_out_end = 3;
  room = 20;
}

-- Five items through a buffer of two cells.
push_each-flush_example :
    let t = (flush (push_each (queue, new_buffer garbage 2) (1 ∷ 2 ∷ 3 ∷ 4 ∷ 5 ∷ []))).0 in
    (pending t ≡ pending queue ++ 1 ∷ 2 ∷ 3 ∷ 4 ∷ 5 ∷ [])
    × (window t ≡ window queue)
    × (t.shared_in ≡ 5 + 5)
push_each-flush_example =
    push_each-flush queue garbage 2 (1 ∷ 2 ∷ 3 ∷ 4 ∷ 5 ∷ [])
      (record { start_le = omega arith; end_le = omega arith }) (omega arith)

abbrev bits : Bitmap
bits = record { words = λ i. 5; count = 3 }
