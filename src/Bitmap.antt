-- ===== src/Bitmap.antt =====
-- src/bitmap.h: class Bitmap, a set of positions packed into 64-bit words.
pub mod Laws
use shared_gapbs.Atomics.{compare_and_swap}
use shared_gapbs.Base.{
  ℕ, ◌+◌, ◌-◌, ◌*◌, ◌/◌, ◌%◌, ◌^◌, Bool, not, bit_and, bit_or, Array, write, ◌==◌, if◌then◌else◌,
  ltb,
}

abbrev pub bits_per_word : ℕ
bits_per_word = 64

-- `words` are the cells from `start_`, and `count` is `end_ - start_`.
pub record Bitmap : Type 0 where
  pub words : Array ℕ
  pub count : ℕ

-- The constructor allocates and does not clear: `fresh` is what the memory held.
pub new : Array ℕ → ℕ → Bitmap
new fresh size = record { words = fresh; count = (size + bits_per_word - 1) / bits_per_word }

pub reset : Bitmap → Bitmap
reset b = record b { words = λ i. if ltb i b.count then 0 else b.words i }

pub word_offset : ℕ → ℕ
word_offset n = n / bits_per_word

pub bit_offset : ℕ → ℕ
bit_offset n = bit_and n (bits_per_word - 1)

-- `(uint64_t) 1l << bit_offset(pos)`
pub single : ℕ → ℕ
single pos = 1 * 2 ^ bit_offset pos % 2 ^ 64

pub set_bit : Bitmap → ℕ → Bitmap
set_bit b pos =
    let w = word_offset pos in
    record b { words = write b.words w (bit_or (b.words w) (single pos)) }

-- One round of the loop: the word that was read is still there, unless another thread has changed
-- it, which starts the next round.
pub set_bit_atomic : Bitmap → ℕ → Bitmap
set_bit_atomic b pos =
    let w = word_offset pos in
    let old_val = b.words w in
    let new_val = bit_or old_val (single pos) in
    record b { words = write b.words w (compare_and_swap (b.words w) old_val new_val).1 }

-- Each bitmap gets the words of the other.
unfoldable pub swap : Bitmap × Bitmap → Bitmap × Bitmap
swap (b, other) = (other, b)

pub get_bit : Bitmap → ℕ → Bool
get_bit b pos = not (bit_and (b.words (word_offset pos) / 2 ^ bit_offset pos) 1 == 0)
