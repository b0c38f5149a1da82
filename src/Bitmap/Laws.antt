-- ===== src/Bitmap/Laws.antt =====
-- What src/bitmap.h promises: a set of positions.
use native.Mathlib.Nat.{pow-le-pow_right}
use shared_gapbs.Base.{
  ◌*◌, refl, ◌∙◌, ap, ℕ, ◌/◌, ◌%◌, ◌^◌, ◌<◌, ◌≤◌, ◌≡◌, true, false, not, arith, bit, bit-bit_or,
  bit-pow, bit-shift, bit_and-one, bit_and-mask, bit-lt, ◌==◌, if◌then◌else◌,
}
use shared_gapbs.Bitmap.{
  set_bit_atomic, Bitmap, new, reset, word_offset, bit_offset, single, set_bit, get_bit,
}

-- A position is read as one bit of one word.
get_bit-bit : (b : Bitmap) (j : ℕ) → get_bit b j ≡ not (bit (j % 64) (b.words (j / 64)) == 0)
unfolding get_bit word_offset bit_offset
get_bit-bit b j = rw (bit_and-mask j, bit_and-one, bit-shift (j % 64) (b.words (j / 64)))

single_lem : (pos : ℕ) → single pos ≡ 2 ^ (pos % 64)
unfolding single bit_offset
single_lem pos =
    let small : 2 ^ (pos % 64) ≤ 2 ^ 63 = pow-le-pow_right (omega arith) {j = 63} (omega arith) in
    rw bit_and-mask (omega arith)

-- Setting a position adds it to the set and changes no other.
pub get_bit-set_bit :
    (b : Bitmap) (i j : ℕ) → get_bit (set_bit b i) j ≡ (if i == j then true else get_bit b j)
unfolding set_bit word_offset
get_bit-set_bit b i j = ground (
  arith,
  get_bit-bit b j,
  get_bit-bit (set_bit b i) j,
  single_lem i,
  bit-bit_or (j % 64) (b.words (i / 64)) (2 ^ (i % 64)),
  bit-pow (j % 64) (i % 64),
  bit-lt (j % 64) (b.words (j / 64)),
)

-- After reset no position of the allocated size is in the set.
pub get_bit-reset :
    (fresh : ℕ → ℕ) (size j : ℕ) → j < size → get_bit (reset (new fresh size)) j ≡ false
unfolding reset new get_bit word_offset
get_bit-reset fresh size j h = ground (arith, bit_and-mask j)

-- After reset no position that the words have room for is in the set.
pub get_bit-reset_room : (b : Bitmap) (j : ℕ) → j < 64 * b.count → get_bit (reset b) j ≡ false
unfolding reset get_bit word_offset
get_bit-reset_room b j h =
    let inside : j / 64 < b.count = omega arith in ground (arith, bit_and-mask j)

-- The atomic operation adds the same position.
pub get_bit-set_bit_atomic :
    (b : Bitmap) (i j : ℕ) → get_bit (set_bit_atomic b i) j ≡ (if i == j then true else get_bit b j)
unfolding set_bit_atomic set_bit
get_bit-set_bit_atomic b i j =
    let same : set_bit_atomic b i ≡ set_bit b i = ground arith in
    ap (λ b. get_bit b j) same ∙ get_bit-set_bit b i j

-- The number of words stays.
pub set_bit_size : (b : Bitmap) (pos : ℕ) → (set_bit b pos).count ≡ b.count
unfolding set_bit
set_bit_size b pos = refl

pub reset_size : (b : Bitmap) → (reset b).count ≡ b.count
unfolding reset
reset_size b = refl

pub set_bit_atomic_size : (b : Bitmap) (pos : ℕ) → (set_bit_atomic b pos).count ≡ b.count
unfolding set_bit_atomic
set_bit_atomic_size b pos = refl

-- A new bitmap has room for the positions of the size that is asked for.
pub new_size : (fresh : ℕ → ℕ) (size : ℕ) → size ≤ 64 * (reset (new fresh size)).count
unfolding reset new
new_size fresh size = omega arith
