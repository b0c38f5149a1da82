-- ===== src/Base/Bits.antt =====
-- Single bits of machine words: `|` sets a bit, and `&` with a mask of ones is a remainder.
use Prim.Native.Nat.{
  ℕ, zero, suc, ◌/◌, ◌%◌, ◌^◌, ◌≤◌, ◌<◌, min, max, bit_and, bit_or, digits, bit_and-bitwise,
  bit_or-bitwise,
}
use mathlib.Core.Path.{◌≡◌, refl, ap, sym, ◌∙◌}
use native.Mathlib.Omega.{arith}
use native.Mathlib.Nat.{pow-suc, div-div-eq-div-mul}
use shared_gapbs.Base.Tests.{◌==◌, if◌then◌else◌}

-- Bit `k` of `a`, by halving.
abbrev pub bit : ℕ → ℕ → ℕ
bit zero a = a % 2
bit (suc k) a = bit k (a / 2)

bit-zero : (k : ℕ) → bit k 0 ≡ 0
bit-zero zero = refl
bit-zero (suc k) = bit-zero k

pub bit-lt : (k a : ℕ) → bit k a < 2
bit-lt zero a = omega arith
bit-lt (suc k) a = bit-lt k (a / 2)

-- A native operation that joins its arguments bit by bit: `f` joins two bits, and `z` is what
-- remains to be done when the first argument has run out of ones.
module _ (z : ℕ → ℕ) (f : ℕ → ℕ → ℕ) (ends : (k b : ℕ) → bit k (z b) ≡ f 0 (bit k b))
    (single : (x y : ℕ) → x < 2 → y < 2 → f x y < 2) where
  bit-digits : (n k a b : ℕ) → a ≤ n → bit k (digits z f n a b) ≡ f (bit k a) (bit k b)
  bit-digits zero k zero b h = ends k b ∙ ap (λ x. f x (bit k b)) (sym (bit-zero k))
  bit-digits (suc n) k zero b h = ends k b ∙ ap (λ x. f x (bit k b)) (sym (bit-zero k))
  bit-digits zero k (suc a) b h = absurd (omega arith)
  bit-digits (suc n) zero (suc a) b h =
      let small = single (suc a % 2) (b % 2) (omega arith) (omega arith) in omega (arith, small)
  bit-digits (suc n) (suc k) (suc a) b h =
      let small = single (suc a % 2) (b % 2) (omega arith) (omega arith) in
      let upper : digits z f (suc n) (suc a) b / 2 ≡ digits z f n (suc a / 2) (b / 2) =
        omega (arith, small) in
      ap (bit k) upper ∙ bit-digits n k (suc a / 2) (b / 2) (omega arith)

-- Every bit of `a | b` is the larger of the two bits, and of `a & b` the smaller.
pub bit-bit_or : (k a b : ℕ) → bit k (bit_or a b) ≡ max (bit k a) (bit k b)
bit-bit_or k a b =
    ap (bit k) (bit_or-bitwise a b)
    ∙ bit-digits (λ y. y) max (λ k b. omega arith) (λ x y h h'. omega arith) a k a b (omega arith)

bit-bit_and : (k a b : ℕ) → bit k (bit_and a b) ≡ min (bit k a) (bit k b)
bit-bit_and k a b =
    ap (bit k) (bit_and-bitwise a b)
    ∙ bit-digits (λ y. 0) min (λ k b. bit-zero k ∙ omega arith) (λ x y h h'. omega arith) a k a b
        (omega arith)

-- Numbers with the same bits are equal.
bit-ext : (n a b : ℕ) → a ≤ n → b ≤ n → ((k : ℕ) → bit k a ≡ bit k b) → a ≡ b
bit-ext zero a b h h' same = omega arith
bit-ext (suc n) a b h h' same =
    omega (arith, same 0, bit-ext n (a / 2) (b / 2) (omega arith) (omega arith) (λ k. same (suc k)))

-- `1 << j` has the one bit `j`.
pub bit-pow : (k j : ℕ) → bit k (2 ^ j) ≡ (if j == k then 1 else 0)
bit-pow zero zero = refl
bit-pow zero (suc j) = ground (arith, pow-suc 2 j)
bit-pow (suc k) zero = bit-zero k ∙ ground arith
bit-pow (suc k) (suc j) =
    let half : 2 ^ suc j / 2 ≡ 2 ^ j = omega (arith, pow-suc 2 j) in
    ap (bit k) half ∙ bit-pow k j ∙ ground arith

-- Shifting right by `k` brings bit `k` to the lowest place.
pub bit-shift : (k a : ℕ) → bit k a ≡ a / 2 ^ k % 2
bit-shift zero a = omega arith
bit-shift (suc k) a =
    bit-shift k (a / 2)
    ∙ ap (λ t. t % 2)
        (div-div-eq-div-mul a 2 (2 ^ k) ∙ ap (λ t. a / t) (omega (arith, pow-suc 2 k)))

bit_and-bits : (a m r : ℕ) → ((k : ℕ) → min (bit k a) (bit k m) ≡ bit k r) → bit_and a m ≡ r
bit_and-bits a m r same =
    bit-ext (max (bit_and a m) r) (bit_and a m) r (omega arith) (omega arith)
      (λ k. bit-bit_and k a m ∙ same k)

pub bit_and-one : (a : ℕ) → bit_and a 1 ≡ a % 2
bit_and-one a = bit_and-bits a 1 (a % 2) ones
  where
    ones : (k : ℕ) → min (bit k a) (bit k 1) ≡ bit k (a % 2)
    ones zero = omega arith
    ones (suc k) =
        let gone : a % 2 / 2 ≡ 0 = omega arith in
        let none_left = bit-zero k in ground (arith, ap (bit k) gone, none_left)

-- A mask of six ones is the remainder by 64.
pub bit_and-mask : (a : ℕ) → bit_and a 63 ≡ a % 64
bit_and-mask a = bit_and-bits a 63 (a % 64) ones
  where
    ones : (k : ℕ) → min (bit k a) (bit k 63) ≡ bit k (a % 64)
    ones zero = omega arith
    ones (suc zero) = omega arith
    ones (suc (suc zero)) = omega arith
    ones (suc (suc (suc zero))) = omega arith
    ones (suc (suc (suc (suc zero)))) = omega arith
    ones (suc (suc (suc (suc (suc zero))))) = omega arith
    ones (suc (suc (suc (suc (suc (suc k)))))) =
        let gone : a % 64 / 2 / 2 / 2 / 2 / 2 / 2 ≡ 0 = omega arith in
        omega (arith, ap (bit k) gone, bit-zero k)
