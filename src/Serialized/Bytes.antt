-- ===== src/Serialized/Bytes.antt =====
-- Numbers written as bytes are read back (src/writer.h, src/reader.h).
use shared_gapbs.Base.{
  ℕ, zero, suc, ◌/◌, ◌^◌, ◌<◌, ◌≡◌, refl, ap, ◌∙◌, arith, List, [], ◌∷◌, ◌++◌, length, some,
  chain-some,
}
use native.Mathlib.Nat.{pow-suc}
use mathlib.Core.List.{append_assoc}
use shared_gapbs.Serialized.{write_number, write_numbers, read_number, read_numbers}

pub read_number-write_number :
    (size x : ℕ) (rest : List ℕ)
    → x < 256 ^ size
    → read_number size (write_number size x ++ rest) ≡ some (x, rest)
read_number-write_number zero x rest h = ap (λ x. some (x, rest)) (omega arith)
read_number-write_number (suc size) x rest h =
    let inner = read_number-write_number size (x / 256) rest (omega (arith, pow-suc 256 size)) in
    chain-some (read_number size (write_number size (x / 256) ++ rest)) _ (x / 256, rest) inner
    ∙ ap (λ x. some (x, rest)) (omega arith)

-- Every number fits its bytes.
abbrev pub Fit : ℕ → List ℕ → Type 0
Fit size [] = Unit
Fit size (x ∷ xs) = (x < 256 ^ size) × Fit size xs

pub read_numbers-write_numbers :
    (size : ℕ) (xs : List ℕ) (rest : List ℕ)
    → Fit size xs
    → read_numbers size (length xs) (write_numbers size xs ++ rest) ≡ some (xs, rest)
read_numbers-write_numbers size [] rest h = refl
read_numbers-write_numbers size (x ∷ xs) rest h =
    ap (read_numbers size (suc (length xs)))
      (append_assoc (write_number size x) (write_numbers size xs) rest)
    ∙ chain-some (read_number size (write_number size x ++ (write_numbers size xs ++ rest))) _
        (x, write_numbers size xs ++ rest)
        (read_number-write_number size x (write_numbers size xs ++ rest) h.0)
    ∙ chain-some (read_numbers size (length xs) (write_numbers size xs ++ rest)) _ (xs, rest)
        (read_numbers-write_numbers size xs rest h.1)
