-- ===== src/Prelude/Decimal.antt =====
-- Unsigned numbers in decimal digits, as Rust writes them.
use Prim.Native.Nat.{ℕ, zero, suc, ◌+◌, ◌*◌, ◌/◌, ◌%◌, ◌<◌}
use mathlib.Core.Path.{◌≡◌, refl, ap, ◌∙◌}
use mathlib.Core.Logic.{inl, inr}
use mathlib.Core.Bool.{true, false}
use mathlib.Core.Option.{some}
use mathlib.Core.List.{[], ◌∷◌}
use native.Mathlib.Omega.{arith}
use snx_rs.Prelude.Tests.{ltb, if◌then◌else◌, Bool-cases, lt→ltb}
use snx_rs.Prelude.Text.{Text, is_digit, is_empty, parse_digits, parse_unsigned, parse_below}
use snx_rs.Prelude.Parts.{all_of}

abbrev pub ten_to : ℕ → ℕ
ten_to zero = 1
ten_to (suc k) = 10 * ten_to k

-- So many digits at most, and what stands behind them.
unfoldable pub digits_onto : ℕ → ℕ → Text → Text
digits_onto zero n rest = rest
digits_onto (suc k) n rest =
    let more = digits_onto k (n / 10) ((48 + n % 10) ∷ rest) in
    if ltb n 10 then (48 + n) ∷ rest else more

-- 20 digits are enough for 64 bits.
unfoldable pub decimal : ℕ → Text
unfolding digits_onto
decimal n = digits_onto 20 n []

digit :
    (n d : ℕ) (rest : Text)
    → d < 10
    → parse_digits n ((48 + d) ∷ rest) ≡ parse_digits (n * 10 + d) rest
unfolding parse_digits
digit n d rest h = ground arith

pub parse_digits-digits_onto :
    (k n : ℕ) (rest : Text)
    → n < ten_to k
    → parse_digits 0 (digits_onto k n rest) ≡ parse_digits n rest
unfolding digits_onto
parse_digits-digits_onto zero n rest h = ap (λ m. parse_digits m rest) (omega arith)
parse_digits-digits_onto (suc k) n rest h = elim (Bool-cases (ltb n 10)) [
  | inl small ↦
      rw (small, digits_onto)
        (digit 0 n rest (ground arith) ∙ ap (λ m. parse_digits m rest) (omega arith))
  | inr large ↦
      rw (large, digits_onto)
        (parse_digits-digits_onto k (n / 10) ((48 + n % 10) ∷ rest) (omega arith)
          ∙ digit (n / 10) (n % 10) rest (omega arith)
          ∙ ap (λ m. parse_digits m rest) (omega arith))
]

pub digits_onto-digits :
    (k n : ℕ) (rest : Text)
    → all_of is_digit rest ≡ true
    → all_of is_digit (digits_onto k n rest) ≡ true
unfolding digits_onto all_of
digits_onto-digits zero n rest h = h
digits_onto-digits (suc k) n rest h = elim (Bool-cases (ltb n 10)) [
  | inl small ↦ rw (small, digits_onto) (ground arith)
  | inr large ↦
      rw (large, digits_onto) (digits_onto-digits k (n / 10) ((48 + n % 10) ∷ rest) (ground arith))
]

pub digits_onto-filled :
    (k n : ℕ) (c : ℕ) (rest : Text) → is_empty (digits_onto k n (c ∷ rest)) ≡ false
unfolding digits_onto
digits_onto-filled zero n c rest = refl
digits_onto-filled (suc k) n c rest = elim (Bool-cases (ltb n 10)) [
  | inl small ↦ rw (small, digits_onto) refl
  | inr large ↦ rw (large, digits_onto) (digits_onto-filled k (n / 10) (48 + n % 10) (c ∷ rest))
]

pub decimal_digits : (n : ℕ) → all_of is_digit (decimal n) ≡ true
unfolding decimal all_of
decimal_digits n = digits_onto-digits 20 n [] refl

pub decimal_filled : (n : ℕ) → is_empty (decimal n) ≡ false
unfolding decimal digits_onto
decimal_filled n = elim (Bool-cases (ltb n 10)) [
  | inl small ↦ rw (small) refl
  | inr large ↦ rw (large) (digits_onto-filled 19 (n / 10) (48 + n % 10) [])
]

parse_unsigned-digits :
    (s : Text) → all_of is_digit s ≡ true → is_empty s ≡ false → parse_unsigned s ≡ parse_digits 0 s
unfolding parse_unsigned all_of
parse_unsigned-digits [] h e = cc e
parse_unsigned-digits (c ∷ []) h e = refl
parse_unsigned-digits (c ∷ d ∷ s) h e = ground arith

pub parse_below-decimal :
    (bound n : ℕ) → n < bound → n < ten_to 20 → parse_below bound (decimal n) ≡ some n
unfolding parse_below decimal parse_digits
parse_below-decimal bound n h within =
    let parsed : parse_unsigned (decimal n) ≡ some n =
      parse_unsigned-digits (decimal n) (decimal_digits n) (decimal_filled n)
      ∙ parse_digits-digits_onto 20 n [] within in
    rw (parsed, lt→ltb n bound h, parse_below) refl
