-- ===== src/Prelude/Ipv4.antt =====
-- `std::net::Ipv4Addr`: its text, and how it is read.
use Prim.Native.Nat.{ℕ, zero, suc, ◌+◌, ◌*◌, ◌/◌, ◌%◌, ◌<◌}
use mathlib.Core.Path.{◌≡◌, refl, ap, ◌∙◌}
use mathlib.Core.Bool.{Bool, true, false, not, ◌&&◌, ◌||◌}
use mathlib.Core.Option.{Option, none, some}
use mathlib.Core.List.{List, [], ◌∷◌, ◌++◌, map}
use native.Mathlib.Omega.{arith}
use native.Mathlib.Decide.{ℕ_discrete}
use snx_rs.Prelude.Tests.{ltb, ◌==◌, if◌then◌else◌}
use snx_rs.Prelude.Lists.{length}
use snx_rs.Prelude.Text.{Text, is_digit, is_empty, split, join, parse_digits}
use snx_rs.Prelude.Parts.{
  all_of, lacks, all_of-append, all_of-weaken, and_parts, and_both, split-join,
}
use snx_rs.Prelude.Decimal.{decimal, decimal_digits, decimal_filled}

unfoldable pub address_text : ℕ → Text
unfolding decimal
address_text a = join (b'.' ∷ []) (
    decimal (a / 0x100_0000)
    ∷ decimal (a / 0x1_0000 % 0x100)
    ∷ decimal (a / 0x100 % 0x100)
    ∷ decimal (a % 0x100)
    ∷ [])

abbrev leads_zero : Text → Bool
leads_zero [] = false
leads_zero (c ∷ []) = false
leads_zero (c ∷ d ∷ s) = c == b'0'

-- At most three digits with no zero in front, below 256.
unfoldable pub parse_octet : Text → Option ℕ
unfolding all_of parse_digits
parse_octet s =
    if is_empty s || (ltb 3 (length s) || (leads_zero s || not (all_of is_digit s)))
    then none
    else elim (parse_digits 0 s) [ none ↦ none | some n ↦ if ltb n 256 then some n else none ]

unfoldable pub address_of : Option ℕ → Option ℕ → Option ℕ → Option ℕ → Option ℕ
address_of (some a) (some b) (some c) (some d) =
    some (a * 0x100_0000 + (b * 0x1_0000 + (c * 0x100 + d)))
address_of _ _ _ _ = none

unfoldable pub parse_parts : List Text → Option ℕ
unfolding parse_octet address_of
parse_parts (a ∷ b ∷ c ∷ d ∷ []) =
    address_of (parse_octet a) (parse_octet b) (parse_octet c) (parse_octet d)
parse_parts _ = none

unfoldable pub parse_address : Text → Option ℕ
unfolding parse_parts split
parse_address s = parse_parts (split (λ c. c == b'.') s)

abbrev is_some_of : ℕ → Option ℕ → Bool
is_some_of n none = false
is_some_of n (some m) = m == n

abbrev below : ℕ → (ℕ → Bool) → Bool
below zero p = true
below (suc n) p = p n && below n p

below_elim : (k : ℕ) (p : ℕ → Bool) → below k p ≡ true → (n : ℕ) → n < k → p n ≡ true
below_elim zero p h n l = absurd (omega arith)
below_elim (suc k) p h n l =
    let (hk, hr) = and_parts (p k) (below k p) h in
    elim (ℕ_discrete n k) [ yes e ↦ ap p e ∙ hk | no e ↦ below_elim k p hr n (omega arith) ]

all_octets : below 256 (λ n. is_some_of n (parse_octet (decimal n))) ≡ true
unfolding parse_octet decimal parse_digits
all_octets = refl

is_some_of_iff : (n : ℕ) (o : Option ℕ) → is_some_of n o ≡ true → o ≡ some n
is_some_of_iff n none h = cc h
is_some_of_iff n (some m) h = ap some (ground arith)

parse_octet-decimal : (n : ℕ) → n < 256 → parse_octet (decimal n) ≡ some n
parse_octet-decimal n h =
    is_some_of_iff n (parse_octet (decimal n))
      (below_elim 256 (λ m. is_some_of m (parse_octet (decimal m))) all_octets n h)

decimal-lacks : (n : ℕ) → lacks b'.' (decimal n) ≡ true
unfolding all_of
decimal-lacks n =
    all_of-weaken is_digit (λ c. not (c == b'.')) (λ c h. ground arith) (decimal n)
      (decimal_digits n)

all_lack : (ns : List ℕ) → all_of (lacks b'.') (map decimal ns) ≡ true
unfolding all_of
all_lack [] = refl
all_lack (n ∷ ns) =
    and_both (lacks b'.' (decimal n)) (all_of (lacks b'.') (map decimal ns)) (decimal-lacks n)
      (all_lack ns)

pub parse_address-address_text :
    (a : ℕ) → a < 0x1_0000_0000 → parse_address (address_text a) ≡ some a
unfolding parse_address address_text all_of parse_parts
parse_address-address_text a h =
    let parts =
      split-join b'.' (decimal (a / 0x100_0000))
        (decimal (a / 0x1_0000 % 0x100) ∷ decimal (a / 0x100 % 0x100) ∷ decimal (a % 0x100) ∷ [])
        (decimal-lacks (a / 0x100_0000))
        (all_lack (a / 0x1_0000 % 0x100 ∷ a / 0x100 % 0x100 ∷ a % 0x100 ∷ [])) in
    rw
      (
        parts,
        parse_octet-decimal (a / 0x100_0000) (omega arith),
        parse_octet-decimal (a / 0x1_0000 % 0x100) (omega arith),
        parse_octet-decimal (a / 0x100 % 0x100) (omega arith),
        parse_octet-decimal (a % 0x100) (omega arith),
        parse_address,
        parse_parts,
        address_of,
      )
      (ap some (omega arith))

-- A digit, or the point between the numbers of an address.
abbrev pub is_address_byte : ℕ → Bool
is_address_byte c = is_digit c || c == b'.'

numeric : (n : ℕ) → all_of is_address_byte (decimal n) ≡ true
numeric n =
    all_of-weaken is_digit is_address_byte (λ c h. ground arith) (decimal n) (decimal_digits n)

dotted :
    (n : ℕ) (s : Text)
    → all_of is_address_byte s ≡ true
    → all_of is_address_byte (decimal n ++ b'.' ∷ s) ≡ true
unfolding all_of
dotted n s h = all_of-append is_address_byte (decimal n) (b'.' ∷ s) (numeric n) h

pub address_text_bytes : (a : ℕ) → all_of is_address_byte (address_text a) ≡ true
unfolding address_text join
address_text_bytes a =
    dotted (a / 0x100_0000) _
      (dotted (a / 0x1_0000 % 0x100) _ (dotted (a / 0x100 % 0x100) _ (numeric (a % 0x100))))

pub append_filled : (s t : Text) → is_empty s ≡ false → is_empty (s ++ t) ≡ false
append_filled [] t h = cc h
append_filled (c ∷ s) t h = refl

pub address_text_filled : (a : ℕ) → is_empty (address_text a) ≡ false
unfolding address_text join
address_text_filled a = append_filled (decimal (a / 0x100_0000)) _ (decimal_filled (a / 0x100_0000))
