-- ===== src/Tests/Formats.antt =====
-- Formats that are sound: a number for a uuid, an address and a length for a route, and base64 that changes
-- nothing.
use mathlib.Core.Path.{◌≡◌, refl, ap, ◌∙◌}
use snx_rs.Prelude.{
  ℕ, ◌^◌, ◌<◌, ◌≤◌, ◌/◌, ◌%◌, ◌+◌, ltb, Bool-cases, inl, inr, true, false, not, Option, none, some,
  List, [], ◌∷◌, ◌++◌, arith, ◌==◌,
}
use snx_rs.Prelude.Result.{ok}
use snx_rs.Prelude.Text.{Text, is_digit, is_empty, split, parse_digits, parse_below}
use snx_rs.Prelude.Parts.{all_of, lacks, all_of-append, all_of-weaken, split-part, split-last}
use snx_rs.Prelude.Decimal.{
  decimal, digits_onto, decimal_digits, digits_onto-filled, parse_digits-digits_onto,
  parse_below-decimal,
}
use snx_rs.Prelude.Ipv4.{
  address_text, parse_address, parse_address-address_text, address_text_bytes, address_text_filled,
  is_address_byte, append_filled,
}
use snx_rs.Config.Formats.{Formats}
use snx_rs.Config.Fields.{IsSound}

net_of : Option ℕ → Option ℕ → Option (ℕ × ℕ)
net_of (some a) (some l) = some (a, l)
net_of _ _ = none

net_in : List Text → Option (ℕ × ℕ)
unfolding net_of
net_in (a ∷ l ∷ []) = net_of (parse_address a) (parse_below 33 l)
net_in _ = none

unfoldable pub read_net : Text → Option (ℕ × ℕ)
unfolding net_in split
read_net s = net_in (split (λ c. c == b'/') s)

unfoldable pub show_net : ℕ × ℕ → Text
unfolding address_text decimal
show_net (a, l) = address_text a ++ b'/' ∷ decimal l

unfoldable pub show_uuid : ℕ → Text
unfolding digits_onto
show_uuid u = digits_onto 40 u []

unfoldable pub read_uuid : Text → Option ℕ
unfolding parse_digits
read_uuid s = parse_digits 0 s

abbrev pub formats : Formats
formats = record {
  uuid_text = show_uuid;
  parse_uuid = read_uuid;
  net_text = show_net;
  parse_net = read_net;
  base64_encode = λ b. b;
  base64_decode = λ s. ok s;
  from_utf8_lossy = λ b. b;
}

address_slash : (a : ℕ) → lacks b'/' (address_text a) ≡ true
address_slash a =
    all_of-weaken is_address_byte (λ c. not (c == b'/')) (λ c h. ground arith) (address_text a)
      (address_text_bytes a)

length_slash : (l : ℕ) → lacks b'/' (decimal l) ≡ true
length_slash l =
    all_of-weaken is_digit (λ c. not (c == b'/')) (λ c h. ground arith) (decimal l)
      (decimal_digits l)

read_net-show_net : (a l : ℕ) → a < 2 ^ 32 → l ≤ 32 → read_net (show_net (a, l)) ≡ some (a, l)
unfolding read_net show_net net_in net_of
read_net-show_net a l ha hl =
    ap net_in (
      split-part b'/' (address_text a) (decimal l) (address_slash a)
      ∙ ap (λ t. address_text a ∷ t) (split-last b'/' (decimal l) (length_slash l)))
    ∙ (λ i.
        net_of (parse_address-address_text a (omega arith) i)
          (parse_below-decimal 33 l (omega arith) (omega arith) i))

read_net-address_text : (a : ℕ) → read_net (address_text a) ≡ none
unfolding read_net net_in
read_net-address_text a = ap net_in (split-last b'/' (address_text a) (address_slash a))

show_net-lacks : (net : ℕ × ℕ) → lacks b',' (show_net net) ≡ true
unfolding show_net all_of
show_net-lacks (a, l) =
    all_of-append (λ c. not (c == b',')) (address_text a) (b'/' ∷ decimal l)
      (all_of-weaken is_address_byte (λ c. not (c == b',')) (λ c h. ground arith) (address_text a)
        (address_text_bytes a))
      (all_of-weaken is_digit (λ c. not (c == b',')) (λ c h. ground arith) (decimal l)
        (decimal_digits l))

digits_filled : (n : ℕ) → is_empty (show_uuid n) ≡ false
unfolding show_uuid digits_onto
digits_filled n = elim (Bool-cases (ltb n 10)) [
  | inl small ↦ rw (small) refl
  | inr large ↦ rw (large) (digits_onto-filled 39 (n / 10) (48 + n % 10) [])
]

read_uuid-show_uuid : (u : ℕ) → u < 2 ^ 128 → read_uuid (show_uuid u) ≡ some u
unfolding read_uuid show_uuid parse_digits
read_uuid-show_uuid u h = parse_digits-digits_onto 40 u [] (omega arith)

show_net_filled : (net : ℕ × ℕ) → is_empty (show_net net) ≡ false
unfolding show_net
show_net_filled (a, l) = append_filled (address_text a) (b'/' ∷ decimal l) (address_text_filled a)

pub formats-IsSound : IsSound formats
formats-IsSound = record {
  parse_uuid-uuid_text = read_uuid-show_uuid;
  uuid_filled = digits_filled;
  parse_net-net_text = read_net-show_net;
  parse_net-address_text = λ a h. read_net-address_text a;
  net_text_lacks = show_net-lacks;
  net_filled = show_net_filled;
  decode-encode = λ b. refl;
  encode_empty = refl;
}
