-- ===== src/Config/Fields.antt =====
-- Each kind of option is read back from what is written for it.
use snx_rs.Prelude.{
  ℕ, ◌^◌, ◌<◌, ◌≤◌, Bool, true, false, not, ◌&&◌, ◌||◌, Option, none, some, List, [], ◌∷◌, map, ◌≡◌,
  refl, ap, ◌∙◌, sym, inl, inr, arith, ltb, leb, ◌==◌, Bool-cases, if◌then◌else◌,
}
use snx_rs.Prelude.Text.{
  Text, is_digit, is_empty, is_white, text_eq, trim, trim_start, trim_end, trim_matches,
  parse_below,
}
use snx_rs.Prelude.Parts.{all_of, lacks, all_of-weaken}
use snx_rs.Prelude.Decimal.{decimal, decimal_digits, decimal_filled, parse_below-decimal}
use snx_rs.Prelude.Ipv4.{address_text}
use snx_rs.Config.Formats.{Formats}
use snx_rs.Config.Options
use snx_rs.Config.Options.{parse_all, parse_ipv4_or_subnet, ipv4net_to_string}
use snx_rs.Config.Save.{flag_text, lease_text}
use snx_rs.Config.Dictionary.{read_or}

-- An empty value leaves what was there.
unfoldable pub kept : Option Text → Option Text → Option Text
kept none other = other
kept (some []) other = other
kept (some (c ∷ v)) other = some (c ∷ v)

-- What the crates' formats promise: what they write is read back, and no route has a comma.
pub record IsSound (formats : Formats) : Type 0 where
  pub parse_uuid-uuid_text :
      (u : ℕ) → u < 2 ^ 128 → formats.parse_uuid (formats.uuid_text u) ≡ some u
  pub uuid_filled : (u : ℕ) → is_empty (formats.uuid_text u) ≡ false
  pub parse_net-net_text :
      (a l : ℕ) → a < 2 ^ 32 → l ≤ 32 → formats.parse_net (formats.net_text (a, l)) ≡ some (a, l)
  pub parse_net-address_text : (a : ℕ) → a < 2 ^ 32 → formats.parse_net (address_text a) ≡ none
  pub net_text_lacks : (net : ℕ × ℕ) → lacks b',' (formats.net_text net) ≡ true
  pub net_filled : (net : ℕ × ℕ) → is_empty (formats.net_text net) ≡ false
  pub decode-encode :
      (b : Text) → formats.base64_decode (formats.base64_encode b) ≡ snx_rs.Prelude.Result.ok b
  pub encode_empty : formats.base64_encode [] ≡ []

pub read_filled :
    {A : Type 0} (read : Text → A) (other : A) (v : Text)
    → is_empty v ≡ false
    → read_or read other (kept (some v) none) ≡ read v
unfolding read_or kept
read_filled read other [] h = cc h
read_filled read other (c ∷ v) h = refl

pub text_field :
    (other v : Text) → is_empty v ≡ false → read_or (λ t. t) other (kept (some v) none) ≡ v
text_field other v h = read_filled (λ t. t) other v h

pub blank_field : (v : Text) → read_or (λ t. t) [] (kept (some v) none) ≡ v
unfolding read_or kept
blank_field [] = refl
blank_field (c ∷ v) = refl

abbrev pub is_filled_or_none : Option Text → Bool
is_filled_or_none none = true
is_filled_or_none (some v) = not (is_empty v)

pub option_field :
    (o : Option Text) → is_filled_or_none o ≡ true → read_or (λ v. some v) none (kept o none) ≡ o
unfolding read_or kept
option_field none h = refl
option_field (some []) h = cc h
option_field (some (c ∷ v)) h = refl

pub flag_field : (b : Bool) → read_or Options.flag false (kept (some (flag_text b)) none) ≡ b
unfolding read_or kept flag_text Options.flag text_eq
flag_field true = refl
flag_field false = refl

pub uuid_field :
    (formats : Formats)
    → IsSound formats
    → (other u : ℕ) → u < 2 ^ 128
    → read_or (Options.uuid formats) other (kept (some (formats.uuid_text u)) none) ≡ u
unfolding Options.uuid Options.unwrap_or
uuid_field formats sound other u h =
    read_filled (Options.uuid formats) other (formats.uuid_text u) (sound.uuid_filled u)
    ∙ ap (Options.unwrap_or 0) (sound.parse_uuid-uuid_text u h)

-- The numbers that are below a bound of at most 64 bits.
number_field :
    (missing other bound n : ℕ)
    → n < bound
    → bound ≤ 2 ^ 64
    → read_or
        (λ v. Options.unwrap_or missing (parse_below bound v))
        other
        (kept (some (decimal n)) none)
      ≡ n
unfolding Options.unwrap_or
number_field missing other bound n h within =
    read_filled (λ v. Options.unwrap_or missing (parse_below bound v)) other (decimal n)
      (decimal_filled n)
    ∙ ap (Options.unwrap_or missing) (parse_below-decimal bound n h (omega arith))

pub factor_field :
    (other n : ℕ) → n < 2 ^ 64 → read_or Options.factor other (kept (some (decimal n)) none) ≡ n
unfolding Options.factor
factor_field other n h = number_field 1 other (2 ^ 64) n h (omega arith)

pub lifetime_field :
    (other n : ℕ) → n < 2 ^ 64 → read_or Options.lifetime other (kept (some (decimal n)) none) ≡ n
unfolding Options.lifetime
lifetime_field other n h = number_field _ other (2 ^ 64) n h (omega arith)

pub mtu_field :
    (other n : ℕ) → n < 2 ^ 16 → read_or Options.mtu other (kept (some (decimal n)) none) ≡ n
unfolding Options.mtu
mtu_field other n h = number_field _ other (2 ^ 16) n h (omega arith)

trim_start-solid : (s : Text) → all_of (λ c. not (is_white c)) s ≡ true → trim_start is_white s ≡ s
unfolding trim_start all_of
trim_start-solid [] h = refl
trim_start-solid (c ∷ s) h = ground arith

trim_end-solid : (s : Text) → all_of (λ c. not (is_white c)) s ≡ true → trim_end is_white s ≡ s
unfolding trim_end all_of
trim_end-solid [] h = refl
trim_end-solid (c ∷ s) h = ground (arith, trim_end-solid s)

pub trim-solid : (s : Text) → all_of (λ c. not (is_white c)) s ≡ true → trim s ≡ s
unfolding trim trim_matches
trim-solid s h = ap (trim_end is_white) (trim_start-solid s h) ∙ trim_end-solid s h

abbrev pub is_below_or_none : ℕ → Option ℕ → Bool
is_below_or_none bound none = true
is_below_or_none bound (some n) = ltb n bound

pub lease_field :
    (o : Option ℕ)
    → is_below_or_none (2 ^ 64) o ≡ true
    → read_or Options.lease none (kept (some (lease_text o)) none) ≡ o
unfolding read_or kept lease_text Options.lease
lease_field none h = refl
lease_field (some n) h =
    let whole = trim-solid (decimal n) (
      all_of-weaken is_digit (λ c. not (is_white c)) (λ c d. ground arith) (decimal n)
        (decimal_digits n)) in
    let small : n < 2 ^ 64 = ground arith in
    read_filled Options.lease none (decimal n) (decimal_filled n)
    ∙ rw (whole, decimal_filled n, Options.lease)
        (parse_below-decimal (2 ^ 64) n small (omega arith))
