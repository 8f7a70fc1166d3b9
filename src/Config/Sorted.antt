-- ===== src/Config/Sorted.antt =====
-- The order file is read back, and the order of profiles is the same from both sides.
use snx_rs.Prelude.{
  ℕ, ◌^◌, ◌<◌, Bool, true, false, not, ◌&&◌, Option, none, some, List, [], ◌∷◌, ◌≡◌, refl, ap, ◌∙◌,
  arith, ltb, ◌==◌, Bool-cases, inl, inr,
}
use snx_rs.Prelude.Result.{ok}
use snx_rs.Prelude.Text.{Text, is_white, trim}
use snx_rs.Prelude.Parts.{all_of, and_parts}
use snx_rs.Model.Params.{TunnelParams, default_profile_uuid}
use snx_rs.Config.{lines}
use snx_rs.Config.Written.{is_plain, lines-line}
use snx_rs.Config.Formats.{Formats}
use snx_rs.Config.Options.{parse_all}
use snx_rs.Config.Fields.{IsSound, trim-solid}
use snx_rs.Config.Order.{
  Ordering, less, equal, greater, compare_numbers, compare_texts, position, compare_unknown,
  compare_at, compare_profiles, load_profile_order, order_text,
}

solid_plain : (s : Text) → all_of (λ c. not (is_white c)) s ≡ true → is_plain 10 s ≡ true
unfolding all_of is_plain
solid_plain [] h = refl
solid_plain (c ∷ s) h = ground (arith, solid_plain s)

abbrev pub is_uuid : ℕ → Bool
is_uuid u = ltb u (2 ^ 128)

-- The identifiers that were written to the order file are read back in their order. They have 128
-- bits, and uuid must read back what it writes, with no white space in it.
pub load_profile_order-order_text :
    (formats : Formats) (order : List ℕ)
    → IsSound formats
    → ((u : ℕ) → u < 2 ^ 128 → all_of (λ c. not (is_white c)) (formats.uuid_text u) ≡ true)
    → all_of is_uuid order ≡ true
    → load_profile_order formats (ok (order_text formats order)) ≡ order
unfolding load_profile_order order_text all_of parse_all lines
load_profile_order-order_text formats [] sound solid h = refl
load_profile_order-order_text formats (u ∷ order) sound solid h =
    let (hu, hr) = and_parts (is_uuid u) (all_of is_uuid order) h in
    let small : u < 2 ^ 128 = ground arith in
    ap (parse_all (λ l. formats.parse_uuid (trim l))) (
      lines-line (formats.uuid_text u) (order_text formats order)
        (solid_plain (formats.uuid_text u) (solid u small)))
    ∙ rw
        (
          ap formats.parse_uuid (trim-solid (formats.uuid_text u) (solid u small))
              ∙ sound.parse_uuid-uuid_text u small,
          parse_all,
        )
        (ap (λ t. u ∷ t) (load_profile_order-order_text formats order sound solid hr))

unfoldable pub reverse : Ordering → Ordering
reverse less = greater
reverse equal = equal
reverse greater = less

numbers-reverse : (x y : ℕ) → compare_numbers y x ≡ reverse (compare_numbers x y)
unfolding compare_numbers reverse
numbers-reverse x y = ground arith

texts-reverse : (s t : Text) → compare_texts t s ≡ reverse (compare_texts s t)
unfolding compare_texts reverse
texts-reverse [] [] = refl
texts-reverse [] (d ∷ t) = refl
texts-reverse (c ∷ s) [] = refl
texts-reverse (c ∷ s) (d ∷ t) = ground (arith, texts-reverse s t)

unknown-reverse :
    (a b : TunnelParams)
    → (a.profile_id == default_profile_uuid && b.profile_id == default_profile_uuid) ≡ false
    → compare_unknown b a ≡ reverse (compare_unknown a b)
unfolding compare_unknown reverse
unknown-reverse a b h = elim (Bool-cases (a.profile_id == default_profile_uuid)) [
  | inl e ↦ elim (Bool-cases (b.profile_id == default_profile_uuid)) [
    | inl f ↦ cc (rw (e, f) at h)
    | inr f ↦ rw (e, f, compare_unknown) refl
  ]
  | inr e ↦ elim (Bool-cases (b.profile_id == default_profile_uuid)) [
    | inl f ↦ rw (e, f, compare_unknown) refl
    | inr f ↦ rw (e, f, compare_unknown) (texts-reverse a.profile_name b.profile_name)
  ]
]

at-reverse :
    (x y : Option ℕ) (a b : TunnelParams)
    → (a.profile_id == default_profile_uuid && b.profile_id == default_profile_uuid) ≡ false
    → compare_at y x b a ≡ reverse (compare_at x y a b)
unfolding compare_at reverse
at-reverse (some x) (some y) a b h = numbers-reverse x y
at-reverse (some x) none a b h = refl
at-reverse none (some y) a b h = refl
at-reverse none none a b h = unknown-reverse a b h

-- Two profiles compare the same from both sides, unless both have the identifier of the default
-- profile.
pub compare_profiles-reverse :
    (order : List ℕ) (a b : TunnelParams)
    → (a.profile_id == default_profile_uuid && b.profile_id == default_profile_uuid) ≡ false
    → compare_profiles order b a ≡ reverse (compare_profiles order a b)
unfolding compare_profiles
compare_profiles-reverse order a b h =
    at-reverse (position a.profile_id order) (position b.profile_id order) a b h
