-- ===== src/Ipsec/Attributes.antt =====
-- What the connector reads from the attributes of a reply.
use snx_rs.Prelude.{
  ℕ, not, ◌&&◌, Option, none, some, List, [], ◌∷◌, length, take, ltb, ◌==◌, if◌then◌else◌,
}
use snx_rs.Prelude.Result.{Result, ok, err}
use snx_rs.Slim.{Bytes, from_be_bytes}
use snx_rs.Ipsec.{Attribute, AttributesPayload, Codes}

-- The first attribute that is none of three; `Other(0)` has the number 0.
unfoldable pub challenge_attribute_in : Codes → List Attribute → ℕ
challenge_attribute_in codes [] = 0
challenge_attribute_in codes (a ∷ rest) =
    let attr = a.attribute_type in
    let further = challenge_attribute_in codes rest in
    if not (attr == codes.auth_type)
      && (not (attr == codes.challenge) && not (attr == codes.status))
    then attr
    else further

unfoldable pub get_challenge_attribute_type : Codes → AttributesPayload → ℕ
unfolding challenge_attribute_in
get_challenge_attribute_type codes payload = challenge_attribute_in codes payload.attributes

abbrev long_of : Attribute → ℕ → Option Bytes
long_of a attr = if a.attribute_type == attr then a.as_long else none

unfoldable pub long_attributes_in : List Attribute → ℕ → List Bytes
long_attributes_in [] attr = []
long_attributes_in (a ∷ rest) attr =
    let further = long_attributes_in rest attr in
    elim (long_of a attr) [ none ↦ further | some b ↦ b ∷ further ]

unfoldable pub get_long_attributes : AttributesPayload → ℕ → List Bytes
unfolding long_attributes_in
get_long_attributes payload attr = long_attributes_in payload.attributes attr

abbrev first : List Bytes → Option Bytes
first [] = none
first (b ∷ rest) = some b

unfoldable pub get_long_attribute : AttributesPayload → ℕ → Option Bytes
unfolding get_long_attributes
get_long_attribute payload attr = first (get_long_attributes payload attr)

unfoldable pub short_attribute_in : List Attribute → ℕ → Option ℕ
short_attribute_in [] attr = none
short_attribute_in (a ∷ rest) attr =
    let further = short_attribute_in rest attr in
    if a.attribute_type == attr
    then elim a.as_short [ none ↦ further | some v ↦ some v ]
    else further

unfoldable pub get_short_attribute : AttributesPayload → ℕ → Option ℕ
unfolding short_attribute_in
get_short_attribute payload attr = short_attribute_in payload.attributes attr

-- `reader().read_u32::<BigEndian>()`: the first four bytes, if there are so many.
unfoldable pub read_u32 : Bytes → Result ℕ
unfolding from_be_bytes
read_u32 b =
    if ltb (length b) 4 then err "failed to fill whole buffer" else ok (from_be_bytes (take 4 b))

-- A lifetime is a long attribute of exactly four bytes; any other is passed over.
unfoldable pub life_duration : Codes → List Attribute → Option ℕ
unfolding from_be_bytes
life_duration codes [] = none
life_duration codes (a ∷ rest) =
    let further = life_duration codes rest in
    if a.attribute_type == codes.life_duration
    then elim a.as_long [
      | none ↦ further
      | some b ↦ if length b == 4 then some (from_be_bytes b) else further
    ]
    else further
