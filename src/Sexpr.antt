-- ===== src/Sexpr.antt =====
-- crates/snxcore/src/sexpr.rs: S-expressions of the gateway protocol, and lookup by path.
-- A `BTreeMap` is its entries in the order of their keys; `Fields` and `Items` are the lists inside
-- an object and an array.
pub mod Paths
pub mod Print
pub mod Tree
pub mod RoundTrip
use snx_rs.Prelude.{
  ℕ, zero, suc, ◌^◌, Bool, true, false, Option, none, some, List, [], ◌∷◌, if◌then◌else◌,
}
use snx_rs.Prelude.Text.{Text, text_eq, text_lt, split, parse_below}
use snx_rs.Prelude.{◌==◌}

mutual
  pub data SExpression : Type 0 where
    null : SExpression
    value : Text → SExpression
    object : Option Text → Fields → SExpression
    array : Items → SExpression

  pub data Items : Type 0 where
    no_items : Items
    item : SExpression → Items → Items

  pub data Fields : Type 0 where
    no_fields : Fields
    field : Text → SExpression → Fields → Fields

unfoldable pub object_name : SExpression → Option Text
object_name (object n _) = n
object_name _ = none

-- `BTreeMap::insert`: a key that is there takes the new value.
unfoldable pub insert : Text → SExpression → Fields → Fields
insert k v no_fields = field k v no_fields
insert k v (field j w fs) =
    let rest = insert k v fs in
    if text_eq k j
    then field k v fs
    else if text_lt k j
    then field k v (field j w fs)
    else field j w rest

-- The search over the fields of an object.
unfoldable pub field_named : Text → Fields → Option SExpression
field_named name no_fields = none
field_named name (field f_name f_value fs) =
    if text_eq f_name name then some f_value else field_named name fs

-- `items.get(index)`
unfoldable pub item_at : ℕ → Items → Option SExpression
item_at i no_items = none
item_at zero (item e es) = some e
item_at (suc i) (item e es) = item_at i es

-- Each call takes at least one part off the path.
unfoldable pub get_for_parts : List Text → SExpression → Option SExpression
unfolding field_named item_at
get_for_parts [] e = some e
get_for_parts ([] ∷ iter) e = get_for_parts iter e
get_for_parts ((c ∷ cs) ∷ iter) (object none members) = elim (field_named (c ∷ cs) members) [
  | none ↦ none
  | some f ↦ get_for_parts iter f
]
get_for_parts ((c ∷ cs) ∷ []) (object (some n) members) = none
get_for_parts ((c ∷ cs) ∷ name ∷ iter) (object (some n) members) = elim (text_eq n (c ∷ cs)) [
  | true ↦ elim (field_named name members) [ none ↦ none | some f ↦ get_for_parts iter f ]
  | false ↦ none
]
get_for_parts ((c ∷ cs) ∷ iter) (array items) = elim (parse_below (2 ^ 64) (c ∷ cs)) [
  | none ↦ none
  | some index ↦ elim (item_at index items) [ none ↦ none | some f ↦ get_for_parts iter f ]
]
get_for_parts ((c ∷ cs) ∷ iter) null = none
get_for_parts ((c ∷ cs) ∷ iter) (value v) = none

unfoldable pub get : SExpression → Text → Option SExpression
unfolding get_for_parts
get e path = get_for_parts (split (λ c. c == b':') path) e

-- `get_value::<String>`, whose `parse` never fails.
unfoldable pub get_value : SExpression → Text → Option Text
unfolding get
get_value e path = elim (get e path) [ some (value v) ↦ some v | _ ↦ none ]
