-- ===== src/Sexpr/Paths.antt =====
-- What a path finds in an expression.
use snx_rs.Prelude.{
  ℕ, zero, suc, ◌^◌, true, false, none, some, List, [], ◌∷◌, Option-cases, Bool-cases, inl, inr,
  ◌≡◌, refl, ◌↔◌,
}
use mathlib.Core.Path.{subst}
use mathlib.Core.Option.{some-injective}
use snx_rs.Prelude.Text.{Text, text_eq, parse_below}
use snx_rs.Sexpr.{
  SExpression, null, value, object, array, Items, no_items, item, Fields, no_fields, field,
  field_named, item_at, get_for_parts,
}

-- The item at an index, counted from 0.
pub data ItemAt : ℕ → Items → SExpression → Type 0 where
  head : (e : SExpression) (es : Items) → ItemAt 0 (item e es) e
  tail : (i : ℕ) (e v : SExpression) (es : Items) → ItemAt i es v → ItemAt (suc i) (item e es) v

-- The first field of a name.
pub data FieldOf (name : Text) : Fields → SExpression → Type 0 where
  first :
      (k : Text) (v : SExpression) (fs : Fields)
      → text_eq k name ≡ true
      → FieldOf name (field k v fs) v
  later :
      (k : Text) (u v : SExpression) (fs : Fields)
      → text_eq k name ≡ false
      → FieldOf name fs v
      → FieldOf name (field k u fs) v

-- A path finds `v` in an expression: at its end the expression itself; an empty part is passed
-- over; a part names a field of an object without a name; the name of an object and the next part
-- name a field of an object that has one; and a part that is a number is the index of an item.
pub data Finds : List Text → SExpression → SExpression → Type 0 where
  found : (e : SExpression) → Finds [] e e
  passed : (ps : List Text) (e v : SExpression) → Finds ps e v → Finds ([] ∷ ps) e v
  of_unnamed :
      (c : ℕ) (cs : Text) (ps : List Text) (members : Fields) (f v : SExpression)
      → FieldOf (c ∷ cs) members f
      → Finds ps f v
      → Finds ((c ∷ cs) ∷ ps) (object none members) v
  of_named :
      (c : ℕ) (cs n name : Text) (ps : List Text) (members : Fields) (f v : SExpression)
      → text_eq n (c ∷ cs) ≡ true
      → FieldOf name members f
      → Finds ps f v
      → Finds ((c ∷ cs) ∷ name ∷ ps) (object (some n) members) v
  of_array :
      (c : ℕ) (cs : Text) (ps : List Text) (i : ℕ) (items : Items) (f v : SExpression)
      → parse_below (2 ^ 64) (c ∷ cs) ≡ some i
      → ItemAt i items f
      → Finds ps f v
      → Finds ((c ∷ cs) ∷ ps) (array items) v

item_at-ItemAt : (i : ℕ) (es : Items) (v : SExpression) → ItemAt i es v → item_at i es ≡ some v
unfolding item_at
item_at-ItemAt _ _ _ (head e es) = refl
item_at-ItemAt _ _ v (tail i e _ es at) = item_at-ItemAt i es v at

ItemAt-item_at : (i : ℕ) (es : Items) (v : SExpression) → item_at i es ≡ some v → ItemAt i es v
unfolding item_at
ItemAt-item_at i no_items v h = cc h
ItemAt-item_at zero (item e es) v h =
    subst (ItemAt 0 (item e es)) (some-injective _ _ h) (head e es)
ItemAt-item_at (suc i) (item e es) v h = tail i e v es (ItemAt-item_at i es v h)

field_named-FieldOf :
    (name : Text) (fs : Fields) (v : SExpression) → FieldOf name fs v → field_named name fs ≡ some v
unfolding field_named
field_named-FieldOf name _ v (first k _ fs same) = rw (same, field_named) refl
field_named-FieldOf name _ v (later k u _ fs other rest) =
    rw (other, field_named) (field_named-FieldOf name fs v rest)

FieldOf-field_named :
    (name : Text) (fs : Fields) (v : SExpression) → field_named name fs ≡ some v → FieldOf name fs v
unfolding field_named
FieldOf-field_named name no_fields v h = cc h
FieldOf-field_named name (field k u fs) v h = elim (Bool-cases (text_eq k name)) [
  | inl same ↦
      subst (FieldOf name (field k u fs)) (some-injective _ _ (rw (same, field_named) at h))
        (first k u fs same)
  | inr other ↦ later k u v fs other (FieldOf-field_named name fs v (rw (other, field_named) at h))
]

get_for_parts-Finds :
    (ps : List Text) (e v : SExpression) → Finds ps e v → get_for_parts ps e ≡ some v
unfolding get_for_parts
get_for_parts-Finds _ e _ (found _) = refl
get_for_parts-Finds _ e v (passed ps _ _ rest) = get_for_parts-Finds ps e v rest
get_for_parts-Finds _ _ v (of_unnamed c cs ps members f _ at rest) =
    rw (field_named-FieldOf (c ∷ cs) members f at, get_for_parts) (get_for_parts-Finds ps f v rest)
get_for_parts-Finds _ _ v (of_named c cs n name ps members f _ same at rest) =
    rw (same, field_named-FieldOf name members f at, get_for_parts)
      (get_for_parts-Finds ps f v rest)
get_for_parts-Finds _ _ v (of_array c cs ps i items f _ index at rest) =
    rw (index, item_at-ItemAt i items f at, get_for_parts) (get_for_parts-Finds ps f v rest)

Finds-get_for_parts :
    (ps : List Text) (e v : SExpression) → get_for_parts ps e ≡ some v → Finds ps e v
unfolding get_for_parts
Finds-get_for_parts [] e v h = subst (Finds [] e) (some-injective _ _ h) (found e)
Finds-get_for_parts ([] ∷ ps) e v h = passed ps e v (Finds-get_for_parts ps e v h)
Finds-get_for_parts ((c ∷ cs) ∷ ps) (object none members) v h =
    elim (Option-cases (field_named (c ∷ cs) members)) [
      | inl e ↦ cc (rw (e, get_for_parts) at h)
      | inr (f, e) ↦
          of_unnamed c cs ps members f v (FieldOf-field_named (c ∷ cs) members f e)
            (Finds-get_for_parts ps f v (rw (e, get_for_parts) at h))
    ]
Finds-get_for_parts ((c ∷ cs) ∷ []) (object (some n) members) v h = cc h
Finds-get_for_parts ((c ∷ cs) ∷ name ∷ ps) (object (some n) members) v h =
    elim (Bool-cases (text_eq n (c ∷ cs))) [
      | inl named ↦ elim (Option-cases (field_named name members)) [
        | inl e ↦ cc (rw (named, e, get_for_parts) at h)
        | inr (f, e) ↦
            of_named c cs n name ps members f v named (FieldOf-field_named name members f e)
              (Finds-get_for_parts ps f v (rw (named, e, get_for_parts) at h))
      ]
      | inr other ↦ cc (rw (other, get_for_parts) at h)
    ]
Finds-get_for_parts ((c ∷ cs) ∷ ps) (array items) v h =
    elim (Option-cases (parse_below (2 ^ 64) (c ∷ cs))) [
      | inl e ↦ cc (rw (e, get_for_parts) at h)
      | inr (i, e) ↦ elim (Option-cases (item_at i items)) [
        | inl e' ↦ cc (rw (e, e', get_for_parts) at h)
        | inr (f, e') ↦
            of_array c cs ps i items f v e (ItemAt-item_at i items f e')
              (Finds-get_for_parts ps f v (rw (e, e', get_for_parts) at h))
      ]
    ]
Finds-get_for_parts ((c ∷ cs) ∷ ps) null v h = cc h
Finds-get_for_parts ((c ∷ cs) ∷ ps) (value x) v h = cc h

-- A path gives an expression exactly if it finds it: empty parts are passed over, a part names a
-- field of an object without a name, the name of an object and the part behind it name a field of
-- an object that has one, a part that is a number is the index of an item, and the end of the path
-- is reached.
pub get_for_parts-Finds_iff :
    (ps : List Text) (e v : SExpression) → (get_for_parts ps e ≡ some v) ↔ Finds ps e v
get_for_parts-Finds_iff ps e v = (Finds-get_for_parts ps e v, get_for_parts-Finds ps e v)
