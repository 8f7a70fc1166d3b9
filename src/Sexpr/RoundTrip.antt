-- ===== src/Sexpr/RoundTrip.antt =====
-- The tree of pairs that sexpr.pest gives to a printed expression is read back as the expression.
use snx_rs.Prelude.{
  ◌≡◌, Bool, true, false, not, Option, none, some, [], ◌∷◌, ◌++◌, ◌&&◌, ◌||◌, ◌==◌, any,
  if◌then◌else◌,
}
use snx_rs.Prelude.Result.{ok}
use snx_rs.Prelude.Text.{Text, text_lt, is_empty}
use snx_rs.Sexpr.{
  SExpression, null, value, object, array, Items, no_items, item, Fields, no_fields, field,
}
use snx_rs.Sexpr.Print.{needs_quotes}
use snx_rs.Sexpr.Tree.{
  pair, Pairs, no_pairs, more, obj, arr, val, ident, fld, field_name, elem, simple_val, quoted_str,
  inner, char, parse_sexpr, parse_obj, parse_array,
}

-- The key comes before all keys of the list.
unfoldable pub all_after : Text → Fields → Bool
all_after k no_fields = true
all_after k (field j w fs) = text_lt k j && all_after k fs

-- A name by the rule `ident`.
unfoldable pub is_ident : Text → Bool
unfolding needs_quotes
is_ident n = not (is_empty n) && not (needs_quotes n)

unfoldable pub has_ident : Option Text → Bool
unfolding is_ident
has_ident none = true
has_ident (some n) = is_ident n

-- The printer escapes nothing: in a value there is no quotation mark and no backslash.
unfoldable pub has_escapes : Text → Bool
has_escapes v = any (λ c. c == b'"' || c == 92) v

-- What is printed such that the grammar tells it apart: no null, since `()` is an empty value; an
-- object with fields, in the order of their keys; an array with items; names that are names.
unfoldable mutual
  unfolding all_after is_ident has_ident has_escapes

  pub is_canonical : SExpression → Bool
  is_canonical null = false
  is_canonical (value v) = not (has_escapes v)
  is_canonical (object n no_fields) = false
  is_canonical (object n (field k v fs)) =
      has_ident n && (is_ident k && (is_canonical v && (all_after k fs && is_canonical_fields fs)))
  is_canonical (array no_items) = false
  is_canonical (array (item e es)) = is_canonical e && is_canonical_items es

  pub is_canonical_items : Items → Bool
  is_canonical_items no_items = true
  is_canonical_items (item e es) = is_canonical e && is_canonical_items es

  pub is_canonical_fields : Fields → Bool
  is_canonical_fields no_fields = true
  is_canonical_fields (field k v fs) =
      is_ident k && (is_canonical v && (all_after k fs && is_canonical_fields fs))

unfoldable pub chars : Text → Pairs
chars [] = no_pairs
chars (c ∷ cs) = more (pair char (c ∷ []) no_pairs) (chars cs)

-- `()` has no pairs; a value that is printed in quotation marks is a `quoted_str` around its
-- `inner`, any other a `simple_val` of `char`s.
unfoldable pub value_pairs : Text → Pairs
unfolding needs_quotes chars
value_pairs [] = no_pairs
value_pairs (c ∷ cs) =
    let text = c ∷ cs in
    if needs_quotes text
    then (let quoted = b'"' ∷ text ++ b'"' ∷ [] in
        more
          (pair val quoted
            (more (pair quoted_str quoted (more (pair inner text no_pairs) no_pairs)) no_pairs))
          no_pairs)
    else more (pair val text (more (pair simple_val text (chars text)) no_pairs)) no_pairs

unfoldable pub with_name : Option Text → Pairs → Pairs
with_name none ps = ps
with_name (some n) ps = more (pair ident n no_pairs) ps

-- The pairs that sexpr.pest gives for a printed expression, which for a null is not printed. The
-- name of an object without fields is read as a value. The text of a pair is there where the
-- reading looks at it or below it; those of an object, an array, a field and an item are left out.
unfoldable mutual
  unfolding value_pairs with_name

  pub pairs_of : SExpression → Pairs
  pairs_of null = no_pairs
  pairs_of (value v) = value_pairs v
  pairs_of (object none no_fields) = no_pairs
  pairs_of (object (some n) no_fields) = value_pairs n
  pairs_of (object n (field k v fs)) =
      more
        (pair obj [] (
          with_name n (
            more (pair fld [] (more (pair field_name (b':' ∷ k) no_pairs) (pairs_of v)))
              (pairs_of_fields fs))))
        no_pairs
  pairs_of (array no_items) = no_pairs
  pairs_of (array (item e es)) =
      more (pair arr [] (more (pair elem [] (pairs_of e)) (pairs_of_items es))) no_pairs

  pub pairs_of_items : Items → Pairs
  pairs_of_items no_items = no_pairs
  pairs_of_items (item e es) = more (pair elem [] (pairs_of e)) (pairs_of_items es)

  pub pairs_of_fields : Fields → Pairs
  pairs_of_fields no_fields = no_pairs
  pairs_of_fields (field k v fs) =
      more (pair fld [] (more (pair field_name (b':' ∷ k) no_pairs) (pairs_of v)))
        (pairs_of_fields fs)

append : Fields → Fields → Fields
append no_fields gs = gs
append (field k v fs) gs = field k v (append fs gs)

-- Every key of the first list comes before every key of the second.
before : Fields → Fields → Bool
before no_fields gs = true
before (field k v fs) gs = all_after k gs && before fs gs

-- What the mutual induction says of an expression, of items and of fields.
abbrev Reads : SExpression → Type 0
Reads e = is_canonical e ≡ true → parse_sexpr (pairs_of e) ≡ ok e

abbrev ReadsItems : Items → Type 0
ReadsItems es = is_canonical_items es ≡ true → parse_array (pairs_of_items es) ≡ ok es

abbrev ReadsFields : Fields → Type 0
ReadsFields fs =
    (n : Option Text) (acc : Fields)
    → is_canonical_fields fs ≡ true
    → before acc fs ≡ true
    → parse_obj n acc (pairs_of_fields fs) ≡ ok (object n (append acc fs))
