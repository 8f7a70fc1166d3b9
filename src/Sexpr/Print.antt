-- ===== src/Sexpr/Print.antt =====
-- `encode_with_level` and `Display` of sexpr.rs.
use snx_rs.Prelude.{
  ℕ, zero, suc, ◌+◌, Bool, Option, none, some, List, [], ◌∷◌, ◌++◌, not, ◌&&◌, ◌==◌, any,
  if◌then◌else◌,
}
use snx_rs.Prelude.Text.{Text, codes, is_ascii_alphanumeric, is_empty, join}
use snx_rs.Sexpr.{
  SExpression, null, value, object, array, Items, no_items, item, Fields, no_fields, field,
}

-- A byte of a character that is not ASCII is not alphanumeric either.
unfoldable pub needs_quotes : Text → Bool
needs_quotes v = any (λ c. not (is_ascii_alphanumeric c) && not (c == b'_')) v

unfoldable pub format_value : Text → Text
unfolding needs_quotes
format_value v =
    if needs_quotes v then codes "(\"" ++ v ++ codes "\")" else codes "(" ++ v ++ codes ")"

unfoldable pub indent : ℕ → Text
indent zero = []
indent (suc level) = 9 ∷ indent level

abbrev name_or_empty : Option Text → Text
name_or_empty none = []
name_or_empty (some n) = n

unfoldable pub field_line : ℕ → Text → Option Text → List Text → List Text
field_line level k none rest = rest
field_line level k (some v) rest = (indent level ++ codes ":" ++ k ++ codes " " ++ v) ∷ rest

unfoldable pub item_line : ℕ → Option Text → List Text → List Text
item_line level none rest = rest
item_line level (some v) rest = (indent level ++ codes ": " ++ v) ∷ rest

unfoldable pub object_text : Option Text → List Text → Text
object_text name lines =
    let fields = join (10 ∷ []) lines in
    codes "("
    ++ name_or_empty name
    ++ (if is_empty fields then [] else 10 ∷ [])
    ++ fields
    ++ codes ")"

unfoldable pub array_text : List Text → Text
array_text lines = codes "(\n" ++ join (10 ∷ []) lines ++ codes ")"

unfoldable mutual
  unfolding format_value indent field_line item_line object_text array_text

  pub encode_with_level : ℕ → SExpression → Option Text
  encode_with_level level null = none
  encode_with_level level (value v) = some (format_value v)
  encode_with_level level (object name members) =
      some (object_text name (encode_object level members))
  encode_with_level level (array items) = some (array_text (encode_array level items))

  pub encode_object : ℕ → Fields → List Text
  encode_object level no_fields = []
  encode_object level (field k v fs) =
      field_line (level + 1) k (encode_with_level (level + 1) v) (encode_object level fs)

  pub encode_array : ℕ → Items → List Text
  encode_array level no_items = []
  encode_array level (item e es) =
      item_line (level + 1) (encode_with_level (level + 1) e) (encode_array level es)

-- `Display`
unfoldable pub to_string : SExpression → Text
unfolding encode_with_level
to_string e = name_or_empty (encode_with_level 0 e)
