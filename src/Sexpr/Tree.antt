-- ===== src/Sexpr/Tree.antt =====
-- `parse_sexpr` of sexpr.rs and its helpers, over the tree of pairs that the parser generated from
-- crates/snxcore/src/sexpr.pest gives.
use snx_rs.Prelude.{Option, none, some, [], drop}
use snx_rs.Prelude.Result.{Result, ok, err, ◌>>=◌}
use snx_rs.Prelude.Text.{Text}
use snx_rs.Sexpr.{
  SExpression, value, object, array, Items, no_items, item, Fields, no_fields, insert,
}

-- The rules that leave a pair; the silent ones are gone.
pub data Rule : Type 0 where
  obj arr val ident fld field_name elem quoted_str simple_val inner char : Rule

mutual
  pub data Pair : Type 0 where
    pair : Rule → Text → Pairs → Pair

  pub data Pairs : Type 0 where
    no_pairs : Pairs
    more : Pair → Pairs → Pairs

-- The text under the pairs: that of the one pair which `quoted_str` has.
unfoldable pub as_str : Pairs → Text
as_str no_pairs = []
as_str (more (pair r s kids) ps) = s

unfoldable pub parse_value : Pairs → Result SExpression
unfolding as_str
parse_value (more (pair quoted_str s kids) ps) = ok (value (as_str kids))
parse_value (more (pair simple_val s kids) ps) = ok (value s)
parse_value _ = err "error-invalid-value"

-- `parse_obj` carries the name and the fields read so far; `parse_field` cuts the colon off the
-- field's name.
unfoldable mutual
  unfolding parse_value insert

  pub parse_sexpr : Pairs → Result SExpression
  parse_sexpr no_pairs = ok (value [])
  parse_sexpr (more (pair obj s kids) ps) = parse_obj none no_fields kids
  parse_sexpr (more (pair arr s kids) ps) = parse_array kids >>= λ es. ok (array es)
  parse_sexpr (more (pair val s kids) ps) = parse_value kids
  parse_sexpr _ = err "error-invalid-sexpr"

  pub parse_obj : Option Text → Fields → Pairs → Result SExpression
  parse_obj name done no_pairs = ok (object name done)
  parse_obj name done (more (pair ident s kids) ps) = parse_obj (some s) done ps
  parse_obj name done (more (pair fld s kids) ps) =
      parse_field kids >>= λ (k, v). parse_obj name (insert k v done) ps
  parse_obj name done _ = err "error-invalid-object"

  pub parse_field : Pairs → Result (Text × SExpression)
  parse_field no_pairs = err "Invalid field"
  parse_field (more (pair r s kids) ps) = parse_sexpr ps >>= λ v. ok (drop 1 s, v)

  pub parse_array : Pairs → Result Items
  parse_array no_pairs = ok no_items
  parse_array (more (pair r s kids) ps) =
      parse_sexpr kids >>= λ e. parse_array ps >>= λ es. ok (item e es)
