-- ===== src/Tests/Sexpr.antt =====
-- Tests of the S-expressions.
use snx_rs.Prelude.{◌≡◌, refl, none, some, List, [], ◌∷◌, ◌↔◌}
use snx_rs.Prelude.Text.{Text, codes, text_eq, split, parse_below, join}
use snx_rs.Sexpr.{
  SExpression, value, object, array, no_items, item, no_fields, field, get_for_parts, get,
}
use snx_rs.Sexpr.Paths.{Finds, get_for_parts-Finds_iff}
use snx_rs.Sexpr.Print.{to_string}

-- A range of addresses, as in a reply to the client's hello.
abbrev range : SExpression
range = object none (
    field (codes "from") (value (codes "10.0.0.0"))
      (field (codes "to") (value (codes "10.255.255.255")) no_fields))

abbrev hello_reply : SExpression
hello_reply =
    object (some (codes "hello_reply"))
      (field (codes "range") (array (item range no_items)) no_fields)

get_range : get hello_reply (codes "hello_reply:range:0:from") ≡ some (value (codes "10.0.0.0"))
unfolding get split text_eq parse_below
get_range = refl

get_missing : get hello_reply (codes "hello_reply:range:1") ≡ none
unfolding get split text_eq parse_below
get_missing = refl

quoted_value :
    to_string (object none (field (codes "key") (value (codes "Hello_world!")) no_fields))
    ≡ codes "(\n\t:key (\"Hello_world!\"))"
unfolding to_string join
quoted_value = refl

abbrev range_end : List Text
range_end = codes "hello_reply" ∷ codes "range" ∷ codes "0" ∷ codes "to" ∷ []

get_for_parts-Finds_example :
    (get_for_parts range_end hello_reply ≡ some (value (codes "10.255.255.255")))
    ↔ Finds range_end hello_reply (value (codes "10.255.255.255"))
get_for_parts-Finds_example =
    get_for_parts-Finds_iff range_end hello_reply (value (codes "10.255.255.255"))
