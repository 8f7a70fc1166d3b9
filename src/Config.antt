-- ===== src/Config.antt =====
-- `parse_config` of crates/snxcore/src/util.rs, which reads a profile file. White space is ASCII
-- here. A BTreeMap is a list in key order.
pub mod Written
pub mod Formats
pub mod Keys
pub mod Options
pub mod Save
pub mod Dictionary
pub mod Puts
pub mod Fields
pub mod Lists
pub mod Saved
pub mod RoundTrip
pub mod Order
pub mod Sorted
use snx_rs.Prelude.{
  ℕ, Bool, true, false, ◌||◌, Option, none, some, List, [], ◌∷◌, ◌==◌, if◌then◌else◌,
}
use snx_rs.Prelude.Text.{
  Text, text_eq, text_lt, is_empty, is_white, starts_with, split, trim, trim_matches,
}

-- A line's end is `\n` or `\r\n`: here a `\r` that stands last is taken off.
unfoldable pub strip_return : Text → Text
strip_return [] = []
strip_return (c ∷ []) = if c == 13 then [] else c ∷ []
strip_return (c ∷ d ∷ s) = c ∷ strip_return (d ∷ s)

-- The last part has no `\n` behind it: it is a line only if it is not empty, and keeps its `\r`.
unfoldable pub finish : List Text → List Text
unfolding strip_return
finish [] = []
finish (p ∷ []) = if is_empty p then [] else p ∷ []
finish (p ∷ q ∷ ps) = strip_return p ∷ finish (q ∷ ps)

-- `str::lines`
unfoldable pub lines : Text → List Text
unfolding finish split
lines s = finish (split (λ c. c == 10) s)

-- `str::split_once` at a byte
unfoldable pub split_once : ℕ → Text → Option (Text × Text)
split_once b [] = none
split_once b (c ∷ s) =
    let rest = split_once b s in
    if c == b
    then some ([], s)
    else elim rest [ none ↦ none | some parts ↦ some (c ∷ parts.0, parts.1) ]

abbrev pub is_quote_or_white : ℕ → Bool
is_quote_or_white c = c == 34 || is_white c

unfoldable pub entry_of : Option (Text × Text) → Option (Text × Text)
unfolding trim trim_matches
entry_of none = none
entry_of (some (k, v)) =
    let value = trim_matches is_quote_or_white v in
    if is_empty value then none else some (trim k, value)

unfoldable pub parse_line : Text → Option (Text × Text)
unfolding trim starts_with split_once entry_of
parse_line line =
    if starts_with (trim line) (b'#' ∷ []) then none else entry_of (split_once b'=' line)

-- `BTreeMap::insert`
unfoldable pub put : Text → Text → List (Text × Text) → List (Text × Text)
unfolding text_eq text_lt
put k v [] = (k, v) ∷ []
put k v ((j, w) ∷ rest) =
    let further = put k v rest in
    if text_eq k j
    then (k, v) ∷ rest
    else if text_lt k j
    then (k, v) ∷ (j, w) ∷ rest
    else (j, w) ∷ further

unfoldable pub put_line : Option (Text × Text) → List (Text × Text) → List (Text × Text)
unfolding put
put_line none config = config
put_line (some entry) config = put entry.0 entry.1 config

unfoldable pub parse_lines : List Text → List (Text × Text) → List (Text × Text)
unfolding parse_line put_line
parse_lines [] config = config
parse_lines (line ∷ more) config = parse_lines more (put_line (parse_line line) config)

unfoldable pub parse_config : Text → List (Text × Text)
unfolding lines parse_lines
parse_config text = parse_lines (lines text) []
