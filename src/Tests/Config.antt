-- ===== src/Tests/Config.antt =====
-- Tests of reading a profile file.
use snx_rs.Prelude.{true, List, [], ◌∷◌, ◌≡◌, refl}
use snx_rs.Prelude.Text.{
  Text, codes, text_eq, text_lt, trim, trim_matches, trim_start, trim_end, starts_with, split,
}
use snx_rs.Config.{
  parse_config, parse_lines, lines, finish, strip_return, split_once, entry_of, parse_line, put,
  put_line,
}
use snx_rs.Config.Written.{
  are_entries, is_key, is_value, is_plain, written, put_all, parse_config-written,
}

abbrev entries : List (Text × Text)
entries = (codes "server-name", codes "vpn") ∷ (codes "mtu", codes "1350") ∷ []

entries-are : are_entries entries ≡ true
unfolding are_entries is_key is_value is_plain trim trim_matches trim_start trim_end text_eq
entries-are = refl

-- The keys come out in their order.
in_key_order :
    parse_config (written entries)
    ≡ (codes "mtu", codes "1350") ∷ (codes "server-name", codes "vpn") ∷ []
unfolding parse_config parse_lines lines finish strip_return split_once entry_of parse_line put
    put_line trim trim_matches trim_start trim_end text_eq text_lt starts_with split written
in_key_order = refl

parse_config-written_example : parse_config (written entries) ≡ put_all entries []
parse_config-written_example = parse_config-written entries entries-are
