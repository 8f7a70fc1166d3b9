-- ===== src/Config/Written.antt =====
-- A profile file that is written line by line is read back.
use snx_rs.Prelude.{
  ℕ, Bool, true, false, not, ◌&&◌, ◌||◌, none, some, List, [], ◌∷◌, ◌++◌, ◌≡◌, refl, ap, ◌∙◌, sym,
  ◌==◌, Bool-cases, inl, inr, arith, append_assoc,
}
use snx_rs.Prelude.Text.{
  Text, text_eq, text_eq_iff, is_empty, is_white, starts_with, split, trim, trim_matches,
  trim_start, trim_end,
}
use snx_rs.Config.{
  strip_return, finish, lines, split_once, is_quote_or_white, entry_of, parse_line, put, put_line,
  parse_lines, parse_config,
}

-- No line break, and none of the byte given.
unfoldable pub is_plain : ℕ → Text → Bool
is_plain b [] = true
is_plain b (c ∷ s) = not (c == 10) && (not (c == 13) && (not (c == b) && is_plain b s))

-- A key as the program writes them: no `=`, nothing to trim, and no comment.
unfoldable pub is_key : Text → Bool
unfolding is_plain
is_key [] = false
is_key (c ∷ s) =
    not (is_white c)
    && (not (c == b'#') && (is_plain b'=' (c ∷ s) && text_eq (trim (c ∷ s)) (c ∷ s)))

-- A value in one line that has something in it and nothing to trim.
unfoldable pub is_value : Text → Bool
unfolding is_plain
is_value v = not (is_empty v) && (is_plain 10 v && text_eq (trim_matches is_quote_or_white v) v)

unfoldable pub are_entries : List (Text × Text) → Bool
unfolding is_key is_value
are_entries [] = true
are_entries ((k, v) ∷ rest) = is_key k && (is_value v && are_entries rest)

-- `writeln!` of `{key}={value}` for each entry.
unfoldable pub written : List (Text × Text) → Text
written [] = []
written ((k, v) ∷ rest) = k ++ b'=' ∷ (v ++ 10 ∷ written rest)

unfoldable pub put_all : List (Text × Text) → List (Text × Text) → List (Text × Text)
put_all [] config = config
put_all ((k, v) ∷ rest) config = put_all rest (put k v config)

and_parts : (a b : Bool) → (a && b) ≡ true → (a ≡ true) × (b ≡ true)
and_parts true b h = (refl, h)
and_parts false b h = cc h

not-true : (a : Bool) → not a ≡ true → a ≡ false
not-true true h = cc h
not-true false h = refl

split-line :
    (s rest : Text) (b : ℕ)
    → is_plain b s ≡ true
    → split (λ c. c == 10) (s ++ 10 ∷ rest) ≡ s ∷ split (λ c. c == 10) rest
unfolding split is_plain
split-line [] rest b h = refl
split-line (c ∷ s) rest b h = ground (arith, split-line s rest b)

split_once-key :
    (k v : Text) → is_plain b'=' k ≡ true → split_once b'=' (k ++ b'=' ∷ v) ≡ some (k, v)
unfolding split_once is_plain
split_once-key [] v h = refl
split_once-key (c ∷ k) v h = ground (arith, split_once-key k v)

strip_return-plain : (b : ℕ) (s : Text) → is_plain b s ≡ true → strip_return s ≡ s
unfolding strip_return is_plain
strip_return-plain b [] h = refl
strip_return-plain b (c ∷ []) h = ground arith
strip_return-plain b (c ∷ d ∷ s) h = ground (arith, strip_return-plain b (d ∷ s))

split-nonempty : (s : Text) → (p : Text) × (ps : List Text) × (split (λ c. c == 10) s ≡ p ∷ ps)
unfolding split
split-nonempty [] = ([], [], refl)
split-nonempty (c ∷ s) =
    let (p, ps, e) = split-nonempty s in
    elim (Bool-cases (c == 10)) [
      | inl f ↦ ([], split (λ c. c == 10) s, rw (f, split) refl)
      | inr f ↦ (c ∷ p, ps, rw (f, e, split) refl)
    ]

trim_end-head :
    (p : ℕ → Bool) (c : ℕ) (s : Text) → p c ≡ false → (r : Text) × (trim_end p (c ∷ s) ≡ c ∷ r)
unfolding trim_end
trim_end-head p c s h = (trim_end p s, ground arith)

trim_matches-head :
    (p : ℕ → Bool) (c : ℕ) (s : Text) → p c ≡ false → (r : Text) × (trim_matches p (c ∷ s) ≡ c ∷ r)
unfolding trim_matches trim_start
trim_matches-head p c s h = rw (h, trim_matches, trim_start) (trim_end-head p c s h)

starts_with-head : (c d : ℕ) (s : Text) → starts_with (c ∷ s) (d ∷ []) ≡ (c == d)
unfolding starts_with
starts_with-head c d [] = ground arith
starts_with-head c d (e ∷ s) = ground arith

is_comment-line :
    (c : ℕ) (s : Text) → is_white c ≡ false → starts_with (trim (c ∷ s)) (b'#' ∷ []) ≡ (c == b'#')
unfolding trim
is_comment-line c s h =
    let (r, e) = trim_matches-head is_white c s h in
    ap (λ t. starts_with t (b'#' ∷ [])) e ∙ starts_with-head c b'#' r

entry_of-written :
    (k v : Text)
    → text_eq (trim k) k ≡ true
    → text_eq (trim_matches is_quote_or_white v) v ≡ true
    → is_empty v ≡ false
    → entry_of (some (k, v)) ≡ some (k, v)
unfolding entry_of
entry_of-written k v hk hv ne =
    let ek = (text_eq_iff (trim k) k).0 hk in
    let ev = (text_eq_iff (trim_matches is_quote_or_white v) v).0 hv in
    rw (ev, ne, ek, entry_of) refl

parse_line-written :
    (k v : Text) → is_key k ≡ true → is_value v ≡ true → parse_line (k ++ b'=' ∷ v) ≡ some (k, v)
unfolding parse_line is_key is_value
parse_line-written [] v hk hv = cc hk
parse_line-written (c ∷ k) v hk hv =
    let (white, hk1) = and_parts _ _ hk in
    let (hash, hk2) = and_parts _ _ hk1 in
    let (plain, trimmed) = and_parts _ _ hk2 in
    let (filled, hv1) = and_parts _ _ hv in
    let (one_line, bare) = and_parts _ _ hv1 in
    rw
      (
        is_comment-line c (k ++ b'=' ∷ v) (not-true _ white) ∙ not-true _ hash,
        split_once-key (c ∷ k) v plain,
        parse_line,
      )
      (entry_of-written (c ∷ k) v trimmed bare (not-true _ filled))

is_plain-line :
    (k v : Text)
    → is_plain b'=' k ≡ true
    → is_plain 10 v ≡ true
    → is_plain 10 (k ++ b'=' ∷ v) ≡ true
unfolding is_plain
is_plain-line [] v hk hv = ground arith
is_plain-line (c ∷ k) v hk hv = ground (arith, is_plain-line k v)

pub lines-line :
    (line rest : Text) → is_plain 10 line ≡ true → lines (line ++ 10 ∷ rest) ≡ line ∷ lines rest
unfolding lines finish
lines-line line rest h =
    let (p, ps, e) = split-nonempty rest in
    rw (split-line line rest 10 h, e, lines, finish)
      (ap (λ t. t ∷ finish (p ∷ ps)) (strip_return-plain 10 line h))

key_plain : (k : Text) → is_key k ≡ true → is_plain b'=' k ≡ true
unfolding is_key
key_plain [] h = cc
key_plain (c ∷ k) h = (and_parts _ _ (and_parts _ _ (and_parts _ _ h).1).1).0

value_plain : (v : Text) → is_value v ≡ true → is_plain 10 v ≡ true
unfolding is_value
value_plain v h = (and_parts _ _ (and_parts _ _ h).1).0

-- A line whose value is empty is left out when it is read.
unfoldable pub are_lines : List (Text × Text) → Bool
unfolding is_key is_value
are_lines [] = true
are_lines ((k, v) ∷ rest) = is_key k && ((is_empty v || is_value v) && are_lines rest)

unfoldable pub filled_entries : List (Text × Text) → List (Text × Text)
filled_entries [] = []
filled_entries ((k, []) ∷ rest) = filled_entries rest
filled_entries ((k, c ∷ v) ∷ rest) = (k, c ∷ v) ∷ filled_entries rest

parse_line-empty : (k : Text) → is_key k ≡ true → parse_line (k ++ b'=' ∷ []) ≡ none
unfolding parse_line is_key entry_of trim_matches trim_start trim_end
parse_line-empty [] hk = refl
parse_line-empty (c ∷ k) hk =
    let (white, hk1) = and_parts _ _ hk in
    let (hash, hk2) = and_parts _ _ hk1 in
    let (plain, trimmed) = and_parts _ _ hk2 in
    rw
      (
        is_comment-line c (k ++ b'=' ∷ []) (not-true _ white) ∙ not-true _ hash,
        split_once-key (c ∷ k) [] plain,
        parse_line,
      )
      refl

parse_lines-line :
    (k v : Text) (rest : List (Text × Text)) (config : List (Text × Text))
    → is_key k ≡ true
    → is_plain 10 v ≡ true
    → parse_lines (lines (written ((k, v) ∷ rest))) config
      ≡ parse_lines (lines (written rest)) (put_line (parse_line (k ++ b'=' ∷ v)) config)
unfolding written parse_lines
parse_lines-line k v rest config hk hv =
    ap (λ t. parse_lines t config)
      (ap lines (sym (append_assoc k (b'=' ∷ v) (10 ∷ written rest)))
        ∙ lines-line (k ++ b'=' ∷ v) (written rest) (is_plain-line k v (key_plain k hk) hv))

parse_lines-written :
    (entries config : List (Text × Text))
    → are_lines entries ≡ true
    → parse_lines (lines (written entries)) config ≡ put_all (filled_entries entries) config
unfolding are_lines written put_all parse_lines put_line lines split finish filled_entries is_plain
parse_lines-written [] config h = refl
parse_lines-written ((k, []) ∷ rest) config h =
    let (hk, h1) = and_parts _ _ h in
    parse_lines-line k [] rest config hk refl
    ∙ (ap (λ e. parse_lines (lines (written rest)) (put_line e config)) (parse_line-empty k hk)
        ∙ parse_lines-written rest config h1)
parse_lines-written ((k, c ∷ v) ∷ rest) config h =
    let (hk, h1) = and_parts _ _ h in
    let (hv, hr) = and_parts _ _ h1 in
    parse_lines-line k (c ∷ v) rest config hk (value_plain (c ∷ v) hv)
    ∙ (ap (λ e. parse_lines (lines (written rest)) (put_line e config))
          (parse_line-written k (c ∷ v) hk hv)
        ∙ parse_lines-written rest (put k (c ∷ v) config) hr)

-- A file whose lines may have empty values is read as the entries that have one.
pub parse_config-lines :
    (entries : List (Text × Text))
    → are_lines entries ≡ true
    → parse_config (written entries) ≡ put_all (filled_entries entries) []
unfolding parse_config
parse_config-lines entries h = parse_lines-written entries [] h

are_entries-are_lines :
    (entries : List (Text × Text))
    → are_entries entries ≡ true
    → (are_lines entries ≡ true) × (filled_entries entries ≡ entries)
unfolding are_entries are_lines filled_entries is_value
are_entries-are_lines [] h = (refl, refl)
are_entries-are_lines ((k, []) ∷ rest) h = let (hk, h1) = and_parts (is_key k) false h in cc h1
are_entries-are_lines ((k, c ∷ v) ∷ rest) h =
    let (hk, h1) = and_parts (is_key k) (is_value (c ∷ v) && are_entries rest) h in
    let (hv, hr) = and_parts (is_value (c ∷ v)) (are_entries rest) h1 in
    let (all_lines, same) = are_entries-are_lines rest hr in
    (rw (hk, hv, all_lines) refl, ap (λ t. (k, c ∷ v) ∷ t) same)

-- A file with a line for each entry is read as the entries, put into the map one after the other. The
-- keys must be free of `=`, comment marks and space to trim, the values filled, without quotes or
-- space to trim, and both in one line.
pub parse_config-written :
    (entries : List (Text × Text))
    → are_entries entries ≡ true
    → parse_config (written entries) ≡ put_all entries []
parse_config-written entries h =
    let (all_lines, same) = are_entries-are_lines entries h in
    parse_config-lines entries all_lines ∙ ap (λ t. put_all t []) same
