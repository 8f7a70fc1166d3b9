-- ===== src/Config/Order.antt =====
-- The order file, and the loading of all profiles, of crates/snxcore/src/model/params.rs.
use snx_rs.Prelude.{
  ℕ, suc, Bool, true, false, Option, none, some, List, [], ◌∷◌, ◌++◌, ltb, ◌==◌, if◌then◌else◌,
}
use snx_rs.Prelude.Result.{Result, ok, err}
use snx_rs.Prelude.Text.{Text, codes, text_eq, trim}
use snx_rs.Model.Params.{TunnelParams, default_profile_uuid}
use snx_rs.Config.{lines}
use snx_rs.Config.Formats.{Formats}
use snx_rs.Config.Options.{parse_all}

-- `std::cmp::Ordering`
pub data Ordering : Type 0 where
  less equal greater : Ordering

unfoldable pub compare_numbers : ℕ → ℕ → Ordering
compare_numbers a b = if ltb a b then less else if ltb b a then greater else equal

-- `str::cmp`
unfoldable pub compare_texts : Text → Text → Ordering
compare_texts [] [] = equal
compare_texts [] (d ∷ t) = less
compare_texts (c ∷ s) [] = greater
compare_texts (c ∷ s) (d ∷ t) =
    let rest = compare_texts s t in if ltb c d then less else if ltb d c then greater else rest

-- `Iterator::position`
unfoldable pub position : ℕ → List ℕ → Option ℕ
position id [] = none
position id (x ∷ order) =
    let later = position id order in
    if x == id then some 0 else elim later [ none ↦ none | some i ↦ some (suc i) ]

-- Two profiles that the order file does not know: the default one goes first, the rest by name.
unfoldable pub compare_unknown : TunnelParams → TunnelParams → Ordering
unfolding compare_texts
compare_unknown a b =
    if a.profile_id == default_profile_uuid
    then less
    else if b.profile_id == default_profile_uuid
    then greater
    else compare_texts a.profile_name b.profile_name

unfoldable pub compare_at : Option ℕ → Option ℕ → TunnelParams → TunnelParams → Ordering
unfolding compare_numbers compare_unknown
compare_at (some x) (some y) a b = compare_numbers x y
compare_at (some x) none a b = less
compare_at none (some y) a b = greater
compare_at none none a b = compare_unknown a b

unfoldable pub compare_profiles : List ℕ → TunnelParams → TunnelParams → Ordering
unfolding position compare_at
compare_profiles order a b =
    compare_at (position a.profile_id order) (position b.profile_id order) a b

-- `sort_by`, which is stable
unfoldable pub insert_by :
    (TunnelParams → TunnelParams → Ordering) → TunnelParams → List TunnelParams → List TunnelParams
insert_by compare p [] = p ∷ []
insert_by compare p (q ∷ ps) =
    let further = insert_by compare p ps in
    elim (compare p q) [ greater ↦ q ∷ further | _ ↦ p ∷ q ∷ ps ]

unfoldable pub sort_by :
    (TunnelParams → TunnelParams → Ordering) → List TunnelParams → List TunnelParams
unfolding insert_by
sort_by compare [] = []
sort_by compare (p ∷ ps) = insert_by compare p (sort_by compare ps)

-- `strip_suffix` at `.conf`
unfoldable pub is_conf : Text → Bool
unfolding text_eq
is_conf [] = false
is_conf (c ∷ name) =
    let later = is_conf name in if text_eq (c ∷ name) (codes ".conf") then true else later

-- The entries of the directory are read up to the first that cannot be: those of a profile's name that can
-- be loaded.
unfoldable pub load_entries :
    (Text → Result TunnelParams) → List (Result (Text × Text)) → List TunnelParams
unfolding is_conf
load_entries load [] = []
load_entries load (err e ∷ entries) = []
load_entries load (ok (file_name, path) ∷ entries) =
    let rest = load_entries load entries in
    let loaded : List TunnelParams = elim (load path) [
      | ok params ↦ params ∷ rest
      | err e ↦ rest
    ] in
    if is_conf file_name then loaded else rest

module _ (formats : Formats) where
  unfoldable pub load_profile_order : Result Text → List ℕ
  unfolding parse_all lines trim
  load_profile_order (err e) = []
  load_profile_order (ok s) = parse_all (λ l. formats.parse_uuid (trim l)) (lines s)

  unfoldable pub order_text : List ℕ → Text
  order_text [] = []
  order_text (u ∷ order) = formats.uuid_text u ++ 10 ∷ order_text order

  -- A directory that cannot be read has no profiles.
  unfoldable pub load_all_from :
      (Text → Result TunnelParams)
      → Result (List (Result (Text × Text)))
      → Result Text
      → List TunnelParams
  unfolding load_entries sort_by compare_profiles load_profile_order
  load_all_from load (err e) order_file = []
  load_all_from load (ok entries) order_file =
      sort_by (compare_profiles (load_profile_order order_file)) (load_entries load entries)
