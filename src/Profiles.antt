-- ===== src/Profiles.antt =====
-- crates/snxcore/src/profiles.rs: the store of the connection profiles. The store stands behind a
-- mutex that each operation holds from its first read to its last write, so an operation is a
-- function of the state; what it does to the disk is a list of effects, whose failure the source
-- ignores. The profiles that `load_all_from` finds, the default parameters and the parser of UUIDs
-- are parameters.
pub mod Lookup
pub mod Order
pub mod Refinement
use snx_rs.Prelude.{
  ℕ, zero, suc, Bool, not, ◌||◌, Option, none, some, List, [], ◌∷◌, ◌++◌, map, length, get_elem?,
  find, retain, ltb, ◌==◌, if◌then◌else◌,
}
use snx_rs.Prelude.Text.{Text, text_eq}
use snx_rs.Model.Params.{TunnelParams, default_profile_uuid}

pub record ProfilesState : Type 0 where
  pub profiles : List TunnelParams
  pub connected : ℕ

-- What an operation does outside the store, in its order.
pub data Effect : Type 0 where
  save_params : TunnelParams → Effect
  save_profile_order : List ℕ → Effect
  remove_file : Text → Effect

unfoldable pub has_id : ℕ → TunnelParams → Bool
has_id uuid p = p.profile_id == uuid

-- `ConnectionProfilesStore::get` is `find` under the lock.
unfoldable pub get : ℕ → ProfilesState → Option TunnelParams
unfolding has_id
get uuid s = find (has_id uuid) s.profiles

unfoldable pub order : ProfilesState → List ℕ
order s = map (λ p. p.profile_id) s.profiles

unfoldable pub new_in : List TunnelParams → TunnelParams → ProfilesState
new_in [] default = record { profiles = default ∷ []; connected = default_profile_uuid }
new_in (p ∷ ps) default = record { profiles = p ∷ ps; connected = default_profile_uuid }

-- `Vec::remove` and `Vec::insert` at an index in range
unfoldable pub remove_at : ℕ → List TunnelParams → List TunnelParams
remove_at i [] = []
remove_at zero (p ∷ ps) = ps
remove_at (suc i) (p ∷ ps) = p ∷ remove_at i ps

unfoldable pub insert_at : ℕ → TunnelParams → List TunnelParams → List TunnelParams
insert_at zero item ps = item ∷ ps
insert_at (suc i) item [] = item ∷ []
insert_at (suc i) item (p ∷ ps) = p ∷ insert_at i item ps

unfoldable pub move : ℕ → ℕ → List TunnelParams → List TunnelParams
unfolding remove_at insert_at
move from to ps = elim (get_elem? ps from) [
  | none ↦ ps
  | some item ↦ insert_at to item (remove_at from ps)
]

unfoldable pub reorder : ℕ → ℕ → ProfilesState → ProfilesState × List Effect
unfolding move order
reorder from to s =
    if not (ltb from (length s.profiles)) || not (ltb to (length s.profiles)) || from == to
    then (s, [])
    else let moved = record s { profiles = move from to s.profiles } in
      (moved, save_profile_order (order moved) ∷ [])

-- `Some(p.profile_id) == by_uuid`
unfoldable pub is_uuid : Option ℕ → ℕ → Bool
is_uuid none id = Bool.false
is_uuid (some uuid) id = id == uuid

unfoldable pub find_by_name_or_uuid : (Text → Option ℕ) → Text → ProfilesState → Option TunnelParams
unfolding is_uuid
find_by_name_or_uuid parse_uuid name s =
    find (λ p. is_uuid (parse_uuid name) p.profile_id || text_eq p.profile_name name) s.profiles

unfoldable pub or_default : TunnelParams → Option TunnelParams → TunnelParams
or_default default none = default
or_default default (some p) = p

unfoldable pub get_default : TunnelParams → ProfilesState → TunnelParams
unfolding or_default get
get_default default s = or_default default (get default_profile_uuid s)

-- `Option::or_else`
unfoldable pub or_else : Option TunnelParams → Option TunnelParams → Option TunnelParams
or_else none o = o
or_else (some p) o = some p

unfoldable pub get_connected : TunnelParams → ProfilesState → TunnelParams
unfolding or_default or_else get
get_connected default s =
    or_default default (or_else (get s.connected s) (get default_profile_uuid s))

unfoldable pub set_connected : ℕ → ProfilesState → ProfilesState
set_connected uuid s = record s { connected = uuid }

-- The first profile with the identifier is replaced, if there is one.
unfoldable pub replace : TunnelParams → List TunnelParams → Option (List TunnelParams)
unfolding has_id
replace params [] = none
replace params (p ∷ ps) =
    let rest = replace params ps in
    if has_id params.profile_id p
    then some (params ∷ ps)
    else elim rest [ none ↦ none | some qs ↦ some (p ∷ qs) ]

unfoldable pub save : TunnelParams → ProfilesState → ProfilesState × List Effect
unfolding replace order
save params s = elim (replace params s.profiles) [
  | some ps ↦ (record s { profiles = ps }, save_params params ∷ [])
  | none ↦
      let added = record s { profiles = s.profiles ++ params ∷ [] } in
      (added, save_params params ∷ save_profile_order (order added) ∷ [])
]

unfoldable pub remove_effects : Option TunnelParams → List ℕ → List Effect
remove_effects none ids = save_profile_order ids ∷ []
remove_effects (some p) ids = remove_file p.config_file ∷ save_profile_order ids ∷ []

unfoldable pub remove : ℕ → ProfilesState → ProfilesState × List Effect
unfolding has_id order remove_effects
remove uuid s =
    let kept = record s { profiles = retain (λ p. not (has_id uuid p)) s.profiles } in
    (kept, remove_effects (find (has_id uuid) s.profiles) (order kept))
