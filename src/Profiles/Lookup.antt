-- ===== src/Profiles/Lookup.antt =====
-- Looking a profile up after the store has changed.
use snx_rs.Prelude.{
  ℕ, not, Option, none, some, List, [], ◌∷◌, ◌++◌, ◌≡◌, refl, ap, ◌∙◌, find, retain, arith, ◌==◌,
  ==_refl, if◌then◌else◌, Option-cases, inl, inr,
}
use snx_rs.Model.Params.{TunnelParams, default_profile_uuid}
use snx_rs.Profiles.{
  ProfilesState, has_id, get, replace, save, remove, get_connected, get_default, or_default,
  or_else,
}

unfoldable pub replaced :
    TunnelParams → List TunnelParams → Option (List TunnelParams) → List TunnelParams
replaced params ps none = ps ++ params ∷ []
replaced params ps (some qs) = qs

find-replaced :
    (u : ℕ) (params : TunnelParams) (ps : List TunnelParams)
    → find (has_id u) (replaced params ps (replace params ps))
      ≡ (if u == params.profile_id then some params else find (has_id u) ps)
unfolding has_id replace replaced
find-replaced u params [] = ground arith
find-replaced u params (p ∷ ps) = ground (arith, find-replaced u params ps)

pub save-profiles :
    (params : TunnelParams) (s : ProfilesState)
    → (save params s).0.profiles ≡ replaced params s.profiles (replace params s.profiles)
unfolding save replaced
save-profiles params s = elim (Option-cases (replace params s.profiles)) [
  | inl e ↦ rw (e, save) refl
  | inr (ps, e) ↦ rw (e, save) refl
]

-- After a profile is saved, its identifier finds it, and every other finds what it found before.
pub get-save :
    (u : ℕ) (params : TunnelParams) (s : ProfilesState)
    → get u (save params s).0 ≡ (if u == params.profile_id then some params else get u s)
unfolding get
get-save u params s = rw (save-profiles params s) (find-replaced u params s.profiles)

find-retain :
    (u v : ℕ) (ps : List TunnelParams)
    → find (has_id u) (retain (λ p. not (has_id v p)) ps)
      ≡ (if u == v then none else find (has_id u) ps)
unfolding has_id
find-retain u v [] = ground arith
find-retain u v (p ∷ ps) = ground (arith, find-retain u v ps)

-- After an identifier is removed, it finds nothing, and every other finds what it found before.
pub get-remove :
    (u v : ℕ) (s : ProfilesState) → get u (remove v s).0 ≡ (if u == v then none else get u s)
unfolding get remove
get-remove u v s = find-retain u v s.profiles

-- Once the connected profile has been removed, the default profile is taken for it.
pub get_connected-remove :
    (default : TunnelParams) (s : ProfilesState)
    → get_connected default (remove s.connected s).0 ≡ get_default default (remove s.connected s).0
unfolding get_connected get_default or_else remove
get_connected-remove default s =
    let kept = (remove s.connected s).0 in
    ap (λ o. or_default default (or_else o (get default_profile_uuid kept)))
      (get-remove s.connected s.connected s
        ∙ ap (λ b. if b then none else get s.connected s) (==_refl s.connected))
