-- ===== src/Profiles/Refinement.antt =====
-- The store as a map from identifiers to profiles, and that the identifiers stay distinct.
use snx_rs.Prelude.{
  ℕ, zero, suc, Bool, true, false, not, Option, none, some, List, [], ◌∷◌, ◌≡◌, refl, ◌∙◌, ap,
  length, get_elem?, find, retain, ltb, ◌==◌, ◌||◌, ◌&&◌, if◌then◌else◌, Option-cases, Bool-cases,
  ◌⊎◌, inl, inr, arith,
}
use snx_rs.Model.Params.{TunnelParams}
use snx_rs.Profiles.{
  ProfilesState, has_id, get, remove_at, insert_at, move, reorder, replace, remove, set_connected,
}
use snx_rs.Profiles.Lookup.{replaced, save-profiles, get-save, get-remove}
use snx_rs.Profiles.Order.{Call, call_reorder, call_save, call_remove, call_set_connected, apply}

-- No two profiles have the same identifier.
unfoldable pub is_fresh : ℕ → List TunnelParams → Bool
unfolding has_id
is_fresh u [] = true
is_fresh u (p ∷ ps) = not (has_id u p) && is_fresh u ps

unfoldable pub are_distinct : List TunnelParams → Bool
unfolding is_fresh
are_distinct [] = true
are_distinct (p ∷ ps) = is_fresh p.profile_id ps && are_distinct ps

find-insert_at :
    (u i : ℕ) (item : TunnelParams) (ps : List TunnelParams)
    → is_fresh item.profile_id ps ≡ true
    → find (has_id u) (insert_at i item ps)
      ≡ (if u == item.profile_id then some item else find (has_id u) ps)
unfolding has_id insert_at is_fresh
find-insert_at u zero item ps h = ground arith
find-insert_at u (suc i) item [] h = ground arith
find-insert_at u (suc i) item (p ∷ ps) h = ground (arith, find-insert_at u i item ps)

fresh-remove_at :
    (u i : ℕ) (ps : List TunnelParams) → is_fresh u ps ≡ true → is_fresh u (remove_at i ps) ≡ true
unfolding has_id remove_at is_fresh
fresh-remove_at u i [] h = refl
fresh-remove_at u zero (p ∷ ps) h = ground arith
fresh-remove_at u (suc i) (p ∷ ps) h = ground (arith, fresh-remove_at u i ps)

fresh-get_elem :
    (u i : ℕ) (item : TunnelParams) (ps : List TunnelParams)
    → is_fresh u ps ≡ true
    → get_elem? ps i ≡ some item
    → has_id u item ≡ false
unfolding is_fresh
fresh-get_elem u i item [] d h = ground arith
fresh-get_elem u zero item (p ∷ ps) d h = ground arith
fresh-get_elem u (suc i) item (p ∷ ps) d h = ground (arith, fresh-get_elem u i item ps)

get_elem-fresh :
    (i : ℕ) (item : TunnelParams) (ps : List TunnelParams)
    → are_distinct ps ≡ true
    → get_elem? ps i ≡ some item
    → is_fresh item.profile_id (remove_at i ps) ≡ true
unfolding remove_at is_fresh are_distinct has_id
get_elem-fresh i item [] d h = ground arith
get_elem-fresh zero item (p ∷ ps) d h = ground arith
get_elem-fresh (suc i) item (p ∷ ps) d h =
    ground (arith, get_elem-fresh i item ps, fresh-get_elem p.profile_id i item ps)

find-remove_at :
    (u i : ℕ) (item : TunnelParams) (ps : List TunnelParams)
    → are_distinct ps ≡ true
    → get_elem? ps i ≡ some item
    → (if u == item.profile_id then some item else find (has_id u) (remove_at i ps))
      ≡ find (has_id u) ps
unfolding remove_at is_fresh are_distinct has_id
find-remove_at u i item [] d h = ground arith
find-remove_at u zero item (p ∷ ps) d h = ground arith
find-remove_at u (suc i) item (p ∷ ps) d h =
    ground (arith, find-remove_at u i item ps, fresh-get_elem p.profile_id i item ps)

find-move :
    (u from to : ℕ) (ps : List TunnelParams)
    → are_distinct ps ≡ true
    → find (has_id u) (move from to ps) ≡ find (has_id u) ps
unfolding move
find-move u from to ps d = elim (Option-cases (get_elem? ps from)) [
  | inl e ↦ rw (e, move) refl
  | inr (item, e) ↦
      rw (e, move)
        (find-insert_at u to item (remove_at from ps) (get_elem-fresh from item ps d e)
          ∙ find-remove_at u from item ps d e)
]

fresh-insert_at :
    (u i : ℕ) (item : TunnelParams) (ps : List TunnelParams)
    → is_fresh u (insert_at i item ps) ≡ (not (has_id u item) && is_fresh u ps)
unfolding insert_at is_fresh
fresh-insert_at u zero item ps = refl
fresh-insert_at u (suc i) item [] = refl
fresh-insert_at u (suc i) item (p ∷ ps) = ground (arith, fresh-insert_at u i item ps)

distinct-insert_at :
    (i : ℕ) (item : TunnelParams) (ps : List TunnelParams)
    → is_fresh item.profile_id ps ≡ true
    → are_distinct ps ≡ true
    → are_distinct (insert_at i item ps) ≡ true
unfolding insert_at is_fresh are_distinct has_id
distinct-insert_at zero item ps h d = ground arith
distinct-insert_at (suc i) item [] h d = refl
distinct-insert_at (suc i) item (p ∷ ps) h d =
    ground (arith, distinct-insert_at i item ps, fresh-insert_at p.profile_id i item ps)

distinct-remove_at :
    (i : ℕ) (ps : List TunnelParams) → are_distinct ps ≡ true → are_distinct (remove_at i ps) ≡ true
unfolding remove_at are_distinct
distinct-remove_at i [] d = refl
distinct-remove_at zero (p ∷ ps) d = ground arith
distinct-remove_at (suc i) (p ∷ ps) d =
    ground (arith, distinct-remove_at i ps, fresh-remove_at p.profile_id i ps)

distinct-move :
    (from to : ℕ) (ps : List TunnelParams)
    → are_distinct ps ≡ true
    → are_distinct (move from to ps) ≡ true
unfolding move
distinct-move from to ps d = elim (Option-cases (get_elem? ps from)) [
  | inl e ↦ rw (e, move) d
  | inr (item, e) ↦
      rw (e, move)
        (distinct-insert_at to item (remove_at from ps) (get_elem-fresh from item ps d e)
          (distinct-remove_at from ps d))
]

fresh-replaced :
    (u : ℕ) (params : TunnelParams) (ps : List TunnelParams)
    → is_fresh u ps ≡ true
    → (u == params.profile_id) ≡ false
    → is_fresh u (replaced params ps (replace params ps)) ≡ true
unfolding is_fresh replaced replace has_id
fresh-replaced u params [] h n = ground arith
fresh-replaced u params (p ∷ ps) h n = ground (arith, fresh-replaced u params ps)

distinct-replaced :
    (params : TunnelParams) (ps : List TunnelParams)
    → are_distinct ps ≡ true
    → are_distinct (replaced params ps (replace params ps)) ≡ true
unfolding is_fresh are_distinct replaced replace has_id
distinct-replaced params [] d = ground arith
distinct-replaced params (p ∷ ps) d =
    ground (arith, distinct-replaced params ps, fresh-replaced p.profile_id params ps)

fresh-retain :
    (u v : ℕ) (ps : List TunnelParams)
    → is_fresh u ps ≡ true
    → is_fresh u (retain (λ p. not (has_id v p)) ps) ≡ true
unfolding is_fresh has_id
fresh-retain u v [] h = refl
fresh-retain u v (p ∷ ps) h = ground (arith, fresh-retain u v ps)

distinct-retain :
    (v : ℕ) (ps : List TunnelParams)
    → are_distinct ps ≡ true
    → are_distinct (retain (λ p. not (has_id v p)) ps) ≡ true
unfolding are_distinct has_id
distinct-retain v [] d = refl
distinct-retain v (p ∷ ps) d = ground (arith, distinct-retain v ps, fresh-retain p.profile_id v ps)

reorder-profiles :
    (from to : ℕ) (s : ProfilesState)
    → ((reorder from to s).0.profiles ≡ s.profiles)
      ⊎ ((reorder from to s).0.profiles ≡ move from to s.profiles)
unfolding reorder
reorder-profiles from to s =
    elim (Bool-cases
      (not (ltb from (length s.profiles)) || not (ltb to (length s.profiles)) || from == to)) [
        | inl e ↦ inl (rw (e, reorder) refl)
        | inr e ↦ inr (rw (e, reorder) refl)
      ]

-- Profiles whose identifiers are distinct keep distinct identifiers by every call.
pub are_distinct-apply :
    (c : Call) (s : ProfilesState)
    → are_distinct s.profiles ≡ true
    → are_distinct (apply c s).0.profiles ≡ true
unfolding apply remove set_connected
are_distinct-apply (call_reorder from to) s d = elim (reorder-profiles from to s) [
  | inl e ↦ rw e d
  | inr e ↦ rw e (distinct-move from to s.profiles d)
]
are_distinct-apply (call_save params) s d =
    rw (save-profiles params s) (distinct-replaced params s.profiles d)
are_distinct-apply (call_remove uuid) s d = distinct-retain uuid s.profiles d
are_distinct-apply (call_set_connected uuid) s d = d

-- What the calls mean to a map from identifiers to profiles.
unfoldable pub change : Call → (ℕ → Option TunnelParams) → ℕ → Option TunnelParams
change (call_reorder from to) book u = book u
change (call_save params) book u = if u == params.profile_id then some params else book u
change (call_remove uuid) book u = if u == uuid then none else book u
change (call_set_connected uuid) book u = book u

-- If the identifiers are distinct, every call changes what the identifiers find as it changes the map.
pub get-apply :
    (c : Call) (s : ProfilesState) (u : ℕ)
    → are_distinct s.profiles ≡ true
    → get u (apply c s).0 ≡ change c (λ v. get v s) u
unfolding apply change get set_connected
get-apply (call_reorder from to) s u d = elim (reorder-profiles from to s) [
  | inl e ↦ ap (find (has_id u)) e
  | inr e ↦ ap (find (has_id u)) e ∙ find-move u from to s.profiles d
]
get-apply (call_save params) s u d = get-save u params s
get-apply (call_remove uuid) s u d = get-remove u uuid s
get-apply (call_set_connected uuid) s u d = refl
