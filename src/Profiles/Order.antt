-- ===== src/Profiles/Order.antt =====
-- The order of the profiles, in memory and on the disk.
use snx_rs.Prelude.{
  ℕ, zero, suc, Option, none, some, List, [], ◌∷◌, ◌≡◌, refl, sym, ◌∙◌, ap, map, length, get_elem?,
  find, ◌==◌, Option-cases, Bool-cases, inl, inr, arith, ◌<◌, ==_iff, lt→ltb,
}
use snx_rs.Model.Params.{TunnelParams}
use snx_rs.Profiles.{
  ProfilesState, Effect, save_params, save_profile_order, remove_file, has_id, order, remove_at,
  insert_at, move, reorder, replace, save, remove, remove_effects, set_connected,
}

-- A call that changes the store.
pub data Call : Type 0 where
  call_reorder : ℕ → ℕ → Call
  call_save : TunnelParams → Call
  call_remove : ℕ → Call
  call_set_connected : ℕ → Call

unfoldable pub apply : Call → ProfilesState → ProfilesState × List Effect
unfolding reorder save remove set_connected
apply (call_reorder from to) s = reorder from to s
apply (call_save params) s = save params s
apply (call_remove uuid) s = remove uuid s
apply (call_set_connected uuid) s = (set_connected uuid s, [])

-- What the order file holds after the effects.
unfoldable pub order_file : List ℕ → List Effect → List ℕ
order_file ids [] = ids
order_file ids (save_params params ∷ es) = order_file ids es
order_file ids (save_profile_order new ∷ es) = order_file new es
order_file ids (remove_file path ∷ es) = order_file ids es

in_place : List TunnelParams → Option (List TunnelParams) → List TunnelParams
in_place ps none = ps
in_place ps (some qs) = qs

order-replace :
    (params : TunnelParams) (ps : List TunnelParams)
    → map (λ p. p.profile_id) (in_place ps (replace params ps)) ≡ map (λ p. p.profile_id) ps
unfolding replace has_id in_place
order-replace params [] = ground arith
order-replace params (p ∷ ps) = ground (arith, order-replace params ps)

order-replaced :
    (params : TunnelParams) (ps qs : List TunnelParams)
    → replace params ps ≡ some qs
    → map (λ p. p.profile_id) qs ≡ map (λ p. p.profile_id) ps
unfolding in_place
order-replaced params ps qs h =
    sym (ap (λ o. map (λ p. p.profile_id) (in_place ps o)) h) ∙ order-replace params ps

-- A call on a store whose order the order file holds leaves the file with the order of the store.
pub order_file-apply :
    (c : Call) (s : ProfilesState) → order_file (order s) (apply c s).1 ≡ order (apply c s).0
unfolding order_file apply reorder save remove set_connected order remove_effects
order_file-apply (call_reorder from to) s = ground arith
order_file-apply (call_save params) s = elim (Option-cases (replace params s.profiles)) [
  | inl e ↦ rw (e, save) refl
  | inr (ps, e) ↦ rw (e, save) (sym (order-replaced params s.profiles ps e))
]
order_file-apply (call_remove uuid) s = elim (Option-cases (find (has_id uuid) s.profiles)) [
  | inl e ↦ rw (e, remove) refl
  | inr (p, e) ↦ rw (e, remove) refl
]
order_file-apply (call_set_connected uuid) s = refl

get_elem-insert_at :
    (i : ℕ) (item : TunnelParams) (ps : List TunnelParams)
    → i < suc (length ps)
    → get_elem? (insert_at i item ps) i ≡ some item
unfolding insert_at
get_elem-insert_at zero item ps h = refl
get_elem-insert_at (suc i) item [] h = absurd (omega arith)
get_elem-insert_at (suc i) item (p ∷ ps) h = get_elem-insert_at i item ps (omega arith)

length-remove_at :
    (i : ℕ) (ps : List TunnelParams) → i < length ps → suc (length (remove_at i ps)) ≡ length ps
unfolding remove_at
length-remove_at i [] h = absurd (omega arith)
length-remove_at zero (p ∷ ps) h = refl
length-remove_at (suc i) (p ∷ ps) h = ap suc (length-remove_at i ps (omega arith))

get_elem_within :
    (i : ℕ) (ps : List TunnelParams)
    → i < length ps
    → (p : TunnelParams) × (get_elem? ps i ≡ some p)
get_elem_within i [] h = absurd (omega arith)
get_elem_within zero (p ∷ ps) h = (p, refl)
get_elem_within (suc i) (p ∷ ps) h = get_elem_within i ps (omega arith)

get_elem-move :
    (from to : ℕ) (ps : List TunnelParams)
    → from < length ps
    → to < length ps
    → get_elem? (move from to ps) to ≡ get_elem? ps from
unfolding move
get_elem-move from to ps hf ht =
    let (item, e) = get_elem_within from ps hf in
    rw (e, move)
      (get_elem-insert_at to item (remove_at from ps) (omega (arith, length-remove_at from ps hf)))

-- After a profile is moved between two positions in range, it stands at the second.
pub get_elem-reorder :
    (from to : ℕ) (s : ProfilesState)
    → from < length s.profiles
    → to < length s.profiles
    → get_elem? (reorder from to s).0.profiles to ≡ get_elem? s.profiles from
unfolding reorder
get_elem-reorder from to s hf ht = elim (Bool-cases (from == to)) [
  | inl e ↦
      rw (lt→ltb from (length s.profiles) hf, lt→ltb to (length s.profiles) ht, e, reorder)
        (ap (get_elem? s.profiles) (sym ((==_iff from to).0 e)))
  | inr e ↦
      rw (lt→ltb from (length s.profiles) hf, lt→ltb to (length s.profiles) ht, e, reorder)
        (get_elem-move from to s.profiles hf ht)
]
