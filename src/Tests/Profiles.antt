-- ===== src/Tests/Profiles.antt =====
-- Tests of the store of profiles.
use snx_rs.Prelude.{true, [], ◌∷◌, ◌≡◌, refl}
use snx_rs.Prelude.Text.{codes}
use snx_rs.Model.Params.{TunnelParams, default_profile_uuid}
use snx_rs.Profiles.{
  ProfilesState, remove_file, save_profile_order, get, order, reorder, move, remove_at, insert_at,
  remove, remove_effects, has_id,
}
use snx_rs.Profiles.Order.{
  call_reorder, call_save, call_remove, apply, order_file, order_file-apply,
}
use snx_rs.Profiles.Refinement.{are_distinct, is_fresh, are_distinct-apply, change, get-apply}
use snx_rs.Tests.Data.{params}

abbrev alpha : TunnelParams
alpha = record params { profile_name = codes "alpha"; profile_id = 1; config_file = codes "a" }

abbrev beta : TunnelParams
beta = record params { profile_name = codes "beta"; profile_id = 2; config_file = codes "b" }

abbrev store : ProfilesState
store = record { profiles = params ∷ alpha ∷ beta ∷ []; connected = 1 }

store-distinct : are_distinct store.profiles ≡ true
unfolding are_distinct is_fresh has_id
store-distinct = refl

reorder_moves : (reorder 0 2 store).0.profiles ≡ alpha ∷ beta ∷ params ∷ []
unfolding reorder move remove_at insert_at order
reorder_moves = refl

remove_deletes_file :
    (remove 2 store).1
    ≡ remove_file (codes "b") ∷ save_profile_order (default_profile_uuid ∷ 1 ∷ []) ∷ []
unfolding remove remove_effects has_id order
remove_deletes_file = refl

get-apply_example :
    get 2 (apply (call_remove 1) store).0 ≡ change (call_remove 1) (λ v. get v store) 2
get-apply_example = get-apply (call_remove 1) store 2 store-distinct

are_distinct-apply_example : are_distinct (apply (call_reorder 0 2) store).0.profiles ≡ true
are_distinct-apply_example = are_distinct-apply (call_reorder 0 2) store store-distinct

order_file-apply_example :
    order_file (order store) (apply (call_save beta) store).1
    ≡ order (apply (call_save beta) store).0
order_file-apply_example = order_file-apply (call_save beta) store
