-- ===== src/Config/Puts.antt =====
-- Entries with distinct keys that are put into the sorted map make the same dictionary as the entries in
-- their own order.
use snx_rs.Prelude.{
  Bool, true, false, not, ◌&&◌, List, [], ◌∷◌, ◌≡◌, refl, ap, ◌∙◌, sym, inl, inr, Bool-cases,
}
use mathlib.Core.Path.{fun_ext}
use snx_rs.Prelude.Text.{Text, text_eq, text_eq_iff, text_lt}
use snx_rs.Prelude.Parts.{and_parts, and_both}
use snx_rs.Config.{put}
use snx_rs.Config.Written.{put_all}
use snx_rs.Config.Keys.{Key, name}
use snx_rs.Config.Dictionary.{Dictionary, with_line, with_all}

unfoldable pub is_absent : Text → List (Text × Text) → Bool
unfolding text_eq
is_absent k [] = true
is_absent k ((j, w) ∷ config) = not (text_eq k j) && is_absent k config

-- No key stands twice among the entries, nor in the map.
unfoldable pub are_new : List (Text × Text) → List (Text × Text) → Bool
unfolding is_absent
are_new [] config = true
are_new ((k, v) ∷ entries) config =
    is_absent k config && (is_absent k entries && are_new entries config)

differ : (j k : Text) → not (text_eq k j) ≡ true → text_eq k j ≡ false
differ j k h = not_true (text_eq k j) h
  where
    not_true : (b : Bool) → not b ≡ true → b ≡ false
    not_true true e = cc e
    not_true false e = refl

with_line-swap :
    (j w k v : Text) (d : Dictionary) (key : Key)
    → text_eq k j ≡ false
    → with_line j w (with_line k v d) key ≡ with_line k v (with_line j w d) key
unfolding with_line
with_line-swap j w k v d key h = elim (Bool-cases (text_eq k (name key))) [
  | inr other ↦ rw (other, with_line) refl
  | inl here ↦ elim (Bool-cases (text_eq j (name key))) [
    | inr e ↦ rw (here, e, with_line) refl
    | inl e ↦
        let same : k ≡ j =
          (text_eq_iff k (name key)).0 here ∙ sym ((text_eq_iff j (name key)).0 e) in
        absurd (apart (sym h ∙ (text_eq_iff k j).1 same))
  ]
]
  where
    apart : false ≡ true → ⊥
    apart p = cc p

with_all-with_line :
    (config : List (Text × Text)) (k v : Text) (d : Dictionary) (key : Key)
    → is_absent k config ≡ true
    → with_all config (with_line k v d) key ≡ with_line k v (with_all config d) key
unfolding with_all is_absent
with_all-with_line [] k v d key h = refl
with_all-with_line ((j, w) ∷ config) k v d key h =
    let (hj, hr) = and_parts _ _ h in
    ap (λ t. with_all config t key)
      (fun_ext λ other. with_line-swap j w k v d other (differ j k hj))
    ∙ with_all-with_line config k v (with_line j w d) key hr

with_all-put :
    (config : List (Text × Text)) (k v : Text) (d : Dictionary) (key : Key)
    → is_absent k config ≡ true
    → with_all (put k v config) d key ≡ with_line k v (with_all config d) key
unfolding with_all put is_absent
with_all-put [] k v d key h = refl
with_all-put ((j, w) ∷ config) k v d key h =
    let (hj, hr) = and_parts _ _ h in
    elim (Bool-cases (text_lt k j)) [
      | inl less ↦ rw (differ j k hj, less, put) (with_all-with_line ((j, w) ∷ config) k v d key h)
      | inr more ↦ rw (differ j k hj, more, put) (with_all-put config k v (with_line j w d) key hr)
    ]

is_absent-put :
    (x k v : Text) (config : List (Text × Text))
    → text_eq x k ≡ false
    → is_absent x config ≡ true
    → is_absent x (put k v config) ≡ true
unfolding is_absent put
is_absent-put x k v [] e h = rw (e) refl
is_absent-put x k v ((j, w) ∷ config) e h =
    let (hj, hr) = and_parts _ _ h in
    elim (Bool-cases (text_eq k j)) [
      | inl same ↦ rw (same, put) (rw (e) hr)
      | inr other ↦ elim (Bool-cases (text_lt k j)) [
        | inl less ↦ rw (other, less, put) (rw (e) h)
        | inr more ↦ rw (other, more, put) (and_both _ _ hj (is_absent-put x k v config e hr))
      ]
    ]

text_eq-sym : (x k : Text) → text_eq k x ≡ false → text_eq x k ≡ false
text_eq-sym x k h = elim (Bool-cases (text_eq x k)) [
  | inr e ↦ e
  | inl e ↦ e ∙ (sym ((text_eq_iff k x).1 (sym ((text_eq_iff x k).0 e))) ∙ h)
]

are_new-put :
    (entries : List (Text × Text)) (k v : Text) (config : List (Text × Text))
    → is_absent k entries ≡ true
    → are_new entries config ≡ true
    → are_new entries (put k v config) ≡ true
unfolding are_new is_absent
are_new-put [] k v config hk h = refl
are_new-put ((j, w) ∷ entries) k v config hk h =
    let (other, hk1) = and_parts _ _ hk in
    let (hj, h1) = and_parts _ _ h in
    let (he, hr) = and_parts _ _ h1 in
    and_both _ _ (is_absent-put j k v config (text_eq-sym j k (differ j k other)) hj)
      (and_both _ _ he (are_new-put entries k v config hk1 hr))

pub with_all-put_all :
    (entries config : List (Text × Text)) (d : Dictionary)
    → are_new entries config ≡ true
    → with_all (put_all entries config) d ≡ with_all entries (with_all config d)
unfolding put_all are_new with_all
with_all-put_all [] config d h = refl
with_all-put_all ((k, v) ∷ entries) config d h =
    let (hk, h1) = and_parts _ _ h in
    let (he, hr) = and_parts _ _ h1 in
    with_all-put_all entries (put k v config) d (are_new-put entries k v config he hr)
    ∙ ap (with_all entries) (fun_ext λ key. with_all-put config k v d key hk)
