-- ===== src/Resolver/Retain.antt =====
-- What is kept of lists by one test after another.
use snx_rs.Prelude.{
  Bool, true, false, List, [], ◌∷◌, ◌++◌, retain, ◌≡◌, refl, ap, ◌∙◌, sym, inl, inr, Bool-cases,
}
use snx_rs.Prelude.Parts.{all_of, and_parts, and_both}

pub retain-append :
    {A : Type 0} (p : A → Bool) (xs ys : List A) → retain p (xs ++ ys) ≡ retain p xs ++ retain p ys
retain-append p [] ys = refl
retain-append p (x ∷ xs) ys = elim (Bool-cases (p x)) [
  | inl e ↦ rw (e) (ap (λ t. x ∷ t) (retain-append p xs ys))
  | inr e ↦ rw (e) (retain-append p xs ys)
]

-- A test that holds only where another fails keeps nothing of what the other keeps.
pub retain-none :
    {A : Type 0} (p q : A → Bool)
    → ((x : A) → q x ≡ true → p x ≡ false)
    → (xs : List A) → retain p (retain q xs) ≡ []
retain-none p q h [] = refl
retain-none p q h (x ∷ xs) = elim (Bool-cases (q x)) [
  | inl e ↦ rw (e, h x e) (retain-none p q h xs)
  | inr e ↦ rw (e) (retain-none p q h xs)
]

pub retain-all :
    {A : Type 0} (p q : A → Bool)
    → ((x : A) → q x ≡ true → p x ≡ true)
    → (xs : List A) → retain p (retain q xs) ≡ retain q xs
retain-all p q h [] = refl
retain-all p q h (x ∷ xs) = elim (Bool-cases (q x)) [
  | inl e ↦ rw (e, h x e) (ap (λ t. x ∷ t) (retain-all p q h xs))
  | inr e ↦ rw (e) (retain-all p q h xs)
]

pub all_of-retain :
    {A : Type 0} (p q : A → Bool) (xs : List A) → all_of p xs ≡ true → all_of p (retain q xs) ≡ true
unfolding all_of
all_of-retain p q [] h = refl
all_of-retain p q (x ∷ xs) h =
    let (hx, hr) = and_parts (p x) (all_of p xs) h in
    elim (Bool-cases (q x)) [
      | inl e ↦ rw (e) (and_both (p x) (all_of p (retain q xs)) hx (all_of-retain p q xs hr))
      | inr e ↦ rw (e) (all_of-retain p q xs hr)
    ]

pub all_of-kept : {A : Type 0} (q : A → Bool) (xs : List A) → all_of q (retain q xs) ≡ true
unfolding all_of
all_of-kept q [] = refl
all_of-kept q (x ∷ xs) = elim (Bool-cases (q x)) [
  | inl e ↦ rw (e) (and_both (q x) (all_of q (retain q xs)) e (all_of-kept q xs))
  | inr e ↦ rw (e) (all_of-kept q xs)
]

pub retain-no :
    {A : Type 0} (p q : A → Bool)
    → ((x : A) → q x ≡ true → p x ≡ false)
    → (xs : List A) → all_of q xs ≡ true
    → retain p xs ≡ []
unfolding all_of
retain-no p q h [] e = refl
retain-no p q h (x ∷ xs) e =
    let (ex, er) = and_parts (q x) (all_of q xs) e in rw (h x ex) (retain-no p q h xs er)

-- What a stronger test keeps is kept from what a weaker one keeps.
pub retain-within :
    {A : Type 0} (p q : A → Bool)
    → ((x : A) → p x ≡ true → q x ≡ true)
    → (xs : List A) → retain p xs ≡ retain p (retain q xs)
retain-within p q h [] = refl
retain-within p q h (x ∷ xs) = elim (Bool-cases (q x)) [
  | inl e ↦ elim (Bool-cases (p x)) [
    | inl f ↦ rw (e, f) (ap (λ t. x ∷ t) (retain-within p q h xs))
    | inr f ↦ rw (e, f) (retain-within p q h xs)
  ]
  | inr e ↦ elim (Bool-cases (p x)) [
    | inl f ↦ absurd (apart (sym e ∙ h x f))
    | inr f ↦ rw (e, f) (retain-within p q h xs)
  ]
]
  where
    apart : false ≡ true → ⊥
    apart e = cc e
