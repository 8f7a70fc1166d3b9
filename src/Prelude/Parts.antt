-- ===== src/Prelude/Parts.antt =====
-- Text that is joined from parts is split into the parts.
use Prim.Native.Nat.{ℕ}
use mathlib.Core.Path.{◌≡◌, refl, ap, ◌∙◌}
use mathlib.Core.Bool.{Bool, true, false, not, ◌&&◌}
use mathlib.Core.List.{List, [], ◌∷◌, ◌++◌}
use native.Mathlib.Omega.{arith}
use snx_rs.Prelude.Tests.{◌==◌}
use snx_rs.Prelude.Text.{Text, split, join}

unfoldable pub all_of {ℓ} : {A : Type ℓ} → (A → Bool) → List A → Bool
all_of p [] = true
all_of p (c ∷ s) = p c && all_of p s

abbrev pub lacks : ℕ → Text → Bool
lacks b s = all_of (λ c. not (c == b)) s

pub and_parts : (a b : Bool) → (a && b) ≡ true → (a ≡ true) × (b ≡ true)
and_parts true b h = (refl, h)
and_parts false b h = cc h

pub and_both : (a b : Bool) → a ≡ true → b ≡ true → (a && b) ≡ true
and_both true b ha hb = hb
and_both false b ha hb = cc ha

pub all_of-append :
    {A : Type 0} (p : A → Bool) (s t : List A)
    → all_of p s ≡ true
    → all_of p t ≡ true
    → all_of p (s ++ t) ≡ true
unfolding all_of
all_of-append p [] t hs ht = ht
all_of-append p (c ∷ s) t hs ht =
    let (hc, hr) = and_parts (p c) (all_of p s) hs in
    and_both (p c) (all_of p (s ++ t)) hc (all_of-append p s t hr ht)

pub all_of-weaken :
    {A : Type 0} (p q : A → Bool)
    → ((c : A) → p c ≡ true → q c ≡ true)
    → (s : List A) → all_of p s ≡ true
    → all_of q s ≡ true
unfolding all_of
all_of-weaken p q h [] hs = refl
all_of-weaken p q h (c ∷ s) hs =
    let (hc, hr) = and_parts (p c) (all_of p s) hs in
    and_both (q c) (all_of q s) (h c hc) (all_of-weaken p q h s hr)

pub split-part :
    (b : ℕ) (s rest : Text)
    → lacks b s ≡ true
    → split (λ c. c == b) (s ++ b ∷ rest) ≡ s ∷ split (λ c. c == b) rest
unfolding split all_of
split-part b [] rest h = ground arith
split-part b (c ∷ s) rest h = ground (arith, split-part b s rest)

pub split-last : (b : ℕ) (s : Text) → lacks b s ≡ true → split (λ c. c == b) s ≡ s ∷ []
unfolding split all_of
split-last b [] h = refl
split-last b (c ∷ s) h = ground (arith, split-last b s)

pub split-join :
    (b : ℕ) (part : Text) (parts : List Text)
    → lacks b part ≡ true
    → all_of (lacks b) parts ≡ true
    → split (λ c. c == b) (join (b ∷ []) (part ∷ parts)) ≡ part ∷ parts
unfolding join all_of
split-join b part [] hp hs = split-last b part hp
split-join b part (next ∷ parts) hp hs =
    let (hn, hr) = and_parts (lacks b next) (all_of (lacks b) parts) hs in
    split-part b part (join (b ∷ []) (next ∷ parts)) hp
    ∙ ap (λ t. part ∷ t) (split-join b next parts hn hr)
