-- ===== src/Resolver/Contents.antt =====
-- What the built settings hold.
use snx_rs.Prelude.{
  ℕ, Bool, not, ◌&&◌, ◌||◌, List, [], ◌∷◌, ◌++◌, ◌≡◌, refl, ap, ◌∙◌, any, retain, ◌==◌, arith,
}
use snx_rs.Model.Params.{TunnelParams}
use snx_rs.Resolver.{PlatformFeatures, builder, dns_servers, is_kept_server, build}

abbrev pub contains : ℕ → List ℕ → Bool
contains n xs = any (λ x. x == n) xs

any-append {ℓ} :
    {A : Type ℓ} (p : A → Bool) (xs ys : List A) → any p (xs ++ ys) ≡ (any p xs || any p ys)
any-append p [] ys = refl
any-append p (x ∷ xs) ys = ground (arith, any-append p xs ys)

any-is_kept_server :
    (params : TunnelParams) (server : ℕ) (xs : List ℕ)
    → contains server (retain (is_kept_server params) xs)
      ≡ (contains server xs && is_kept_server params server)
any-is_kept_server params server [] = refl
any-is_kept_server params server (x ∷ xs) = ground (arith, any-is_kept_server params server xs)

-- A server is configured exactly if the gateway or the profile names it and the profile does not
-- ignore it. So a server that the profile itself adds is left out as well if the profile ignores
-- it.
pub contains-build :
    (params : TunnelParams) (features : PlatformFeatures) (servers : List ℕ) (server : ℕ)
    → contains server (build (dns_servers servers (builder params features))).dns_servers ≡ (
        (contains server servers || contains server params.dns_servers)
        && not (any (λ s. s == server) params.ignore_dns_servers))
unfolding build dns_servers builder is_kept_server
contains-build params features servers server =
    any-is_kept_server params server (servers ++ params.dns_servers)
    ∙ ap (λ b. b && is_kept_server params server)
        (any-append (λ x. x == server) servers params.dns_servers)
