-- ===== src/Tests/Resolver.antt =====
-- Tests of the DNS settings.
use snx_rs.Prelude.{true, false, not, ◌&&◌, ◌||◌, ◌==◌, [], ◌∷◌, ◌≡◌, any}
use snx_rs.Prelude.Text.{codes}
use snx_rs.Model.Params.{TunnelParams}
use snx_rs.Resolver.{PlatformFeatures, builder, dns_servers, build}
use snx_rs.Resolver.Contents.{contains, contains-build}
use snx_rs.Tests.Data.{params}

abbrev profile : TunnelParams
profile = record params {
  search_domains = codes "~corp" ∷ codes "home" ∷ [];
  ignore_search_domains = codes "HOME" ∷ [];
  dns_servers = 1 ∷ 2 ∷ [];
  ignore_dns_servers = 2 ∷ 3 ∷ [];
}

abbrev split : PlatformFeatures
split = record { ipsec_native = false; ipsec_keepalive = false; split_dns = true }

contains-build_example :
    contains 3 (build (dns_servers (3 ∷ 4 ∷ []) (builder profile split))).dns_servers ≡ (
      (contains 3 (3 ∷ 4 ∷ []) || contains 3 profile.dns_servers)
      && not (any (λ s. s == 3) profile.ignore_dns_servers))
contains-build_example = contains-build profile split (3 ∷ 4 ∷ []) 3
