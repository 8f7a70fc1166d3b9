-- ===== src/Resolver.antt =====
-- `ResolverConfig` and its builder of crates/snxcore/src/platform.rs: the DNS settings of a tunnel
-- from what the gateway sends and what the profile says. White space is ASCII here.
pub mod Contents
pub mod Symlinks
pub mod ResolvConf
pub mod Retain
pub mod Sections
pub mod Nameservers
use snx_rs.Prelude.{
  ℕ, ◌+◌, Bool, false, not, ◌&&◌, ◌||◌, List, [], ◌∷◌, ◌++◌, map, any, retain, leb, ◌==◌,
  if◌then◌else◌,
}
use snx_rs.Prelude.Text.{Text, text_eq, is_empty, trim_matches}
use snx_rs.Model.Params.{TunnelParams}
use snx_rs.Model.Session.{SearchDomain}

pub record PlatformFeatures : Type 0 where
  pub ipsec_native : Bool
  pub ipsec_keepalive : Bool
  pub split_dns : Bool

pub record ResolverConfig : Type 0 where
  pub split_dns : Bool
  pub search_domains : List SearchDomain
  pub dns_servers : List ℕ

pub record ResolverConfigBuilder : Type 0 where
  pub params : TunnelParams
  pub features : PlatformFeatures
  pub search_domains : List SearchDomain
  pub dns_servers : List ℕ

unfoldable pub builder : TunnelParams → PlatformFeatures → ResolverConfigBuilder
builder params features = record {
  params = params;
  features = features;
  search_domains = [];
  dns_servers = [];
}

is_trimmed : ℕ → Bool
is_trimmed c = c == b'.' || (c == 32 || (leb 9 c && leb c 13))

-- `filter_map` in `search_domains`
unfoldable pub acquired : Bool → List Text → List SearchDomain
unfolding is_trimmed trim_matches
acquired is_routing [] = []
acquired is_routing (d ∷ ds) =
    let rest = acquired is_routing ds in
    let trimmed = trim_matches is_trimmed d in
    if is_empty trimmed then rest else record { name = trimmed; is_routing = is_routing } ∷ rest

unfoldable pub search_domains : List Text → ResolverConfigBuilder → ResolverConfigBuilder
unfolding acquired
search_domains domains b = record b {
  search_domains =
      b.search_domains ++ acquired (b.params.set_routing_domains && b.features.split_dns) domains;
}

unfoldable pub dns_servers : List ℕ → ResolverConfigBuilder → ResolverConfigBuilder
dns_servers servers b = record b { dns_servers = b.dns_servers ++ servers }

-- A domain of the profile: `~` in front marks a routing domain.
unfoldable pub manual : Bool → Text → SearchDomain
manual split [] = record { name = []; is_routing = false }
manual split (c ∷ d) =
    if c == b'~'
    then record { name = d; is_routing = split }
    else record { name = c ∷ d; is_routing = false }

lower_ascii : ℕ → ℕ
lower_ascii c = if leb b'A' c && leb c b'Z' then c + 32 else c

unfoldable pub eq_ignore_ascii_case : Text → Text → Bool
unfolding lower_ascii
eq_ignore_ascii_case a b = text_eq (map lower_ascii a) (map lower_ascii b)

unfoldable pub is_kept : TunnelParams → SearchDomain → Bool
unfolding eq_ignore_ascii_case
is_kept params domain =
    not (any (λ d. eq_ignore_ascii_case d domain.name) params.ignore_search_domains)

unfoldable pub is_kept_server : TunnelParams → ℕ → Bool
is_kept_server params server = not (any (λ s. s == server) params.ignore_dns_servers)

unfoldable pub build : ResolverConfigBuilder → ResolverConfig
unfolding manual is_kept is_kept_server
build b = record {
  split_dns = b.features.split_dns && not b.params.no_split_dns;
  search_domains =
      retain (is_kept b.params)
        (b.search_domains ++ map (manual b.features.split_dns) b.params.search_domains);
  dns_servers = retain (is_kept_server b.params) (b.dns_servers ++ b.params.dns_servers);
}
