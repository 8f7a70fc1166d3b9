-- ===== src/Resolver/ResolvConf.antt =====
-- The configurators of crates/snxcore/src/platform/linux/resolver.rs: the calls to systemd-resolved, and the
-- editing of resolv.conf.
use snx_rs.Prelude.{
  ℕ, zero, suc, ◌-◌, ◌/◌, ◌%◌, Bool, not, ◌&&◌, ◌||◌, List, [], ◌∷◌, ◌++◌, map, any, retain, length,
  if◌then◌else◌,
}
use snx_rs.Prelude.Result.{Result, ok, err}
use snx_rs.Prelude.Text.{Text, codes, text_eq, starts_with, is_empty, trim, join}
use snx_rs.Prelude.Ipv4.{address_text}
use snx_rs.Model.Session.{SearchDomain}
use snx_rs.Config.{lines}
use snx_rs.Resolver.{ResolverConfig}

-- `str::contains`
unfoldable pub contains : Text → Text → Bool
unfolding starts_with
contains [] p = starts_with [] p
contains (c ∷ s) p = let later = contains s p in starts_with (c ∷ s) p || later

-- `str::replace` by nothing, with so many bytes of the last match to leave out.
unfoldable pub without : Text → ℕ → Text → Text
unfolding starts_with
without p n [] = []
without p (suc n) (c ∷ s) = without p n s
without p zero (c ∷ s) =
    let inside = without p (length p - 1) s in
    let outside = c ∷ without p zero s in
    if not (is_empty p) && starts_with (c ∷ s) p then inside else outside

unfoldable pub is_nameserver : Text → Bool
unfolding starts_with
is_nameserver line = starts_with line (codes "nameserver")

unfoldable pub is_search : Text → Bool
unfolding starts_with
is_search line = starts_with line (codes "search")

-- `Itertools::join` of the names
unfoldable pub names_of : List SearchDomain → Text
unfolding join
names_of domains = join (codes " ") (map (λ d. d.name) domains)

unfoldable pub nameserver_line : ℕ → Text
unfolding address_text
nameserver_line s = codes "nameserver " ++ address_text s

-- A line of another server: one that has the text of no server of the configuration in it.
unfoldable pub is_existing : List ℕ → Text → Bool
unfolding is_nameserver contains address_text
is_existing servers line =
    is_nameserver line && not (any (λ s. contains line (address_text s)) servers)

unfoldable pub is_other : Text → Bool
unfolding is_nameserver is_search
is_other line = not (is_nameserver line) && not (is_search line)

unfoldable pub searching : Text → List Text → List Text
unfolding contains
searching domains [] = (codes "search " ++ domains) ∷ []
searching domains (s ∷ found) =
    if not (any (λ line. contains line domains) (s ∷ found))
    then (s ++ (codes " " ++ domains)) ∷ found
    else s ∷ found

unfoldable pub not_searching : Text → List Text → List Text
unfolding without trim text_eq
not_searching domains found =
    retain (λ s. not (text_eq s (codes "search"))) (map (λ s. trim (without domains 0 s)) found)

-- `writeln!` of the lines joined: a section with no lines is an empty line.
unfoldable pub section : List Text → Text
unfolding join
section ls = join (10 ∷ []) ls ++ 10 ∷ []

-- What is written over the file.
unfoldable pub configured : ResolverConfig → Text → Text
unfolding section lines is_other is_search is_existing searching names_of nameserver_line
configured config conf =
    section (retain is_other (lines conf))
    ++ (section (searching (names_of config.search_domains) (retain is_search (lines conf)))
        ++ (section (map nameserver_line config.dns_servers)
            ++ section (retain (is_existing config.dns_servers) (lines conf))))

unfoldable pub cleaned : ResolverConfig → Text → Text
unfolding section lines is_other is_search is_existing not_searching names_of
cleaned config conf =
    section (retain is_other (lines conf))
    ++ (section (not_searching (names_of config.search_domains) (retain is_search (lines conf)))
        ++ section (retain (is_existing config.dns_servers) (lines conf)))

-- The file is read and written by operations on a state of its own.
unfoldable pub configure_or_cleanup :
    {W : Type 0}
    → (W → Result Text × W)
    → (Text → W → Result (Unit {0}) × W)
    → ResolverConfig
    → Bool
    → W
    → Result (Unit {0}) × W
unfolding configured cleaned
configure_or_cleanup read_to_string write config configure w =
    let (read, after) = read_to_string w in
    elim read [
      | err e ↦ (err e, after)
      | ok conf ↦ write (if configure then configured config conf else cleaned config conf) after
    ]

-- What systemd-resolved is asked for a link.
pub data LinkCall : Type 0 where
  set_link_domains : List (Text × Bool) → LinkCall
  set_link_default_route : Bool → LinkCall
  set_link_multicast_dns set_link_llmnr set_link_dns_over_tls : Text → LinkCall
  set_link_dns : List (ℕ × List ℕ) → LinkCall

abbrev pub af_inet : ℕ
af_inet = 2

unfoldable pub octets : ℕ → List ℕ
octets a = a / 0x100_0000 ∷ a / 0x1_0000 % 0x100 ∷ a / 0x100 % 0x100 ∷ a % 0x100 ∷ []

unfoldable pub link_calls : ResolverConfig → List LinkCall
unfolding octets
link_calls config =
    set_link_domains (map (λ d. (d.name, d.is_routing)) config.search_domains)
    ∷ set_link_default_route (not config.split_dns)
    ∷ set_link_multicast_dns (codes "no")
    ∷ set_link_llmnr (codes "no")
    ∷ set_link_dns_over_tls (codes "no")
    ∷ set_link_dns (map (λ ip. (af_inet, octets ip)) config.dns_servers)
    ∷ []
