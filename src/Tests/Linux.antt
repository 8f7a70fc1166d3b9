-- ===== src/Tests/Linux.antt =====
-- Tests of finding and editing resolv.conf.
use snx_rs.Prelude.{true, false, some, [], ◌∷◌, ◌++◌, map, retain, ◌≡◌, refl, ◌<◌, ◌≤◌}
use snx_rs.Prelude.Result.{ok, is_ok}
use snx_rs.Prelude.Text.{
  Text, codes, split, text_eq, starts_with, trim, trim_matches, trim_start, trim_end, join,
}
use snx_rs.Prelude.Parts.{all_of}
use snx_rs.Prelude.Decimal.{decimal, digits_onto}
use snx_rs.Prelude.Ipv4.{address_text}
use snx_rs.Config.{lines, finish, strip_return}
use snx_rs.Config.Written.{is_plain}
use snx_rs.Model.Session.{SearchDomain}
use snx_rs.Resolver.{ResolverConfig}
use snx_rs.Resolver.ResolvConf.{
  contains, without, is_nameserver, is_search, is_other, is_existing, names_of, nameserver_line,
  searching, not_searching, section, configured, cleaned,
}
use snx_rs.Resolver.Symlinks.{
  Paths, read_symlinks, absolute_target, Leads, ends, follows, read_symlinks-Leads,
}
use snx_rs.Resolver.Sections.{nameservers}
use snx_rs.Resolver.Nameservers.{cleaned-configured}

abbrev domain : SearchDomain
domain = record { name = codes "corp"; is_routing = false }

abbrev config : ResolverConfig
config = record { split_dns = false; search_domains = domain ∷ []; dns_servers = 0x0a00_0001 ∷ [] }

-- Two servers, the second of which has the text of the gateway's server in it.
abbrev conf : Text
conf =
    codes "nameserver 1.1.1.1"
    ++ 10 ∷ (codes "search lab" ++ 10 ∷ (codes "nameserver 10.0.0.12" ++ 10 ∷ []))

conf_plain : all_of (is_plain 10) (lines conf) ≡ true
unfolding all_of is_plain lines finish strip_return split
conf_plain = refl

domain_plain : is_plain 10 (names_of config.search_domains) ≡ true
unfolding is_plain names_of join
domain_plain = refl

none_turns :
    retain is_nameserver (
      not_searching
        (names_of config.search_domains)
        (retain is_search (lines (configured config conf))))
    ≡ []
unfolding is_nameserver not_searching names_of is_search lines finish strip_return split configured
    section searching is_other is_existing nameserver_line contains without starts_with text_eq trim
    trim_matches trim_start trim_end join address_text decimal digits_onto
none_turns = refl

-- The second server is lost.
lost_server :
    nameservers (cleaned config (configured config conf)) ≡ codes "nameserver 1.1.1.1" ∷ []
unfolding nameservers is_nameserver not_searching names_of is_search lines finish strip_return split
    configured cleaned section searching is_other is_existing nameserver_line contains without
    starts_with text_eq trim trim_matches trim_start trim_end join address_text decimal digits_onto
lost_server = refl

cleaned-configured_example :
    (nameservers (configured config conf)
      ≡ map nameserver_line config.dns_servers
        ++ retain (is_existing config.dns_servers) (lines conf))
    × (nameservers (cleaned config (configured config conf))
        ≡ retain (is_existing config.dns_servers) (lines conf))
cleaned-configured_example = cleaned-configured config conf conf_plain domain_plain none_turns

-- A link to a file beside it.
abbrev files : Paths
files = record {
  is_symlink = λ path. ok (text_eq path (codes "/etc/resolv.conf"));
  read_link = λ path. ok (codes "stub.conf");
  parent = λ path. some (codes "/etc");
  join = λ parent target. parent ++ (codes "/" ++ target);
  canonical_components = λ path. ok [];
}

one_link : Leads files (codes "/etc/resolv.conf") (codes "/etc/stub.conf") 1
unfolding text_eq absolute_target
one_link =
    follows (codes "/etc/resolv.conf") (codes "stub.conf") (codes "/etc/stub.conf") 0 refl refl
      (ends (codes "/etc/stub.conf") refl)

read_symlinks-Leads_example :
    (1 < 10 → read_symlinks files (codes "/etc/resolv.conf") 10 ≡ ok (codes "/etc/stub.conf"))
    × (10 ≤ 1 → is_ok (read_symlinks files (codes "/etc/resolv.conf") 10) ≡ false)
read_symlinks-Leads_example =
    read_symlinks-Leads files (codes "/etc/resolv.conf") (codes "/etc/stub.conf") 1 10 one_link
