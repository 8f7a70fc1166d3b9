-- ===== src/Resolver/Nameservers.antt =====
-- The name servers of resolv.conf, after it has been configured and cleaned up.
use snx_rs.Prelude.{
  ℕ, Bool, true, false, not, ◌&&◌, ◌||◌, List, [], ◌∷◌, ◌++◌, map, any, retain, ◌≡◌, refl, ap, ◌∙◌,
  sym, inl, inr, Bool-cases, append-nil, arith, ◌==◌, ==_refl,
}
use snx_rs.Prelude.Text.{Text, codes, starts_with}
use snx_rs.Prelude.Parts.{all_of, all_of-weaken, and_parts, and_both}
use snx_rs.Prelude.Ipv4.{address_text}
use snx_rs.Config.{lines}
use snx_rs.Config.Written.{is_plain}
use snx_rs.Resolver.{ResolverConfig}
use snx_rs.Resolver.ResolvConf.{
  contains, is_nameserver, is_search, is_other, is_existing, names_of, nameserver_line, searching,
  not_searching, section, configured, cleaned,
}
use snx_rs.Resolver.Retain.{
  retain-append, retain-none, retain-all, all_of-retain, all_of-kept, retain-no, retain-within,
}
use snx_rs.Resolver.Sections.{
  nameservers, nameservers-section, plain-section, searching-plain, not_searching-plain,
  lines_plain,
}

search_apart : (line : Text) → is_search line ≡ true → is_nameserver line ≡ false
unfolding is_search is_nameserver starts_with
search_apart [] h = refl
search_apart (c ∷ line) h = ground arith

other_apart : (line : Text) → is_other line ≡ true → is_nameserver line ≡ false
unfolding is_other
other_apart line h = not-false (is_nameserver line) (and_parts (not (is_nameserver line)) _ h).0
  where
    not-false : (b : Bool) → not b ≡ true → b ≡ false
    not-false true e = cc e
    not-false false e = refl

existing-nameserver :
    (servers : List ℕ) (line : Text) → is_existing servers line ≡ true → is_nameserver line ≡ true
unfolding is_existing
existing-nameserver servers line h = (and_parts (is_nameserver line) _ h).0

starts_with-append : (s p t : Text) → starts_with s p ≡ true → starts_with (s ++ t) p ≡ true
unfolding starts_with
starts_with-append [] [] [] h = refl
starts_with-append [] [] (c ∷ t) h = refl
starts_with-append [] (d ∷ p) t h = cc h
starts_with-append (c ∷ s) [] t h = refl
starts_with-append (c ∷ s) (d ∷ p) t h =
    let (hc, hr) = and_parts (c == d) (starts_with s p) h in
    and_both (c == d) (starts_with (s ++ t) p) hc (starts_with-append s p t hr)

searching-search :
    (domains : Text) (found : List Text)
    → all_of is_search found ≡ true
    → all_of is_search (searching domains found) ≡ true
unfolding searching all_of is_search starts_with
searching-search domains [] h = refl
searching-search domains (s ∷ found) h =
    let (hs, hr) = and_parts (is_search s) (all_of is_search found) h in
    elim (Bool-cases (any (λ line. contains line domains) (s ∷ found))) [
      | inl e ↦ rw (e, searching) h
      | inr e ↦
          rw (e, searching)
            (and_both _ _ (starts_with-append s (codes "search") (codes " " ++ domains) hs) hr)
    ]

lines_named :
    (servers : List ℕ)
    → retain is_nameserver (map nameserver_line servers) ≡ map nameserver_line servers
unfolding nameserver_line is_nameserver starts_with
lines_named [] = refl
lines_named (s ∷ servers) = ap (λ t. nameserver_line s ∷ t) (lines_named servers)

starts_with_refl : (p : Text) → starts_with p p ≡ true
unfolding starts_with
starts_with_refl [] = refl
starts_with_refl (c ∷ p) = and_both (c == c) (starts_with p p) (==_refl c) (starts_with_refl p)

or_left : (a b : Bool) → a ≡ true → (a || b) ≡ true
or_left true b h = refl
or_left false b h = cc h

or_right : (a b : Bool) → b ≡ true → (a || b) ≡ true
or_right true b h = refl
or_right false b h = h

contains-append : (t p : Text) → contains (t ++ p) p ≡ true
unfolding contains
contains-append [] [] = starts_with_refl []
contains-append [] (c ∷ p) =
    or_left (starts_with (c ∷ p) (c ∷ p)) (contains p (c ∷ p)) (starts_with_refl (c ∷ p))
contains-append (c ∷ t) p =
    or_right (starts_with (c ∷ (t ++ p)) p) (contains (t ++ p) p) (contains-append t p)

-- The lines of the servers each mention one of them.
own_mentioned :
    (servers : List ℕ)
    → all_of (λ s. any (λ x. contains (nameserver_line s) (address_text x)) servers) servers ≡ true
unfolding all_of nameserver_line
own_mentioned [] = refl
own_mentioned (s ∷ servers) =
    and_both _ _ (or_left _ _ (contains-append (codes "nameserver ") (address_text s))) (
      all_of-weaken (λ t. any (λ x. contains (nameserver_line t) (address_text x)) servers)
        (λ t. any (λ x. contains (nameserver_line t) (address_text x)) (s ∷ servers))
        (λ t h. or_right (contains (nameserver_line t) (address_text s)) _ h) servers
        (own_mentioned servers))

none-existing :
    (servers named : List ℕ)
    → all_of (λ s. any (λ x. contains (nameserver_line s) (address_text x)) servers) named ≡ true
    → retain (is_existing servers) (map nameserver_line named) ≡ []
unfolding all_of is_existing
none-existing servers [] h = refl
none-existing servers (s ∷ named) h =
    let (hs, hr) =
      and_parts (any (λ x. contains (nameserver_line s) (address_text x)) servers)
        (all_of (λ s. any (λ x. contains (nameserver_line s) (address_text x)) servers) named) h in
    rw (dropped (is_nameserver (nameserver_line s)) _ hs) (none-existing servers named hr)
  where
    dropped : (a b : Bool) → b ≡ true → (a && not b) ≡ false
    dropped true b e = rw (e) refl
    dropped false b e = refl

module _ (config : ResolverConfig) (conf : Text) where
  -- The file's lines that name another server.
  abbrev existing : List Text
  existing = retain (is_existing config.dns_servers) (lines conf)

  abbrev found : List Text
  found = retain is_search (lines conf)

  last_nameservers :
      all_of (is_plain 10) (lines conf) ≡ true → nameservers (section existing) ≡ existing
  unfolding lines nameservers
  last_nameservers plain =
      ap nameservers (sym (append-nil (section existing)))
      ∙ (nameservers-section existing []
            (all_of-retain (is_plain 10) (is_existing config.dns_servers) (lines conf) plain)
          ∙ (append-nil (retain is_nameserver existing)
              ∙ retain-all is_nameserver (is_existing config.dns_servers)
                  (existing-nameserver config.dns_servers) (lines conf)))

  -- The last two sections.
  tail_nameservers :
      all_of (is_plain 10) (lines conf) ≡ true
      → nameservers (section (map nameserver_line config.dns_servers) ++ section existing)
        ≡ map nameserver_line config.dns_servers ++ existing
  unfolding lines nameservers
  tail_nameservers plain =
      nameservers-section (map nameserver_line config.dns_servers) (section existing)
        (lines_plain config.dns_servers)
      ∙ (λ i. lines_named config.dns_servers i ++ last_nameservers plain i)

  -- What `configure` writes names the servers of the configuration, and then the others of the file.
  nameservers-configured :
      all_of (is_plain 10) (lines conf) ≡ true
      → is_plain 10 (names_of config.search_domains) ≡ true
      → nameservers (configured config conf) ≡ map nameserver_line config.dns_servers ++ existing
  unfolding configured
  nameservers-configured plain one_line =
      nameservers-section (retain is_other (lines conf)) _
        (all_of-retain (is_plain 10) is_other (lines conf) plain)
      ∙ ((λ i.
            retain-none is_nameserver is_other other_apart (lines conf) i
            ++ nameservers (
                section (searching (names_of config.search_domains) found)
                ++ (section (map nameserver_line config.dns_servers) ++ section existing)))
          ∙ (nameservers-section (searching (names_of config.search_domains) found) _ (
                searching-plain (names_of config.search_domains) found one_line
                  (all_of-retain (is_plain 10) is_search (lines conf) plain))
              ∙ (λ i.
                  retain-no is_nameserver is_search search_apart
                    (searching (names_of config.search_domains) found)
                    (searching-search (names_of config.search_domains) found
                      (all_of-kept is_search (lines conf)))
                    i
                  ++ tail_nameservers plain i)))

  configured_plain :
      all_of (is_plain 10) (lines conf) ≡ true
      → is_plain 10 (names_of config.search_domains) ≡ true
      → all_of (is_plain 10) (lines (configured config conf)) ≡ true
  unfolding configured lines all_of
  configured_plain plain one_line =
      plain-section (retain is_other (lines conf)) _
        (all_of-retain (is_plain 10) is_other (lines conf) plain)
        (plain-section (searching (names_of config.search_domains) found) _
          (searching-plain (names_of config.search_domains) found one_line
            (all_of-retain (is_plain 10) is_search (lines conf) plain))
          (plain-section (map nameserver_line config.dns_servers) _ (lines_plain config.dns_servers)
            (ap (λ t. all_of (is_plain 10) (lines t)) (sym (append-nil (section existing)))
              ∙ plain-section existing [] (all_of-retain (is_plain 10) _ (lines conf) plain) refl)))

  -- What `cleanup` writes names the other servers of its file, unless a search line turns into a
  -- line of a server.
  nameservers-cleaned :
      all_of (is_plain 10) (lines conf) ≡ true
      → retain is_nameserver (not_searching (names_of config.search_domains) found) ≡ []
      → nameservers (cleaned config conf) ≡ existing
  unfolding cleaned nameservers lines
  nameservers-cleaned plain none_turns =
      nameservers-section (retain is_other (lines conf)) _
        (all_of-retain (is_plain 10) is_other (lines conf) plain)
      ∙ ((λ i.
            retain-none is_nameserver is_other other_apart (lines conf) i
            ++ nameservers (
                section (not_searching (names_of config.search_domains) found) ++ section existing))
          ∙ (nameservers-section (not_searching (names_of config.search_domains) found) _ (
                not_searching-plain (names_of config.search_domains) found
                  (all_of-retain (is_plain 10) is_search (lines conf) plain))
              ∙ (λ i. none_turns i ++ last_nameservers plain i)))

  -- The other servers are the same after `configure`.
  existing-configured :
      all_of (is_plain 10) (lines conf) ≡ true
      → is_plain 10 (names_of config.search_domains) ≡ true
      → retain (is_existing config.dns_servers) (lines (configured config conf)) ≡ existing
  unfolding nameservers
  existing-configured plain one_line =
      retain-within (is_existing config.dns_servers) is_nameserver
        (existing-nameserver config.dns_servers) (lines (configured config conf))
      ∙ (ap (retain (is_existing config.dns_servers)) (nameservers-configured plain one_line)
          ∙ (retain-append (is_existing config.dns_servers) (map nameserver_line config.dns_servers)
                existing
              ∙ (λ i.
                  none-existing config.dns_servers config.dns_servers
                    (own_mentioned config.dns_servers) i
                  ++ retain-all (is_existing config.dns_servers) (is_existing config.dns_servers)
                      (λ line h. h) (lines conf) i)))

-- After `configure`, resolv.conf names the servers of the tunnel and then those of its former
-- servers whose lines have the text of none of the tunnel's in them; after `cleanup`, these former
-- servers alone. The lines of the file must have no carriage return, the search domains of the
-- tunnel no line feed and no carriage return, and no search line may turn into a line of a server
-- when the domains are taken out of it.
pub cleaned-configured :
    (config : ResolverConfig) (conf : Text)
    → all_of (is_plain 10) (lines conf) ≡ true
    → is_plain 10 (names_of config.search_domains) ≡ true
    → retain is_nameserver (
        not_searching
          (names_of config.search_domains)
          (retain is_search (lines (configured config conf))))
      ≡ []
    → (nameservers (configured config conf)
        ≡ map nameserver_line config.dns_servers
          ++ retain (is_existing config.dns_servers) (lines conf))
      × (nameservers (cleaned config (configured config conf))
          ≡ retain (is_existing config.dns_servers) (lines conf))
cleaned-configured config conf plain one_line none_turns = (
  nameservers-configured config conf plain one_line,
  nameservers-cleaned config (configured config conf) (configured_plain config conf plain one_line)
        none_turns
      ∙ existing-configured config conf plain one_line,
)
