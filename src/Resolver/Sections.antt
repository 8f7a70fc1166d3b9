-- ===== src/Resolver/Sections.antt =====
-- The sections that resolv.conf is written in, read line by line.
use snx_rs.Prelude.{
  ℕ, zero, suc, true, not, ◌&&◌, List, [], ◌∷◌, ◌++◌, map, any, retain, ◌≡◌, refl, ap, ◌∙◌, inl,
  inr, Bool-cases, append_assoc, arith, ◌-◌, length,
}
use snx_rs.Prelude.Text.{
  Text, codes, is_empty, is_white, starts_with, join, text_eq, trim, trim_matches, trim_start,
  trim_end,
}
use snx_rs.Prelude.Parts.{all_of, all_of-append, and_parts, and_both}
use snx_rs.Prelude.Ipv4.{address_text, is_address_byte, address_text_bytes}
use snx_rs.Config.{lines}
use snx_rs.Config.Written.{is_plain, lines-line}
use snx_rs.Resolver.ResolvConf.{
  contains, without, is_nameserver, nameserver_line, searching, not_searching, section,
}
use snx_rs.Resolver.Retain.{retain-append, all_of-retain}

-- The lines of a file that name a server.
unfoldable pub nameservers : Text → List Text
unfolding lines is_nameserver
nameservers conf = retain is_nameserver (lines conf)

pub section-cons :
    (a b : Text) (ls : List Text) (rest : Text)
    → section (a ∷ b ∷ ls) ++ rest ≡ a ++ 10 ∷ (section (b ∷ ls) ++ rest)
unfolding section join
section-cons a b ls rest =
    ap (λ t. t ++ rest) (append_assoc a (10 ∷ join (10 ∷ []) (b ∷ ls)) (10 ∷ []))
    ∙ append_assoc a (10 ∷ (join (10 ∷ []) (b ∷ ls) ++ 10 ∷ [])) rest

pub lines-section :
    (a : Text) (ls : List Text) (rest : Text)
    → all_of (is_plain 10) (a ∷ ls) ≡ true
    → lines (section (a ∷ ls) ++ rest) ≡ (a ∷ ls) ++ lines rest
unfolding all_of section join
lines-section a [] rest h =
    ap lines (append_assoc a (10 ∷ []) rest) ∙ lines-line a rest (and_parts _ _ h).0
lines-section a (b ∷ ls) rest h =
    let (ha, hr) = and_parts _ _ h in
    ap lines (section-cons a b ls rest)
    ∙ (lines-line a (section (b ∷ ls) ++ rest) ha ∙ ap (λ t. a ∷ t) (lines-section b ls rest hr))

-- The servers that a section names, and then those behind it.
pub nameservers-section :
    (ls : List Text) (rest : Text)
    → all_of (is_plain 10) ls ≡ true
    → nameservers (section ls ++ rest) ≡ retain is_nameserver ls ++ nameservers rest
unfolding nameservers section join is_nameserver is_plain
nameservers-section [] rest h = ap (retain is_nameserver) (lines-line [] rest refl)
nameservers-section (a ∷ ls) rest h =
    ap (retain is_nameserver) (lines-section a ls rest h)
    ∙ retain-append is_nameserver (a ∷ ls) (lines rest)

pub plain-section :
    (ls : List Text) (rest : Text)
    → all_of (is_plain 10) ls ≡ true
    → all_of (is_plain 10) (lines rest) ≡ true
    → all_of (is_plain 10) (lines (section ls ++ rest)) ≡ true
unfolding all_of section join is_plain
plain-section [] rest h hr = ap (all_of (is_plain 10)) (lines-line [] rest refl) ∙ hr
plain-section (a ∷ ls) rest h hr =
    ap (all_of (is_plain 10)) (lines-section a ls rest h)
    ∙ all_of-append (is_plain 10) (a ∷ ls) (lines rest) h hr

pub is_plain-append :
    (s t : Text) → is_plain 10 s ≡ true → is_plain 10 t ≡ true → is_plain 10 (s ++ t) ≡ true
unfolding is_plain
is_plain-append [] t hs ht = ht
is_plain-append (c ∷ s) t hs ht = ground (arith, is_plain-append s t)

pub plain_bytes : (s : Text) → all_of is_address_byte s ≡ true → is_plain 10 s ≡ true
unfolding all_of is_plain
plain_bytes [] h = refl
plain_bytes (c ∷ s) h = ground (arith, plain_bytes s)

pub tail_plain : (c : ℕ) (s : Text) → is_plain 10 (c ∷ s) ≡ true → is_plain 10 s ≡ true
unfolding is_plain
tail_plain c s h = ground arith

pub add_plain :
    (c : ℕ) (s t : Text)
    → is_plain 10 (c ∷ s) ≡ true
    → is_plain 10 t ≡ true
    → is_plain 10 (c ∷ t) ≡ true
unfolding is_plain
add_plain c s t h ht = ground arith

pub without-plain :
    (p : Text) (n : ℕ) (s : Text) → is_plain 10 s ≡ true → is_plain 10 (without p n s) ≡ true
unfolding without is_plain
without-plain p n [] h = refl
without-plain p (suc n) (c ∷ s) h = without-plain p n s (tail_plain c s h)
without-plain p zero (c ∷ s) h = elim (Bool-cases (not (is_empty p) && starts_with (c ∷ s) p)) [
  | inl e ↦ rw (e, without) (without-plain p (length p - 1) s (tail_plain c s h))
  | inr e ↦
      rw (e, without)
        (add_plain c s (without p zero s) h (without-plain p zero s (tail_plain c s h)))
]

pub trim_start-plain :
    (s : Text) → is_plain 10 s ≡ true → is_plain 10 (trim_start is_white s) ≡ true
unfolding trim_start is_plain
trim_start-plain [] h = refl
trim_start-plain (c ∷ s) h = ground (arith, trim_start-plain s)

pub trim_end-plain : (s : Text) → is_plain 10 s ≡ true → is_plain 10 (trim_end is_white s) ≡ true
unfolding trim_end is_plain
trim_end-plain [] h = refl
trim_end-plain (c ∷ s) h = ground (arith, trim_end-plain s)

pub searching-plain :
    (domains : Text) (found : List Text)
    → is_plain 10 domains ≡ true
    → all_of (is_plain 10) found ≡ true
    → all_of (is_plain 10) (searching domains found) ≡ true
unfolding searching all_of is_plain
searching-plain domains [] hd h =
    and_both _ _ (is_plain-append (codes "search ") domains refl hd) refl
searching-plain domains (s ∷ found) hd h =
    let (hs, hr) = and_parts (is_plain 10 s) (all_of (is_plain 10) found) h in
    elim (Bool-cases (any (λ line. contains line domains) (s ∷ found))) [
      | inl e ↦ rw (e, searching) h
      | inr e ↦
          rw (e, searching)
            (and_both _ _
              (is_plain-append s (codes " " ++ domains) hs
                (is_plain-append (codes " ") domains refl hd))
              hr)
    ]

pub not_searching-plain :
    (domains : Text) (found : List Text)
    → all_of (is_plain 10) found ≡ true
    → all_of (is_plain 10) (not_searching domains found) ≡ true
unfolding not_searching trim trim_matches all_of
not_searching-plain domains found h =
    all_of-retain (is_plain 10) (λ s. not (text_eq s (codes "search"))) _ (mapped found h)
  where
    mapped :
        (ls : List Text)
        → all_of (is_plain 10) ls ≡ true
        → all_of (is_plain 10) (map (λ s. trim (without domains 0 s)) ls) ≡ true
    mapped [] e = refl
    mapped (s ∷ ls) e =
        let (hs, hr) = and_parts (is_plain 10 s) (all_of (is_plain 10) ls) e in
        and_both _ _
          (trim_end-plain (trim_start is_white (without domains 0 s))
            (trim_start-plain (without domains 0 s) (without-plain domains 0 s hs)))
          (mapped ls hr)

pub lines_plain : (servers : List ℕ) → all_of (is_plain 10) (map nameserver_line servers) ≡ true
unfolding all_of nameserver_line is_plain
lines_plain [] = refl
lines_plain (s ∷ servers) =
    and_both _ _
      (is_plain-append (codes "nameserver ") (address_text s) refl
        (plain_bytes (address_text s) (address_text_bytes s)))
      (lines_plain servers)
