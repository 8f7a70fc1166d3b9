-- ===== src/Config/Lists.antt =====
-- Lists are read back from what is written with commas.
use snx_rs.Prelude.{
  ℕ, ◌^◌, ◌<◌, ◌≤◌, Bool, true, false, not, ◌&&◌, Option, none, some, List, [], ◌∷◌, map, ◌≡◌, refl,
  ap, ◌∙◌, sym, inl, inr, arith, ltb, leb, ◌==◌, Bool-cases,
}
use snx_rs.Prelude.Text.{Text, is_empty, is_white, split, join, text_eq, text_eq_iff, trim}
use snx_rs.Prelude.Parts.{all_of, lacks, all_of-weaken, and_parts, and_both, split-join}
use snx_rs.Prelude.Ipv4.{
  address_text, parse_address, parse_address-address_text, is_address_byte, address_text_bytes,
  address_text_filled,
}
use snx_rs.Config.Formats.{Formats}
use snx_rs.Config.Options
use snx_rs.Config.Options.{parse_all, parse_ipv4_or_subnet, ipv4net_to_string}
use snx_rs.Config.Save.{with_commas}
use snx_rs.Config.Dictionary.{read_or}
use snx_rs.Config.Fields.{kept, IsSound, read_filled, trim-solid}

-- What can stand between commas: text with no comma, nothing in it to trim, and not empty.
unfoldable pub is_part : Text → Bool
unfolding text_eq trim all_of
is_part s = not (is_empty s) && (lacks b',' s && text_eq (trim s) s)

join_filled :
    (b : ℕ) (s : Text) (parts : List Text)
    → is_empty s ≡ false
    → is_empty (join (b ∷ []) (s ∷ parts)) ≡ false
unfolding join
join_filled b [] parts h = cc h
join_filled b (c ∷ s) [] h = refl
join_filled b (c ∷ s) (t ∷ parts) h = refl

-- What is written with commas and read part by part.
read_parts :
    {A B : Type 0} (show : A → Text) (read : List Text → B) (other : B) (a : A) (more : List A)
    → is_empty (show a) ≡ false
    → all_of (λ x. lacks b',' (show x)) (a ∷ more) ≡ true
    → read_or
        (λ v. read (split (λ c. c == b',') v))
        other
        (kept (some (with_commas (map show (a ∷ more)))) none)
      ≡ read (map show (a ∷ more))
unfolding with_commas all_of
read_parts {A = A} show read other a more filled h =
    let (ha, hs) = and_parts _ _ h in
    read_filled (λ v. read (split (λ c. c == b',') v)) other
      (join (b',' ∷ []) (show a ∷ map show more)) (join_filled b',' (show a) (map show more) filled)
    ∙ ap read (split-join b',' (show a) (map show more) ha (lacking more hs))
  where
    lacking :
        (xs : List A)
        → all_of (λ x. lacks b',' (show x)) xs ≡ true
        → all_of (lacks b',') (map show xs) ≡ true
    lacking [] e = refl
    lacking (x ∷ xs) e = let (ex, er) = and_parts _ _ e in and_both _ _ ex (lacking xs er)

map_id : (parts : List Text) → map (λ s. s) parts ≡ parts
map_id [] = refl
map_id (s ∷ parts) = ap (λ t. s ∷ t) (map_id parts)

map-trim : (parts : List Text) → all_of is_part parts ≡ true → map trim parts ≡ parts
unfolding all_of is_part
map-trim [] h = refl
map-trim (s ∷ parts) h =
    let (hs, hr) = and_parts _ _ h in
    let trimmed = (text_eq_iff (trim s) s).0 (and_parts _ _ (and_parts _ _ hs).1).1 in
    λ i. trimmed i ∷ map-trim parts hr i

part_lacks : (s : Text) → is_part s ≡ true → lacks b',' s ≡ true
unfolding is_part
part_lacks s h = (and_parts _ _ (and_parts _ _ h).1).0

part_filled : (s : Text) → is_part s ≡ true → is_empty s ≡ false
unfolding is_part
part_filled [] h = cc h
part_filled (c ∷ s) h = refl

pub commas_field :
    (parts : List Text)
    → all_of is_part parts ≡ true
    → read_or Options.commas [] (kept (some (with_commas parts)) none) ≡ parts
unfolding Options.commas with_commas join read_or kept all_of
commas_field [] h = refl
commas_field (s ∷ parts) h =
    ap (λ t. read_or Options.commas [] (kept (some (with_commas t)) none))
      (sym (map_id (s ∷ parts)))
    ∙ read_parts (λ t. t) (map trim) [] s parts (part_filled s (and_parts _ _ h).0)
        (all_of-weaken is_part (lacks b',') part_lacks (s ∷ parts) h)
    ∙ (ap (map trim) (map_id (s ∷ parts)) ∙ map-trim (s ∷ parts) h)

-- Reading every part that has been written.
parse_all-map :
    {A : Type 0} (p : A → Bool) (show : A → Text) (parse : Text → Option A)
    → ((a : A) → p a ≡ true → parse (show a) ≡ some a)
    → (xs : List A) → all_of p xs ≡ true
    → parse_all parse (map show xs) ≡ xs
unfolding parse_all all_of
parse_all-map p show parse law [] h = refl
parse_all-map p show parse law (x ∷ xs) h =
    let (hx, hr) = and_parts _ _ h in
    rw (law x hx, parse_all) (ap (λ t. x ∷ t) (parse_all-map p show parse law xs hr))

abbrev pub is_address : ℕ → Bool
is_address a = ltb a 0x1_0000_0000

address-lacks : (a : ℕ) → lacks b',' (address_text a) ≡ true
address-lacks a =
    all_of-weaken is_address_byte (λ c. not (c == b',')) (λ c h. ground arith) (address_text a)
      (address_text_bytes a)

parse-trim : (a : ℕ) → is_address a ≡ true → parse_address (trim (address_text a)) ≡ some a
parse-trim a h =
    ap parse_address (
      trim-solid (address_text a) (
        all_of-weaken is_address_byte (λ c. not (is_white c)) (λ c d. ground arith) (address_text a)
          (address_text_bytes a)))
    ∙ parse_address-address_text a (ground arith)

pub addresses_field :
    (xs : List ℕ)
    → all_of is_address xs ≡ true
    → read_or Options.addresses [] (kept (some (with_commas (map address_text xs))) none) ≡ xs
unfolding Options.addresses with_commas join read_or kept
addresses_field [] h = refl
addresses_field (a ∷ xs) h =
    read_parts address_text (parse_all (λ s. parse_address (trim s))) [] a xs
      (address_text_filled a)
      (all_of-weaken is_address (λ x. lacks b',' (address_text x)) (λ x e. address-lacks x) (a ∷ xs)
        h)
    ∙ parse_all-map is_address address_text (λ s. parse_address (trim s)) parse-trim (a ∷ xs) h

abbrev pub is_net : ℕ × ℕ → Bool
is_net (a, prefix_len) = is_address a && leb prefix_len 32

module _ (formats : Formats) (sound : IsSound formats) where
  route_lacks : (net : ℕ × ℕ) → lacks b',' (ipv4net_to_string formats net) ≡ true
  unfolding ipv4net_to_string
  route_lacks (a, prefix_len) = elim (Bool-cases (prefix_len == 32)) [
    | inl e ↦ rw (e, ipv4net_to_string) (address-lacks a)
    | inr e ↦ rw (e, ipv4net_to_string) (sound.net_text_lacks (a, prefix_len))
  ]

  route_filled : (net : ℕ × ℕ) → is_empty (ipv4net_to_string formats net) ≡ false
  unfolding ipv4net_to_string
  route_filled (a, prefix_len) = elim (Bool-cases (prefix_len == 32)) [
    | inl e ↦ rw (e, ipv4net_to_string) (address_text_filled a)
    | inr e ↦ rw (e, ipv4net_to_string) (sound.net_filled (a, prefix_len))
  ]

  reads_net :
      (s : Text) (net : ℕ × ℕ)
      → formats.parse_net s ≡ some net
      → parse_ipv4_or_subnet formats s ≡ some net
  unfolding parse_ipv4_or_subnet
  reads_net s net h = rw (h, parse_ipv4_or_subnet) refl

  reads_address :
      (s : Text) (a : ℕ)
      → formats.parse_net s ≡ none
      → parse_address s ≡ some a
      → parse_ipv4_or_subnet formats s ≡ some (a, 32)
  unfolding parse_ipv4_or_subnet
  reads_address s a h e = rw (h, e, parse_ipv4_or_subnet) refl

  -- A route is read back from its text: a single address, which is written without a length, and a
  -- subnet. The formats of ipnet must read back what they write.
  pub parse-ipv4net_to_string :
      (net : ℕ × ℕ)
      → is_net net ≡ true
      → parse_ipv4_or_subnet formats (ipv4net_to_string formats net) ≡ some net
  unfolding ipv4net_to_string
  parse-ipv4net_to_string (a, prefix_len) h =
      let (ha, hp) = and_parts (is_address a) (leb prefix_len 32) h in
      let address : a < 2 ^ 32 = ground arith in
      let length : prefix_len ≤ 32 = ground arith in
      elim (Bool-cases (prefix_len == 32)) [
        | inl e ↦
            let single : 32 ≡ prefix_len = ground arith in
            rw (e, ipv4net_to_string)
              (reads_address (address_text a) a (sound.parse_net-address_text a address)
                  (parse_address-address_text a (ground arith))
                ∙ ap (λ t. some (a, t)) single)
        | inr e ↦
            rw (e, ipv4net_to_string)
              (reads_net (formats.net_text (a, prefix_len)) (a, prefix_len)
                (sound.parse_net-net_text a prefix_len address length))
      ]

  pub routes_field :
      (xs : List (ℕ × ℕ))
      → all_of is_net xs ≡ true
      → read_or
          (Options.routes formats)
          []
          (kept (some (with_commas (map (ipv4net_to_string formats) xs))) none)
        ≡ xs
  unfolding Options.routes with_commas join read_or kept
  routes_field [] h = refl
  routes_field (net ∷ xs) h =
      read_parts (ipv4net_to_string formats) (parse_all (parse_ipv4_or_subnet formats)) [] net xs
        (route_filled net)
        (all_of-weaken is_net (λ x. lacks b',' (ipv4net_to_string formats x)) (λ x e. route_lacks x)
          (net ∷ xs) h)
      ∙ parse_all-map is_net (ipv4net_to_string formats) (parse_ipv4_or_subnet formats)
          parse-ipv4net_to_string (net ∷ xs) h
