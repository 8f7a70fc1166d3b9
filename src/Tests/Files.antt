-- ===== src/Tests/Files.antt =====
-- A profile that is saved and loaded again.
use snx_rs.Prelude.{ℕ, ◌^◌, ◌<◌, not, true, some, [], ◌∷◌, ◌≡◌, refl, arith}
use snx_rs.Prelude.Result.{ok}
use snx_rs.Prelude.Text.{codes, text_eq, trim, trim_matches, trim_start, trim_end, join}
use snx_rs.Prelude.Parts.{all_of}
use snx_rs.Prelude.Decimal.{decimal, digits_onto}
use snx_rs.Prelude.Ipv4.{address_text}
use snx_rs.Model.CertType.{pkcs12}
use snx_rs.Model.Params.{TunnelParams}
use snx_rs.Model.TunnelType
use snx_rs.Model.CertType
use snx_rs.Model.ColorTheme
use snx_rs.Model.TransportType
use snx_rs.Model.TlsVersion
use snx_rs.Config.Written.{is_value, is_plain}
use snx_rs.Config.Options.{load, ipv4net_to_string}
use snx_rs.Config.Save.{options_of, flag_text, with_commas, lease_text, file_text}
use snx_rs.Config.Lists.{is_part}
use snx_rs.Config.Saved.{are_values}
use snx_rs.Config.RoundTrip.{IsStorable, saved_part, load-save}
use snx_rs.Prelude.Text.{is_white, is_digit}
use snx_rs.Prelude.Parts.{all_of-weaken}
use snx_rs.Prelude.Decimal.{digits_onto-digits}
use snx_rs.Config.Order.{
  less, compare_profiles, compare_at, compare_unknown, position, load_profile_order, order_text,
}
use snx_rs.Config.Sorted.{is_uuid, reverse, load_profile_order-order_text, compare_profiles-reverse}
use snx_rs.Tests.Data.{params}
use snx_rs.Tests.Formats.{formats, formats-IsSound, show_net, show_uuid}

abbrev profile : TunnelParams
profile = record params {
  server_name = codes "vpn.corp";
  password = codes "secret";
  search_domains = codes "corp" ∷ codes "lab" ∷ [];
  dns_servers = 0x0a00_0001 ∷ [];
  add_routes = (0x0a00_0000, 8) ∷ (0x0a00_0002, 32) ∷ [];
  no_dns = true;
  cert_type = pkcs12;
  cert_path = some (codes "/etc/cert.p12");
  ip_lease_time = some 500;
  mfa_code = some (codes "123456");
}

profile_values : are_values (options_of formats profile) ≡ true
unfolding are_values options_of is_value is_plain with_commas join flag_text lease_text decimal
    digits_onto address_text ipv4net_to_string show_net show_uuid trim_matches trim_start trim_end
    text_eq TunnelType.as_str CertType.to_string ColorTheme.to_string TransportType.to_string
    TlsVersion.to_string
profile_values = refl

profile-IsStorable : IsStorable formats profile
unfolding all_of is_part text_eq trim
profile-IsStorable = record {
  values = profile_values;
  is_utf8 = refl;
  profile_name_filled = refl;
  profile_id_below = omega arith;
  password_factor_below = omega arith;
  log_level_filled = refl;
  search_domains_parts = refl;
  ignore_search_domains_parts = refl;
  dns_servers_parts = refl;
  ignore_dns_servers_parts = refl;
  add_routes_parts = refl;
  ignore_routes_parts = refl;
  ca_cert_parts = refl;
  cert_path_filled = refl;
  cert_password_filled = refl;
  cert_id_filled = refl;
  if_name_filled = refl;
  ike_lifetime_below = omega arith;
  client_mode_filled = refl;
  locale_filled = refl;
  ip_lease_time_below = refl;
  mtu_below = omega arith;
  client_logging_data_filled = refl;
}

load-save_example :
    load formats
      (codes "Default")
      (codes "/etc/snx-rs/snx-rs.conf")
      (λ path. ok (file_text formats profile))
      profile.config_file
    ≡ ok (saved_part formats (codes "Default") (codes "/etc/snx-rs/snx-rs.conf") profile)
load-save_example =
    load-save formats (codes "Default") (codes "/etc/snx-rs/snx-rs.conf") profile
      (λ path. ok (file_text formats profile)) formats-IsSound profile-IsStorable refl

uuid_text_solid :
    (u : ℕ) → u < 2 ^ 128 → all_of (λ c. not (is_white c)) (formats.uuid_text u) ≡ true
unfolding show_uuid all_of
uuid_text_solid u h =
    all_of-weaken is_digit (λ c. not (is_white c)) (λ c d. ground arith) (show_uuid u)
      (digits_onto-digits 40 u [] refl)

are_uuids : all_of is_uuid (7 ∷ 300 ∷ []) ≡ true
unfolding all_of
are_uuids = refl

load_profile_order-order_text_example :
    load_profile_order formats (ok (order_text formats (7 ∷ 300 ∷ []))) ≡ 7 ∷ 300 ∷ []
load_profile_order-order_text_example =
    load_profile_order-order_text formats (7 ∷ 300 ∷ []) formats-IsSound uuid_text_solid are_uuids

abbrev other : TunnelParams
other = record params { profile_id = 7; profile_name = codes "Other" }

compare_profiles-reverse_example :
    compare_profiles (9 ∷ 7 ∷ []) other profile
    ≡ reverse (compare_profiles (9 ∷ 7 ∷ []) profile other)
compare_profiles-reverse_example = compare_profiles-reverse (9 ∷ 7 ∷ []) profile other refl

-- Two profiles with the default's identifier each come before the other.
both_less :
    (compare_profiles [] profile params ≡ less) × (compare_profiles [] params profile ≡ less)
unfolding compare_profiles compare_at compare_unknown position
both_less = (refl, refl)
