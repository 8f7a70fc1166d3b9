-- ===== src/Config/RoundTrip.antt =====
-- `load` gives back what `save` has written.
use snx_rs.Prelude.{
  ◌^◌, ◌<◌, true, false, none, some, [], ◌∷◌, ◌≡◌, refl, ap, ◌∙◌, sym, inl, inr, Bool-cases,
}
use snx_rs.Prelude.Result.{Result, ok, ◌>>=◌}
use snx_rs.Prelude.Text.{Text, is_empty, text_eq}
use snx_rs.Prelude.Parts.{all_of}
use snx_rs.Model.TunnelType
use snx_rs.Model.TunnelType.{TunnelType, ipsec, ssl}
use snx_rs.Model.CertType
use snx_rs.Model.CertType.{CertType, no_cert}
use snx_rs.Model.ColorTheme
use snx_rs.Model.ColorTheme.{ColorTheme, dark}
use snx_rs.Model.TransportType
use snx_rs.Model.TransportType.{TransportType, udp}
use snx_rs.Model.TlsVersion
use snx_rs.Model.TlsVersion.{TlsVersion, tls12}
use snx_rs.Model.Params.{TunnelParams, default_params}
use snx_rs.Config.{parse_config}
use snx_rs.Config.Formats.{Formats, decode, decode_password}
use snx_rs.Config.Options
use snx_rs.Config.Options.{set_all, load}
use snx_rs.Config.Save.{options_of, file_text}
use snx_rs.Config.Dictionary.{read_or, params_of, set_all-defaults}
use snx_rs.Config.Fields.{
  kept, IsSound, text_field, blank_field, option_field, flag_field, uuid_field, factor_field,
  lifetime_field, mtu_field, lease_field, is_filled_or_none, is_below_or_none,
}
use snx_rs.Config.Lists.{commas_field, addresses_field, routes_field, is_part, is_address, is_net}
use snx_rs.Config.Saved.{are_values, are_apart, is_unnamed, with_options, with_all-written}

-- What a file can hold: values in one line with no quotes or white space at the ends, numbers of their
-- machine types, a name, a level of the log and a client mode that are not empty, no empty option, and parts of lists that
-- are neither empty nor have commas or white space at their ends. The password is UTF-8.
pub record IsStorable (formats : Formats) (params : TunnelParams) : Type 0 where
  pub values : are_values (options_of formats params) ≡ true
  pub is_utf8 : formats.from_utf8_lossy params.password ≡ params.password
  pub profile_name_filled : is_empty params.profile_name ≡ false
  pub profile_id_below : params.profile_id < 2 ^ 128
  pub password_factor_below : params.password_factor < 2 ^ 64
  pub log_level_filled : is_empty params.log_level ≡ false
  pub search_domains_parts : all_of is_part params.search_domains ≡ true
  pub ignore_search_domains_parts : all_of is_part params.ignore_search_domains ≡ true
  pub dns_servers_parts : all_of is_address params.dns_servers ≡ true
  pub ignore_dns_servers_parts : all_of is_address params.ignore_dns_servers ≡ true
  pub add_routes_parts : all_of is_net params.add_routes ≡ true
  pub ignore_routes_parts : all_of is_net params.ignore_routes ≡ true
  pub ca_cert_parts : all_of is_part params.ca_cert ≡ true
  pub cert_path_filled : is_filled_or_none params.cert_path ≡ true
  pub cert_password_filled : is_filled_or_none params.cert_password ≡ true
  pub cert_id_filled : is_filled_or_none params.cert_id ≡ true
  pub if_name_filled : is_filled_or_none params.if_name ≡ true
  pub ike_lifetime_below : params.ike_lifetime < 2 ^ 64
  pub client_mode_filled : is_empty params.client_mode ≡ false
  pub locale_filled : is_filled_or_none params.locale ≡ true
  pub ip_lease_time_below : is_below_or_none (2 ^ 64) params.ip_lease_time ≡ true
  pub mtu_below : params.mtu < 2 ^ 16
  pub client_logging_data_filled : is_filled_or_none params.client_logging_data ≡ true

tunnel_type_field :
    (t : TunnelType)
    → read_or Options.tunnel_type ipsec (kept (some (TunnelType.as_str t)) none) ≡ t
unfolding read_or kept Options.tunnel_type TunnelType.as_str text_eq
tunnel_type_field ipsec = refl
tunnel_type_field ssl = refl

cert_type_field :
    (t : CertType) → read_or Options.cert_type no_cert (kept (some (CertType.to_string t)) none) ≡ t
unfolding read_or kept Options.cert_type CertType.to_string text_eq
cert_type_field no_cert = refl
cert_type_field _ = refl

theme_field :
    (t : ColorTheme)
    → read_or Options.theme ColorTheme.auto_detect (kept (some (ColorTheme.to_string t)) none) ≡ t
unfolding read_or kept Options.theme ColorTheme.to_string text_eq
theme_field dark = refl
theme_field _ = refl

transport_type_field :
    (t : TransportType)
    → read_or Options.transport_type TransportType.auto_detect
        (kept (some (TransportType.to_string t)) none)
      ≡ t
unfolding read_or kept Options.transport_type TransportType.to_string text_eq
transport_type_field udp = refl
transport_type_field _ = refl

tls_version_field :
    (t : TlsVersion)
    → read_or Options.tls_version tls12 (kept (some (TlsVersion.to_string t)) none) ≡ t
unfolding read_or kept Options.tls_version TlsVersion.to_string text_eq
tls_version_field tls12 = refl
tls_version_field _ = refl

decode-encode_password :
    (formats : Formats) (password : Text)
    → IsSound formats
    → formats.from_utf8_lossy password ≡ password
    → decode formats (formats.base64_encode password) ≡ ok password
unfolding decode
decode-encode_password formats password sound utf8 =
    elim (Bool-cases (is_empty (formats.base64_encode password))) [
      | inr e ↦ rw (e, decode, sound.decode-encode password) (ap ok utf8)
      | inl e ↦ rw (e, decode) (empty (formats.base64_encode password) refl e)
    ]
  where
    nothing : (b : Text) → is_empty b ≡ true → b ≡ []
    nothing [] e = refl
    nothing (c ∷ b) e = cc e

    ok_injective : (a b : Text) → ok a ≡ ok b → a ≡ b
    ok_injective a b e = cc e

    empty :
        (b : Text)
        → formats.base64_encode password ≡ b
        → is_empty b ≡ true
        → ok (formats.base64_encode password) ≡ ok password
    empty b known e =
        let none_left = known ∙ nothing b e in
        let both = none_left ∙ sym sound.encode_empty in
        let same = ok_injective password [] (
          sym (sound.decode-encode password)
          ∙ (ap formats.base64_decode both ∙ sound.decode-encode [])) in
        ap ok (none_left ∙ sym same)

module _ (formats : Formats) (default_name default_path : Text) (params : TunnelParams) where
  -- What is lost: the colour theme, the code for other factors and the registration key.
  unfoldable pub saved_part : TunnelParams
  saved_part = record params {
    color_theme = ColorTheme.auto_detect;
    mfa_code = none;
    reg_key = none;
  }

  options_apart : are_apart (options_of formats params) ≡ true
  unfolding are_apart options_of is_unnamed
  options_apart = refl

  read_back :
      IsSound formats
      → IsStorable formats params
      → params_of formats default_name default_path
          (with_options (options_of formats params) (λ key. none))
        ≡ record saved_part {
          password = formats.base64_encode params.password;
          config_file = default_path;
        }
  unfolding params_of with_options options_of saved_part read_or kept
  read_back sound h = λ i. record saved_part {
    profile_name =
        text_field (default_params default_name default_path).profile_name params.profile_name
          h.profile_name_filled i;
    profile_id =
        uuid_field formats sound (default_params default_name default_path).profile_id
          params.profile_id h.profile_id_below i;
    server_name = blank_field params.server_name i;
    user_name = blank_field params.user_name i;
    password = blank_field (formats.base64_encode params.password) i;
    password_factor =
        factor_field (default_params default_name default_path).password_factor
          params.password_factor h.password_factor_below i;
    log_level =
        text_field (default_params default_name default_path).log_level params.log_level
          h.log_level_filled i;
    search_domains = commas_field params.search_domains h.search_domains_parts i;
    ignore_search_domains =
        commas_field params.ignore_search_domains h.ignore_search_domains_parts i;
    dns_servers = addresses_field params.dns_servers h.dns_servers_parts i;
    ignore_dns_servers = addresses_field params.ignore_dns_servers h.ignore_dns_servers_parts i;
    default_route = flag_field params.default_route i;
    no_routing = flag_field params.no_routing i;
    add_routes = routes_field formats sound params.add_routes h.add_routes_parts i;
    ignore_routes = routes_field formats sound params.ignore_routes h.ignore_routes_parts i;
    no_dns = flag_field params.no_dns i;
    no_split_dns = flag_field params.no_split_dns i;
    ignore_server_cert = flag_field params.ignore_server_cert i;
    tunnel_type = tunnel_type_field params.tunnel_type i;
    ca_cert = commas_field params.ca_cert h.ca_cert_parts i;
    login_type = blank_field params.login_type i;
    cert_type = cert_type_field params.cert_type i;
    cert_path = option_field params.cert_path h.cert_path_filled i;
    cert_password = option_field params.cert_password h.cert_password_filled i;
    cert_id = option_field params.cert_id h.cert_id_filled i;
    if_name = option_field params.if_name h.if_name_filled i;
    keychain = flag_field params.keychain i;
    ike_lifetime =
        lifetime_field (default_params default_name default_path).ike_lifetime params.ike_lifetime
          h.ike_lifetime_below i;
    ike_persist = flag_field params.ike_persist i;
    no_keepalive = flag_field params.no_keepalive i;
    icon_theme = theme_field params.icon_theme i;
    client_mode =
        text_field (default_params default_name default_path).client_mode params.client_mode
          h.client_mode_filled i;
    set_routing_domains = flag_field params.set_routing_domains i;
    port_knock = flag_field params.port_knock i;
    locale = option_field params.locale h.locale_filled i;
    auto_connect = flag_field params.auto_connect i;
    ip_lease_time = lease_field params.ip_lease_time h.ip_lease_time_below i;
    disable_ipv6 = flag_field params.disable_ipv6 i;
    mtu = mtu_field (default_params default_name default_path).mtu params.mtu h.mtu_below i;
    transport_type = transport_type_field params.transport_type i;
    allow_forwarding = flag_field params.allow_forwarding i;
    tls_version_max = tls_version_field params.tls_version_max i;
    client_logging_data = option_field params.client_logging_data h.client_logging_data_filled i;
    config_file = default_path;
  }

  -- A profile that was saved is loaded as it was, but for the colour theme, the code for other
  -- factors and the registration key, which have their defaults. The formats of uuid, base64 and
  -- ipnet must read back what they write, and the parameters be such that a file can hold them.
  pub load-save :
      (read_to_string : Text → Result Text)
      → IsSound formats
      → IsStorable formats params
      → read_to_string params.config_file ≡ ok (file_text formats params)
      → load formats default_name default_path read_to_string params.config_file ≡ ok saved_part
  unfolding load file_text decode_password saved_part
  load-save read_to_string sound h stored =
      let parsed =
        set_all-defaults formats default_name default_path (parse_config (file_text formats params))
        ∙ ap (params_of formats default_name default_path)
            (with_all-written (options_of formats params) (λ key. none) h.values options_apart)
        ∙ read_back sound h in
      rw (stored, load)
        (ap (λ p. decode_password formats (record p { config_file = params.config_file })) parsed
          ∙ ap (λ r. r >>= λ password. ok (record saved_part { password = password }))
              (decode-encode_password formats params.password sound h.is_utf8))
