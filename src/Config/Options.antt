-- ===== src/Config/Options.antt =====
-- `TunnelParams::load` of crates/snxcore/src/model/params.rs, and the two functions of
-- crates/snxcore/src/util.rs that read and write routes.
use snx_rs.Prelude.{
  ℕ, ◌^◌, Bool, true, false, not, Option, none, some, List, [], ◌∷◌, map, ◌==◌, if◌then◌else◌,
}
use snx_rs.Prelude.Result.{Result, ok, err, ◌>>=◌}
use snx_rs.Prelude.Text.{Text, codes, text_eq, is_empty, split, trim, parse_below}
use snx_rs.Prelude.Ipv4.{address_text, parse_address}
use snx_rs.Model.TunnelType
use snx_rs.Model.TunnelType.{TunnelType, ipsec}
use snx_rs.Model.CertType
use snx_rs.Model.CertType.{CertType, no_cert}
use snx_rs.Model.ColorTheme
use snx_rs.Model.ColorTheme.{ColorTheme}
use snx_rs.Model.TransportType
use snx_rs.Model.TransportType.{TransportType}
use snx_rs.Model.TlsVersion
use snx_rs.Model.TlsVersion.{TlsVersion, tls12}
use snx_rs.Model.Params.{TunnelParams, default_params, default_ike_lifetime, default_mtu}
use snx_rs.Config.{parse_config}
use snx_rs.Config.Formats.{Formats, decode_password}
use snx_rs.Config.Keys.{
  Key, key_of, profile_name_key, profile_id_key, server_name_key, user_name_key, password_key,
  password_factor_key, log_level_key, search_domains_key, ignore_search_domains_key,
  dns_servers_key, ignore_dns_servers_key, default_route_key, no_routing_key, add_routes_key,
  ignore_routes_key, no_dns_key, no_split_dns_key, ignore_server_cert_key, tunnel_type_key,
  ca_cert_key, login_type_key, cert_type_key, cert_path_key, cert_password_key, cert_id_key,
  if_name_key, keychain_key, ike_lifetime_key, ike_persist_key, no_keepalive_key, icon_theme_key,
  client_mode_key, set_routing_domains_key, port_knock_key, locale_key, auto_connect_key,
  ip_lease_time_key, disable_ipv6_key, mtu_key, transport_type_key, allow_forwarding_key,
  tls_version_max_key, client_logging_data_key, mfa_code_key,
}

-- `unwrap_or`
unfoldable pub unwrap_or {ℓ} : {A : Type ℓ} → A → Option A → A
unwrap_or other none = other
unwrap_or other (some a) = a

-- `unwrap_or_default` on a result
unfoldable pub or_default {ℓ} : {A : Type ℓ} → A → Result A → A
or_default other (ok a) = a
or_default other (err e) = other

-- `flat_map(|s| ….ok())`
unfoldable pub parse_all {ℓ} : {A : Type ℓ} → (Text → Option A) → List Text → List A
parse_all parse [] = []
parse_all parse (s ∷ parts) =
    let rest = parse_all parse parts in elim (parse s) [ none ↦ rest | some a ↦ a ∷ rest ]

-- `str::parse` at `bool`
unfoldable pub parse_flag : Text → Option Bool
unfolding text_eq
parse_flag s =
    if text_eq s (codes "true")
    then some true
    else if text_eq s (codes "false")
    then some false
    else none

unfoldable pub parse_ipv4_or_subnet : Formats → Text → Option (ℕ × ℕ)
unfolding parse_address
parse_ipv4_or_subnet formats s = elim (formats.parse_net s) [
  | some net ↦ some net
  | none ↦ elim (parse_address s) [ none ↦ none | some a ↦ some (a, 32) ]
]

unfoldable pub ipv4net_to_string : Formats → ℕ × ℕ → Text
unfolding address_text
ipv4net_to_string formats (a, prefix_len) =
    if prefix_len == 32 then address_text a else formats.net_text (a, prefix_len)

unfoldable pub flag : Text → Bool
unfolding unwrap_or parse_flag
flag v = unwrap_or false (parse_flag v)

unfoldable pub uuid : Formats → Text → ℕ
unfolding unwrap_or
uuid formats v = unwrap_or 0 (formats.parse_uuid v)

unfoldable pub factor : Text → ℕ
unfolding unwrap_or parse_below
factor v = unwrap_or 1 (parse_below (2 ^ 64) v)

unfoldable pub commas : Text → List Text
unfolding split trim
commas v = map trim (split (λ c. c == b',') v)

unfoldable pub addresses : Text → List ℕ
unfolding parse_all split trim parse_address
addresses v = parse_all (λ s. parse_address (trim s)) (split (λ c. c == b',') v)

unfoldable pub routes : Formats → Text → List (ℕ × ℕ)
unfolding parse_all split parse_ipv4_or_subnet
routes formats v = parse_all (parse_ipv4_or_subnet formats) (split (λ c. c == b',') v)

unfoldable pub lifetime : Text → ℕ
unfolding unwrap_or parse_below
lifetime v = unwrap_or default_ike_lifetime (parse_below (2 ^ 64) v)

unfoldable pub lease : Text → Option ℕ
unfolding trim parse_below
lease v = if not (is_empty (trim v)) then parse_below (2 ^ 64) v else none

unfoldable pub mtu : Text → ℕ
unfolding unwrap_or parse_below
mtu v = unwrap_or default_mtu (parse_below (2 ^ 16) v)

unfoldable pub tunnel_type : Text → TunnelType
unfolding or_default TunnelType.from_str
tunnel_type v = or_default ipsec (TunnelType.from_str v)

unfoldable pub cert_type : Text → CertType
unfolding or_default CertType.from_str
cert_type v = or_default no_cert (CertType.from_str v)

unfoldable pub theme : Text → ColorTheme
unfolding or_default ColorTheme.from_str
theme v = or_default ColorTheme.auto_detect (ColorTheme.from_str v)

unfoldable pub transport_type : Text → TransportType
unfolding or_default TransportType.from_str
transport_type v = or_default TransportType.auto_detect (TransportType.from_str v)

unfoldable pub tls_version : Text → TlsVersion
unfolding or_default TlsVersion.from_str
tls_version v = or_default tls12 (TlsVersion.from_str v)

module _ (formats : Formats) where
  unfoldable pub set_option : Key → Text → TunnelParams → TunnelParams
  unfolding uuid factor commas addresses flag routes tunnel_type cert_type lifetime theme lease mtu
      transport_type tls_version
  set_option profile_name_key v params = record params { profile_name = v }
  set_option profile_id_key v params = record params { profile_id = uuid formats v }
  set_option server_name_key v params = record params { server_name = v }
  set_option user_name_key v params = record params { user_name = v }
  set_option password_key v params = record params { password = v }
  set_option password_factor_key v params = record params { password_factor = factor v }
  set_option log_level_key v params = record params { log_level = v }
  set_option search_domains_key v params = record params { search_domains = commas v }
  set_option ignore_search_domains_key v params = record params { ignore_search_domains = commas v }
  set_option dns_servers_key v params = record params { dns_servers = addresses v }
  set_option ignore_dns_servers_key v params = record params { ignore_dns_servers = addresses v }
  set_option default_route_key v params = record params { default_route = flag v }
  set_option no_routing_key v params = record params { no_routing = flag v }
  set_option add_routes_key v params = record params { add_routes = routes formats v }
  set_option ignore_routes_key v params = record params { ignore_routes = routes formats v }
  set_option no_dns_key v params = record params { no_dns = flag v }
  set_option no_split_dns_key v params = record params { no_split_dns = flag v }
  set_option ignore_server_cert_key v params = record params { ignore_server_cert = flag v }
  set_option tunnel_type_key v params = record params { tunnel_type = tunnel_type v }
  set_option ca_cert_key v params = record params { ca_cert = commas v }
  set_option login_type_key v params = record params { login_type = v }
  set_option cert_type_key v params = record params { cert_type = cert_type v }
  set_option cert_path_key v params = record params { cert_path = some v }
  set_option cert_password_key v params = record params { cert_password = some v }
  set_option cert_id_key v params = record params { cert_id = some v }
  set_option if_name_key v params = record params { if_name = some v }
  set_option keychain_key v params = record params { keychain = flag v }
  set_option ike_lifetime_key v params = record params { ike_lifetime = lifetime v }
  set_option ike_persist_key v params = record params { ike_persist = flag v }
  set_option no_keepalive_key v params = record params { no_keepalive = flag v }
  set_option icon_theme_key v params = record params { icon_theme = theme v }
  set_option client_mode_key v params = record params { client_mode = v }
  set_option set_routing_domains_key v params = record params { set_routing_domains = flag v }
  set_option port_knock_key v params = record params { port_knock = flag v }
  set_option locale_key v params = record params { locale = some v }
  set_option auto_connect_key v params = record params { auto_connect = flag v }
  set_option ip_lease_time_key v params = record params { ip_lease_time = lease v }
  set_option disable_ipv6_key v params = record params { disable_ipv6 = flag v }
  set_option mtu_key v params = record params { mtu = mtu v }
  set_option transport_type_key v params = record params { transport_type = transport_type v }
  set_option allow_forwarding_key v params = record params { allow_forwarding = flag v }
  set_option tls_version_max_key v params = record params { tls_version_max = tls_version v }
  set_option client_logging_data_key v params = record params { client_logging_data = some v }
  set_option mfa_code_key v params = record params { mfa_code = some v }

  -- An unknown option is left out with a warning.
  unfoldable pub set_line : Text → Text → TunnelParams → TunnelParams
  unfolding key_of set_option
  set_line k v params = elim (key_of k) [ some key ↦ set_option key v params | none ↦ params ]

  unfoldable pub set_all : List (Text × Text) → TunnelParams → TunnelParams
  unfolding set_line
  set_all [] params = params
  set_all ((k, v) ∷ config) params = set_all config (set_line k v params)

  -- The defaults depend on a translated name and on the directory of the configuration.
  unfoldable pub load : Text → Text → (Text → Result Text) → Text → Result TunnelParams
  unfolding parse_config set_all decode_password
  load default_name default_path read_to_string path = read_to_string path >>= λ contents.
      decode_password formats
        (record (set_all (parse_config contents) (default_params default_name default_path)) {
          config_file = path;
        })
