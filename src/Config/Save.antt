-- ===== src/Config/Save.antt =====
-- `TunnelParams::save` of crates/snxcore/src/model/params.rs: a line for each option, and none for an
-- option with no value.
use snx_rs.Prelude.{ℕ, Bool, true, false, Option, none, some, List, [], ◌∷◌, map}
use snx_rs.Prelude.Result.{Result}
use snx_rs.Prelude.Text.{Text, codes, join}
use snx_rs.Prelude.Decimal.{decimal}
use snx_rs.Prelude.Ipv4.{address_text}
use snx_rs.Model.TunnelType
use snx_rs.Model.CertType
use snx_rs.Model.ColorTheme
use snx_rs.Model.TransportType
use snx_rs.Model.TlsVersion
use snx_rs.Model.Params.{TunnelParams}
use snx_rs.Config.Written.{written}
use snx_rs.Config.Formats.{Formats}
use snx_rs.Config.Options.{ipv4net_to_string}
use snx_rs.Config.Keys.{
  Key, name, profile_name_key, profile_id_key, server_name_key, user_name_key, password_key,
  password_factor_key, search_domains_key, ignore_search_domains_key, dns_servers_key,
  ignore_dns_servers_key, default_route_key, no_routing_key, add_routes_key, ignore_routes_key,
  no_dns_key, no_split_dns_key, ignore_server_cert_key, tunnel_type_key, ca_cert_key,
  login_type_key, cert_type_key, cert_path_key, cert_password_key, cert_id_key, if_name_key,
  keychain_key, ike_lifetime_key, ike_persist_key, log_level_key, client_mode_key, no_keepalive_key,
  icon_theme_key, set_routing_domains_key, port_knock_key, locale_key, auto_connect_key,
  ip_lease_time_key, disable_ipv6_key, mtu_key, transport_type_key, allow_forwarding_key,
  tls_version_max_key, client_logging_data_key,
}

-- `Display` of `bool`
unfoldable pub flag_text : Bool → Text
flag_text true = codes "true"
flag_text false = codes "false"

unfoldable pub with_commas : List Text → Text
unfolding join
with_commas parts = join (b',' ∷ []) parts

unfoldable pub lease_text : Option ℕ → Text
unfolding decimal
lease_text none = []
lease_text (some seconds) = decimal seconds

unfoldable pub entries_of : List (Key × Option Text) → List (Text × Text)
unfolding name
entries_of [] = []
entries_of ((key, none) ∷ options) = entries_of options
entries_of ((key, some v) ∷ options) = (name key, v) ∷ entries_of options

module _ (formats : Formats) where
  unfoldable pub options_of : TunnelParams → List (Key × Option Text)
  unfolding with_commas flag_text lease_text decimal address_text ipv4net_to_string
      TunnelType.as_str CertType.to_string ColorTheme.to_string TransportType.to_string
      TlsVersion.to_string
  options_of params =
      (profile_name_key, some params.profile_name)
      ∷ (profile_id_key, some (formats.uuid_text params.profile_id))
      ∷ (server_name_key, some params.server_name)
      ∷ (user_name_key, some params.user_name)
      ∷ (password_key, some (formats.base64_encode params.password))
      ∷ (password_factor_key, some (decimal params.password_factor))
      ∷ (search_domains_key, some (with_commas params.search_domains))
      ∷ (ignore_search_domains_key, some (with_commas params.ignore_search_domains))
      ∷ (dns_servers_key, some (with_commas (map address_text params.dns_servers)))
      ∷ (ignore_dns_servers_key, some (with_commas (map address_text params.ignore_dns_servers)))
      ∷ (default_route_key, some (flag_text params.default_route))
      ∷ (no_routing_key, some (flag_text params.no_routing))
      ∷ (add_routes_key, some (with_commas (map (ipv4net_to_string formats) params.add_routes)))
      ∷ (
        ignore_routes_key,
        some (with_commas (map (ipv4net_to_string formats) params.ignore_routes)),
      )
      ∷ (no_dns_key, some (flag_text params.no_dns))
      ∷ (no_split_dns_key, some (flag_text params.no_split_dns))
      ∷ (ignore_server_cert_key, some (flag_text params.ignore_server_cert))
      ∷ (tunnel_type_key, some (TunnelType.as_str params.tunnel_type))
      ∷ (ca_cert_key, some (with_commas params.ca_cert))
      ∷ (login_type_key, some params.login_type)
      ∷ (cert_type_key, some (CertType.to_string params.cert_type))
      ∷ (cert_path_key, params.cert_path)
      ∷ (cert_password_key, params.cert_password)
      ∷ (cert_id_key, params.cert_id)
      ∷ (if_name_key, params.if_name)
      ∷ (keychain_key, some (flag_text params.keychain))
      ∷ (ike_lifetime_key, some (decimal params.ike_lifetime))
      ∷ (ike_persist_key, some (flag_text params.ike_persist))
      ∷ (log_level_key, some params.log_level)
      ∷ (client_mode_key, some params.client_mode)
      ∷ (no_keepalive_key, some (flag_text params.no_keepalive))
      ∷ (icon_theme_key, some (ColorTheme.to_string params.icon_theme))
      ∷ (set_routing_domains_key, some (flag_text params.set_routing_domains))
      ∷ (port_knock_key, some (flag_text params.port_knock))
      ∷ (locale_key, params.locale)
      ∷ (auto_connect_key, some (flag_text params.auto_connect))
      ∷ (ip_lease_time_key, some (lease_text params.ip_lease_time))
      ∷ (disable_ipv6_key, some (flag_text params.disable_ipv6))
      ∷ (mtu_key, some (decimal params.mtu))
      ∷ (transport_type_key, some (TransportType.to_string params.transport_type))
      ∷ (allow_forwarding_key, some (flag_text params.allow_forwarding))
      ∷ (tls_version_max_key, some (TlsVersion.to_string params.tls_version_max))
      ∷ (client_logging_data_key, params.client_logging_data)
      ∷ []

  -- What is written, to the file of the parameters.
  unfoldable pub file_text : TunnelParams → Text
  unfolding written entries_of options_of
  file_text params = written (entries_of (options_of params))

  unfoldable pub save : (Text → Text → Result (Unit {0})) → TunnelParams → Result (Unit {0})
  unfolding file_text
  save write params = write params.config_file (file_text params)
