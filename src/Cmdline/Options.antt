-- ===== src/Cmdline/Options.antt =====
-- The options one at a time: what each sets in the parameters.
use snx_rs.Prelude.{ℕ, Bool, none, some, List, [], ◌∷◌}
use snx_rs.Prelude.Result.{ok, err}
use snx_rs.Prelude.Text.{Text}
use snx_rs.Model.OperationMode.{standalone}
use snx_rs.Model.TunnelType.{TunnelType}
use snx_rs.Model.CertType.{CertType}
use snx_rs.Model.TransportType.{TransportType}
use snx_rs.Model.TlsVersion.{TlsVersion}
use snx_rs.Model.Params.{TunnelParams}
use snx_rs.Config.Formats.{Formats, decode}
use snx_rs.Cmdline.{CmdlineParams}

-- An option of the command line and its value; a list has at least one.
pub data Given : Type 0 where
  server_name_is : Text → Given
  login_type_is : Text → Given
  user_name_is : Text → Given
  password_is : Text → Given
  password_factor_is : ℕ → Given
  log_level_is : Text → Given
  search_domains_is : Text → List Text → Given
  ignore_search_domains_is : Text → List Text → Given
  dns_servers_is : ℕ → List ℕ → Given
  ignore_dns_servers_is : ℕ → List ℕ → Given
  set_routing_domains_is : Bool → Given
  default_route_is : Bool → Given
  no_routing_is : Bool → Given
  add_routes_is : (ℕ × ℕ) → List (ℕ × ℕ) → Given
  ignore_routes_is : (ℕ × ℕ) → List (ℕ × ℕ) → Given
  no_dns_is : Bool → Given
  no_split_dns_is : Bool → Given
  ignore_server_cert_is : Bool → Given
  tunnel_type_is : TunnelType → Given
  ca_cert_is : Text → List Text → Given
  cert_type_is : CertType → Given
  cert_path_is : Text → Given
  cert_password_is : Text → Given
  cert_id_is : Text → Given
  if_name_is : Text → Given
  keychain_is : Bool → Given
  ike_lifetime_is : ℕ → Given
  ike_persist_is : Bool → Given
  client_mode_is : Text → Given
  no_keepalive_is : Bool → Given
  port_knock_is : Bool → Given
  tls_version_max_is : TlsVersion → Given
  ip_lease_time_is : ℕ → Given
  disable_ipv6_is : Bool → Given
  mtu_is : ℕ → Given
  transport_type_is : TransportType → Given
  allow_forwarding_is : Bool → Given
  mfa_code_is : Text → Given
  reg_key_is : Text → Given
  client_logging_data_is : Text → Given

-- The command line that gives no option for the parameters.
abbrev pub no_options : CmdlineParams
no_options = record {
  server_name = none;
  login_type = none;
  mode = standalone;
  user_name = none;
  password = none;
  password_factor = none;
  config_file = none;
  log_level = none;
  search_domains = [];
  ignore_search_domains = [];
  dns_servers = [];
  ignore_dns_servers = [];
  set_routing_domains = none;
  default_route = none;
  no_routing = none;
  add_routes = [];
  ignore_routes = [];
  no_dns = none;
  no_split_dns = none;
  ignore_server_cert = none;
  tunnel_type = none;
  ca_cert = [];
  cert_type = none;
  cert_path = none;
  cert_password = none;
  cert_id = none;
  if_name = none;
  keychain = none;
  ike_lifetime = none;
  ike_persist = none;
  client_mode = none;
  no_keepalive = none;
  port_knock = none;
  completions = none;
  tls_version_max = none;
  ip_lease_time = none;
  disable_ipv6 = none;
  mtu = none;
  transport_type = none;
  allow_forwarding = none;
  mfa_code = none;
  reg_key = none;
  client_logging_data = none;
}

-- The command line that gives this option only.
unfoldable pub line_of : Given → CmdlineParams
line_of (server_name_is value) = record no_options { server_name = some value }
line_of (login_type_is value) = record no_options { login_type = some value }
line_of (user_name_is value) = record no_options { user_name = some value }
line_of (password_is value) = record no_options { password = some value }
line_of (password_factor_is value) = record no_options { password_factor = some value }
line_of (log_level_is value) = record no_options { log_level = some value }
line_of (search_domains_is value values) = record no_options { search_domains = value ∷ values }
line_of (ignore_search_domains_is value values) = record no_options {
  ignore_search_domains = value ∷ values;
}
line_of (dns_servers_is value values) = record no_options { dns_servers = value ∷ values }
line_of (ignore_dns_servers_is value values) = record no_options {
  ignore_dns_servers = value ∷ values;
}
line_of (set_routing_domains_is value) = record no_options { set_routing_domains = some value }
line_of (default_route_is value) = record no_options { default_route = some value }
line_of (no_routing_is value) = record no_options { no_routing = some value }
line_of (add_routes_is value values) = record no_options { add_routes = value ∷ values }
line_of (ignore_routes_is value values) = record no_options { ignore_routes = value ∷ values }
line_of (no_dns_is value) = record no_options { no_dns = some value }
line_of (no_split_dns_is value) = record no_options { no_split_dns = some value }
line_of (ignore_server_cert_is value) = record no_options { ignore_server_cert = some value }
line_of (tunnel_type_is value) = record no_options { tunnel_type = some value }
line_of (ca_cert_is value values) = record no_options { ca_cert = value ∷ values }
line_of (cert_type_is value) = record no_options { cert_type = some value }
line_of (cert_path_is value) = record no_options { cert_path = some value }
line_of (cert_password_is value) = record no_options { cert_password = some value }
line_of (cert_id_is value) = record no_options { cert_id = some value }
line_of (if_name_is value) = record no_options { if_name = some value }
line_of (keychain_is value) = record no_options { keychain = some value }
line_of (ike_lifetime_is value) = record no_options { ike_lifetime = some value }
line_of (ike_persist_is value) = record no_options { ike_persist = some value }
line_of (client_mode_is value) = record no_options { client_mode = some value }
line_of (no_keepalive_is value) = record no_options { no_keepalive = some value }
line_of (port_knock_is value) = record no_options { port_knock = some value }
line_of (tls_version_max_is value) = record no_options { tls_version_max = some value }
line_of (ip_lease_time_is value) = record no_options { ip_lease_time = some value }
line_of (disable_ipv6_is value) = record no_options { disable_ipv6 = some value }
line_of (mtu_is value) = record no_options { mtu = some value }
line_of (transport_type_is value) = record no_options { transport_type = some value }
line_of (allow_forwarding_is value) = record no_options { allow_forwarding = some value }
line_of (mfa_code_is value) = record no_options { mfa_code = some value }
line_of (reg_key_is value) = record no_options { reg_key = some value }
line_of (client_logging_data_is value) = record no_options { client_logging_data = some value }

-- A password that can be decoded is decoded.
abbrev decoded : Formats → Text → Text
decoded formats value = elim (decode formats value) [ ok text ↦ text | err e ↦ value ]

-- What the option is for: it sets the parameter of its name, and nothing else.
unfoldable pub set : Formats → Given → TunnelParams → TunnelParams
set formats (server_name_is value) params = record params { server_name = value }
set formats (login_type_is value) params = record params { login_type = value }
set formats (user_name_is value) params = record params { user_name = value }
set formats (password_is value) params = record params { password = decoded formats value }
set formats (password_factor_is value) params = record params { password_factor = value }
set formats (log_level_is value) params = record params { log_level = value }
set formats (search_domains_is value values) params = record params {
  search_domains = value ∷ values;
}
set formats (ignore_search_domains_is value values) params = record params {
  ignore_search_domains = value ∷ values;
}
set formats (dns_servers_is value values) params = record params { dns_servers = value ∷ values }
set formats (ignore_dns_servers_is value values) params = record params {
  ignore_dns_servers = value ∷ values;
}
set formats (set_routing_domains_is value) params = record params { set_routing_domains = value }
set formats (default_route_is value) params = record params { default_route = value }
set formats (no_routing_is value) params = record params { no_routing = value }
set formats (add_routes_is value values) params = record params { add_routes = value ∷ values }
set formats (ignore_routes_is value values) params = record params {
  ignore_routes = value ∷ values;
}
set formats (no_dns_is value) params = record params { no_dns = value }
set formats (no_split_dns_is value) params = record params { no_split_dns = value }
set formats (ignore_server_cert_is value) params = record params { ignore_server_cert = value }
set formats (tunnel_type_is value) params = record params { tunnel_type = value }
set formats (ca_cert_is value values) params = record params { ca_cert = value ∷ values }
set formats (cert_type_is value) params = record params { cert_type = value }
set formats (cert_path_is value) params = record params { cert_path = some value }
set formats (cert_password_is value) params = record params { cert_password = some value }
set formats (cert_id_is value) params = record params { cert_id = some value }
set formats (if_name_is value) params = record params { if_name = some value }
set formats (keychain_is value) params = record params { keychain = value }
set formats (ike_lifetime_is value) params = record params { ike_lifetime = value }
set formats (ike_persist_is value) params = record params { ike_persist = value }
set formats (client_mode_is value) params = record params { client_mode = value }
set formats (no_keepalive_is value) params = record params { no_keepalive = value }
set formats (port_knock_is value) params = record params { port_knock = value }
set formats (tls_version_max_is value) params = record params { tls_version_max = value }
set formats (ip_lease_time_is value) params = record params { ip_lease_time = some value }
set formats (disable_ipv6_is value) params = record params { disable_ipv6 = value }
set formats (mtu_is value) params = record params { mtu = value }
set formats (transport_type_is value) params = record params { transport_type = value }
set formats (allow_forwarding_is value) params = record params { allow_forwarding = value }
set formats (mfa_code_is value) params = record params { mfa_code = some value }
set formats (reg_key_is value) params = record params { reg_key = some value }
set formats (client_logging_data_is value) params = record params {
  client_logging_data = some value;
}
