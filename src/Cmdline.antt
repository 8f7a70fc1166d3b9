-- ===== src/Cmdline.antt =====
-- The options of the command line, apps/snx-rs/src/cmdline.rs. A level of the log and a shell are their
-- names. What clap reads is a `CmdlineParams`.
pub mod Layers
pub mod Options
pub mod Given
use snx_rs.Prelude.{ℕ, Bool, Option, none, some, List, [], ◌∷◌}
use snx_rs.Prelude.Result.{Result, ok, err}
use snx_rs.Prelude.Text.{Text}
use snx_rs.Model.OperationMode.{OperationMode}
use snx_rs.Model.TunnelType.{TunnelType}
use snx_rs.Model.CertType.{CertType}
use snx_rs.Model.TransportType.{TransportType}
use snx_rs.Model.TlsVersion.{TlsVersion}
use snx_rs.Model.Params.{TunnelParams}
use snx_rs.Config.Formats.{Formats, decode}

pub record CmdlineParams : Type 0 where
  pub server_name : Option Text
  pub login_type : Option Text
  pub mode : OperationMode
  pub user_name : Option Text
  pub password : Option Text
  pub password_factor : Option ℕ
  pub config_file : Option Text
  pub log_level : Option Text
  pub search_domains : List Text
  pub ignore_search_domains : List Text
  pub dns_servers : List ℕ
  pub ignore_dns_servers : List ℕ
  pub set_routing_domains : Option Bool
  pub default_route : Option Bool
  pub no_routing : Option Bool
  pub add_routes : List (ℕ × ℕ)
  pub ignore_routes : List (ℕ × ℕ)
  pub no_dns : Option Bool
  pub no_split_dns : Option Bool
  pub ignore_server_cert : Option Bool
  pub tunnel_type : Option TunnelType
  pub ca_cert : List Text
  pub cert_type : Option CertType
  pub cert_path : Option Text
  pub cert_password : Option Text
  pub cert_id : Option Text
  pub if_name : Option Text
  pub keychain : Option Bool
  pub ike_lifetime : Option ℕ
  pub ike_persist : Option Bool
  pub client_mode : Option Text
  pub no_keepalive : Option Bool
  pub port_knock : Option Bool
  pub completions : Option Text
  pub tls_version_max : Option TlsVersion
  pub ip_lease_time : Option ℕ
  pub disable_ipv6 : Option Bool
  pub mtu : Option ℕ
  pub transport_type : Option TransportType
  pub allow_forwarding : Option Bool
  pub mfa_code : Option Text
  pub reg_key : Option Text
  pub client_logging_data : Option Text

-- `if let Some(value) = option { field = value; }`
unfoldable pub given {ℓ} : {A : Type ℓ} → Option A → A → A
given none old = old
given (some value) old = value

-- `if let Some(value) = option { field = Some(value); }`
unfoldable pub given_some {ℓ} : {A : Type ℓ} → Option A → Option A → Option A
given_some none old = old
given_some (some value) old = some value

-- `if !values.is_empty() { field = values; }`
unfoldable pub filled {ℓ} : {A : Type ℓ} → List A → List A → List A
filled [] old = old
filled (value ∷ values) old = value ∷ values

-- The password is stored as it is given, and then decoded: one that cannot be decoded stays.
unfoldable pub given_password : Formats → Option Text → Text → Text
unfolding decode
given_password formats none old = old
given_password formats (some password) old = elim (decode formats password) [
  | ok decoded ↦ decoded
  | err e ↦ password
]

unfoldable pub merge_into_tunnel_params : Formats → CmdlineParams → TunnelParams → TunnelParams
unfolding given given_some filled given_password
merge_into_tunnel_params formats self other = record other {
  server_name = given self.server_name other.server_name;
  login_type = given self.login_type other.login_type;
  user_name = given self.user_name other.user_name;
  password = given_password formats self.password other.password;
  password_factor = given self.password_factor other.password_factor;
  log_level = given self.log_level other.log_level;
  search_domains = filled self.search_domains other.search_domains;
  ignore_search_domains = filled self.ignore_search_domains other.ignore_search_domains;
  dns_servers = filled self.dns_servers other.dns_servers;
  ignore_dns_servers = filled self.ignore_dns_servers other.ignore_dns_servers;
  set_routing_domains = given self.set_routing_domains other.set_routing_domains;
  default_route = given self.default_route other.default_route;
  no_routing = given self.no_routing other.no_routing;
  add_routes = filled self.add_routes other.add_routes;
  ignore_routes = filled self.ignore_routes other.ignore_routes;
  no_dns = given self.no_dns other.no_dns;
  no_split_dns = given self.no_split_dns other.no_split_dns;
  ignore_server_cert = given self.ignore_server_cert other.ignore_server_cert;
  tunnel_type = given self.tunnel_type other.tunnel_type;
  ca_cert = filled self.ca_cert other.ca_cert;
  cert_type = given self.cert_type other.cert_type;
  cert_path = given_some self.cert_path other.cert_path;
  cert_password = given_some self.cert_password other.cert_password;
  cert_id = given_some self.cert_id other.cert_id;
  if_name = given_some self.if_name other.if_name;
  keychain = given self.keychain other.keychain;
  ike_lifetime = given self.ike_lifetime other.ike_lifetime;
  ike_persist = given self.ike_persist other.ike_persist;
  client_mode = given self.client_mode other.client_mode;
  no_keepalive = given self.no_keepalive other.no_keepalive;
  port_knock = given self.port_knock other.port_knock;
  tls_version_max = given self.tls_version_max other.tls_version_max;
  ip_lease_time = given_some self.ip_lease_time other.ip_lease_time;
  disable_ipv6 = given self.disable_ipv6 other.disable_ipv6;
  mtu = given self.mtu other.mtu;
  transport_type = given self.transport_type other.transport_type;
  allow_forwarding = given self.allow_forwarding other.allow_forwarding;
  mfa_code = given_some self.mfa_code other.mfa_code;
  reg_key = given_some self.reg_key other.reg_key;
  client_logging_data = given_some self.client_logging_data other.client_logging_data;
}
