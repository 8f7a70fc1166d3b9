-- ===== src/Model/Params.antt =====
-- `TunnelParams` of crates/snxcore/src/model/params.rs. A `Uuid` is its 128 bits as a number, an
-- IPv4 address its 32 bits, an `Ipv4Net` an address and a prefix length, a duration its seconds, a
-- path its bytes, and a `SecretString` its text.
use snx_rs.Prelude.{ℕ, Bool, false, Option, none, List, []}
use snx_rs.Prelude.Text.{Text, codes}
use snx_rs.Model.TunnelType.{TunnelType, ipsec}
use snx_rs.Model.CertType.{CertType, no_cert}
use snx_rs.Model.ColorTheme.{ColorTheme}
use snx_rs.Model.TransportType.{TransportType}
use snx_rs.Model.TlsVersion.{TlsVersion, tls12}

abbrev pub default_ike_lifetime : ℕ
default_ike_lifetime = 28800

abbrev pub default_mtu : ℕ
default_mtu = 1350

abbrev pub default_profile_uuid : ℕ
default_profile_uuid = 0x38703862_805c_441c_922e_ee45eaf2bb5e

pub record TunnelParams : Type 0 where
  pub profile_name : Text
  pub profile_id : ℕ
  pub server_name : Text
  pub user_name : Text
  pub password : Text
  pub password_factor : ℕ
  pub log_level : Text
  pub search_domains : List Text
  pub ignore_search_domains : List Text
  pub dns_servers : List ℕ
  pub ignore_dns_servers : List ℕ
  pub default_route : Bool
  pub no_routing : Bool
  pub add_routes : List (ℕ × ℕ)
  pub ignore_routes : List (ℕ × ℕ)
  pub no_dns : Bool
  pub no_split_dns : Bool
  pub ignore_server_cert : Bool
  pub tunnel_type : TunnelType
  pub ca_cert : List Text
  pub login_type : Text
  pub cert_type : CertType
  pub cert_path : Option Text
  pub cert_password : Option Text
  pub cert_id : Option Text
  pub if_name : Option Text
  pub keychain : Bool
  pub ike_lifetime : ℕ
  pub ike_persist : Bool
  pub client_mode : Text
  pub no_keepalive : Bool
  pub icon_theme : ColorTheme
  pub color_theme : ColorTheme
  pub set_routing_domains : Bool
  pub port_knock : Bool
  pub locale : Option Text
  pub auto_connect : Bool
  pub ip_lease_time : Option ℕ
  pub disable_ipv6 : Bool
  pub mtu : ℕ
  pub transport_type : TransportType
  pub allow_forwarding : Bool
  pub tls_version_max : TlsVersion
  pub mfa_code : Option Text
  pub reg_key : Option Text
  pub client_logging_data : Option Text
  pub config_file : Text

-- `Default for TunnelParams`: the name of the default profile is a translated message, and the
-- file is `snx-rs.conf` of the configuration directory; both are parameters.
abbrev pub default_params : Text → Text → TunnelParams
default_params default_name default_config_path = record {
  profile_name = default_name;
  profile_id = default_profile_uuid;
  server_name = [];
  user_name = [];
  password = [];
  password_factor = 1;
  log_level = codes "off";
  search_domains = [];
  ignore_search_domains = [];
  dns_servers = [];
  ignore_dns_servers = [];
  default_route = false;
  no_routing = false;
  add_routes = [];
  ignore_routes = [];
  no_dns = false;
  no_split_dns = false;
  ignore_server_cert = false;
  tunnel_type = ipsec;
  ca_cert = [];
  login_type = [];
  cert_type = no_cert;
  cert_path = none;
  cert_password = none;
  cert_id = none;
  if_name = none;
  keychain = false;
  ike_lifetime = default_ike_lifetime;
  ike_persist = false;
  client_mode = codes "secure_connect";
  no_keepalive = false;
  icon_theme = ColorTheme.auto_detect;
  color_theme = ColorTheme.auto_detect;
  set_routing_domains = false;
  port_knock = false;
  locale = none;
  auto_connect = false;
  ip_lease_time = none;
  disable_ipv6 = false;
  mtu = default_mtu;
  transport_type = TransportType.auto_detect;
  allow_forwarding = false;
  tls_version_max = tls12;
  mfa_code = none;
  reg_key = none;
  client_logging_data = none;
  config_file = default_config_path;
}
