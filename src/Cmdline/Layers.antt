-- ===== src/Cmdline/Layers.antt =====
-- Command lines laid over each other.
use snx_rs.Prelude.{Option, none, some, List, [], ◌∷◌, ◌≡◌, refl}
use snx_rs.Prelude.Text.{Text}
use snx_rs.Model.Params.{TunnelParams}
use snx_rs.Config.Formats.{Formats}
use snx_rs.Cmdline.{
  CmdlineParams, given, given_some, filled, given_password, merge_into_tunnel_params,
}

-- The options of the first, and those of the second that the first leaves out.
unfoldable pub over : CmdlineParams → CmdlineParams → CmdlineParams
unfolding given_some filled
over top below = record {
  server_name = given_some top.server_name below.server_name;
  login_type = given_some top.login_type below.login_type;
  mode = top.mode;
  user_name = given_some top.user_name below.user_name;
  password = given_some top.password below.password;
  password_factor = given_some top.password_factor below.password_factor;
  config_file = given_some top.config_file below.config_file;
  log_level = given_some top.log_level below.log_level;
  search_domains = filled top.search_domains below.search_domains;
  ignore_search_domains = filled top.ignore_search_domains below.ignore_search_domains;
  dns_servers = filled top.dns_servers below.dns_servers;
  ignore_dns_servers = filled top.ignore_dns_servers below.ignore_dns_servers;
  set_routing_domains = given_some top.set_routing_domains below.set_routing_domains;
  default_route = given_some top.default_route below.default_route;
  no_routing = given_some top.no_routing below.no_routing;
  add_routes = filled top.add_routes below.add_routes;
  ignore_routes = filled top.ignore_routes below.ignore_routes;
  no_dns = given_some top.no_dns below.no_dns;
  no_split_dns = given_some top.no_split_dns below.no_split_dns;
  ignore_server_cert = given_some top.ignore_server_cert below.ignore_server_cert;
  tunnel_type = given_some top.tunnel_type below.tunnel_type;
  ca_cert = filled top.ca_cert below.ca_cert;
  cert_type = given_some top.cert_type below.cert_type;
  cert_path = given_some top.cert_path below.cert_path;
  cert_password = given_some top.cert_password below.cert_password;
  cert_id = given_some top.cert_id below.cert_id;
  if_name = given_some top.if_name below.if_name;
  keychain = given_some top.keychain below.keychain;
  ike_lifetime = given_some top.ike_lifetime below.ike_lifetime;
  ike_persist = given_some top.ike_persist below.ike_persist;
  client_mode = given_some top.client_mode below.client_mode;
  no_keepalive = given_some top.no_keepalive below.no_keepalive;
  port_knock = given_some top.port_knock below.port_knock;
  completions = given_some top.completions below.completions;
  tls_version_max = given_some top.tls_version_max below.tls_version_max;
  ip_lease_time = given_some top.ip_lease_time below.ip_lease_time;
  disable_ipv6 = given_some top.disable_ipv6 below.disable_ipv6;
  mtu = given_some top.mtu below.mtu;
  transport_type = given_some top.transport_type below.transport_type;
  allow_forwarding = given_some top.allow_forwarding below.allow_forwarding;
  mfa_code = given_some top.mfa_code below.mfa_code;
  reg_key = given_some top.reg_key below.reg_key;
  client_logging_data = given_some top.client_logging_data below.client_logging_data;
}

given-over {ℓ} :
    {A : Type ℓ} (top below : Option A) (old : A)
    → given (given_some top below) old ≡ given top (given below old)
unfolding given given_some
given-over none below old = refl
given-over (some value) below old = refl

given_some-over {ℓ} :
    {A : Type ℓ} (top below old : Option A)
    → given_some (given_some top below) old ≡ given_some top (given_some below old)
unfolding given_some
given_some-over none below old = refl
given_some-over (some value) below old = refl

filled-over {ℓ} :
    {A : Type ℓ} (top below old : List A)
    → filled (filled top below) old ≡ filled top (filled below old)
unfolding filled
filled-over [] below old = refl
filled-over (value ∷ values) below old = refl

given_password-over :
    (formats : Formats) (top below : Option Text) (old : Text)
    → given_password formats (given_some top below) old
      ≡ given_password formats top (given_password formats below old)
unfolding given_password given_some
given_password-over formats none below old = refl
given_password-over formats (some password) below old = refl

-- Merging one command line and then another merges the second laid over the first.
pub merge_into_tunnel_params-over :
    (formats : Formats) (top below : CmdlineParams) (params : TunnelParams)
    → merge_into_tunnel_params formats (over top below) params
      ≡ merge_into_tunnel_params formats top (merge_into_tunnel_params formats below params)
unfolding merge_into_tunnel_params over
merge_into_tunnel_params-over formats top below params = λ i. record params {
  server_name = given-over top.server_name below.server_name params.server_name i;
  login_type = given-over top.login_type below.login_type params.login_type i;
  user_name = given-over top.user_name below.user_name params.user_name i;
  password = given_password-over formats top.password below.password params.password i;
  password_factor = given-over top.password_factor below.password_factor params.password_factor i;
  log_level = given-over top.log_level below.log_level params.log_level i;
  search_domains = filled-over top.search_domains below.search_domains params.search_domains i;
  ignore_search_domains =
      filled-over top.ignore_search_domains below.ignore_search_domains params.ignore_search_domains
        i;
  dns_servers = filled-over top.dns_servers below.dns_servers params.dns_servers i;
  ignore_dns_servers =
      filled-over top.ignore_dns_servers below.ignore_dns_servers params.ignore_dns_servers i;
  set_routing_domains =
      given-over top.set_routing_domains below.set_routing_domains params.set_routing_domains i;
  default_route = given-over top.default_route below.default_route params.default_route i;
  no_routing = given-over top.no_routing below.no_routing params.no_routing i;
  add_routes = filled-over top.add_routes below.add_routes params.add_routes i;
  ignore_routes = filled-over top.ignore_routes below.ignore_routes params.ignore_routes i;
  no_dns = given-over top.no_dns below.no_dns params.no_dns i;
  no_split_dns = given-over top.no_split_dns below.no_split_dns params.no_split_dns i;
  ignore_server_cert =
      given-over top.ignore_server_cert below.ignore_server_cert params.ignore_server_cert i;
  tunnel_type = given-over top.tunnel_type below.tunnel_type params.tunnel_type i;
  ca_cert = filled-over top.ca_cert below.ca_cert params.ca_cert i;
  cert_type = given-over top.cert_type below.cert_type params.cert_type i;
  cert_path = given_some-over top.cert_path below.cert_path params.cert_path i;
  cert_password = given_some-over top.cert_password below.cert_password params.cert_password i;
  cert_id = given_some-over top.cert_id below.cert_id params.cert_id i;
  if_name = given_some-over top.if_name below.if_name params.if_name i;
  keychain = given-over top.keychain below.keychain params.keychain i;
  ike_lifetime = given-over top.ike_lifetime below.ike_lifetime params.ike_lifetime i;
  ike_persist = given-over top.ike_persist below.ike_persist params.ike_persist i;
  client_mode = given-over top.client_mode below.client_mode params.client_mode i;
  no_keepalive = given-over top.no_keepalive below.no_keepalive params.no_keepalive i;
  port_knock = given-over top.port_knock below.port_knock params.port_knock i;
  tls_version_max = given-over top.tls_version_max below.tls_version_max params.tls_version_max i;
  ip_lease_time = given_some-over top.ip_lease_time below.ip_lease_time params.ip_lease_time i;
  disable_ipv6 = given-over top.disable_ipv6 below.disable_ipv6 params.disable_ipv6 i;
  mtu = given-over top.mtu below.mtu params.mtu i;
  transport_type = given-over top.transport_type below.transport_type params.transport_type i;
  allow_forwarding =
      given-over top.allow_forwarding below.allow_forwarding params.allow_forwarding i;
  mfa_code = given_some-over top.mfa_code below.mfa_code params.mfa_code i;
  reg_key = given_some-over top.reg_key below.reg_key params.reg_key i;
  client_logging_data =
      given_some-over top.client_logging_data below.client_logging_data params.client_logging_data
        i;
}
