-- ===== src/Config/Dictionary.antt =====
-- A profile file is a dictionary of the options: what `load` makes of the lines depends on the last line
-- for each option alone.
use snx_rs.Prelude.{
  Option, none, some, List, [], ◌∷◌, ◌≡◌, refl, ap, ◌∙◌, sym, inl, inr, Option-cases, if◌then◌else◌,
}
use mathlib.Core.Path.{fun_ext}
use snx_rs.Prelude.Text.{Text, text_eq, text_eq_iff}
use snx_rs.Model.Params.{TunnelParams, default_params}
use snx_rs.Config.Formats.{Formats}
use snx_rs.Config.Options
use snx_rs.Config.Options.{set_option, set_line, set_all}
use snx_rs.Config.Keys.{
  Key, name, key_of, key_of-name, key_of-none, profile_name_key, profile_id_key, server_name_key,
  user_name_key, password_key, password_factor_key, log_level_key, search_domains_key,
  ignore_search_domains_key, dns_servers_key, ignore_dns_servers_key, default_route_key,
  no_routing_key, add_routes_key, ignore_routes_key, no_dns_key, no_split_dns_key,
  ignore_server_cert_key, tunnel_type_key, ca_cert_key, login_type_key, cert_type_key,
  cert_path_key, cert_password_key, cert_id_key, if_name_key, keychain_key, ike_lifetime_key,
  ike_persist_key, no_keepalive_key, icon_theme_key, client_mode_key, set_routing_domains_key,
  port_knock_key, locale_key, auto_connect_key, ip_lease_time_key, disable_ipv6_key, mtu_key,
  transport_type_key, allow_forwarding_key, tls_version_max_key, client_logging_data_key,
  mfa_code_key,
}

-- What stands behind the name of each option.
abbrev pub Dictionary : Type 0
Dictionary = Key → Option Text

unfoldable pub with_line : Text → Text → Dictionary → Dictionary
unfolding text_eq name
with_line k v d key = if text_eq k (name key) then some v else d key

unfoldable pub with_all : List (Text × Text) → Dictionary → Dictionary
unfolding with_line
with_all [] d = d
with_all ((k, v) ∷ config) d = with_all config (with_line k v d)

unfoldable pub read_or {ℓ} : {A : Type ℓ} → (Text → A) → A → Option Text → A
read_or read other none = other
read_or read other (some v) = read v

module _ (formats : Formats) (default_name default_path : Text) where
  abbrev defaults : TunnelParams
  defaults = default_params default_name default_path

  -- The parameters of a dictionary.
  unfoldable pub params_of : Dictionary → TunnelParams
  unfolding read_or
  params_of d = record defaults {
    profile_name = read_or (λ v. v) defaults.profile_name (d profile_name_key);
    profile_id = read_or (Options.uuid formats) defaults.profile_id (d profile_id_key);
    server_name = read_or (λ v. v) defaults.server_name (d server_name_key);
    user_name = read_or (λ v. v) defaults.user_name (d user_name_key);
    password = read_or (λ v. v) defaults.password (d password_key);
    password_factor = read_or Options.factor defaults.password_factor (d password_factor_key);
    log_level = read_or (λ v. v) defaults.log_level (d log_level_key);
    search_domains = read_or Options.commas defaults.search_domains (d search_domains_key);
    ignore_search_domains =
        read_or Options.commas defaults.ignore_search_domains (d ignore_search_domains_key);
    dns_servers = read_or Options.addresses defaults.dns_servers (d dns_servers_key);
    ignore_dns_servers =
        read_or Options.addresses defaults.ignore_dns_servers (d ignore_dns_servers_key);
    default_route = read_or Options.flag defaults.default_route (d default_route_key);
    no_routing = read_or Options.flag defaults.no_routing (d no_routing_key);
    add_routes = read_or (Options.routes formats) defaults.add_routes (d add_routes_key);
    ignore_routes = read_or (Options.routes formats) defaults.ignore_routes (d ignore_routes_key);
    no_dns = read_or Options.flag defaults.no_dns (d no_dns_key);
    no_split_dns = read_or Options.flag defaults.no_split_dns (d no_split_dns_key);
    ignore_server_cert =
        read_or Options.flag defaults.ignore_server_cert (d ignore_server_cert_key);
    tunnel_type = read_or Options.tunnel_type defaults.tunnel_type (d tunnel_type_key);
    ca_cert = read_or Options.commas defaults.ca_cert (d ca_cert_key);
    login_type = read_or (λ v. v) defaults.login_type (d login_type_key);
    cert_type = read_or Options.cert_type defaults.cert_type (d cert_type_key);
    cert_path = read_or (λ v. some v) defaults.cert_path (d cert_path_key);
    cert_password = read_or (λ v. some v) defaults.cert_password (d cert_password_key);
    cert_id = read_or (λ v. some v) defaults.cert_id (d cert_id_key);
    if_name = read_or (λ v. some v) defaults.if_name (d if_name_key);
    keychain = read_or Options.flag defaults.keychain (d keychain_key);
    ike_lifetime = read_or Options.lifetime defaults.ike_lifetime (d ike_lifetime_key);
    ike_persist = read_or Options.flag defaults.ike_persist (d ike_persist_key);
    no_keepalive = read_or Options.flag defaults.no_keepalive (d no_keepalive_key);
    icon_theme = read_or Options.theme defaults.icon_theme (d icon_theme_key);
    client_mode = read_or (λ v. v) defaults.client_mode (d client_mode_key);
    set_routing_domains =
        read_or Options.flag defaults.set_routing_domains (d set_routing_domains_key);
    port_knock = read_or Options.flag defaults.port_knock (d port_knock_key);
    locale = read_or (λ v. some v) defaults.locale (d locale_key);
    auto_connect = read_or Options.flag defaults.auto_connect (d auto_connect_key);
    ip_lease_time = read_or Options.lease defaults.ip_lease_time (d ip_lease_time_key);
    disable_ipv6 = read_or Options.flag defaults.disable_ipv6 (d disable_ipv6_key);
    mtu = read_or Options.mtu defaults.mtu (d mtu_key);
    transport_type = read_or Options.transport_type defaults.transport_type (d transport_type_key);
    allow_forwarding = read_or Options.flag defaults.allow_forwarding (d allow_forwarding_key);
    tls_version_max = read_or Options.tls_version defaults.tls_version_max (d tls_version_max_key);
    client_logging_data =
        read_or (λ v. some v) defaults.client_logging_data (d client_logging_data_key);
    mfa_code = read_or (λ v. some v) defaults.mfa_code (d mfa_code_key);
  }

  set_option-params_of :
      (key : Key) (v : Text) (d : Dictionary)
      → set_option formats key v (params_of d) ≡ params_of (with_line (name key) v d)
  unfolding set_option params_of with_line read_or
  set_option-params_of profile_name_key v d = refl
  set_option-params_of profile_id_key v d = refl
  set_option-params_of server_name_key v d = refl
  set_option-params_of user_name_key v d = refl
  set_option-params_of password_key v d = refl
  set_option-params_of password_factor_key v d = refl
  set_option-params_of log_level_key v d = refl
  set_option-params_of search_domains_key v d = refl
  set_option-params_of ignore_search_domains_key v d = refl
  set_option-params_of dns_servers_key v d = refl
  set_option-params_of ignore_dns_servers_key v d = refl
  set_option-params_of default_route_key v d = refl
  set_option-params_of no_routing_key v d = refl
  set_option-params_of add_routes_key v d = refl
  set_option-params_of ignore_routes_key v d = refl
  set_option-params_of no_dns_key v d = refl
  set_option-params_of no_split_dns_key v d = refl
  set_option-params_of ignore_server_cert_key v d = refl
  set_option-params_of tunnel_type_key v d = refl
  set_option-params_of ca_cert_key v d = refl
  set_option-params_of login_type_key v d = refl
  set_option-params_of cert_type_key v d = refl
  set_option-params_of cert_path_key v d = refl
  set_option-params_of cert_password_key v d = refl
  set_option-params_of cert_id_key v d = refl
  set_option-params_of if_name_key v d = refl
  set_option-params_of keychain_key v d = refl
  set_option-params_of ike_lifetime_key v d = refl
  set_option-params_of ike_persist_key v d = refl
  set_option-params_of no_keepalive_key v d = refl
  set_option-params_of icon_theme_key v d = refl
  set_option-params_of client_mode_key v d = refl
  set_option-params_of set_routing_domains_key v d = refl
  set_option-params_of port_knock_key v d = refl
  set_option-params_of locale_key v d = refl
  set_option-params_of auto_connect_key v d = refl
  set_option-params_of ip_lease_time_key v d = refl
  set_option-params_of disable_ipv6_key v d = refl
  set_option-params_of mtu_key v d = refl
  set_option-params_of transport_type_key v d = refl
  set_option-params_of allow_forwarding_key v d = refl
  set_option-params_of tls_version_max_key v d = refl
  set_option-params_of client_logging_data_key v d = refl
  set_option-params_of mfa_code_key v d = refl

  set_line-params_of :
      (k v : Text) (d : Dictionary)
      → set_line formats k v (params_of d) ≡ params_of (with_line k v d)
  unfolding set_line with_line
  set_line-params_of k v d = elim (Option-cases (key_of k)) [
    | inr (key, e) ↦
        let same : name key ≡ k = sym ((text_eq_iff k (name key)).0 (key_of-name k key e)) in
        rw (e, set_line) (set_option-params_of key v d ∙ ap (λ t. params_of (with_line t v d)) same)
    | inl e ↦ rw (e, set_line) (ap params_of (fun_ext (unchanged e)))
  ]
    where
      unchanged : key_of k ≡ none → (key : Key) → d key ≡ with_line k v d key
      unchanged e key = sym (rw (key_of-none k e key, with_line) refl)

  set_all-params_of :
      (config : List (Text × Text)) (d : Dictionary)
      → set_all formats config (params_of d) ≡ params_of (with_all config d)
  unfolding set_all with_all
  set_all-params_of [] d = refl
  set_all-params_of ((k, v) ∷ config) d =
      ap (set_all formats config) (set_line-params_of k v d)
      ∙ set_all-params_of config (with_line k v d)

  pub set_all-defaults :
      (config : List (Text × Text))
      → set_all formats config defaults ≡ params_of (with_all config (λ key. none))
  unfolding params_of read_or
  set_all-defaults config = set_all-params_of config (λ key. none)
