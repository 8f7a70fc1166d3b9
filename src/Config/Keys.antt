-- ===== src/Config/Keys.antt =====
-- The options of a profile file and their names, as `load` and `save` of
-- crates/snxcore/src/model/params.rs know them.
use snx_rs.Prelude.{
  ℕ, true, false, Option, none, some, List, [], ◌∷◌, ◌≡◌, refl, ap, ◌∙◌, sym, inl, inr, get_elem?,
  zero, suc, Bool-cases, if◌then◌else◌,
}
use snx_rs.Prelude.Text.{Text, codes, text_eq}

pub data Key : Type 0 where
  profile_name_key profile_id_key server_name_key user_name_key password_key password_factor_key
        log_level_key search_domains_key ignore_search_domains_key dns_servers_key
        ignore_dns_servers_key default_route_key no_routing_key add_routes_key ignore_routes_key
        no_dns_key no_split_dns_key ignore_server_cert_key tunnel_type_key ca_cert_key
        login_type_key cert_type_key cert_path_key cert_password_key cert_id_key if_name_key
        keychain_key ike_lifetime_key ike_persist_key no_keepalive_key icon_theme_key
        client_mode_key set_routing_domains_key port_knock_key locale_key auto_connect_key
        ip_lease_time_key disable_ipv6_key mtu_key transport_type_key allow_forwarding_key
        tls_version_max_key client_logging_data_key mfa_code_key :
      Key

unfoldable pub name : Key → Text
name profile_name_key = codes "profile-name"
name profile_id_key = codes "profile-id"
name server_name_key = codes "server-name"
name user_name_key = codes "user-name"
name password_key = codes "password"
name password_factor_key = codes "password-factor"
name log_level_key = codes "log-level"
name search_domains_key = codes "search-domains"
name ignore_search_domains_key = codes "ignore-search-domains"
name dns_servers_key = codes "dns-servers"
name ignore_dns_servers_key = codes "ignore-dns-servers"
name default_route_key = codes "default-route"
name no_routing_key = codes "no-routing"
name add_routes_key = codes "add-routes"
name ignore_routes_key = codes "ignore-routes"
name no_dns_key = codes "no-dns"
name no_split_dns_key = codes "no-split-dns"
name ignore_server_cert_key = codes "ignore-server-cert"
name tunnel_type_key = codes "tunnel-type"
name ca_cert_key = codes "ca-cert"
name login_type_key = codes "login-type"
name cert_type_key = codes "cert-type"
name cert_path_key = codes "cert-path"
name cert_password_key = codes "cert-password"
name cert_id_key = codes "cert-id"
name if_name_key = codes "if-name"
name keychain_key = codes "keychain"
name ike_lifetime_key = codes "ike-lifetime"
name ike_persist_key = codes "ike-persist"
name no_keepalive_key = codes "no-keepalive"
name icon_theme_key = codes "icon-theme"
name client_mode_key = codes "client-mode"
name set_routing_domains_key = codes "set-routing-domains"
name port_knock_key = codes "port-knock"
name locale_key = codes "locale"
name auto_connect_key = codes "auto-connect"
name ip_lease_time_key = codes "ip-lease-time"
name disable_ipv6_key = codes "disable-ipv6"
name mtu_key = codes "mtu"
name transport_type_key = codes "transport-type"
name allow_forwarding_key = codes "allow-forwarding"
name tls_version_max_key = codes "tls-version-max"
name client_logging_data_key = codes "client-logging-data"
name mfa_code_key = codes "mfa-code"

abbrev pub all_keys : List Key
all_keys =
    profile_name_key ∷ profile_id_key ∷ server_name_key ∷ user_name_key ∷ password_key
    ∷ password_factor_key ∷ log_level_key ∷ search_domains_key ∷ ignore_search_domains_key
    ∷ dns_servers_key ∷ ignore_dns_servers_key ∷ default_route_key ∷ no_routing_key ∷ add_routes_key
    ∷ ignore_routes_key ∷ no_dns_key ∷ no_split_dns_key ∷ ignore_server_cert_key ∷ tunnel_type_key
    ∷ ca_cert_key ∷ login_type_key ∷ cert_type_key ∷ cert_path_key ∷ cert_password_key ∷ cert_id_key
    ∷ if_name_key ∷ keychain_key ∷ ike_lifetime_key ∷ ike_persist_key ∷ no_keepalive_key
    ∷ icon_theme_key ∷ client_mode_key ∷ set_routing_domains_key ∷ port_knock_key ∷ locale_key
    ∷ auto_connect_key ∷ ip_lease_time_key ∷ disable_ipv6_key ∷ mtu_key ∷ transport_type_key
    ∷ allow_forwarding_key ∷ tls_version_max_key ∷ client_logging_data_key ∷ mfa_code_key ∷ []

-- `match k.as_str()`
unfoldable pub key_in : List Key → Text → Option Key
unfolding name text_eq
key_in [] k = none
key_in (key ∷ keys) k =
    let later = key_in keys k in if text_eq k (name key) then some key else later

unfoldable pub key_of : Text → Option Key
unfolding key_in
key_of k = key_in all_keys k

key_in-name :
    (keys : List Key) (k : Text) (key : Key)
    → key_in keys k ≡ some key
    → text_eq k (name key) ≡ true
unfolding key_in
key_in-name [] k key h = cc h
key_in-name (other ∷ keys) k key h = elim (Bool-cases (text_eq k (name other))) [
  | inl e ↦
      let same : some other ≡ some key = rw (e, key_in) at h in
      let known : other ≡ key = cc same in ap (λ x. text_eq k (name x)) (sym known) ∙ e
  | inr e ↦ key_in-name keys k key (rw (e, key_in) at h)
]

pub key_of-name : (k : Text) (key : Key) → key_of k ≡ some key → text_eq k (name key) ≡ true
unfolding key_of
key_of-name k key h = key_in-name all_keys k key h

absent_key : (key : Key) → none ≡ some key → ⊥
absent_key key p = cc p

key_in-none :
    (keys : List Key) (k : Text) (i : ℕ) (key : Key)
    → key_in keys k ≡ none
    → get_elem? keys i ≡ some key
    → text_eq k (name key) ≡ false
unfolding key_in
key_in-none [] k i key h at_i = cc at_i
key_in-none (other ∷ keys) k zero key h at_i = elim (Bool-cases (text_eq k (name other))) [
  | inl e ↦ absurd (absent_key other (sym h ∙ rw (e, key_in) refl))
  | inr e ↦ let known : other ≡ key = cc at_i in ap (λ x. text_eq k (name x)) (sym known) ∙ e
]
key_in-none (other ∷ keys) k (suc i) key h at_i = elim (Bool-cases (text_eq k (name other))) [
  | inl e ↦ absurd (absent_key other (sym h ∙ rw (e, key_in) refl))
  | inr e ↦ key_in-none keys k i key (rw (e, key_in) at h) at_i
]

unfoldable place : Key → ℕ
place profile_name_key = 0
place profile_id_key = 1
place server_name_key = 2
place user_name_key = 3
place password_key = 4
place password_factor_key = 5
place log_level_key = 6
place search_domains_key = 7
place ignore_search_domains_key = 8
place dns_servers_key = 9
place ignore_dns_servers_key = 10
place default_route_key = 11
place no_routing_key = 12
place add_routes_key = 13
place ignore_routes_key = 14
place no_dns_key = 15
place no_split_dns_key = 16
place ignore_server_cert_key = 17
place tunnel_type_key = 18
place ca_cert_key = 19
place login_type_key = 20
place cert_type_key = 21
place cert_path_key = 22
place cert_password_key = 23
place cert_id_key = 24
place if_name_key = 25
place keychain_key = 26
place ike_lifetime_key = 27
place ike_persist_key = 28
place no_keepalive_key = 29
place icon_theme_key = 30
place client_mode_key = 31
place set_routing_domains_key = 32
place port_knock_key = 33
place locale_key = 34
place auto_connect_key = 35
place ip_lease_time_key = 36
place disable_ipv6_key = 37
place mtu_key = 38
place transport_type_key = 39
place allow_forwarding_key = 40
place tls_version_max_key = 41
place client_logging_data_key = 42
place mfa_code_key = 43

at_place : (key : Key) → get_elem? all_keys (place key) ≡ some key
unfolding place
at_place profile_name_key = refl
at_place profile_id_key = refl
at_place server_name_key = refl
at_place user_name_key = refl
at_place password_key = refl
at_place password_factor_key = refl
at_place log_level_key = refl
at_place search_domains_key = refl
at_place ignore_search_domains_key = refl
at_place dns_servers_key = refl
at_place ignore_dns_servers_key = refl
at_place default_route_key = refl
at_place no_routing_key = refl
at_place add_routes_key = refl
at_place ignore_routes_key = refl
at_place no_dns_key = refl
at_place no_split_dns_key = refl
at_place ignore_server_cert_key = refl
at_place tunnel_type_key = refl
at_place ca_cert_key = refl
at_place login_type_key = refl
at_place cert_type_key = refl
at_place cert_path_key = refl
at_place cert_password_key = refl
at_place cert_id_key = refl
at_place if_name_key = refl
at_place keychain_key = refl
at_place ike_lifetime_key = refl
at_place ike_persist_key = refl
at_place no_keepalive_key = refl
at_place icon_theme_key = refl
at_place client_mode_key = refl
at_place set_routing_domains_key = refl
at_place port_knock_key = refl
at_place locale_key = refl
at_place auto_connect_key = refl
at_place ip_lease_time_key = refl
at_place disable_ipv6_key = refl
at_place mtu_key = refl
at_place transport_type_key = refl
at_place allow_forwarding_key = refl
at_place tls_version_max_key = refl
at_place client_logging_data_key = refl
at_place mfa_code_key = refl

pub key_of-none : (k : Text) → key_of k ≡ none → (key : Key) → text_eq k (name key) ≡ false
unfolding key_of
key_of-none k h key = key_in-none all_keys k (place key) key h (at_place key)
