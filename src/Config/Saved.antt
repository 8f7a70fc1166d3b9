-- ===== src/Config/Saved.antt =====
-- The lines that `save` writes, as a dictionary of the options.
use snx_rs.Prelude.{
  Bool, true, false, not, ◌&&◌, ◌||◌, Option, none, some, List, [], ◌∷◌, ◌≡◌, refl, ap, ◌∙◌,
  if◌then◌else◌,
}
use mathlib.Core.Path.{fun_ext}
use snx_rs.Prelude.Text.{Text, text_eq, is_empty, trim}
use snx_rs.Prelude.Parts.{and_parts, and_both}
use snx_rs.Config.{parse_config}
use snx_rs.Config.Written.{is_key, is_value, written, are_lines, filled_entries, parse_config-lines}
use snx_rs.Config.Save.{entries_of}
use snx_rs.Config.Dictionary.{Dictionary, with_line, with_all}
use snx_rs.Config.Puts.{is_absent, are_new, with_all-put_all}
use snx_rs.Config.Fields.{kept}
use snx_rs.Config.Keys.{
  Key, name, profile_name_key, profile_id_key, server_name_key, user_name_key, password_key,
  password_factor_key, log_level_key, search_domains_key, ignore_search_domains_key,
  dns_servers_key, ignore_dns_servers_key, default_route_key, no_routing_key, add_routes_key,
  ignore_routes_key, no_dns_key, no_split_dns_key, ignore_server_cert_key, tunnel_type_key,
  ca_cert_key, login_type_key, cert_type_key, cert_path_key, cert_password_key, cert_id_key,
  if_name_key, keychain_key, ike_lifetime_key, ike_persist_key, no_keepalive_key, icon_theme_key,
  client_mode_key, set_routing_domains_key, port_knock_key, locale_key, auto_connect_key,
  ip_lease_time_key, disable_ipv6_key, mtu_key, transport_type_key, allow_forwarding_key,
  tls_version_max_key, client_logging_data_key, mfa_code_key,
}

name_is_key : (key : Key) → is_key (name key) ≡ true
unfolding name is_key text_eq trim
name_is_key profile_name_key = refl
name_is_key profile_id_key = refl
name_is_key server_name_key = refl
name_is_key user_name_key = refl
name_is_key password_key = refl
name_is_key password_factor_key = refl
name_is_key log_level_key = refl
name_is_key search_domains_key = refl
name_is_key ignore_search_domains_key = refl
name_is_key dns_servers_key = refl
name_is_key ignore_dns_servers_key = refl
name_is_key default_route_key = refl
name_is_key no_routing_key = refl
name_is_key add_routes_key = refl
name_is_key ignore_routes_key = refl
name_is_key no_dns_key = refl
name_is_key no_split_dns_key = refl
name_is_key ignore_server_cert_key = refl
name_is_key tunnel_type_key = refl
name_is_key ca_cert_key = refl
name_is_key login_type_key = refl
name_is_key cert_type_key = refl
name_is_key cert_path_key = refl
name_is_key cert_password_key = refl
name_is_key cert_id_key = refl
name_is_key if_name_key = refl
name_is_key keychain_key = refl
name_is_key ike_lifetime_key = refl
name_is_key ike_persist_key = refl
name_is_key no_keepalive_key = refl
name_is_key icon_theme_key = refl
name_is_key client_mode_key = refl
name_is_key set_routing_domains_key = refl
name_is_key port_knock_key = refl
name_is_key locale_key = refl
name_is_key auto_connect_key = refl
name_is_key ip_lease_time_key = refl
name_is_key disable_ipv6_key = refl
name_is_key mtu_key = refl
name_is_key transport_type_key = refl
name_is_key allow_forwarding_key = refl
name_is_key tls_version_max_key = refl
name_is_key client_logging_data_key = refl
name_is_key mfa_code_key = refl

-- Every value that is written stands in one line, without quotes or white space at its ends.
unfoldable pub are_values : List (Key × Option Text) → Bool
unfolding is_value
are_values [] = true
are_values ((key, none) ∷ options) = are_values options
are_values ((key, some v) ∷ options) = (is_empty v || is_value v) && are_values options

are_lines-entries_of :
    (options : List (Key × Option Text))
    → are_values options ≡ true
    → are_lines (entries_of options) ≡ true
unfolding are_values are_lines entries_of
are_lines-entries_of [] h = refl
are_lines-entries_of ((key, none) ∷ options) h = are_lines-entries_of options h
are_lines-entries_of ((key, some v) ∷ options) h =
    let (hv, hr) = and_parts (is_empty v || is_value v) (are_values options) h in
    and_both _ _ (name_is_key key) (and_both _ _ hv (are_lines-entries_of options hr))

unfoldable pub with_options : List (Key × Option Text) → Dictionary → Dictionary
unfolding kept name text_eq
with_options [] d = d
with_options ((key, o) ∷ options) d =
    with_options options
      (λ other. if text_eq (name key) (name other) then kept o (d other) else d other)

if_same : {A : Type 0} (b : Bool) (x : A) → x ≡ (if b then x else x)
if_same true x = refl
if_same false x = refl

with_all-filled :
    (options : List (Key × Option Text)) (d : Dictionary)
    → with_all (filled_entries (entries_of options)) d ≡ with_options options d
unfolding with_all filled_entries entries_of with_options with_line kept
with_all-filled [] d = refl
with_all-filled ((key, none) ∷ options) d =
    with_all-filled options d
    ∙ ap (with_options options)
        (fun_ext λ other. if_same (text_eq (name key) (name other)) (d other))
with_all-filled ((key, some []) ∷ options) d =
    with_all-filled options d
    ∙ ap (with_options options)
        (fun_ext λ other. if_same (text_eq (name key) (name other)) (d other))
with_all-filled ((key, some (c ∷ v)) ∷ options) d =
    with_all-filled options (with_line (name key) (c ∷ v) d)

unfoldable pub is_unnamed : Text → List (Key × Option Text) → Bool
unfolding text_eq name
is_unnamed k [] = true
is_unnamed k ((key, o) ∷ options) = not (text_eq k (name key)) && is_unnamed k options

-- No option is named twice.
unfoldable pub are_apart : List (Key × Option Text) → Bool
unfolding is_unnamed name
are_apart [] = true
are_apart ((key, o) ∷ options) = is_unnamed (name key) options && are_apart options

is_absent-filled :
    (k : Text) (options : List (Key × Option Text))
    → is_unnamed k options ≡ true
    → is_absent k (filled_entries (entries_of options)) ≡ true
unfolding is_absent is_unnamed filled_entries entries_of
is_absent-filled k [] h = refl
is_absent-filled k ((key, none) ∷ options) h = is_absent-filled k options (and_parts _ _ h).1
is_absent-filled k ((key, some []) ∷ options) h = is_absent-filled k options (and_parts _ _ h).1
is_absent-filled k ((key, some (c ∷ v)) ∷ options) h =
    let (hk, hr) = and_parts _ _ h in and_both _ _ hk (is_absent-filled k options hr)

are_new-filled :
    (options : List (Key × Option Text))
    → are_apart options ≡ true
    → are_new (filled_entries (entries_of options)) [] ≡ true
unfolding are_apart are_new is_absent filled_entries entries_of
are_new-filled [] h = refl
are_new-filled ((key, none) ∷ options) h = are_new-filled options (and_parts _ _ h).1
are_new-filled ((key, some []) ∷ options) h = are_new-filled options (and_parts _ _ h).1
are_new-filled ((key, some (c ∷ v)) ∷ options) h =
    let (hk, hr) = and_parts _ _ h in
    and_both _ _ (is_absent-filled (name key) options hk) (are_new-filled options hr)

-- What is read from the lines of options that are apart.
pub with_all-written :
    (options : List (Key × Option Text)) (d : Dictionary)
    → are_values options ≡ true
    → are_apart options ≡ true
    → with_all (parse_config (written (entries_of options))) d ≡ with_options options d
unfolding with_all
with_all-written options d values apart =
    ap (λ t. with_all t d)
      (parse_config-lines (entries_of options) (are_lines-entries_of options values))
    ∙ (with_all-put_all (filled_entries (entries_of options)) [] d (are_new-filled options apart)
        ∙ with_all-filled options d)
