-- ===== src/Tests/Ipsec.antt =====
-- Tests of the IPsec connector, against a gateway that asks for the user name for ever.
use snx_rs.Prelude.{ℕ, ◌+◌, ◌≢◌, true, false, none, some, [], ◌∷◌, ◌≡◌, refl}
use snx_rs.Prelude.Result.{ok, err}
use snx_rs.Prelude.Text.{Text, codes}
use snx_rs.Model.Params.{TunnelParams}
use snx_rs.Model.TransportType.{auto_detect, udp}
use snx_rs.Model.Session.{TunnelSession, IPsecSession, no_state}
use snx_rs.Sexpr.Tree.{no_pairs}
use snx_rs.Ipsec.{Outside, Codes, Attribute, AttributesPayload, IPsecTunnelConnector}
use snx_rs.Ipsec.Monad.{State, M, fail, beside}
use snx_rs.Ipsec.Attributes.{life_duration}
use snx_rs.Ipsec.Auth.{challenge_rounds}
use snx_rs.Ipsec.Exchange.{do_esp_proposal}
use snx_rs.Ipsec.Rekey.{
  rekey_tunnel, renewal, renew, send_rekey, send_to, no_renewal, less_leeway, has_passed,
}
use snx_rs.Ipsec.Rounds.{challenge_rounds-two}
use snx_rs.Ipsec.Due.{IsTold, rekey_tunnel-IsTold}
use snx_rs.Ipsec.Tunnel.{create_tunnel, create_tunnel_fails}
use snx_rs.Tests.Data.{params}

abbrev numbers : Codes
numbers = record {
  auth_type = 1;
  challenge = 2;
  status = 3;
  message = 4;
  user_name = 5;
  ccc_session_id = 6;
  ipv4_address = 7;
  ipv4_netmask = 8;
  address_expiry = 9;
  ipv4_dns = 10;
  internal_domain_name = 11;
  life_duration = 12;
}

abbrev question : AttributesPayload
question = record {
  attributes = record { attribute_type = 5; as_short = some 0; as_long = none } ∷ [];
  identifier = 1;
}

abbrev lifetime : Attribute
lifetime = record { attribute_type = 12; as_short = none; as_long = some (0 ∷ 0 ∷ 1 ∷ 0 ∷ []) }

-- The state counts what has been done outside.
abbrev outside : Outside (Unit {0}) ℕ
outside = record {
  codes = numbers;
  from_utf8_lossy = λ b. b;
  parse_text = λ t. ok no_pairs;
  hex_encode = λ b. b;
  hex_decode = λ t. ok t;
  with_netmask = λ a m. none;
  tr = λ key. codes key;
  mac = [];
  gateway_address = 1;
  auth_blob = λ o. [];
  is_elapsed = λ e. false;
  get_default_ipv4 = λ n. (ok 1, n + 1);
  get_gateway_information =
      λ n. (ok (record { internal_ca_fingerprint = []; login_options_data = none }), n + 1);
  new_service = λ i n. (ok tt, n + 1);
  do_sa_proposal = λ l n. (ok tt, n + 1);
  do_key_exchange = λ a b n. (ok tt, n + 1);
  do_identity_protection = λ r n. (ok (some question, 1), n + 1);
  send_ack_response = λ i m n. (ok tt, n + 1);
  send_attribute = λ i m a b n. (ok question, n + 1);
  send_om_request = λ a m n. (err "no office mode", n + 1);
  propose_esp = λ a l n. (ok (lifetime ∷ []), n + 1);
  esp_in = λ n. tt;
  esp_out = λ n. tt;
  delete_sa = λ n. (ok tt, n + 1);
  decode = λ b n. (ok none, n + 1);
  save_session = λ m n. (ok [], n + 1);
  load_session = λ b n. (err "no session", n + 1);
  open_database = λ n. (ok tt, n + 1);
  replace_row = λ i s b n. (ok tt, n + 1);
  query_row = λ i s n. (err "no row", n + 1);
  delete_rows = λ i s n. (ok tt, n + 1);
  is_online = λ n. true;
  now = λ n. 4_000_000_000_000;
  create = λ t s n. (err "no device", n + 1);
  send_command = λ c m n. (ok tt, n + 1);
}

abbrev keys : IPsecSession (Unit {0})
keys = record {
  lifetime = 3600;
  address = 1;
  netmask = 0xffff_ff00;
  dns = [];
  domains = [];
  esp_in = tt;
  esp_out = tt;
  transport_type = udp;
  address_lifetime = 86400;
}

abbrev connector : IPsecTunnelConnector (Unit {0})
connector = record {
  last_message_id = 0;
  last_identifier = 0;
  last_challenge_type = 0;
  ccc_session = codes "42";
  username = codes "me";
  ipsec_session = keys;
  last_rekey = some 0;
  last_ip_lease = some 0;
  command_sender = some 9;
  esp_transport = udp;
}

abbrev named : TunnelParams
named = record params { user_name = codes "me" }

abbrev first_error : Text → M (Unit {0}) ℕ (TunnelSession (Unit {0}))
first_error input = fail "first"

abbrev second_error : Text → M (Unit {0}) ℕ (TunnelSession (Unit {0}))
second_error input = fail "second"

challenge_rounds-two_example :
    challenge_rounds outside named first_error 2 (codes "x") (connector, 0)
    ≡ challenge_rounds outside named second_error 3 (codes "x") (connector, 0)
challenge_rounds-two_example =
    challenge_rounds-two outside named first_error second_error 0 1 (codes "x") (connector, 0)

renewal_needed : renewal connector (outside.now 0) ≢ no_renewal
unfolding renewal less_leeway has_passed
renewal_needed h = cc h

abbrev renewed : State (Unit {0}) ℕ
renewed = (
  record connector {
    ipsec_session = record keys { lifetime = 256 };
    last_rekey = some 4_000_000_000_000;
  },
  2,
)

rekeyed : rekey_tunnel outside params (connector, 0) ≡ (ok tt, renewed)
unfolding rekey_tunnel renewal less_leeway has_passed renew do_esp_proposal life_duration send_rekey
    send_to
rekeyed = refl

rekey_tunnel-IsTold_example : IsTold outside renewed
rekey_tunnel-IsTold_example =
    rekey_tunnel-IsTold outside params connector 0 renewed refl renewal_needed rekeyed

abbrev session : TunnelSession (Unit {0})
session = record { session_id = []; state = no_state; username = none }

udp_is_set : connector.esp_transport ≢ auto_detect
udp_is_set h = cc h

create_tunnel_fails_example :
    create_tunnel outside params session 3 (connector, 0)
    ≡ beside (record connector { command_sender = some 3 }) (outside.create udp session 0)
create_tunnel_fails_example = create_tunnel_fails outside params session 3 connector 0 udp_is_set
