-- ===== src/Ipsec/Exchange.antt =====
-- `do_esp_proposal`, `do_session_exchange`, `save_ike_session` and `new_session`.
use mathlib.Core.Option
use snx_rs.Prelude.{ℕ, ◌||◌, Option, none, some, String, List, [], ◌∷◌, ◌==◌, if◌then◌else◌}
use snx_rs.Prelude.Result.{Result, ok, err, context}
use snx_rs.Prelude.Text.{Text, split, trim_matches}
use snx_rs.Model.Params.{TunnelParams}
use snx_rs.Model.Session.{TunnelSession, authenticated, ipsec_session}
use snx_rs.Slim.{Bytes}
use snx_rs.Ipsec.{Outside, OfficeMode, AttributesPayload, IPsecTunnelConnector}
use snx_rs.Ipsec.Monad.{M, ◌>>=◌, ◌>>◌, pure, lift, self, look, set, call, attempt}
use snx_rs.Ipsec.Attributes.{get_long_attribute, get_long_attributes, read_u32, life_duration}

abbrev pub default_esp_lifetime : ℕ
default_esp_lifetime = 3600

unfoldable pub read_attribute : Option Bytes → String → Result ℕ
unfolding read_u32
read_attribute none e = err e
read_attribute (some b) e = read_u32 b

-- `flat_map(|b| ...ok())`
unfoldable pub read_all : List Bytes → List ℕ
unfolding read_u32
read_all [] = []
read_all (b ∷ bs) = let rest = read_all bs in elim (read_u32 b) [ ok n ↦ n ∷ rest | err e ↦ rest ]

unfoldable pub text_or_empty : Option Text → Text
text_or_empty none = []
text_or_empty (some t) = t

unfoldable pub new_session : {Esp : Type 0} → IPsecTunnelConnector Esp → TunnelSession Esp
new_session c = record {
  session_id = c.ccc_session;
  state = authenticated (ipsec_session c.ipsec_session);
  username = some c.username;
}

unfoldable pub office_mode : {Esp : Type 0} → IPsecTunnelConnector Esp → OfficeMode
office_mode c = record {
  ccc_session = c.ccc_session;
  username = c.username;
  ip_address = c.ipsec_session.address;
  netmask = c.ipsec_session.netmask;
  dns = c.ipsec_session.dns;
  domains = c.ipsec_session.domains;
}

module _ {Esp W : Type 0} (outside : Outside Esp W) (params : TunnelParams) where
  unfoldable pub do_esp_proposal : M Esp W (Unit {0})
  unfolding life_duration
  do_esp_proposal = do
    c ← self
    attributes ← call (outside.propose_esp c.ipsec_session.address default_esp_lifetime)
    lifetime ← lift (context (life_duration outside.codes attributes) "No lifetime in reply!")
    esp_in ← look outside.esp_in
    esp_out ← look outside.esp_out
    now ← look outside.now
    set λ c. record c {
      ipsec_session = record c.ipsec_session {
        lifetime = lifetime;
        esp_in = esp_in;
        esp_out = esp_out;
      };
      last_rekey = some now;
    }

  unfoldable pub save_ike_session : M Esp W (Unit {0})
  unfolding office_mode
  save_ike_session = do
    c ← self
    blob ← call (outside.save_session (office_mode c))
    call outside.open_database
    call (outside.replace_row params.profile_id params.server_name blob)

  -- The session's identifier with no NUL at its ends.
  unfoldable pub ccc_session_in : AttributesPayload → Result Text
  unfolding trim_matches get_long_attribute
  ccc_session_in om_reply =
      context
        (Option.map (λ b. trim_matches (λ c. c == 0) (outside.from_utf8_lossy b))
          (get_long_attribute om_reply outside.codes.ccc_session_id))
        "No session in reply, VPN server may be running out of OM licenses!"

  unfoldable pub address_lifetime_in : AttributesPayload → Result ℕ
  unfolding read_attribute get_long_attribute
  address_lifetime_in om_reply = elim params.ip_lease_time [
    | some lease ↦ ok lease
    | none ↦
        read_attribute (get_long_attribute om_reply outside.codes.address_expiry)
          "No address expiry in reply!"
  ]

  unfoldable pub domains_in : AttributesPayload → List Text
  unfolding split text_or_empty get_long_attribute
  domains_in om_reply =
      split (λ c. c == b',' || c == b';')
        (text_or_empty (
          Option.map outside.from_utf8_lossy
            (get_long_attribute om_reply outside.codes.internal_domain_name)))

  -- What the office mode reply says, each part kept as soon as it is read.
  unfoldable pub take_office_mode : Text → AttributesPayload → M Esp W (Unit {0})
  unfolding ccc_session_in address_lifetime_in domains_in read_attribute read_all get_long_attribute
      get_long_attributes
  take_office_mode username om_reply = do
    ccc ← lift (ccc_session_in om_reply)
    set λ c. record c { ccc_session = ccc }
    address ← lift (
        read_attribute (get_long_attribute om_reply outside.codes.ipv4_address) "No IPv4 in reply!")
    set λ c. record c { ipsec_session = record c.ipsec_session { address = address } }
    netmask ← lift (
        read_attribute (get_long_attribute om_reply outside.codes.ipv4_netmask)
          "No netmask in reply!")
    set λ c. record c { ipsec_session = record c.ipsec_session { netmask = netmask } }
    lease ← lift (address_lifetime_in om_reply)
    now ← look outside.now
    set λ c. record c {
      ipsec_session = record c.ipsec_session {
        address_lifetime = lease;
        dns = read_all (get_long_attributes om_reply outside.codes.ipv4_dns);
        domains = domains_in om_reply;
        transport_type = c.esp_transport;
      };
      last_ip_lease = some now;
      username = username;
    }

  unfoldable pub do_session_exchange : Text → M Esp W (TunnelSession Esp)
  unfolding take_office_mode do_esp_proposal save_ike_session new_session
  do_session_exchange username = do
    c ← self
    om_reply ← call (
        outside.send_om_request
          (outside.with_netmask c.ipsec_session.address c.ipsec_session.netmask) outside.mac)
    take_office_mode username om_reply
    do_esp_proposal
    saved ← if params.ike_persist then attempt save_ike_session else pure (ok tt)
    done ← self
    pure (new_session done)
