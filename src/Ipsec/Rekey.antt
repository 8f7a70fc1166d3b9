-- ===== src/Ipsec/Rekey.antt =====
-- `rekey_tunnel`, and the events of the tunnel, which lead to it.
use snx_rs.Prelude.{
  ℕ, ◌-◌, ◌*◌, Bool, true, false, not, Option, none, some, List, ltb, leb, if◌then◌else◌,
}
use snx_rs.Model.Params.{TunnelParams}
use snx_rs.Model.Session.{
  IPsecSession, TunnelCommand, terminate, TunnelEvent, connected, disconnected, rekey_check,
  remote_control_data, rekeyed, rtt,
}
use snx_rs.Ipsec.{Outside, IPsecTunnelConnector}
use snx_rs.Ipsec.Monad.{M, ◌>>=◌, ◌>>◌, pure, fail, self, look, set, call, attempt}
use snx_rs.Ipsec.Exchange.{do_session_exchange, do_esp_proposal}

abbrev pub esp_lifetime_leeway : ℕ
esp_lifetime_leeway = 60

abbrev pub address_lifetime_leeway : ℕ
address_lifetime_leeway = 300

unfoldable pub less_leeway : ℕ → ℕ → ℕ
less_leeway lifetime leeway = if ltb lifetime leeway then lifetime else lifetime - leeway

-- `now.duration_since(last).unwrap_or(lifetime) >= lifetime`: a clock that went back counts as due.
unfoldable pub has_passed : ℕ → Option ℕ → ℕ → Bool
has_passed lifetime none now = false
has_passed lifetime (some last) now =
    if ltb now last then true else leb (lifetime * 1_000_000_000) (now - last)

-- Which renewal is due.
pub data Renewal : Type 0 where
  session_renewal keys_renewal no_renewal : Renewal

unfoldable pub renewal : {Esp : Type 0} → IPsecTunnelConnector Esp → ℕ → Renewal
unfolding less_leeway has_passed
renewal c now =
    if has_passed (less_leeway c.ipsec_session.address_lifetime address_lifetime_leeway)
      c.last_ip_lease now
    then session_renewal
    else if has_passed (less_leeway c.ipsec_session.lifetime esp_lifetime_leeway) c.last_rekey now
    then keys_renewal
    else no_renewal

module _ {Esp W : Type 0} (outside : Outside Esp W) (params : TunnelParams) where
  unfoldable pub send_to : Option ℕ → IPsecSession Esp → M Esp W (Unit {0})
  send_to none session = fail "error-no-sender"
  send_to (some sender) session = call (outside.send_command sender (TunnelCommand.rekey session))

  unfoldable pub send_rekey : M Esp W (Unit {0})
  unfolding send_to
  send_rekey = do c ← self; send_to c.command_sender c.ipsec_session

  unfoldable pub renew : Renewal → M Esp W (Unit {0})
  unfolding do_session_exchange do_esp_proposal send_rekey
  renew session_renewal = do
    c ← self
    session ← do_session_exchange outside params c.username
    send_rekey
  renew keys_renewal = do_esp_proposal outside params >> send_rekey
  renew no_renewal = pure tt

  unfoldable pub rekey_tunnel : M Esp W (Unit {0})
  unfolding renewal renew
  rekey_tunnel = do
    c ← self
    online ← look outside.is_online
    now ← look outside.now
    if not online then pure tt else renew (renewal c now)

  unfoldable pub on_message : Option Bool → M Esp W (Unit {0})
  unfolding rekey_tunnel
  on_message (some true) = rekey_tunnel
  on_message _ = pure tt

  unfoldable pub parse_isakmp : List ℕ → M Esp W (Unit {0})
  unfolding on_message
  parse_isakmp bytes = do message ← call (outside.decode bytes); on_message message

  unfoldable pub handle_tunnel_event : TunnelEvent → M Esp W (Unit {0})
  unfolding rekey_tunnel parse_isakmp
  handle_tunnel_event (connected info) = pure tt
  handle_tunnel_event disconnected = do deleted ← attempt (call outside.delete_sa); pure tt
  handle_tunnel_event rekey_check = rekey_tunnel
  handle_tunnel_event (remote_control_data bytes) = parse_isakmp bytes
  handle_tunnel_event (rekeyed address) = pure tt
  handle_tunnel_event (rtt ns) = pure tt

  unfoldable pub terminate_with : Bool → Option ℕ → M Esp W (Unit {0})
  terminate_with signout none = pure tt
  terminate_with signout (some sender) = do
    set λ c. record c { command_sender = none }
    sent ← attempt (call (outside.send_command sender (terminate signout)))
    pure tt

  unfoldable pub terminate_tunnel : Bool → M Esp W (Unit {0})
  unfolding terminate_with
  terminate_tunnel signout = do c ← self; terminate_with signout c.command_sender
