-- ===== src/Server/Handlers.antt =====
-- `ServerHandler` of server.rs: a client's request, from its packet to its response.
use snx_rs.Prelude.{ℕ, Bool, true, false, Option, none, some, String, if◌then◌else◌}
use snx_rs.Prelude.Result.{Result, err}
use snx_rs.Prelude.Text.{Text}
use snx_rs.Model.Params.{TunnelParams}
use snx_rs.Model.Session.{
  TunnelSession, SessionState, pending_challenge, ConnectionStatus, mfa, connecting, ConnectionInfo,
  LiveStats, TunnelServiceRequest, connect, challenge_code, disconnect, get_status,
  TunnelServiceResponse, error, connection_status,
}
use snx_rs.Server.{
  ConnectionStateInner, idle, new_connector, restore_session, authenticate, challenge,
  create_tunnel, delete_session, poll, Progress, done, waiting,
}

-- The round trip of the status is kept; the poller's other numbers are taken.
unfoldable pub with_stats : ConnectionInfo → Result LiveStats → ConnectionInfo
with_stats info (err e) = info
with_stats info (Result.ok live) = record info {
  live = record live { last_rtt_ms = info.live.last_rtt_ms };
}

module _ {Esp : Type 0} where
  unfoldable pub is_connected : ConnectionStateInner Esp → Bool
  is_connected s = elim s.status [ ConnectionStatus.disconnected ↦ false | _ ↦ true ]

  -- The error arm of `handle_packet` for `Connect` and `ChallengeCode`.
  unfoldable pub fail : String → ConnectionStateInner Esp → Progress Esp × ConnectionStateInner Esp
  fail e s = (done (error e), idle Esp)

  unfoldable pub connect_in_state :
      SessionState Esp
      → TunnelSession Esp
      → ℕ
      → ConnectionStateInner Esp
      → Progress Esp × ConnectionStateInner Esp
  connect_in_state (pending_challenge c) session h s =
      (done TunnelServiceResponse.ok, record s { session = some session; status = mfa c })
  connect_in_state _ session h s =
      (waiting (create_tunnel h session), record s { session = some session; status = connecting })

  unfoldable pub connect_for_session :
      TunnelSession Esp → ℕ → ConnectionStateInner Esp → Progress Esp × ConnectionStateInner Esp
  unfolding connect_in_state
  connect_for_session session h s = connect_in_state session.state session h s

  -- `connect_for_session`, once the tunnel has been created or not.
  unfoldable pub tunnel_created :
      Result (Unit {0}) → ConnectionStateInner Esp → Progress Esp × ConnectionStateInner Esp
  unfolding fail
  tunnel_created (Result.ok _) s = (done TunnelServiceResponse.ok, s)
  tunnel_created (err e) s = fail e s

  unfoldable pub connect_start :
      TunnelParams → ConnectionStateInner Esp → Progress Esp × ConnectionStateInner Esp
  unfolding is_connected
  connect_start params s =
      if is_connected s
      then (done (error "Another connection is already in progress!"), s)
      else (waiting (new_connector params), idle Esp)

  unfoldable pub connector_made :
      TunnelParams → Result ℕ → ConnectionStateInner Esp → Progress Esp × ConnectionStateInner Esp
  unfolding fail
  connector_made params (err e) s = fail e s
  connector_made params (Result.ok h) s = (
    waiting (if params.ike_persist then restore_session h else authenticate h),
    record s { status = connecting; cancel = some h; connector = some h },
  )

  unfoldable pub session_restored :
      ℕ
      → Result (TunnelSession Esp)
      → ConnectionStateInner Esp
      → Progress Esp × ConnectionStateInner Esp
  unfolding connect_for_session
  session_restored h (Result.ok session) s = connect_for_session session h s
  session_restored h (err e) s = (waiting (authenticate h), s)

  -- After `authenticate` in `connect`, and after `challenge_code` of the connector.
  unfoldable pub session_given :
      ℕ
      → Result (TunnelSession Esp)
      → ConnectionStateInner Esp
      → Progress Esp × ConnectionStateInner Esp
  unfolding connect_for_session fail
  session_given h (Result.ok session) s = connect_for_session session h s
  session_given h (err e) s = fail e s

  unfoldable pub challenge_with :
      Option ℕ
      → Option (TunnelSession Esp)
      → Text
      → ConnectionStateInner Esp
      → Progress Esp × ConnectionStateInner Esp
  unfolding fail
  challenge_with none session code s = fail "No connector" s
  challenge_with (some h) none code s = fail "No session" s
  challenge_with (some h) (some session) code s =
      (waiting (challenge h session code), record s { cancel = some h })

  unfoldable pub challenge_start :
      Text → ConnectionStateInner Esp → Progress Esp × ConnectionStateInner Esp
  unfolding challenge_with
  challenge_start code s = challenge_with s.connector s.session code s

  -- `fire_cancel` takes the sender; then the session is deleted and the tunnel terminated.
  unfoldable pub disconnect_start :
      ConnectionStateInner Esp → Progress Esp × ConnectionStateInner Esp
  disconnect_start s = elim s.connector [
    | none ↦ (done TunnelServiceResponse.ok, idle Esp)
    | some h ↦ (waiting (delete_session h), record s { cancel = none })
  ]

  unfoldable pub poll_with :
      ConnectionStatus
      → Option ℕ
      → ConnectionStateInner Esp
      → Progress Esp × ConnectionStateInner Esp
  poll_with (ConnectionStatus.connected info) (some p) s = (waiting (poll p info), s)
  poll_with status _ s = (done (connection_status status), s)

  unfoldable pub status_start : ConnectionStateInner Esp → Progress Esp × ConnectionStateInner Esp
  unfolding poll_with
  status_start s = poll_with s.status s.stats_poller s

  unfoldable pub handle_request :
      TunnelServiceRequest → ConnectionStateInner Esp → Progress Esp × ConnectionStateInner Esp
  unfolding connect_start challenge_start disconnect_start status_start
  handle_request (connect params) s = connect_start params s
  handle_request (challenge_code code _) s = challenge_start code s
  handle_request disconnect s = disconnect_start s
  handle_request get_status s = status_start s

  -- A packet that is no request is answered with the error of the deserializer.
  unfoldable pub handle_packet :
      Result TunnelServiceRequest
      → ConnectionStateInner Esp
      → Progress Esp × ConnectionStateInner Esp
  unfolding handle_request
  handle_packet (Result.ok req) s = handle_request req s
  handle_packet (err e) s = (done (error e), s)
