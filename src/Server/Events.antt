-- ===== src/Server/Events.antt =====
-- `handle_tunnel_event` of server.rs, and the answer to any wait.
use snx_rs.Prelude.{ℕ, ◌/◌, ◌%◌, ◌^◌, true, none, some}
use snx_rs.Prelude.Result.{Result, err}
use snx_rs.Model.Session.{
  ConnectionStatus, ConnectionInfo, TunnelEvent, rekey_check, remote_control_data, rekeyed, rtt,
  TunnelServiceResponse, connection_status,
}
use snx_rs.Server.{
  ConnectionStateInner, idle, Wait, new_connector, restore_session, authenticate, challenge,
  create_tunnel, delete_session, terminate_tunnel, poll, handle_event, new_poller, Reply, Progress,
  done, handled, waiting,
}
use snx_rs.Server.Handlers.{
  connector_made, session_restored, session_given, tunnel_created, with_stats,
}

-- A change of the connection's details, while there is a connection.
unfoldable pub on_info : (ConnectionInfo → ConnectionInfo) → ConnectionStatus → ConnectionStatus
on_info f (ConnectionStatus.connected info) = ConnectionStatus.connected (f info)
on_info f status = status

-- `rtt.as_millis() as u64`
unfoldable pub rtt_ms : ℕ → ℕ
rtt_ms nanos = nanos / 1000000 % 2 ^ 64

module _ {Esp : Type 0} where
  unfoldable pub apply_event :
      TunnelEvent → ConnectionStateInner Esp → Progress Esp × ConnectionStateInner Esp
  unfolding on_info
  apply_event (TunnelEvent.connected info) s = (waiting (new_poller info), s)
  apply_event TunnelEvent.disconnected s = (handled, idle Esp)
  apply_event (rekeyed address) s = (
    handled,
    record s { status = on_info (λ info. record info { ip_address = address }) s.status },
  )
  apply_event (rtt nanos) s = (
    handled,
    record s {
      status =
          on_info
            (λ info. record info {
              live = record (info.live) { last_rtt_ms = some (rtt_ms nanos) };
            })
            s.status;
    },
  )
  apply_event rekey_check s = (handled, s)
  apply_event (remote_control_data d) s = (handled, s)

  unfoldable pub event_start :
      TunnelEvent → ConnectionStateInner Esp → Progress Esp × ConnectionStateInner Esp
  unfolding apply_event
  event_start event s = elim s.connector [
    | some h ↦ (waiting (handle_event h event), s)
    | none ↦ apply_event event s
  ]

  unfoldable pub event_answered :
      TunnelEvent
      → Result (Unit {0})
      → ConnectionStateInner Esp
      → Progress Esp × ConnectionStateInner Esp
  unfolding apply_event
  event_answered event (Result.ok _) s = apply_event event s
  event_answered event (err e) s = (handled, idle Esp)

  unfoldable pub poller_made :
      ConnectionInfo → Result ℕ → ConnectionStateInner Esp → Progress Esp × ConnectionStateInner Esp
  poller_made info (Result.ok p) s =
      (handled, record s { stats_poller = some p; status = ConnectionStatus.connected info })
  poller_made info (err e) s = (handled, record s { status = ConnectionStatus.connected info })

  unfoldable pub resume :
      (w : Wait Esp)
      → Reply Esp w
      → ConnectionStateInner Esp
      → Progress Esp × ConnectionStateInner Esp
  unfolding connector_made session_restored session_given tunnel_created with_stats event_answered
      poller_made
  resume (new_connector params) r s = connector_made params r s
  resume (restore_session h) r s = session_restored h r s
  resume (authenticate h) r s = session_given h r s
  resume (challenge h session code) r s = session_given h r s
  resume (create_tunnel h session) r s = tunnel_created r s
  resume (delete_session h) r s = (waiting (terminate_tunnel h true), s)
  resume (terminate_tunnel h signout) r s = (done TunnelServiceResponse.ok, idle Esp)
  resume (poll p info) r s =
      (done (connection_status (ConnectionStatus.connected (with_stats info r))), s)
  resume (handle_event h event) r s = event_answered event r s
  resume (new_poller info) r s = poller_made info r s
