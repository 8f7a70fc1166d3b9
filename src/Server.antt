-- ===== src/Server.antt =====
-- crates/snxcore/src/server.rs: the command server. Its state stands behind a mutex and is shared by
-- the task of the tunnel events and one task for each client. Each handler is a `start` and a
-- `resume` for every point at which it waits: a `Wait` says for whose answer, and `Reply` what the
-- answer may be. A `resume` takes the mutex once at most, a `start` more often: Server/Sections cuts
-- it further, since the tasks run on several threads.
-- A connector's actor and a poller are named by numbers; the sender that cancels a connector's call
-- goes by the number of the connector.
pub mod Handlers
pub mod Events
pub mod System
pub mod Sections
pub mod Sound
pub mod Coherence
pub mod Requests
pub mod Races
pub mod Actor
use snx_rs.Prelude.{ℕ, Bool, Option, none, some, String}
use snx_rs.Prelude.Result.{Result}
use snx_rs.Prelude.Text.{Text}
use snx_rs.Model.Params.{TunnelParams}
use snx_rs.Model.Session.{
  TunnelSession, ConnectionStatus, ConnectionInfo, LiveStats, TunnelEvent, TunnelServiceResponse,
}

pub record ConnectionStateInner (Esp : Type 0) : Type 0 where
  pub status : ConnectionStatus
  pub session : Option (TunnelSession Esp)
  pub connector : Option ℕ
  pub cancel : Option ℕ
  pub stats_poller : Option ℕ

-- `Default`, and the state after `reset`.
abbrev pub idle : (Esp : Type 0) → ConnectionStateInner Esp
idle Esp = record {
  status = ConnectionStatus.disconnected;
  session = none;
  connector = none;
  cancel = none;
  stats_poller = none;
}

-- What a task waits for: the answer of the connector factory, of a connector's actor to one of the
-- requests of `ConnectorRequest`, of a poller, or of the network interface that makes a poller.
pub data Wait (Esp : Type 0) : Type 0 where
  new_connector : TunnelParams → Wait Esp
  restore_session : ℕ → Wait Esp
  authenticate : ℕ → Wait Esp
  challenge : ℕ → TunnelSession Esp → Text → Wait Esp
  create_tunnel : ℕ → TunnelSession Esp → Wait Esp
  delete_session : ℕ → Wait Esp
  terminate_tunnel : ℕ → Bool → Wait Esp
  poll : ℕ → ConnectionInfo → Wait Esp
  handle_event : ℕ → TunnelEvent → Wait Esp
  new_poller : ConnectionInfo → Wait Esp

abbrev pub Reply : (Esp : Type 0) → Wait Esp → Type 0
Reply Esp (new_connector params) = Result ℕ
Reply Esp (restore_session h) = Result (TunnelSession Esp)
Reply Esp (authenticate h) = Result (TunnelSession Esp)
Reply Esp (challenge h s code) = Result (TunnelSession Esp)
Reply Esp (create_tunnel h s) = Result (Unit {0})
Reply Esp (delete_session h) = Result (Unit {0})
Reply Esp (terminate_tunnel h signout) = Result (Unit {0})
Reply Esp (poll p info) = Result LiveStats
Reply Esp (handle_event h event) = Result (Unit {0})
Reply Esp (new_poller info) = Result ℕ

-- A task has answered, has finished without an answer (the events' task), or waits.
pub data Progress (Esp : Type 0) : Type 0 where
  done : TunnelServiceResponse → Progress Esp
  handled : Progress Esp
  waiting : Wait Esp → Progress Esp
