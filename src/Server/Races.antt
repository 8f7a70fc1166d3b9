-- ===== src/Server/Races.antt =====
-- What interleavings of the tasks of server.rs can do.
use snx_rs.Prelude.{ℕ, none, some, [], ◌∷◌}
use snx_rs.Prelude.Result.{Result}
use snx_rs.Model.Session.{TunnelSession, ConnectionStatus, connecting, ConnectionInfo}
use snx_rs.Server.{ConnectionStateInner, authenticate}
use snx_rs.Server.System.{System}

module _ {Esp : Type 0} where
  -- The state of a connection that has its connector and waits for its session.
  abbrev pub connecting_by : ℕ → ConnectionStateInner Esp
  connecting_by h = record {
    status = connecting;
    session = none;
    connector = some h;
    cancel = some h;
    stats_poller = none;
  }

  abbrev pub two_connecting : ℕ → ℕ → System Esp
  two_connecting g h = record {
    inner = connecting_by h;
    tasks = authenticate h ∷ authenticate g ∷ [];
  }

  -- A connection with no connector that the state names.
  abbrev pub orphaned : TunnelSession Esp → ConnectionInfo → ℕ → ConnectionStateInner Esp
  orphaned session info p = record {
    status = ConnectionStatus.connected info;
    session = some session;
    connector = none;
    cancel = none;
    stats_poller = some p;
  }
