-- ===== src/Server/System.antt =====
-- The command server of server.rs as a whole: the shared state, and the tasks that wait. A step is
-- a packet from a client, an event of a tunnel, or that a task goes on with the answer to its wait,
-- in any order; what a task does from there to its next wait is one step here.
use snx_rs.Prelude.{◌≡◌, List, [], ◌∷◌, ◌++◌}
use snx_rs.Prelude.Result.{Result}
use snx_rs.Model.Session.{TunnelServiceRequest, TunnelEvent}
use snx_rs.Server.{ConnectionStateInner, idle, Wait, Reply, Progress, done, handled, waiting}
use snx_rs.Server.Handlers.{handle_packet}
use snx_rs.Server.Events.{event_start, resume}

pub record System (Esp : Type 0) : Type 0 where
  pub inner : ConnectionStateInner Esp
  pub tasks : List (Wait Esp)

module _ {Esp : Type 0} where
  abbrev pub settle : Progress Esp × ConnectionStateInner Esp → List (Wait Esp) → System Esp
  settle (waiting w, s) tasks = record { inner = s; tasks = w ∷ tasks }
  settle (done r, s) tasks = record { inner = s; tasks = tasks }
  settle (handled, s) tasks = record { inner = s; tasks = tasks }

  pub data Step (sys : System Esp) : System Esp → Type 0 where
    packet :
        (p : Result TunnelServiceRequest) → Step sys (settle (handle_packet p sys.inner) sys.tasks)
    event : (e : TunnelEvent) → Step sys (settle (event_start e sys.inner) sys.tasks)
    answer :
        (before after : List (Wait Esp)) (w : Wait Esp) (r : Reply Esp w)
        → sys.tasks ≡ before ++ w ∷ after
        → Step sys (settle (resume w r sys.inner) (before ++ after))

  pub data Reach (sys : System Esp) : System Esp → Type 0 where
    here : Reach sys sys
    next : {t u : System Esp} → Reach sys t → Step t u → Reach sys u

abbrev pub started : (Esp : Type 0) → System Esp
started Esp = record { inner = idle Esp; tasks = [] }
