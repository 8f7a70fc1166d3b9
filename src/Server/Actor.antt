-- ===== src/Server/Actor.antt =====
-- The actor of a connector in server.rs, which takes the requests to its connector one at a time and
-- in their order. Its answer lies ready for the handler that waits for it, which goes on with it
-- when its task is run.
use snx_rs.Prelude.{ℕ, Option, none, some, List, [], ◌∷◌, ◌++◌, ◌≡◌, ◌≢◌}
use snx_rs.Prelude.Result.{Result}
use snx_rs.Model.Session.{TunnelServiceRequest, TunnelEvent}
use snx_rs.Server.{
  ConnectionStateInner, Wait, new_connector, restore_session, authenticate, challenge,
  create_tunnel, delete_session, terminate_tunnel, poll, handle_event, new_poller, Reply, Progress,
  done, handled, waiting,
}
use snx_rs.Server.Handlers.{handle_packet}
use snx_rs.Server.Events.{resume, event_start}

abbrev pub Answer : Type 0 → Type 0
Answer Esp = (w : Wait Esp) × Reply Esp w

-- The requests that no actor has answered, the oldest first, and the answers that lie ready.
pub record Queued (Esp : Type 0) : Type 0 where
  pub inner : ConnectionStateInner Esp
  pub tasks : List (Wait Esp)
  pub queue : List (Wait Esp)
  pub ready : List (Answer Esp)

module _ {Esp : Type 0} where
  -- The connector whose actor is to answer.
  abbrev pub connector_of : Wait Esp → Option ℕ
  connector_of (new_connector params) = none
  connector_of (restore_session h) = some h
  connector_of (authenticate h) = some h
  connector_of (challenge h session code) = some h
  connector_of (create_tunnel h session) = some h
  connector_of (delete_session h) = some h
  connector_of (terminate_tunnel h signout) = some h
  connector_of (poll p info) = none
  connector_of (handle_event h event) = some h
  connector_of (new_poller info) = none

  abbrev pub sent_to : Option ℕ → Wait Esp → List (Wait Esp) → List (Wait Esp)
  sent_to none w queue = queue
  sent_to (some h) w queue = queue ++ w ∷ []

  abbrev pub place :
      Progress Esp × ConnectionStateInner Esp
      → List (Wait Esp)
      → List (Wait Esp)
      → List (Answer Esp)
      → Queued Esp
  place (waiting w, s) tasks queue ready = record {
    inner = s;
    tasks = w ∷ tasks;
    queue = sent_to (connector_of w) w queue;
    ready = ready;
  }
  place (done r, s) tasks queue ready = record {
    inner = s;
    tasks = tasks;
    queue = queue;
    ready = ready;
  }
  place (handled, s) tasks queue ready = record {
    inner = s;
    tasks = tasks;
    queue = queue;
    ready = ready;
  }

  -- None of the requests is for the actor of this one.
  abbrev pub NoneBefore : List (Wait Esp) → Wait Esp → Type 0
  NoneBefore [] w = Unit
  NoneBefore (v ∷ queue) w = (connector_of v ≢ connector_of w) × NoneBefore queue w

  pub data QueueStep (sys : Queued Esp) : Queued Esp → Type 0 where
    packet :
        (p : Result TunnelServiceRequest)
        → QueueStep sys (place (handle_packet p sys.inner) sys.tasks sys.queue sys.ready)
    event :
        (e : TunnelEvent)
        → QueueStep sys (place (event_start e sys.inner) sys.tasks sys.queue sys.ready)
    outside :
        (before after : List (Wait Esp)) (w : Wait Esp) (r : Reply Esp w)
        → connector_of w ≡ none
        → sys.tasks ≡ before ++ w ∷ after
        → QueueStep sys (place (resume w r sys.inner) (before ++ after) sys.queue sys.ready)
    served :
        (before after : List (Wait Esp)) (w : Wait Esp) (r : Reply Esp w)
        → sys.queue ≡ before ++ w ∷ after
        → NoneBefore before w
        → QueueStep sys (record sys { queue = before ++ after; ready = (w, r) ∷ sys.ready })
    goes_on :
        (before after : List (Wait Esp)) (sooner later : List (Answer Esp)) (w : Wait Esp)
        (r : Reply Esp w)
        → sys.tasks ≡ before ++ w ∷ after
        → sys.ready ≡ sooner ++ (w, r) ∷ later
        → QueueStep sys (place (resume w r sys.inner) (before ++ after) sys.queue (sooner ++ later))

  pub data QueueReach (sys : Queued Esp) : Queued Esp → Type 0 where
    here : QueueReach sys sys
    next : {t u : Queued Esp} → QueueReach sys t → QueueStep t u → QueueReach sys u

  abbrev pub at_rest : ConnectionStateInner Esp → Queued Esp
  at_rest s = record { inner = s; tasks = []; queue = []; ready = [] }
