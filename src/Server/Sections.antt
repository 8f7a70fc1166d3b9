-- ===== src/Server/Sections.antt =====
-- The handlers of server.rs cut at each point where they take the mutex of the shared state: a turn
-- of a task takes it once at most, and any other task may come between two turns.
use snx_rs.Prelude.{
  ℕ, zero, suc, Option, none, some, List, [], ◌∷◌, ◌++◌, String, ◌≡◌, if◌then◌else◌,
}
use snx_rs.Prelude.Result.{Result, err}
use snx_rs.Prelude.Text.{Text}
use snx_rs.Model.Params.{TunnelParams}
use snx_rs.Model.Session.{
  TunnelSession, TunnelServiceRequest, connect, challenge_code, disconnect, get_status, TunnelEvent,
  TunnelServiceResponse, error,
}
use snx_rs.Server.{
  ConnectionStateInner, idle, Wait, new_connector, challenge, delete_session, handle_event, Reply,
  Progress, done, handled, waiting,
}
use snx_rs.Server.Handlers.{is_connected, status_start}
use snx_rs.Server.Events.{apply_event, resume}

-- What a task is about to do that takes the mutex: `reset` in `connect`, `reset` after an error, the
-- storing of the cancel sender, `connector` in `disconnect`, its `reset`, and the body of the event.
pub data Section (Esp : Type 0) : Type 0 where
  resetting : TunnelParams → Section Esp
  failing : String → Section Esp
  cancelling : ℕ → TunnelSession Esp → Text → Section Esp
  fetching : Section Esp
  ending : Section Esp
  applying : TunnelEvent → Section Esp

pub data Turn (Esp : Type 0) : Type 0 where
  progress : Progress Esp → Turn Esp
  locks : Section Esp → Turn Esp

-- A task that has not ended.
pub data Task (Esp : Type 0) : Type 0 where
  awaits : Wait Esp → Task Esp
  enters : Section Esp → Task Esp

pub record Tasks (Esp : Type 0) : Type 0 where
  pub inner : ConnectionStateInner Esp
  pub tasks : List (Task Esp)

module _ {Esp : Type 0} where
  abbrev pub as_turn : Progress Esp × ConnectionStateInner Esp → Turn Esp × ConnectionStateInner Esp
  as_turn (p, s) = (progress p, s)

  unfoldable pub challenge_section : Option ℕ → Option (TunnelSession Esp) → Text → Turn Esp
  challenge_section none session code = locks (failing "No connector")
  challenge_section (some h) none code = locks (failing "No session")
  challenge_section (some h) (some session) code = locks (cancelling h session code)

  -- The first turn of a request.
  unfoldable pub packet_section :
      Result TunnelServiceRequest → ConnectionStateInner Esp → Turn Esp × ConnectionStateInner Esp
  unfolding is_connected challenge_section status_start
  packet_section (err e) s = (progress (done (error e)), s)
  packet_section (Result.ok (connect params)) s =
      if is_connected s
      then (progress (done (error "Another connection is already in progress!")), s)
      else (locks (resetting params), s)
  packet_section (Result.ok (challenge_code code _)) s =
      (challenge_section s.connector s.session code, s)
  packet_section (Result.ok disconnect) s = (locks fetching, record s { cancel = none })
  packet_section (Result.ok get_status) s = as_turn (status_start s)

  -- The first turn of an event.
  unfoldable pub event_section :
      TunnelEvent → ConnectionStateInner Esp → Turn Esp × ConnectionStateInner Esp
  event_section event s = elim s.connector [
    | some h ↦ (progress (waiting (handle_event h event)), s)
    | none ↦ (locks (applying event), s)
  ]

  unfoldable pub locked :
      Section Esp → ConnectionStateInner Esp → Turn Esp × ConnectionStateInner Esp
  unfolding apply_event
  locked (resetting params) s = (progress (waiting (new_connector params)), idle Esp)
  locked (failing e) s = (progress (done (error e)), idle Esp)
  locked (cancelling h session code) s =
      (progress (waiting (challenge h session code)), record s { cancel = some h })
  locked fetching s = elim s.connector [
    | some h ↦ (progress (waiting (delete_session h)), s)
    | none ↦ (locks ending, s)
  ]
  locked ending s = (progress (done TunnelServiceResponse.ok), idle Esp)
  locked (applying event) s = as_turn (apply_event event s)

  abbrev pub seat : Turn Esp × ConnectionStateInner Esp → List (Task Esp) → Tasks Esp
  seat (progress (waiting w), s) tasks = record { inner = s; tasks = awaits w ∷ tasks }
  seat (progress (done r), s) tasks = record { inner = s; tasks = tasks }
  seat (progress handled, s) tasks = record { inner = s; tasks = tasks }
  seat (locks c, s) tasks = record { inner = s; tasks = enters c ∷ tasks }

  -- A new request or event, an answer that a task goes on with, or the next turn of a task. After an
  -- answer a handler takes the mutex once at most before it waits again or ends.
  pub data TurnOf (sys : Tasks Esp) : Tasks Esp → Type 0 where
    packet :
        (p : Result TunnelServiceRequest) → TurnOf sys (seat (packet_section p sys.inner) sys.tasks)
    event : (e : TunnelEvent) → TurnOf sys (seat (event_section e sys.inner) sys.tasks)
    answer :
        (before after : List (Task Esp)) (w : Wait Esp) (r : Reply Esp w)
        → sys.tasks ≡ before ++ awaits w ∷ after
        → TurnOf sys (seat (as_turn (resume w r sys.inner)) (before ++ after))
    turn :
        (before after : List (Task Esp)) (c : Section Esp)
        → sys.tasks ≡ before ++ enters c ∷ after
        → TurnOf sys (seat (locked c sys.inner) (before ++ after))

  pub data Turns (sys : Tasks Esp) : Tasks Esp → Type 0 where
    here : Turns sys sys
    next : {t u : Tasks Esp} → Turns sys t → TurnOf t u → Turns sys u

  -- The turns of one task with nobody in between, until it waits or ends.
  unfoldable pub alone :
      ℕ → Turn Esp × ConnectionStateInner Esp → Option (Progress Esp × ConnectionStateInner Esp)
  unfolding locked
  alone n (progress p, s) = some (p, s)
  alone zero (locks c, s) = none
  alone (suc n) (locks c, s) = alone n (locked c s)

abbrev pub at_start : (Esp : Type 0) → Tasks Esp
at_start Esp = record { inner = idle Esp; tasks = [] }
