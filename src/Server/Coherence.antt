-- ===== src/Server/Coherence.antt =====
-- What holds of the command server after any turns of its tasks.
use snx_rs.Prelude.{ℕ, Option, none, some, List, [], ◌∷◌, ◌++◌, inl, inr, Bool-cases, Option-cases}
use mathlib.Core.Path.{subst}
use snx_rs.Prelude.Result.{Result, err}
use snx_rs.Prelude.Text.{Text}
use snx_rs.Model.Session.{
  TunnelSession, TunnelServiceRequest, connect, challenge_code, disconnect, get_status, TunnelEvent,
}
use snx_rs.Server.{ConnectionStateInner, done, handled, waiting}
use snx_rs.Server.Handlers.{is_connected, status_start}
use snx_rs.Server.Events.{resume}
use snx_rs.Server.Sections.{
  Section, resetting, failing, cancelling, fetching, ending, applying, Turn, progress, locks, Task,
  awaits, enters, Tasks, as_turn, challenge_section, packet_section, event_section, locked, seat,
  TurnOf, packet, event, answer, turn, Turns, here, next, at_start,
}
use snx_rs.Server.Sound.{
  MfaMatches, IsReady, Sound, Matches, apply_event-Sound, resume-Sound, poll_with-Sound,
}

module _ {Esp : Type 0} where
  abbrev pub AllReady : List (Task Esp) → Type 0
  AllReady [] = Unit
  AllReady (awaits w ∷ tasks) = IsReady w × AllReady tasks
  AllReady (enters c ∷ tasks) = AllReady tasks

  pub record IsCoherent (sys : Tasks Esp) : Type 0 where
    pub matches : MfaMatches sys.inner.status sys.inner.session
    pub ready : AllReady sys.tasks

  -- The same of a turn that may come before another.
  abbrev TurnSound : Turn Esp × ConnectionStateInner Esp → Type 0
  TurnSound (progress p, s) = Sound (p, s)
  TurnSound (locks c, s) = MfaMatches s.status s.session

  challenge_section-Sound :
      (h : Option ℕ) (t : Option (TunnelSession Esp)) (code : Text) (s : ConnectionStateInner Esp)
      → Matches s
      → TurnSound (challenge_section h t code, s)
  unfolding challenge_section
  challenge_section-Sound none t code s m = m
  challenge_section-Sound (some h) none code s m = m
  challenge_section-Sound (some h) (some session) code s m = m

  packet_section-Sound :
      (p : Result TunnelServiceRequest) (s : ConnectionStateInner Esp)
      → Matches s
      → TurnSound (packet_section p s)
  unfolding packet_section status_start
  packet_section-Sound (err e) s m = m
  packet_section-Sound (Result.ok (connect params)) s m = elim (Bool-cases (is_connected s)) [
    | inl e ↦ rw (e, packet_section) m
    | inr e ↦ rw (e, packet_section) m
  ]
  packet_section-Sound (Result.ok (challenge_code code params)) s m =
      challenge_section-Sound s.connector s.session code s m
  packet_section-Sound (Result.ok disconnect) s m = m
  packet_section-Sound (Result.ok get_status) s m = poll_with-Sound s.status s.stats_poller s m

  event_section-Sound :
      (e : TunnelEvent) (s : ConnectionStateInner Esp) → Matches s → TurnSound (event_section e s)
  unfolding event_section
  event_section-Sound e s m = elim (Option-cases s.connector) [
    | inl q ↦ rw (q, event_section) m
    | inr (h, q) ↦ rw (q, event_section) (m, tt)
  ]

  locked-Sound :
      (c : Section Esp) (s : ConnectionStateInner Esp) → Matches s → TurnSound (locked c s)
  unfolding locked
  locked-Sound (resetting params) s m = (tt, tt)
  locked-Sound (failing e) s m = tt
  locked-Sound (cancelling h session code) s m = (m, tt)
  locked-Sound fetching s m = elim (Option-cases s.connector) [
    | inl q ↦ rw (q, locked) m
    | inr (h, q) ↦ rw (q, locked) (m, tt)
  ]
  locked-Sound ending s m = tt
  locked-Sound (applying e) s m = apply_event-Sound e s m

  AllReady-remove :
      (before after : List (Task Esp)) (t : Task Esp)
      → AllReady (before ++ t ∷ after)
      → AllReady (before ++ after)
  AllReady-remove [] after (awaits w) h = h.1
  AllReady-remove [] after (enters c) h = h
  AllReady-remove (awaits v ∷ before) after t h = (h.0, AllReady-remove before after t h.1)
  AllReady-remove (enters c ∷ before) after t h = AllReady-remove before after t h

  seat-IsCoherent :
      (o : Turn Esp × ConnectionStateInner Esp) (tasks : List (Task Esp))
      → TurnSound o
      → AllReady tasks
      → IsCoherent (seat o tasks)
  seat-IsCoherent (progress (waiting w), s) tasks h a = record { matches = h.0; ready = (h.1, a) }
  seat-IsCoherent (progress (done r), s) tasks h a = record { matches = h; ready = a }
  seat-IsCoherent (progress handled, s) tasks h a = record { matches = h; ready = a }
  seat-IsCoherent (locks c, s) tasks h a = record { matches = h; ready = a }

  TurnOf-IsCoherent : {sys t : Tasks Esp} → TurnOf sys t → IsCoherent sys → IsCoherent t
  TurnOf-IsCoherent {sys} (packet p) c =
      seat-IsCoherent (packet_section p sys.inner) sys.tasks
        (packet_section-Sound p sys.inner c.matches) c.ready
  TurnOf-IsCoherent {sys} (event e) c =
      seat-IsCoherent (event_section e sys.inner) sys.tasks
        (event_section-Sound e sys.inner c.matches) c.ready
  TurnOf-IsCoherent {sys} (answer before after w r e) c =
      seat-IsCoherent (as_turn (resume w r sys.inner)) (before ++ after)
        (resume-Sound w r sys.inner c.matches)
        (AllReady-remove before after (awaits w) (subst AllReady e c.ready))
  TurnOf-IsCoherent {sys} (turn before after section e) c =
      seat-IsCoherent (locked section sys.inner) (before ++ after)
        (locked-Sound section sys.inner c.matches)
        (AllReady-remove before after (enters section) (subst AllReady e c.ready))

  Turns-IsCoherent : {sys t : Tasks Esp} → IsCoherent sys → Turns sys t → IsCoherent t
  Turns-IsCoherent c here = c
  Turns-IsCoherent c (next r st) = TurnOf-IsCoherent st (Turns-IsCoherent c r)

-- After any packets, tunnel events and answers, with the tasks interleaved in any way at the points
-- where they take the mutex of the state or wait for an answer: a status that asks for a second
-- factor shows the challenge that the stored session is pending on, and no tunnel is being created
-- for a session with a challenge pending.
pub at_start-IsCoherent : (Esp : Type 0) (t : Tasks Esp) → Turns (at_start Esp) t → IsCoherent t
at_start-IsCoherent Esp t r = Turns-IsCoherent (record { matches = tt; ready = tt }) r
