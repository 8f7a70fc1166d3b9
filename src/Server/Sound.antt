-- ===== src/Server/Sound.antt =====
-- What one run of a task of the command server keeps, from one wait to the next.
use snx_rs.Prelude.{ℕ, ◌≡◌, refl, sym, Option, none, some, inl, inr, Bool-cases}
use mathlib.Core.Path.{subst}
use snx_rs.Prelude.Result.{Result, err}
use snx_rs.Model.Params.{TunnelParams}
use snx_rs.Model.Session.{
  TunnelSession, SessionState, no_state, authenticated, pending_challenge, ConnectionStatus,
  connecting, mfa, ConnectionInfo, TunnelEvent, rekey_check, remote_control_data, rekeyed, rtt,
}
use snx_rs.Server.{
  ConnectionStateInner, Wait, new_connector, restore_session, authenticate, challenge,
  create_tunnel, delete_session, terminate_tunnel, poll, handle_event, new_poller, Reply, Progress,
  done, handled, waiting,
}
use snx_rs.Server.Handlers.{
  connect_for_session, tunnel_created, connector_made, session_restored, session_given,
  connect_in_state, poll_with,
}
use snx_rs.Server.Events.{on_info, apply_event, resume}

module _ {Esp : Type 0} where
  -- A status that asks for a second factor asks what the stored session is pending on.
  abbrev pub MfaMatches : ConnectionStatus → Option (TunnelSession Esp) → Type 0
  MfaMatches (mfa c) (some t) = t.state ≡ pending_challenge c
  MfaMatches (mfa c) none = ⊥
  MfaMatches connecting _ = Unit
  MfaMatches ConnectionStatus.disconnected _ = Unit
  MfaMatches (ConnectionStatus.connected info) _ = Unit

  -- A tunnel is only created for a session with no challenge pending.
  abbrev pub HasNoChallenge : SessionState Esp → Type 0
  HasNoChallenge (pending_challenge c) = ⊥
  HasNoChallenge no_state = Unit
  HasNoChallenge (authenticated a) = Unit

  abbrev pub IsReady : Wait Esp → Type 0
  IsReady (create_tunnel h session) = HasNoChallenge session.state
  IsReady _ = Unit

  -- The same of one run of a task: the state it leaves, and what it waits for.
  abbrev pub Sound : Progress Esp × ConnectionStateInner Esp → Type 0
  Sound (waiting w, s) = MfaMatches s.status s.session × IsReady w
  Sound (done r, s) = MfaMatches s.status s.session
  Sound (handled, s) = MfaMatches s.status s.session

  abbrev pub Matches : ConnectionStateInner Esp → Type 0
  Matches s = MfaMatches s.status s.session

  connect_in_state-Sound :
      (st : SessionState Esp) (session : TunnelSession Esp) (h : ℕ) (s : ConnectionStateInner Esp)
      → session.state ≡ st
      → Sound (connect_in_state st session h s)
  unfolding connect_in_state
  connect_in_state-Sound no_state session h s e = (tt, subst HasNoChallenge (sym e) tt)
  connect_in_state-Sound (authenticated a) session h s e = (tt, subst HasNoChallenge (sym e) tt)
  connect_in_state-Sound (pending_challenge c) session h s e = e

  connect_for_session-Sound :
      (session : TunnelSession Esp) (h : ℕ) (s : ConnectionStateInner Esp)
      → Sound (connect_for_session session h s)
  unfolding connect_for_session
  connect_for_session-Sound session h s = connect_in_state-Sound session.state session h s refl

  session_given-Sound :
      (h : ℕ) (r : Result (TunnelSession Esp)) (s : ConnectionStateInner Esp)
      → Sound (session_given h r s)
  unfolding session_given
  session_given-Sound h (Result.ok session) s = connect_for_session-Sound session h s
  session_given-Sound h (err e) s = tt

  session_restored-Sound :
      (h : ℕ) (r : Result (TunnelSession Esp)) (s : ConnectionStateInner Esp)
      → Matches s
      → Sound (session_restored h r s)
  unfolding session_restored
  session_restored-Sound h (Result.ok session) s m = connect_for_session-Sound session h s
  session_restored-Sound h (err e) s m = (m, tt)

  connector_made-Sound :
      (params : TunnelParams) (r : Result ℕ) (s : ConnectionStateInner Esp)
      → Sound (connector_made params r s)
  unfolding connector_made
  connector_made-Sound params (err e) s = tt
  connector_made-Sound params (Result.ok h) s = elim (Bool-cases params.ike_persist) [
    | inl e ↦ rw (e, connector_made) (tt, tt)
    | inr e ↦ rw (e, connector_made) (tt, tt)
  ]

  tunnel_created-Sound :
      (r : Result (Unit {0})) (s : ConnectionStateInner Esp)
      → Matches s
      → Sound (tunnel_created r s)
  unfolding tunnel_created
  tunnel_created-Sound (Result.ok _) s m = m
  tunnel_created-Sound (err e) s m = tt

  on_info-Matches :
      (f : ConnectionInfo → ConnectionInfo) (status : ConnectionStatus)
      (t : Option (TunnelSession Esp))
      → MfaMatches status t
      → MfaMatches (on_info f status) t
  unfolding on_info
  on_info-Matches f (ConnectionStatus.connected info) t m = tt
  on_info-Matches f ConnectionStatus.disconnected t m = tt
  on_info-Matches f connecting t m = tt
  on_info-Matches f (mfa c) t m = m

  pub apply_event-Sound :
      (e : TunnelEvent) (s : ConnectionStateInner Esp) → Matches s → Sound (apply_event e s)
  unfolding apply_event
  apply_event-Sound (TunnelEvent.connected info) s m = (m, tt)
  apply_event-Sound TunnelEvent.disconnected s m = tt
  apply_event-Sound (rekeyed address) s m = on_info-Matches _ s.status s.session m
  apply_event-Sound (rtt nanos) s m = on_info-Matches _ s.status s.session m
  apply_event-Sound rekey_check s m = m
  apply_event-Sound (remote_control_data d) s m = m

  pub resume-Sound :
      (w : Wait Esp) (r : Reply Esp w) (s : ConnectionStateInner Esp)
      → Matches s
      → Sound (resume w r s)
  unfolding resume
  resume-Sound (new_connector params) r s m = connector_made-Sound params r s
  resume-Sound (restore_session h) r s m = session_restored-Sound h r s m
  resume-Sound (authenticate h) r s m = session_given-Sound h r s
  resume-Sound (challenge h session code) r s m = session_given-Sound h r s
  resume-Sound (create_tunnel h session) r s m = tunnel_created-Sound r s m
  resume-Sound (delete_session h) r s m = (m, tt)
  resume-Sound (terminate_tunnel h signout) r s m = tt
  resume-Sound (poll p info) r s m = m
  resume-Sound (handle_event h e) (Result.ok _) s m = apply_event-Sound e s m
  resume-Sound (handle_event h e) (err x) s m = tt
  resume-Sound (new_poller info) (Result.ok p) s m = tt
  resume-Sound (new_poller info) (err x) s m = tt

  pub poll_with-Sound :
      (status : ConnectionStatus) (p : Option ℕ) (s : ConnectionStateInner Esp)
      → Matches s
      → Sound (poll_with status p s)
  unfolding poll_with
  poll_with-Sound (ConnectionStatus.connected info) (some p) s m = (m, tt)
  poll_with-Sound (ConnectionStatus.connected info) none s m = m
  poll_with-Sound ConnectionStatus.disconnected p s m = m
  poll_with-Sound connecting p s m = m
  poll_with-Sound (mfa c) p s m = m
