-- ===== src/Server/Requests.antt =====
-- A request of server.rs that runs from its packet to its response with no other task in between.
use mathlib.Core.Path.{subst}
use snx_rs.Prelude.{
  ℕ, zero, suc, ◌≡◌, refl, sym, String, true, false, Option, none, some, List, [], ◌∷◌, inl, inr,
  Bool-cases, Option-cases,
}
use snx_rs.Prelude.Result.{Result, err}
use snx_rs.Prelude.Text.{Text}
use snx_rs.Model.Params.{TunnelParams}
use snx_rs.Model.Session.{
  TunnelSession, SessionState, no_state, authenticated, pending_challenge, ConnectionStatus,
  connecting, mfa, connect, challenge_code, disconnect, TunnelServiceResponse, error,
}
use snx_rs.Server.{
  ConnectionStateInner, idle, Wait, restore_session, authenticate, create_tunnel, delete_session,
  terminate_tunnel, Reply, Progress, done, handled, waiting,
}
use snx_rs.Server.Handlers.{
  is_connected, fail, connect_in_state, tunnel_created, connector_made, session_restored,
  session_given, challenge_with, challenge_start, connect_start, disconnect_start, handle_packet,
}
use snx_rs.Server.Events.{resume}
use snx_rs.Server.Sound.{HasNoChallenge}

abbrev pub Environment : Type 0 → Type 0
Environment Esp = (w : Wait Esp) → Reply Esp w

module _ {Esp : Type 0} where
  -- The waits of a task in their order, its last progress, and the state that it leaves.
  unfoldable pub run :
      ℕ
      → Environment Esp
      → Progress Esp × ConnectionStateInner Esp
      → List (Wait Esp) × Progress Esp × ConnectionStateInner Esp
  run zero env (p, s) = ([], p, s)
  run (suc f) env (waiting w, s) =
      let (ws, p, s') = run f env (resume w (env w) s) in (w ∷ ws, p, s')
  run (suc f) env (done r, s) = ([], done r, s)
  run (suc f) env (handled, s) = ([], handled, s)

  -- A connector and a session are stored, and the status fits the session.
  abbrev pub IsUnderWay : ConnectionStatus → Option ℕ → Option (TunnelSession Esp) → Type 0
  IsUnderWay connecting (some h) (some t) = HasNoChallenge t.state
  IsUnderWay (mfa c) (some h) (some t) = t.state ≡ pending_challenge c
  IsUnderWay _ _ _ = ⊥

  -- The request has been answered: by `Ok` with the connection under way, or by an error with
  -- nothing left of it.
  abbrev pub IsSettled : Progress Esp → ConnectionStateInner Esp → Type 0
  IsSettled (done TunnelServiceResponse.ok) s = IsUnderWay s.status s.connector s.session
  IsSettled (done (error e)) s = s ≡ idle Esp
  IsSettled _ s = ⊥

  abbrev pub Settles : ℕ → Environment Esp → Progress Esp × ConnectionStateInner Esp → Type 0
  Settles f env o = let (ws, p, s) = run f env o in IsSettled p s

  fail-Settles :
      (n : ℕ) (env : Environment Esp) (e : String) (s : ConnectionStateInner Esp)
      → Settles n env (fail e s)
  unfolding run fail
  fail-Settles zero env e s = refl
  fail-Settles (suc n) env e s = refl

  tunnel_created-Settles :
      (n : ℕ) (env : Environment Esp) (r : Result (Unit {0})) (s : ConnectionStateInner Esp)
      → IsUnderWay s.status s.connector s.session
      → Settles n env (tunnel_created r s)
  unfolding run tunnel_created
  tunnel_created-Settles zero env (Result.ok _) s u = u
  tunnel_created-Settles (suc n) env (Result.ok _) s u = u
  tunnel_created-Settles n env (err e) s u = fail-Settles n env e s

  connect_in_state-Settles :
      (n : ℕ) (env : Environment Esp) (st : SessionState Esp) (session : TunnelSession Esp) (h : ℕ)
      (s : ConnectionStateInner Esp)
      → session.state ≡ st
      → s.connector ≡ some h
      → Settles (suc n) env (connect_in_state st session h s)
  unfolding run connect_in_state resume
  connect_in_state-Settles n env no_state session h s e c =
      tunnel_created-Settles n env (env (create_tunnel h session))
        (record s { session = some session; status = connecting })
        (subst (λ o. IsUnderWay connecting o (some session)) (sym c)
          (subst HasNoChallenge (sym e) tt))
  connect_in_state-Settles n env (authenticated a) session h s e c =
      tunnel_created-Settles n env (env (create_tunnel h session))
        (record s { session = some session; status = connecting })
        (subst (λ o. IsUnderWay connecting o (some session)) (sym c)
          (subst HasNoChallenge (sym e) tt))
  connect_in_state-Settles n env (pending_challenge ch) session h s e c =
      subst (λ o. IsUnderWay (mfa ch) o (some session)) (sym c) e

  session_given-Settles :
      (n : ℕ) (env : Environment Esp) (h : ℕ) (r : Result (TunnelSession Esp))
      (s : ConnectionStateInner Esp)
      → s.connector ≡ some h
      → Settles (suc n) env (session_given h r s)
  unfolding session_given
  session_given-Settles n env h (Result.ok session) s c =
      connect_in_state-Settles n env session.state session h s refl c
  session_given-Settles n env h (err e) s c = fail-Settles (suc n) env e s

  session_restored-Settles :
      (n : ℕ) (env : Environment Esp) (h : ℕ) (r : Result (TunnelSession Esp))
      (s : ConnectionStateInner Esp)
      → s.connector ≡ some h
      → Settles (suc (suc n)) env (session_restored h r s)
  unfolding run session_restored resume
  session_restored-Settles n env h (Result.ok session) s c =
      connect_in_state-Settles (suc n) env session.state session h s refl c
  session_restored-Settles n env h (err e) s c =
      session_given-Settles n env h (env (authenticate h)) s c

  connector_made-Settles :
      (n : ℕ) (env : Environment Esp) (params : TunnelParams) (r : Result ℕ)
      (s : ConnectionStateInner Esp)
      → Settles (suc (suc (suc n))) env (connector_made params r s)
  unfolding run connector_made resume
  connector_made-Settles n env params (err e) s = fail-Settles (suc (suc (suc n))) env e s
  connector_made-Settles n env params (Result.ok h) s = elim (Bool-cases params.ike_persist) [
    | inl e ↦
        rw (e, connector_made)
          (session_restored-Settles n env h (env (restore_session h))
            (record s { status = connecting; cancel = some h; connector = some h }) refl)
    | inr e ↦
        rw (e, connector_made)
          (session_given-Settles (suc n) env h (env (authenticate h))
            (record s { status = connecting; cancel = some h; connector = some h }) refl)
  ]

  -- A connect request to a server that is disconnected, run with no other task in between, needs at
  -- most four answers, whatever they are. Either it is answered with `Ok`, and then a connector and
  -- a session are stored with the status that fits the session, or with an error, and then the
  -- state is that after `reset`.
  pub connect-Settles :
      (env : Environment Esp) (params : TunnelParams) (s : ConnectionStateInner Esp)
      → is_connected s ≡ false
      → Settles 4 env (handle_packet (Result.ok (connect params)) s)
  unfolding run handle_packet connect_start resume
  connect-Settles env params s e =
      rw (e, connect_start)
        (connector_made-Settles 0 env params (env (Wait.new_connector params)) (idle Esp))

  challenge_with-Settles :
      (env : Environment Esp) (h : Option ℕ) (t : Option (TunnelSession Esp)) (code : Text)
      (s : ConnectionStateInner Esp)
      → s.connector ≡ h
      → Settles 2 env (challenge_with h t code s)
  unfolding run challenge_with resume
  challenge_with-Settles env none t code s c = fail-Settles 2 env "No connector" s
  challenge_with-Settles env (some h) none code s c = fail-Settles 2 env "No session" s
  challenge_with-Settles env (some h) (some session) code s c =
      session_given-Settles 0 env h (env (Wait.challenge h session code))
        (record s { cancel = some h }) c

  -- A challenge code, in any state and run with no other task in between, needs at most two
  -- answers. Either it is answered with `Ok`, and then a connector and a session are stored with
  -- the status that fits the session, or with an error, and then the state is that after `reset`.
  pub challenge_code-Settles :
      (env : Environment Esp) (code : Text) (params : TunnelParams) (s : ConnectionStateInner Esp)
      → Settles 2 env (handle_packet (Result.ok (challenge_code code params)) s)
  unfolding handle_packet challenge_start
  challenge_code-Settles env code params s =
      challenge_with-Settles env s.connector s.session code s refl

  -- What a disconnect asks of the connector.
  abbrev pub goodbye : Option ℕ → List (Wait Esp)
  goodbye none = []
  goodbye (some h) = delete_session h ∷ terminate_tunnel h true ∷ []

  -- Whatever the connector answers, a disconnect has it delete its session and terminate the tunnel
  -- with a sign-out, in this order, if there is a connector; then it answers `Ok` and leaves the
  -- state after `reset`.
  pub disconnect_settles :
      (env : Environment Esp) (s : ConnectionStateInner Esp)
      → run 2 env (handle_packet (Result.ok disconnect) s)
        ≡ (goodbye s.connector, done TunnelServiceResponse.ok, idle Esp)
  unfolding run handle_packet disconnect_start resume
  disconnect_settles env s = elim (Option-cases s.connector) [
    | inl e ↦ rw (e, disconnect_start)
    | inr (h, e) ↦ rw (e, disconnect_start)
  ]
