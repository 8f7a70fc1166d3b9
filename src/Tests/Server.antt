-- ===== src/Tests/Server.antt =====
-- Tests of the command server.
use snx_rs.Prelude.{◌≡◌, refl, some, [], ◌∷◌}
use snx_rs.Prelude.Result.{Result, err}
use snx_rs.Prelude.Text.{codes}
use snx_rs.Model.Session.{
  password_input, mfa, connect, challenge_code, disconnect, TunnelServiceResponse,
}
use snx_rs.Server.{
  idle, new_connector, restore_session, authenticate, challenge, create_tunnel, delete_session,
  terminate_tunnel, poll, handle_event, new_poller, done,
}
use snx_rs.Server.Handlers.{is_connected, connect_in_state, handle_packet}
use snx_rs.Server.Events.{resume}
use snx_rs.Server.Sections.{
  Tasks, awaits, enters, resetting, packet, answer, turn, here, next, Turns, at_start,
  packet_section, locked,
}
use snx_rs.Server.Coherence.{IsCoherent, at_start-IsCoherent}
use snx_rs.Server.Requests.{
  Environment, Settles, run, goodbye, connect-Settles, challenge_code-Settles, disconnect_settles,
}
use snx_rs.Server.Races.{connecting_by}
use snx_rs.Tests.Data.{params, session, pending, stats}

-- A connector that asks for a second factor, and accepts any code.
abbrev environment : Environment (Unit {0})
environment (new_connector p) = Result.ok 7
environment (restore_session h) = err "error-not-implemented"
environment (authenticate h) = Result.ok pending
environment (challenge h s code) = Result.ok session
environment (create_tunnel h s) = Result.ok tt
environment (delete_session h) = Result.ok tt
environment (terminate_tunnel h signout) = Result.ok tt
environment (poll p i) = Result.ok stats
environment (handle_event h e) = Result.ok tt
environment (new_poller i) = err "no poller"

connect-Settles_example :
    Settles 4 environment (handle_packet (Result.ok (connect params)) (idle (Unit {0})))
unfolding is_connected
connect-Settles_example = connect-Settles environment params (idle (Unit {0})) refl

challenge_code-Settles_example :
    Settles 2 environment
      (handle_packet (Result.ok (challenge_code (codes "1") params)) (connecting_by 7))
challenge_code-Settles_example =
    challenge_code-Settles environment (codes "1") params (connecting_by 7)

disconnect_settles_example :
    run 2 environment (handle_packet (Result.ok disconnect) (connecting_by 7))
    ≡ (goodbye (some 7), done TunnelServiceResponse.ok, idle (Unit {0}))
disconnect_settles_example = disconnect_settles environment (connecting_by 7)

abbrev asking : Tasks (Unit {0})
asking = record {
  inner = record (connecting_by 7) {
    status = mfa (record { mfa_type = password_input; prompt = codes "Code:" });
    session = some pending;
  };
  tasks = [];
}

-- Two connect requests of which both pass the test before either resets the state; the first fails
-- at its factory after the second has its connector, and the second is asked for a second factor.
asking-Turns : Turns (at_start (Unit {0})) asking
unfolding packet_section is_connected locked resume connect_in_state
asking-Turns =
    next
      (next
        (next
          (next
            (next
              (next (next here (packet (Result.ok (connect params))))
                (packet (Result.ok (connect params))))
              (turn (enters (resetting params) ∷ []) [] (resetting params) refl))
            (turn (awaits (new_connector params) ∷ []) [] (resetting params) refl))
          (answer (awaits (new_connector params) ∷ []) [] (new_connector params) (err "refused")
            refl))
        (answer [] [] (new_connector params) (Result.ok 7) refl))
      (answer [] [] (authenticate 7) (Result.ok pending) refl)

at_start-IsCoherent_example : IsCoherent asking
at_start-IsCoherent_example = at_start-IsCoherent (Unit {0}) asking asking-Turns
