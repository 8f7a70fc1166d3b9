-- ===== src/Controller/Ends.antt =====
-- That the controller comes to an end where the server's challenges do.
use snx_rs.Prelude.{ℕ, zero, suc, ◌<◌, true, some, ◌≡◌, refl, ap, arith, String}
use snx_rs.Prelude.Result.{Result, ok, err}
use snx_rs.Prelude.Text.{Text}
use snx_rs.Model.Params.{TunnelParams}
use snx_rs.Model.Session.{
  MfaChallenge, ConnectionStatus, mfa, connecting, connected, disconnected, get_status,
  challenge_code, disconnect, TunnelServiceResponse, error, connection_status,
}
use snx_rs.Controller.{World, Controller, get_mfa_input}
use snx_rs.Controller.Commands.{
  Run, refused, code_answered, do_challenge_code, keep_password, process_input, process_mfa_request,
  status_answered, do_status,
}

module _ {W : Type 0} (world : World W) (params : TunnelParams) (left : W → ℕ) where
  -- A code that the server accepts for its challenge leaves fewer challenges.
  abbrev pub Progresses : Type 0
  Progresses =
      (challenge : MfaChallenge) (c c' : Controller) (w w1 w2 w3 : W) (input : Text)
      → world.send get_status w ≡ (ok (connection_status (mfa challenge)), w1)
      → get_mfa_input world params challenge c w1 ≡ (ok input, c', w2)
      → world.send (challenge_code input params) w2 ≡ (ok TunnelServiceResponse.ok, w3)
      → left w3 < left w

  abbrev Ended : Run world → Type 0
  Ended run = (done : Result ConnectionStatus × Controller × W) × (run ≡ some done)

  refused-Ended :
      (e : String) (c : Controller) (given : Result TunnelServiceResponse × W)
      → Ended (refused world e c given)
  unfolding refused
  refused-Ended e c (ok r, w) = (_, refl)
  refused-Ended e c (err e', w) = (_, refl)

  module _ (again : Controller → W → Run world) (w : W)
      (ih : (c : Controller) (w' : W) → left w' < left w → Ended (again c w')) where
    code_answered-Ended :
        (answer : Result TunnelServiceResponse) (c : Controller) (w3 : W)
        → (answer ≡ ok TunnelServiceResponse.ok → left w3 < left w)
        → Ended (code_answered world again answer c w3)
    unfolding code_answered
    code_answered-Ended (ok TunnelServiceResponse.ok) c w3 h = ih c w3 (h refl)
    code_answered-Ended (ok (error e)) c w3 h = refused-Ended e c (world.send disconnect w3)
    code_answered-Ended (ok (connection_status s)) c w3 h = (_, refl)
    code_answered-Ended (err e) c w3 h = (_, refl)

    process_input-Ended :
        Progresses
        → (challenge : MfaChallenge) (c : Controller) (w1 : W)
          (given : Result Text × Controller × W)
        → world.send get_status w ≡ (ok (connection_status (mfa challenge)), w1)
        → get_mfa_input world params challenge c w1 ≡ given
        → Ended (process_input world params again challenge given)
    unfolding process_input do_challenge_code
    process_input-Ended p challenge c w1 (err e, c2, w2) asked given = (_, refl)
    process_input-Ended p challenge c w1 (ok input, c2, w2) asked given =
        let (answer, w3) = world.send (challenge_code input params) w2 in
        let (done, e) =
          code_answered-Ended answer c2 w3
            (λ h. p challenge c c2 w w1 w2 w3 input asked given (ap (λ a. (a, w3)) h)) in
        (keep_password world params challenge input done, rw (e, process_input) refl)

    status_answered-Ended :
        Progresses
        → (c : Controller) (answer : Result TunnelServiceResponse) (w1 : W)
        → world.send get_status w ≡ (answer, w1)
        → Ended (status_answered world params again true answer c w1)
    unfolding status_answered process_mfa_request
    status_answered-Ended p c (ok (connection_status (mfa challenge))) w1 e =
        process_input-Ended p challenge c w1 (get_mfa_input world params challenge c w1) e refl
    status_answered-Ended p c (ok (connection_status connecting)) w1 e = (_, refl)
    status_answered-Ended p c (ok (connection_status disconnected)) w1 e = (_, refl)
    status_answered-Ended p c (ok (connection_status (connected info))) w1 e = (_, refl)
    status_answered-Ended p c (ok (error m)) w1 e = (_, refl)
    status_answered-Ended p c (ok TunnelServiceResponse.ok) w1 e = (_, refl)
    status_answered-Ended p c (err m) w1 e = (_, refl)

  -- If every accepted code leaves fewer challenges, the status with its challenges comes to
  -- something with more fuel than there are challenges left.
  pub do_status_ends :
      (n : ℕ) (c : Controller) (w : W)
      → Progresses
      → left w < n
      → (done : Result ConnectionStatus × Controller × W) × (do_status world params n true c w
          ≡ some done)
  unfolding do_status
  do_status_ends zero c w p b = absurd (omega arith)
  do_status_ends (suc n) c w p b =
      let (answer, w1) = world.send get_status w in
      status_answered-Ended (do_status world params n true) w
        (λ c' w' smaller. do_status_ends n c' w' p (omega arith)) p c answer w1 refl
