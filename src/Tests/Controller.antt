-- ===== src/Tests/Controller.antt =====
-- Tests of the controller, against a server that asks for one password.
use snx_rs.Prelude.{
  ℕ, zero, suc, ◌+◌, true, false, none, some, [], ◌≡◌, refl, ap, arith, ◌==◌, if◌then◌else◌,
}
use snx_rs.Prelude.Result.{Result, ok, err}
use snx_rs.Prelude.Text.{codes}
use snx_rs.Model.Params.{TunnelParams}
use snx_rs.Model.Session.{
  password_input, MfaChallenge, ConnectionStatus, mfa, connecting, disconnected, connect,
  challenge_code, disconnect, get_status, TunnelServiceRequest, TunnelServiceResponse,
  connection_status,
}
use snx_rs.Controller.{World, Controller, get_mfa_input}
use snx_rs.Controller.Mfa.{get_mfa_input_unattended}
use snx_rs.Controller.Ends.{Progresses, do_status_ends}
use snx_rs.Controller.Commands.{
  Run, status_command, command, do_status, status_answered, do_challenge_code, code_answered,
}
use snx_rs.Tests.Data.{params}

abbrev challenge : MfaChallenge
challenge = record { mfa_type = password_input; prompt = codes "Password:" }

-- The state is 1 while the server waits for the password.
abbrev serve : TunnelServiceRequest → ℕ → Result TunnelServiceResponse × ℕ
serve get_status zero = (ok (connection_status disconnected), zero)
serve get_status (suc n) = (ok (connection_status (mfa challenge)), suc n)
serve (challenge_code input p) n = (ok TunnelServiceResponse.ok, 0)
serve (connect p) n = (ok TunnelServiceResponse.ok, 1)
serve disconnect n = (ok TunnelServiceResponse.ok, 0)

abbrev world : World ℕ
world = record {
  send = serve;
  get_secure_input = λ prompt n. (ok (codes "typed"), n);
  get_plain_input = λ prompt n. (ok (codes "me"), n);
  acquire_password = λ profile n. (err "no password", n);
  store_password = λ profile password n. n + 100;
  listen = λ n. (ok tt, n);
  acquire_otp = λ n. (none, n);
  open_browser = λ url n. (ok tt, n);
  acquire_tunnel_password = λ url n. (none, n);
  close_browser = λ n. n;
  cancel_otp = λ n. n;
  user_variable = none;
  is_timed_out = λ n. (false, n);
  tr = λ key. codes key;
}

abbrev controller : Controller
controller = record {
  mfa_prompts = [];
  mfa_index = 0;
  password_from_keychain = [];
  username = [];
  has_otp_cancel_sender = false;
}

abbrev attended : TunnelParams
attended = record params { keychain = true }

abbrev unattended : TunnelParams
unattended = record params { password = codes "secret"; mfa_code = some (codes "123") }

get_mfa_input_unattended_example : get_mfa_input world unattended challenge controller 1 ≡ (
  ok (if 0 + 1 == 1 then codes "secret" else codes "123"),
  record controller { mfa_index = 0 + 1 },
  1,
)
get_mfa_input_unattended_example =
    get_mfa_input_unattended world unattended challenge controller 1 (codes "123") refl refl refl

abbrev again : Controller → ℕ → Run world
again c n = some (ok connecting, record c { mfa_index = 1 }, n)

password_accepted :
    do_challenge_code world attended again (codes "typed") controller 1
    ≡ some (ok connecting, record controller { mfa_index = 1 }, 0)
unfolding do_challenge_code code_answered
password_accepted = refl

status_at_once :
    command world 0 status_command params controller 1 ≡ some (ok (mfa challenge), controller, 1)
unfolding command do_status status_answered
status_at_once = refl

world-Progresses : Progresses world attended (λ n. n)
world-Progresses ch c c' zero w1 w2 w3 input asked given accepted = cc asked
world-Progresses ch c c' (suc n) w1 w2 w3 input asked given accepted =
    let none_left : 0 ≡ w3 = ap (λ p. p.1) accepted in omega arith

do_status_ends_example :
    (done : Result ConnectionStatus × Controller × ℕ) × (do_status world attended 2 true controller
        1
      ≡ some done)
do_status_ends_example =
    do_status_ends world attended (λ n. n) 2 controller 1 world-Progresses (omega arith)
