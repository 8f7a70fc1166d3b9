-- ===== src/Tests/Connector.antt =====
-- Tests of the SSL connector's login.
use snx_rs.Prelude.{true, false, none, some, String, [], ◌∷◌, ◌≡◌, refl}
use snx_rs.Prelude.Result.{ok}
use snx_rs.Prelude.Text.{Text, codes, text_eq}
use snx_rs.Model.Login.{AuthResponse, get_login_option, mobile_access_id}
use snx_rs.Connector.{Gateway, and_then, has_saml, authenticate, challenge_code, answer_all}
use snx_rs.Connector.Login.{Grants, login-Grants, authenticate-challenge_code}
use snx_rs.Tests.Data.{params}

abbrev response : Text → AuthResponse
response status = record {
  authn_status = status;
  is_authenticated = some true;
  active_key = some (codes "key");
  server_fingerprint = none;
  server_cn = none;
  session_id = some (codes "42");
  active_key_timeout = none;
  error_message = none;
  error_id = none;
  error_code = none;
  prompt = some (codes "Code:");
  username = none;
}

abbrev gateway : Gateway
gateway = record {
  get_gateway_information = ok none;
  authenticate_user = λ name. ok (response (codes "continue"));
  answer_challenge = λ id code. ok (response (codes "done"));
}

abbrev translate : String → Text
translate key = codes key

no_mobile_access : text_eq params.login_type mobile_access_id ≡ false
unfolding text_eq
no_mobile_access = refl

no_saml : has_saml (get_login_option none params.login_type) ≡ false
unfolding has_saml get_login_option
no_saml = refl

login-Grants_example : Grants gateway (
    and_then
      (authenticate translate gateway params)
      (answer_all {Esp = Unit {0}} translate gateway params (codes "me" ∷ codes "123" ∷ [])))
login-Grants_example =
    login-Grants (Unit {0}) translate gateway params (codes "me" ∷ codes "123" ∷ [])
      no_mobile_access

authenticate-challenge_code_example :
    and_then
      (authenticate translate gateway params)
      (λ s. challenge_code {Esp = Unit {0}} translate gateway params s (codes "me"))
    ≡ authenticate translate gateway (record params { user_name = codes "me" })
authenticate-challenge_code_example =
    authenticate-challenge_code (Unit {0}) translate gateway params none (codes "me")
      no_mobile_access refl no_saml refl refl refl
