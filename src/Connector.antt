-- ===== src/Connector.antt =====
-- crates/snxcore/src/tunnel/ssl/connector.rs: logging in to the gateway, step by step, for an SSL
-- tunnel. The gateway connector is a parameter, a record of what it answers; `tr` gives the
-- translated messages.
pub mod Login
use snx_rs.Prelude.{
  ℕ, Bool, true, false, not, ◌&&◌, Option, none, some, String, List, [], ◌∷◌, ◌++◌, any,
  if◌then◌else◌,
}
use snx_rs.Prelude.Result.{Result}
use snx_rs.Prelude.Text.{Text, text_eq, starts_with, is_empty, codes}
use snx_rs.Model.CertType.{CertType, no_cert}
use snx_rs.Model.Params.{TunnelParams}
use snx_rs.Model.Login.{
  AuthResponse, LoginOption, LoginOptionsData, get_login_option, mobile_access_id,
  unwrap_or_default,
}
use snx_rs.Model.Session.{
  MfaType, identity_provider, password_input, user_name_input, mobile_access, SessionState,
  authenticated, pending_challenge, ssl_session_key, TunnelSession, TunnelCommand, terminate,
}

-- The message of an error: a key of a translated message or the error of the gateway connector, or
-- `[{code} {id}] {message}` as the gateway gives them.
pub data AuthError : Type 0 where
  message : String → AuthError
  rejected : ℕ → Text → Text → AuthError

pub data Attempt {ℓ} (A : Type ℓ) : Type ℓ where
  reached : A → Attempt A
  failed : AuthError → Attempt A

unfoldable pub and_then {ℓ κ} : {A : Type ℓ} {B : Type κ} → Attempt A → (A → Attempt B) → Attempt B
and_then (reached a) f = f a
and_then (failed e) f = failed e

-- `?` on an answer of the gateway connector
unfoldable pub asked {ℓ} : {A : Type ℓ} → Result A → Attempt A
asked (Result.ok a) = reached a
asked (Result.err e) = failed (message e)

-- `GatewayConnector`, as far as the login uses it. Equal requests of one login have equal answers.
pub record Gateway : Type 0 where
  pub get_gateway_information : Result (Option LoginOptionsData)
  pub authenticate_user : Text → Result AuthResponse
  pub answer_challenge : Text → Text → Result AuthResponse

unfoldable pub mfa_type_of : Option Text → MfaType
mfa_type_of none = password_input
mfa_type_of (some p) =
    if starts_with p (codes "https://") then identity_provider else password_input

unfoldable pub error_of : Option Text → Option Text → Option ℕ → AuthError
error_of (some text) (some id) (some code) = rejected code id text
error_of _ _ _ = message "error-auth-failed"

unfoldable pub session_key : Option Bool → Option Text → AuthError → Attempt Text
session_key (some true) (some key) e = reached key
session_key _ _ e = failed e

unfoldable pub has_saml : Option LoginOption → Bool
has_saml none = false
has_saml (some o) = any (λ f. text_eq f.1.factor_type (codes "identity_provider")) o.factors

unfoldable pub is_none : CertType → Bool
is_none no_cert = true
is_none _ = false

-- `create_tunnel`: the sender is kept whether the tunnel is made or not.
unfoldable pub create_tunnel {ℓ} :
    {Tunnel : Type ℓ} → ℕ → Result Tunnel → Option ℕ → Result Tunnel × Option ℕ
create_tunnel sender made old = (made, some sender)

module _ {Esp : Type 0} where
  unfoldable pub pending : Text → MfaType → Text → TunnelSession Esp
  pending id type prompt = record {
    session_id = id;
    state = pending_challenge (record { mfa_type = type; prompt = prompt });
    username = none;
  }

  unfoldable pub with_key : Text → Option Text → Text → TunnelSession Esp
  with_key id name key = record {
    session_id = id;
    state = authenticated (ssl_session_key key);
    username = name;
  }

  unfoldable pub process_auth_response : AuthResponse → Attempt (TunnelSession Esp)
  unfolding mfa_type_of error_of session_key unwrap_or_default and_then pending with_key
  process_auth_response r =
      let session_id = unwrap_or_default r.session_id in
      if text_eq r.authn_status (codes "continue")
      then reached (pending session_id (mfa_type_of r.prompt) (unwrap_or_default r.prompt))
      else if text_eq r.authn_status (codes "done")
      then and_then
          (session_key r.is_authenticated r.active_key
            (error_of r.error_message r.error_id r.error_code))
          (λ key. reached (with_key session_id r.username key))
      else failed (message "error-auth-failed")

  module _ (tr : String → Text) (gateway : Gateway) (params : TunnelParams) where
    unfoldable pub authenticate_with : Option LoginOptionsData → Attempt (TunnelSession Esp)
    unfolding has_saml is_none process_auth_response asked pending and_then get_login_option
    authenticate_with options =
        let is_saml = has_saml (get_login_option options params.login_type) in
        if is_none params.cert_type && is_empty params.user_name && not is_saml
        then reached (pending [] user_name_input (tr "label-username"))
        else and_then (asked (gateway.authenticate_user params.user_name)) process_auth_response

    unfoldable pub authenticate : Attempt (TunnelSession Esp)
    unfolding authenticate_with pending and_then asked
    authenticate =
        if text_eq params.login_type mobile_access_id
        then reached
            (pending [] mobile_access (codes "https://" ++ (params.server_name ++ codes "/")))
        else and_then (asked gateway.get_gateway_information) authenticate_with

    unfoldable pub challenge_code : TunnelSession Esp → Text → Attempt (TunnelSession Esp)
    unfolding process_auth_response asked and_then with_key
    challenge_code session user_input =
        if text_eq params.login_type mobile_access_id
        then reached (with_key [] none user_input)
        else and_then
            (asked (
              if is_empty session.session_id
              then gateway.authenticate_user user_input
              else gateway.answer_challenge session.session_id user_input))
            process_auth_response

    -- The codes that the user types, one for each challenge, while one is pending.
    unfoldable pub answer_all : List Text → TunnelSession Esp → Attempt (TunnelSession Esp)
    unfolding challenge_code and_then
    answer_all [] session = reached session
    answer_all (code ∷ more) session = and_then (challenge_code session code) (answer_all more)

    unfoldable pub restore_session : Attempt (TunnelSession Esp)
    restore_session = failed (message "error-not-implemented")

  -- `terminate_tunnel`: the sender of the commands is taken, so that it is used once.
  unfoldable pub terminate_tunnel : Bool → Option ℕ → List (ℕ × TunnelCommand Esp) × Option ℕ
  terminate_tunnel signout none = ([], none)
  terminate_tunnel signout (some sender) = ((sender, terminate signout) ∷ [], none)
