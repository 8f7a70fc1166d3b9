-- ===== src/Connector/Login.antt =====
-- What a login needs from the gateway, and that a user name may be typed instead of stored.
use mathlib.Core.Path.{subst}
use snx_rs.Prelude.{
  Bool, true, false, not, ◌&&◌, Option, none, some, String, List, [], ◌∷◌, ◌≡◌, refl, ◌⊎◌, inl, inr,
  Bool-cases,
}
use snx_rs.Prelude.Result.{Result}
use snx_rs.Prelude.Text.{Text, text_eq, is_empty, codes}
use snx_rs.Model.CertType.{no_cert}
use snx_rs.Model.Params.{TunnelParams}
use snx_rs.Model.Login.{
  AuthResponse, LoginOptionsData, get_login_option, mobile_access_id, unwrap_or_default,
}
use snx_rs.Model.Session.{
  SessionState, no_state, authenticated, pending_challenge, ssl_session_key, ipsec_session,
  TunnelSession,
}
use snx_rs.Connector.{
  AuthError, Attempt, reached, failed, and_then, asked, Gateway, error_of, session_key, has_saml,
  is_none, pending, with_key, process_auth_response, authenticate_with, authenticate,
  challenge_code, answer_all,
}

-- The gateway has given the answer to some question.
unfoldable pub Answered : Gateway → AuthResponse → Type 0
Answered gateway r =
    ((name : Text) × (gateway.authenticate_user name ≡ Result.ok r))
    ⊎ ((id code : Text) × (gateway.answer_challenge id code ≡ Result.ok r))

-- An answer of the gateway that says `done`, that the user is authenticated, and the key.
unfoldable pub Granted : Gateway → Text → Type 0
Granted gateway key =
    (r : AuthResponse) × Answered gateway r
    × (text_eq r.authn_status (codes "done") ≡ true)
    × (r.is_authenticated ≡ some true)
    × (r.active_key ≡ some key)

asked-reached {ℓ} : {A : Type ℓ} (x : Result A) (a : A) → asked x ≡ reached a → x ≡ Result.ok a
unfolding asked
asked-reached (Result.ok b) a h = cc h
asked-reached (Result.err e) a h = cc h

module _ {Esp : Type 0} where
  -- A challenge is pending, or the gateway has granted the key.
  unfoldable pub IsGranted : Gateway → SessionState Esp → Type 0
  unfolding Granted
  IsGranted gateway no_state = ⊥
  IsGranted gateway (pending_challenge c) = Unit {0}
  IsGranted gateway (authenticated (ssl_session_key key)) = Granted gateway key
  IsGranted gateway (authenticated (ipsec_session s)) = ⊥

  unfoldable pub Grants : Gateway → Attempt (TunnelSession Esp) → Type 0
  unfolding IsGranted
  Grants gateway (failed e) = Unit {0}
  Grants gateway (reached s) = IsGranted gateway s.state

  Grants-and_then {ℓ} :
      {A : Type ℓ} (gateway : Gateway) (a : Attempt A) (f : A → Attempt (TunnelSession Esp))
      → ((x : A) → a ≡ reached x → Grants gateway (f x))
      → Grants gateway (and_then a f)
  unfolding Grants and_then
  Grants-and_then gateway (reached x) f h = h x refl
  Grants-and_then gateway (failed e) f h = tt

module _ (Esp : Type 0) where
  Grants-session_key :
      (gateway : Gateway) (r : AuthResponse) (id : Text) (e : AuthError) (a : Option Bool)
      (k : Option Text)
      → Answered gateway r
      → text_eq r.authn_status (codes "done") ≡ true
      → r.is_authenticated ≡ a
      → r.active_key ≡ k
      → Grants gateway
          (and_then (session_key a k e) (λ key. reached (with_key {Esp = Esp} id r.username key)))
  unfolding session_key and_then with_key Grants
  Grants-session_key gateway r id e (some true) (some key) ans done ea ek = (r, ans, done, ea, ek)
  Grants-session_key gateway r id e (some true) none ans done ea ek = tt
  Grants-session_key gateway r id e (some false) k ans done ea ek = tt
  Grants-session_key gateway r id e none k ans done ea ek = tt

  Grants-process_auth_response :
      (gateway : Gateway) (r : AuthResponse)
      → Answered gateway r
      → Grants gateway (process_auth_response {Esp = Esp} r)
  unfolding process_auth_response Grants pending
  Grants-process_auth_response gateway r ans =
      elim (Bool-cases (text_eq r.authn_status (codes "continue"))) [
        | inl e ↦ rw (e, process_auth_response) tt
        | inr e ↦ elim (Bool-cases (text_eq r.authn_status (codes "done"))) [
          | inl d ↦
              rw (e, d, process_auth_response)
                (Grants-session_key gateway r (unwrap_or_default r.session_id)
                  (error_of r.error_message r.error_id r.error_code) r.is_authenticated r.active_key
                  ans d refl refl)
          | inr d ↦ rw (e, d, process_auth_response) tt
        ]
      ]

  Grants-answer :
      (gateway : Gateway) (x : Result AuthResponse)
      → ((r : AuthResponse) → x ≡ Result.ok r → Answered gateway r)
      → Grants gateway (and_then (asked x) (process_auth_response {Esp = Esp}))
  Grants-answer gateway x h =
      Grants-and_then gateway (asked x) process_auth_response
        (λ r e. Grants-process_auth_response gateway r (h r (asked-reached x r e)))

  module _ (tr : String → Text) (gateway : Gateway) (params : TunnelParams) where
    authenticate_with-Grants :
        (options : Option LoginOptionsData)
        → Grants gateway (authenticate_with {Esp = Esp} tr gateway params options)
    unfolding authenticate_with Grants pending Answered
    authenticate_with-Grants options =
        elim (Bool-cases (
          is_none params.cert_type
          && is_empty params.user_name
          && not (has_saml (get_login_option options params.login_type)))) [
            | inl e ↦ rw (e, authenticate_with) tt
            | inr e ↦
                rw (e, authenticate_with)
                  (Grants-answer gateway (gateway.authenticate_user params.user_name)
                    (λ r h. inl (params.user_name, h)))
          ]

    authenticate-Grants :
        text_eq params.login_type mobile_access_id ≡ false
        → Grants gateway (authenticate {Esp = Esp} tr gateway params)
    unfolding authenticate
    authenticate-Grants ma =
        rw (ma, authenticate)
          (Grants-and_then gateway (asked gateway.get_gateway_information)
            (authenticate_with tr gateway params) (λ options e. authenticate_with-Grants options))

    challenge_code-Grants :
        (session : TunnelSession Esp) (user_input : Text)
        → text_eq params.login_type mobile_access_id ≡ false
        → Grants gateway (challenge_code tr gateway params session user_input)
    unfolding challenge_code Answered
    challenge_code-Grants session user_input ma = elim (Bool-cases (is_empty session.session_id)) [
      | inl e ↦
          rw (ma, e, challenge_code)
            (Grants-answer gateway (gateway.authenticate_user user_input)
              (λ r h. inl (user_input, h)))
      | inr e ↦
          rw (ma, e, challenge_code)
            (Grants-answer gateway (gateway.answer_challenge session.session_id user_input)
              (λ r h. inr (session.session_id, user_input, h)))
    ]

    answer_all-Grants :
        (inputs : List Text) (session : TunnelSession Esp)
        → text_eq params.login_type mobile_access_id ≡ false
        → IsGranted gateway session.state
        → Grants gateway (answer_all tr gateway params inputs session)
    unfolding answer_all Grants
    answer_all-Grants [] session ma h = h
    answer_all-Grants (code ∷ more) session ma h =
        Grants-and_then gateway (challenge_code tr gateway params session code)
          (answer_all tr gateway params more)
          (λ s e.
            answer_all-Grants more s ma
              (subst (Grants gateway) e (challenge_code-Grants session code ma)))

    -- Without mobile access, a login that has taken any codes of the user ends with an error, with a
    -- challenge pending, or with a key that an answer of the gateway grants: it says `done`, that the
    -- user is authenticated, and the key.
    pub login-Grants :
        (inputs : List Text)
        → text_eq params.login_type mobile_access_id ≡ false
        → Grants gateway (
            and_then
              (authenticate tr gateway params)
              (answer_all {Esp = Esp} tr gateway params inputs))
    unfolding Grants
    login-Grants inputs ma =
        Grants-and_then gateway (authenticate tr gateway params)
          (answer_all tr gateway params inputs)
          (λ s e. answer_all-Grants inputs s ma (subst (Grants gateway) e (authenticate-Grants ma)))

    -- If the profile has no user name and no certificate, and the option no identity provider, a
    -- name that the user types at the prompt is used as a name of the profile is. The name must not
    -- be empty, the gateway must give its login options, and the option is not mobile access.
    pub authenticate-challenge_code :
        (options : Option LoginOptionsData) (name : Text)
        → text_eq params.login_type mobile_access_id ≡ false
        → gateway.get_gateway_information ≡ Result.ok options
        → has_saml (get_login_option options params.login_type) ≡ false
        → params.cert_type ≡ no_cert
        → params.user_name ≡ []
        → is_empty name ≡ false
        → and_then
            (authenticate tr gateway params)
            (λ s. challenge_code {Esp = Esp} tr gateway params s name)
          ≡ authenticate tr gateway (record params { user_name = name })
    unfolding authenticate authenticate_with challenge_code and_then asked pending is_none
    authenticate-challenge_code options name ma info saml cert user typed =
        rw (ma, info, saml, cert, user, typed, authenticate, authenticate_with, challenge_code) refl
