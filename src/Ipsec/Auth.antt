-- ===== src/Ipsec/Auth.antt =====
-- `process_auth_attributes`, `challenge_code` and `authenticate`. A reply that asks for the user name
-- makes the connector answer by `challenge_code` itself, whose reply is processed again.
use snx_rs.Prelude.{
  ℕ, zero, suc, Bool, true, false, Option, none, some, List, [], ◌∷◌, ◌==◌, if◌then◌else◌,
}
use snx_rs.Prelude.Result.{Result, ok, err}
use snx_rs.Prelude.Text.{Text, is_empty, trim}
use snx_rs.Model.Params.{TunnelParams}
use snx_rs.Model.Login.{get_login_option, is_multi_factor_login_type}
use snx_rs.Model.Session.{TunnelSession}
use snx_rs.Obfuscate.{snx_deobfuscate}
use snx_rs.Ipsec.{Outside, AttributesPayload, IdentityRequest}
use snx_rs.Ipsec.Monad.{M, ◌>>=◌, ◌>>◌, pure, fail, lift, self, set, call}
use snx_rs.Ipsec.Attributes.{get_challenge_attribute_type, get_short_attribute}
use snx_rs.Ipsec.Challenge.{requested, user_name_in}
use snx_rs.Ipsec.Exchange.{do_session_exchange}

module _ {Esp W : Type 0} (outside : Outside Esp W) (params : TunnelParams) where
  unfoldable pub succeeded : AttributesPayload → M Esp W (TunnelSession Esp)
  unfolding user_name_in do_session_exchange
  succeeded reply = do
    c ← self
    call (outside.send_ack_response reply.identifier c.last_message_id)
    do_session_exchange outside params (user_name_in outside params reply)

  -- The user name is asked for: the second time in a row is an error.
  unfoldable pub name_requested :
      (Text → M Esp W (TunnelSession Esp)) → TunnelSession Esp → Bool → M Esp W (TunnelSession Esp)
  name_requested again session true = fail "error-endless-challenges"
  name_requested again session false = do
    set λ c. record c { last_challenge_type = outside.codes.user_name }
    if is_empty params.user_name then pure session else again params.user_name

  unfoldable pub challenged :
      (Text → M Esp W (TunnelSession Esp)) → AttributesPayload → M Esp W (TunnelSession Esp)
  unfolding requested get_challenge_attribute_type name_requested
  challenged again reply = do
    let attr = get_challenge_attribute_type outside.codes reply
    c ← self
    session ← lift (requested outside c.ccc_session attr reply)
    let named = name_requested again session (c.last_challenge_type == outside.codes.user_name)
    let kept = set (λ c. record c { last_challenge_type = attr }) >> pure session
    if attr == outside.codes.user_name then named else kept

  unfoldable pub with_status :
      (Text → M Esp W (TunnelSession Esp))
      → AttributesPayload
      → Option ℕ
      → M Esp W (TunnelSession Esp)
  unfolding succeeded challenged
  with_status again reply none = challenged again reply
  with_status again reply (some status) =
      if status == 1 then succeeded reply else fail "error-auth-failed"

  unfoldable pub process_auth_attributes :
      (Text → M Esp W (TunnelSession Esp)) → AttributesPayload → M Esp W (TunnelSession Esp)
  unfolding get_short_attribute with_status
  process_auth_attributes again reply = do
    set λ c. record c { last_identifier = reply.identifier }
    with_status again reply (get_short_attribute reply outside.codes.status)

  -- `challenge_code`, where `again` stands for the call of it in `process_auth_attributes`.
  unfoldable pub challenge_round :
      (Text → M Esp W (TunnelSession Esp)) → Text → M Esp W (TunnelSession Esp)
  unfolding process_auth_attributes trim
  challenge_round again user_input = do
    c ← self
    reply ← call (
        outside.send_attribute c.last_identifier c.last_message_id c.last_challenge_type
          (trim user_input))
    process_auth_attributes again reply

  -- So many rounds, and what comes beyond them.
  unfoldable pub challenge_rounds :
      (Text → M Esp W (TunnelSession Esp)) → ℕ → Text → M Esp W (TunnelSession Esp)
  unfolding challenge_round
  challenge_rounds beyond zero = beyond
  challenge_rounds beyond (suc n) = challenge_round (challenge_rounds beyond n)

  unfoldable pub challenge_code : Text → M Esp W (TunnelSession Esp)
  unfolding challenge_rounds
  challenge_code = challenge_rounds (λ input. fail "error-endless-challenges") 2

  -- `flat_map(|fp| ...ok())`
  unfoldable pub fingerprints : List (Text × Text) → List Text
  unfolding snx_deobfuscate
  fingerprints [] = []
  fingerprints (fp ∷ fps) =
      let rest = fingerprints fps in
      elim (snx_deobfuscate outside.hex_encode outside.hex_decode fp.1) [
        | ok v ↦ outside.from_utf8_lossy v ∷ rest
        | err e ↦ rest
      ]

  unfoldable pub identified : Option AttributesPayload × ℕ → M Esp W (TunnelSession Esp)
  unfolding process_auth_attributes challenge_code do_session_exchange
  identified (some reply, message_id) = do
    set λ c. record c { last_message_id = message_id }
    process_auth_attributes challenge_code reply
  identified (none, message_id) = do_session_exchange outside params params.user_name

  -- An error of the time limit is given as the one of the identity protection.
  unfoldable pub or_timeout : {A : Type 0} → Result A → Result A
  or_timeout (ok a) = ok a
  or_timeout (err e) = if outside.is_elapsed e then err "error-identity-timeout" else err e

  unfoldable pub authenticate : M Esp W (TunnelSession Esp)
  unfolding fingerprints identified or_timeout get_login_option is_multi_factor_login_type
  authenticate = do
    my_address ← call outside.get_default_ipv4
    call (outside.do_sa_proposal params.ike_lifetime)
    call (outside.do_key_exchange my_address outside.gateway_address)
    info ← call outside.get_gateway_information
    let option = get_login_option info.login_options_data params.login_type
    again ← call outside.get_gateway_information
    let request : IdentityRequest = record {
      auth_blob = outside.auth_blob option;
      with_mfa = is_multi_factor_login_type again.login_options_data params.login_type;
      internal_ca_fingerprints = fingerprints again.internal_ca_fingerprint;
    }
    reply ← call λ w.
        let (answer, after) = outside.do_identity_protection request w in (or_timeout answer, after)
    identified reply
