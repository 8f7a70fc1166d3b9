-- ===== src/Controller/Commands.antt =====
-- The commands of the controller: status, connect, disconnect and reconnect.
use snx_rs.Prelude.{
  ℕ, zero, suc, Bool, true, false, not, ◌&&◌, Option, none, some, String, ◌==◌, if◌then◌else◌,
}
use snx_rs.Prelude.Result.{Result, ok, err, is_ok}
use snx_rs.Prelude.Text.{Text, is_empty, trim}
use snx_rs.Model.CertType.{CertType, pkcs11}
use snx_rs.Model.Params.{TunnelParams}
use snx_rs.Model.Session.{
  MfaType, password_input, MfaChallenge, ConnectionStatus, mfa, connecting, connect, challenge_code,
  disconnect, get_status, TunnelServiceResponse, error, connection_status,
}
use snx_rs.Controller.{World, Controller, new_prompt, get_mfa_input, with_keychain}

pub data ServiceCommand : Type 0 where
  status_command connect_command disconnect_command reconnect_command : ServiceCommand

unfoldable pub is_password_input : MfaType → Bool
is_password_input password_input = true
is_password_input _ = false

unfoldable pub is_none : Option Text → Bool
is_none none = true
is_none (some t) = false

unfoldable pub is_pkcs11 : CertType → Bool
is_pkcs11 pkcs11 = true
is_pkcs11 _ = false

module _ {W : Type 0} (world : World W) where
  -- What a command comes to, or none if its fuel is used up.
  abbrev pub Run : Type 0
  Run = Option (Result ConnectionStatus × Controller × W)

  -- An error of the challenge is told to the server by a disconnect; an error of that disconnect
  -- is given instead, by `?`.
  unfoldable pub refused : String → Controller → Result TunnelServiceResponse × W → Run
  refused e c (ok _, w) = some (err e, c, w)
  refused e c (err e', w) = some (err e', c, w)

  unfoldable pub code_answered :
      (Controller → W → Run) → Result TunnelServiceResponse → Controller → W → Run
  unfolding refused
  code_answered again (ok TunnelServiceResponse.ok) c w = again c w
  code_answered again (ok (error e)) c w = refused e c (world.send disconnect w)
  code_answered again (ok (connection_status s)) c w = some (err "error-invalid-response", c, w)
  code_answered again (err e) c w = some (err e, c, w)

  module _ (params : TunnelParams) where
    unfoldable pub do_challenge_code : (Controller → W → Run) → Text → Controller → W → Run
    unfolding code_answered
    do_challenge_code again code c w =
        let (answer, after) = world.send (challenge_code code params) w in
        code_answered again answer c after

    -- The password goes to the keychain if the factor of the password is the last that was asked.
    unfoldable pub keep_password :
        MfaChallenge
        → Text
        → Result ConnectionStatus × Controller × W
        → Result ConnectionStatus × Controller × W
    unfolding is_password_input
    keep_password challenge input (result, c, w) =
        if is_ok result
          && (is_password_input challenge.mfa_type
              && (c.mfa_index == params.password_factor
                  && (params.keychain && not (is_empty input))))
        then (result, c, world.store_password params.profile_id input w)
        else (result, c, w)

    unfoldable pub process_input :
        (Controller → W → Run) → MfaChallenge → Result Text × Controller × W → Run
    unfolding do_challenge_code keep_password
    process_input again challenge (ok input, c, w) = elim (do_challenge_code again input c w) [
      | none ↦ none
      | some done ↦ some (keep_password challenge input done)
    ]
    process_input again challenge (err e, c, w) =
        let (_, after) = world.send disconnect w in some (err e, c, after)

    unfoldable pub process_mfa_request :
        (Controller → W → Run) → MfaChallenge → Controller → W → Run
    unfolding get_mfa_input process_input
    process_mfa_request again challenge c w =
        process_input again challenge (get_mfa_input world params challenge c w)

    unfoldable pub status_answered :
        (Controller → W → Run) → Bool → Result TunnelServiceResponse → Controller → W → Run
    unfolding process_mfa_request
    status_answered again true (ok (connection_status (mfa challenge))) c w =
        process_mfa_request again challenge c w
    status_answered again with_mfa (ok (connection_status status)) c w = some (ok status, c, w)
    status_answered again with_mfa (ok (error e)) c w = some (err e, c, w)
    status_answered again with_mfa (ok TunnelServiceResponse.ok) c w =
        some (err "Invalid response!", c, w)
    status_answered again with_mfa (err e) c w = some (err e, c, w)

    unfoldable pub do_status : ℕ → Bool → Controller → W → Run
    unfolding status_answered
    do_status zero with_mfa c w = none
    do_status (suc n) with_mfa c w =
        let (answer, after) = world.send get_status w in
        status_answered (do_status n true) with_mfa answer c after

    -- A status of the loop in `do_connect`: while it is `Connecting`, the time is looked at.
    unfoldable pub unless_late : (Controller → W → Run) → Controller → Bool × W → Run
    unless_late again c (true, w) = some (err "error-connection-timeout", c, w)
    unless_late again c (false, w) = again c w

    unfoldable pub after_status :
        (Controller → W → Run) → Result ConnectionStatus × Controller × W → Run
    unfolding unless_late
    after_status again (ok connecting, c, w) = unless_late again c (world.is_timed_out w)
    after_status again done = some done

    -- The loop of `do_connect` after the server has answered `Ok`.
    unfoldable pub follow : ℕ → Controller → W → Run
    unfolding do_status after_status
    follow zero c w = none
    follow (suc n) c w = elim (do_status n true c w) [
      | none ↦ none
      | some done ↦ after_status (follow n) done
    ]

    unfoldable pub connect_answered : ℕ → Result TunnelServiceResponse → Controller → W → Run
    unfolding follow
    connect_answered fuel (ok TunnelServiceResponse.ok) c w = follow fuel c w
    connect_answered fuel (ok (error e)) c w = some (err e, c, w)
    connect_answered fuel (ok (connection_status s)) c w = some (err "error-invalid-response", c, w)
    connect_answered fuel (err e) c w = some (err e, c, w)

    unfoldable pub stored_password : Controller → W → Controller × W
    unfolding with_keychain
    stored_password c w =
        if not (is_empty params.user_name) && (params.keychain && is_empty params.password)
        then with_keychain world params c (world.acquire_password params.profile_id w)
        else (c, w)

    -- `do_connect`, once the PIN of a token is known.
    unfoldable pub connect_with_pin : ℕ → Controller → W → Run
    unfolding connect_answered stored_password
    connect_with_pin fuel c w =
        let (known, w1) = stored_password (record c { mfa_index = 0 }) w in
        let (answer, w2) = world.send (connect params) w1 in
        connect_answered fuel answer (record known { username = params.user_name }) w2

    unfoldable pub do_disconnect : Controller → W → Run
    unfolding do_status
    do_disconnect c w =
        let cancelled = if c.has_otp_cancel_sender then world.cancel_otp w else w in
        let next = record c { has_otp_cancel_sender = false } in
        let (answer, after) = world.send disconnect cancelled in
        elim answer [ err e ↦ some (err e, next, after) | ok _ ↦ do_status 1 false next after ]

  unfoldable pub with_pin : ℕ → TunnelParams → Result Text × W → Controller → Run
  unfolding connect_with_pin trim
  with_pin fuel params (ok pin, w) c =
      if is_empty (trim pin)
      then some (err "error-no-pkcs11", c, w)
      else connect_with_pin (record params { cert_password = some (trim pin) }) fuel c w
  with_pin fuel params (err e, w) c = some (err "error-no-pkcs11", c, w)

  unfoldable pub do_connect : ℕ → TunnelParams → Controller → W → Run
  unfolding connect_with_pin with_pin is_pkcs11 new_prompt
  do_connect fuel params c w =
      if is_empty params.server_name
      then some (err "error-no-server-name", c, w)
      else if is_empty params.login_type
      then some (err "error-no-login-type", c, w)
      else if is_pkcs11 params.cert_type && is_none params.cert_password
      then with_pin fuel params
          (world.get_secure_input
            (new_prompt (world.tr "label-pin-required") (world.tr "label-pin")) w)
          c
      else connect_with_pin params fuel c w

  unfoldable pub do_reconnect : ℕ → TunnelParams → Controller → W → Run
  unfolding do_disconnect do_connect
  do_reconnect fuel params c w = elim (do_disconnect params c w) [
    | none ↦ none
    | some (_, next, after) ↦ do_connect fuel params next after
  ]

  unfoldable pub command : ℕ → ServiceCommand → TunnelParams → Controller → W → Run
  unfolding do_status do_connect do_disconnect do_reconnect
  command fuel status_command params c w = do_status params 1 false c w
  command fuel connect_command params c w = do_connect fuel params c w
  command fuel disconnect_command params c w = do_disconnect params c w
  command fuel reconnect_command params c w = do_reconnect fuel params c w
