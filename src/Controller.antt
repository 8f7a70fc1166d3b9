-- ===== src/Controller.antt =====
-- crates/snxcore/src/controller.rs: the client of the command server. What it talks to stands in
-- the record `World`, which passes on its own state: the server, the prompts, the keychain, the
-- browser and the clock. `send` is `send_receive`, with the stream and the JSON.
-- The challenges may go on as long as the server asks: the functions that follow them are on fuel.
pub mod Mfa
pub mod Commands
pub mod Ends
use snx_rs.Prelude.{
  ℕ, zero, suc, ◌+◌, Bool, true, false, not, ◌&&◌, Option, none, some, String, List, [], get_elem?,
  ◌==◌, if◌then◌else◌,
}
use snx_rs.Prelude.Result.{Result, ok, err, is_ok}
use snx_rs.Prelude.Text.{Text, is_empty}
use snx_rs.Model.Params.{TunnelParams}
use snx_rs.Model.Login.{PromptInfo}
use snx_rs.Model.Session.{
  MfaType, password_input, identity_provider, user_name_input, mobile_access, MfaChallenge,
  ConnectionStatus, mfa, TunnelServiceRequest, challenge_code, disconnect, get_status,
  TunnelServiceResponse, error, connection_status,
}

pub record World (W : Type 0) : Type 0 where
  pub send : TunnelServiceRequest → W → Result TunnelServiceResponse × W
  pub get_secure_input : PromptInfo → W → Result Text × W
  pub get_plain_input : PromptInfo → W → Result Text × W
  pub acquire_password : ℕ → W → Result Text × W
  pub store_password : ℕ → Text → W → W
  -- `OtpListener::new`, and what ends its wait: the password, or none for the cancellation
  pub listen : W → Result (Unit {0}) × W
  pub acquire_otp : W → Option (Result Text) × W
  pub open_browser : Text → W → Result (Unit {0}) × W
  pub acquire_tunnel_password : Text → W → Option (Result Text) × W
  pub close_browser : W → W
  -- the cancellation of an open wait
  pub cancel_otp : W → W
  pub user_variable : Option Text
  pub is_timed_out : W → Bool × W
  pub tr : String → Text

-- `ServiceController`
pub record Controller : Type 0 where
  pub mfa_prompts : List PromptInfo
  pub mfa_index : ℕ
  pub password_from_keychain : Text
  pub username : Text
  pub has_otp_cancel_sender : Bool

unfoldable pub new_prompt : Text → Text → PromptInfo
new_prompt header prompt = record { header = header; prompt = prompt; default_entry = none }

unfoldable pub prompt_or : PromptInfo → Option PromptInfo → PromptInfo
prompt_or p none = p
prompt_or p (some q) = q

module _ {W : Type 0} (world : World W) where
  -- A call of a function that returns `Result`: its answer, and the states after it.
  unfoldable pub and_then {ℓ κ} :
      {A : Type ℓ} {B : Type κ} → Result A × W → (A → W → Result B × W) → Result B × W
  and_then (ok a, w) f = f a w
  and_then (err e, w) f = (err e, w)

  -- `select!` of the cancellation and the answer, on which the browser is closed.
  unfoldable pub unless_cancelled : Option (Result Text) × W → Result Text × W
  unless_cancelled (none, w) = (err "error-connection-cancelled", w)
  unless_cancelled (some answer, w) = (answer, world.close_browser w)

  module _ (params : TunnelParams) where
    unfoldable pub get_password : MfaChallenge → Controller → W → Result Text × Controller × W
    unfolding new_prompt prompt_or
    get_password challenge c w =
        let prompt =
          prompt_or (new_prompt [] challenge.prompt) (get_elem? c.mfa_prompts c.mfa_index) in
        let next = record c { mfa_index = c.mfa_index + 1 } in
        let is_factor = next.mfa_index == params.password_factor in
        let (input, after) = world.get_secure_input prompt w in
        if not (is_empty params.password) && is_factor
        then (ok params.password, next, w)
        else if not (is_empty c.password_from_keychain) && is_factor
        then (ok c.password_from_keychain, next, w)
        else elim params.mfa_code [
          | none ↦ (input, next, after)
          | some code ↦ if not is_factor then (ok code, next, w) else (input, next, after)
        ]

    unfoldable pub with_keychain : Controller → Result Text × W → Controller × W
    with_keychain c (ok password, w) = (record c { password_from_keychain = password }, w)
    with_keychain c (err e, w) = (c, w)

    unfoldable pub named : Controller → Result Text × W → Result Text × Controller × W
    unfolding with_keychain
    named c (err e, w) = (err e, c, w)
    named c (ok input, w) =
        let next = record c { username = input } in
        let (known, after) = with_keychain next (world.acquire_password params.profile_id w) in
        if not (is_empty input) && (params.keychain && is_empty params.password)
        then (ok input, known, after)
        else (ok input, next, w)

    unfoldable pub get_mfa_input : MfaChallenge → Controller → W → Result Text × Controller × W
    unfolding get_password named and_then unless_cancelled new_prompt
    get_mfa_input challenge c w = elim challenge.mfa_type [
      | password_input ↦ get_password challenge c w
      | identity_provider ↦
          let next = record c { has_otp_cancel_sender = true } in
          let (answer, after) = and_then (world.listen w) (λ _ w.
            and_then (world.open_browser challenge.prompt w)
              (λ _ w. unless_cancelled (world.acquire_otp w))) in
          (answer, next, after)
      | mobile_access ↦
          let next = record c { has_otp_cancel_sender = true } in
          let (answer, after) =
            unless_cancelled (world.acquire_tunnel_password challenge.prompt w) in
          (answer, next, after)
      | user_name_input ↦
          let default =
            if is_empty params.user_name then world.user_variable else some params.user_name in
          named c (
            world.get_plain_input
              (record (new_prompt (world.tr "label-username-required") challenge.prompt) {
                default_entry = default;
              })
              w)
    ]
