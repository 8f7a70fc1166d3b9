-- ===== src/Controller/Mfa.antt =====
-- What the controller answers to challenges, and what it keeps.
use snx_rs.Prelude.{◌+◌, false, some, ◌≡◌, refl, ◌==◌, if◌then◌else◌, Bool-cases, inl, inr}
use snx_rs.Prelude.Result.{ok}
use snx_rs.Prelude.Text.{Text, is_empty}
use snx_rs.Model.Params.{TunnelParams}
use snx_rs.Model.Session.{password_input, MfaChallenge}
use snx_rs.Controller.{World, Controller, get_mfa_input, get_password}

module _ {W : Type 0} (world : World W) (params : TunnelParams) where
  -- A profile with a password and a code for the other factors answers every password challenge
  -- without a prompt: with the password at the factor of the password, and else with the code.
  pub get_mfa_input_unattended :
      (challenge : MfaChallenge) (c : Controller) (w : W) (code : Text)
      → challenge.mfa_type ≡ password_input
      → is_empty params.password ≡ false
      → params.mfa_code ≡ some code
      → get_mfa_input world params challenge c w ≡ (
        ok (if c.mfa_index + 1 == params.password_factor then params.password else code),
        record c { mfa_index = c.mfa_index + 1 },
        w,
      )
  unfolding get_mfa_input get_password
  get_mfa_input_unattended challenge c w code h p m =
      elim (Bool-cases (c.mfa_index + 1 == params.password_factor)) [
        | inl e ↦ rw (h, p, e, get_mfa_input, get_password) refl
        | inr e ↦ elim (Bool-cases (is_empty c.password_from_keychain)) [
          | inl q ↦ rw (h, p, q, m, e, get_mfa_input, get_password) refl
          | inr q ↦ rw (h, p, q, m, e, get_mfa_input, get_password) refl
        ]
      ]
