-- ===== src/Config/Formats.antt =====
-- The formats of a profile file that other crates read and write: uuid, base64 and ipnet. A password is
-- written in base64; `decode` reads it as `TunnelParams::decode_password` does.
use snx_rs.Prelude.{ℕ, Option, if◌then◌else◌}
use snx_rs.Prelude.Result.{Result, ok, ◌>>=◌}
use snx_rs.Prelude.Text.{Text, is_empty}
use snx_rs.Model.Params.{TunnelParams}

pub record Formats : Type 0 where
  pub uuid_text : ℕ → Text
  pub parse_uuid : Text → Option ℕ
  pub net_text : ℕ × ℕ → Text
  pub parse_net : Text → Option (ℕ × ℕ)
  pub base64_encode : Text → Text
  pub base64_decode : Text → Result Text
  pub from_utf8_lossy : Text → Text

unfoldable pub decode : Formats → Text → Result Text
decode formats password =
    if is_empty password
    then ok password
    else formats.base64_decode password >>= λ bytes. ok (formats.from_utf8_lossy bytes)

unfoldable pub decode_password : Formats → TunnelParams → Result TunnelParams
unfolding decode
decode_password formats params =
    decode formats params.password >>= λ password. ok (record params { password = password })
