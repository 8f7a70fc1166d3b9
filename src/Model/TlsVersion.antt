-- ===== src/Model/TlsVersion.antt =====
-- `TlsVersion` of crates/snxcore/src/model/params.rs.
use snx_rs.Prelude.{ℕ, zero, suc, [], ◌∷◌}
use snx_rs.Prelude.Result.{Result, err}
use snx_rs.Prelude.Text.{Text, codes}
use snx_rs.Model.Names.{match_text, to_lowercase}

pub data TlsVersion : Type 0 where
  tls12 tls13 default : TlsVersion

unfoldable pub to_string : TlsVersion → Text
to_string tls12 = codes "1.2"
to_string tls13 = codes "1.3"
to_string default = codes "default"

unfoldable pub as_u32 : TlsVersion → ℕ
as_u32 tls12 = 0
as_u32 tls13 = 1
as_u32 default = 2

unfoldable pub from_u32 : ℕ → TlsVersion
from_u32 (suc zero) = tls13
from_u32 (suc (suc zero)) = default
from_u32 _ = tls12

unfoldable pub from_str : Text → Result TlsVersion
unfolding match_text to_lowercase
from_str s =
    match_text (to_lowercase s)
      ((codes "1.2", tls12)
        ∷ (codes "tls1.2", tls12)
        ∷ (codes "tls12", tls12)
        ∷ (codes "1.3", tls13)
        ∷ (codes "tls1.3", tls13)
        ∷ (codes "tls13", tls13)
        ∷ (codes "default", default)
        ∷ (codes "any", default)
        ∷ [])
      (err "error-invalid-tls-version-max")
