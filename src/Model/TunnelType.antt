-- ===== src/Model/TunnelType.antt =====
-- `TunnelType` of crates/snxcore/src/model/params.rs.
use snx_rs.Prelude.{ℕ, zero, suc, [], ◌∷◌}
use snx_rs.Prelude.Result.{Result, err}
use snx_rs.Prelude.Text.{Text, codes}
use snx_rs.Model.Names.{match_text, to_lowercase}

pub data TunnelType : Type 0 where
  ipsec ssl : TunnelType

unfoldable pub as_str : TunnelType → Text
as_str ipsec = codes "ipsec"
as_str ssl = codes "ssl"

unfoldable pub to_string : TunnelType → Text
to_string ipsec = codes "IPsec"
to_string ssl = codes "SSL"

unfoldable pub as_u32 : TunnelType → ℕ
as_u32 ipsec = 0
as_u32 ssl = 1

unfoldable pub from_u32 : ℕ → TunnelType
from_u32 zero = ipsec
from_u32 (suc n) = ssl

unfoldable pub from_str : Text → Result TunnelType
unfolding match_text to_lowercase
from_str s =
    match_text (to_lowercase s) ((codes "ipsec", ipsec) ∷ (codes "ssl", ssl) ∷ [])
      (err "error-invalid-tunnel-type")
