-- ===== src/Model/TransportType.antt =====
-- `TransportType` of crates/snxcore/src/model/params.rs. Its names are matched as they are, with no change of case.
use snx_rs.Prelude.{ℕ, zero, suc, [], ◌∷◌}
use snx_rs.Prelude.Result.{Result, err}
use snx_rs.Prelude.Text.{Text, codes}
use snx_rs.Model.Names.{match_text}

pub data TransportType : Type 0 where
  auto_detect udp tcpt kernel : TransportType

unfoldable pub to_string : TransportType → Text
to_string auto_detect = codes "auto"
to_string udp = codes "udp"
to_string tcpt = codes "tcpt"
to_string kernel = codes "kernel"

unfoldable pub as_u32 : TransportType → ℕ
as_u32 auto_detect = 0
as_u32 udp = 1
as_u32 tcpt = 2
as_u32 kernel = 3

unfoldable pub from_u32 : ℕ → TransportType
from_u32 (suc zero) = udp
from_u32 (suc (suc zero)) = tcpt
from_u32 (suc (suc (suc zero))) = kernel
from_u32 _ = auto_detect

unfoldable pub from_str : Text → Result TransportType
unfolding match_text
from_str s =
    match_text s
      ((codes "auto", auto_detect)
        ∷ (codes "kernel", kernel)
        ∷ (codes "tcpt", tcpt)
        ∷ (codes "udp", udp)
        ∷ [])
      (err "error-invalid-transport-type")
