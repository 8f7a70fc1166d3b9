-- ===== src/Model/OperationMode.antt =====
-- `OperationMode` of crates/snxcore/src/model/params.rs, elsewhere than on Windows.
use snx_rs.Prelude.{Bool, true, false, [], ◌∷◌}
use snx_rs.Prelude.Result.{Result, err}
use snx_rs.Prelude.Text.{Text, codes}
use snx_rs.Model.Names.{match_text, to_lowercase}

pub data OperationMode : Type 0 where
  standalone command info enroll renew : OperationMode

unfoldable pub requires_root : OperationMode → Bool
requires_root standalone = true
requires_root command = true
requires_root _ = false

unfoldable pub from_str : Text → Result OperationMode
unfolding match_text to_lowercase
from_str s =
    match_text (to_lowercase s)
      ((codes "standalone", standalone)
        ∷ (codes "command", command)
        ∷ (codes "info", info)
        ∷ (codes "enroll", enroll)
        ∷ (codes "renew", renew)
        ∷ [])
      (err "error-invalid-operation-mode")
