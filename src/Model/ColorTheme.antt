-- ===== src/Model/ColorTheme.antt =====
-- `ColorTheme` of crates/snxcore/src/model/params.rs.
use snx_rs.Prelude.{ℕ, zero, suc, [], ◌∷◌}
use snx_rs.Prelude.Result.{Result, err}
use snx_rs.Prelude.Text.{Text, codes}
use snx_rs.Model.Names.{match_text, to_lowercase}

pub data ColorTheme : Type 0 where
  auto_detect dark light : ColorTheme

unfoldable pub to_string : ColorTheme → Text
to_string auto_detect = codes "auto"
to_string dark = codes "dark"
to_string light = codes "light"

unfoldable pub as_u32 : ColorTheme → ℕ
as_u32 auto_detect = 0
as_u32 dark = 1
as_u32 light = 2

unfoldable pub from_u32 : ℕ → ColorTheme
from_u32 (suc zero) = dark
from_u32 (suc (suc zero)) = light
from_u32 _ = auto_detect

unfoldable pub from_str : Text → Result ColorTheme
unfolding match_text to_lowercase
from_str s =
    match_text (to_lowercase s)
      ((codes "auto", auto_detect) ∷ (codes "dark", dark) ∷ (codes "light", light) ∷ [])
      (err "error-invalid-icon-theme")
