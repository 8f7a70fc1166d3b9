-- ===== src/Model/CertType.antt =====
-- `CertType` of crates/snxcore/src/model/params.rs. Its `None` is `no_cert`.
use snx_rs.Prelude.{ℕ, zero, suc, [], ◌∷◌}
use snx_rs.Prelude.Result.{Result, err}
use snx_rs.Prelude.Text.{Text, codes}
use snx_rs.Model.Names.{match_text, to_lowercase}

pub data CertType : Type 0 where
  no_cert pkcs12 pkcs8 pkcs11 system : CertType

unfoldable pub to_string : CertType → Text
to_string no_cert = codes "none"
to_string pkcs12 = codes "pkcs12"
to_string pkcs8 = codes "pkcs8"
to_string pkcs11 = codes "pkcs11"
to_string system = codes "system"

unfoldable pub as_u32 : CertType → ℕ
as_u32 no_cert = 0
as_u32 pkcs12 = 1
as_u32 pkcs8 = 2
as_u32 pkcs11 = 3
as_u32 system = 4

unfoldable pub from_u32 : ℕ → CertType
from_u32 (suc zero) = pkcs12
from_u32 (suc (suc zero)) = pkcs8
from_u32 (suc (suc (suc zero))) = pkcs11
from_u32 (suc (suc (suc (suc zero)))) = system
from_u32 _ = no_cert

unfoldable pub from_str : Text → Result CertType
unfolding match_text to_lowercase
from_str s =
    match_text (to_lowercase s)
      ((codes "none", no_cert)
        ∷ (codes "pkcs12", pkcs12)
        ∷ (codes "pkcs8", pkcs8)
        ∷ (codes "pkcs11", pkcs11)
        ∷ (codes "system", system)
        ∷ [])
      (err "error-invalid-cert-type")
