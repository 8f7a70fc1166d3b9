-- ===== src/Ipsec/Identity.antt =====
-- `new_identity` and the choice of the transport in `new`. A file that is read is a parameter.
use mathlib.Core.Option
use snx_rs.Prelude.{Bool, not, Option, none, some, [], retain, ◌==◌, if◌then◌else◌}
use snx_rs.Prelude.Result.{Result, ok, err, ◌>>=◌}
use snx_rs.Prelude.Text.{Text, codes}
use snx_rs.Model.CertType.{no_cert, pkcs12, pkcs8, pkcs11, system}
use snx_rs.Model.Params.{TunnelParams}
use snx_rs.Model.TransportType.{TransportType, auto_detect, udp, tcpt, kernel}
use snx_rs.Slim.{Bytes}

-- `Identity` of the isakmp crate, but for the one of Windows
pub data Identity : Type 0 where
  pkcs12_identity : Bytes → Text → Bool → Identity
  pkcs8_identity : Text → Bool → Identity
  pkcs11_identity : Text → Text → Option Bytes → Bool → Identity
  no_identity : Identity

unfoldable pub bytes_or_empty : Result Bytes → Bytes
bytes_or_empty (ok b) = b
bytes_or_empty (err e) = []

module _ (read_file : Text → Result Bytes) (hex_decode : Text → Result Bytes) where
  unfoldable pub pkcs12_of : Option Text → Option Text → Bool → Result Identity
  pkcs12_of (some path) (some password) hybrid =
      read_file path >>= λ contents. ok (pkcs12_identity contents password hybrid)
  pkcs12_of _ _ hybrid = err "error-no-pkcs12"

  unfoldable pub pkcs8_of : Option Text → Bool → Result Identity
  pkcs8_of (some path) hybrid = ok (pkcs8_identity path hybrid)
  pkcs8_of none hybrid = err "error-no-pkcs8"

  abbrev driver_or_default : Option Text → Text
  driver_or_default none = codes "opensc-pkcs11.so"
  driver_or_default (some path) = path

  -- The colons are taken out of the key's identifier; one that is no hexadecimal text is empty.
  unfoldable pub pkcs11_of : Option Text → Option Text → Option Text → Bool → Result Identity
  unfolding bytes_or_empty
  pkcs11_of path (some pin) id hybrid = ok (
      pkcs11_identity (driver_or_default path) pin
        (Option.map (λ s. bytes_or_empty (hex_decode (retain (λ c. not (c == b':')) s))) id) hybrid)
  pkcs11_of path none id hybrid = err "error-no-pkcs11"

  -- Elsewhere than on Windows.
  unfoldable pub new_identity : TunnelParams → Bool → Result Identity
  unfolding pkcs12_of pkcs8_of pkcs11_of
  new_identity params is_certificate = elim params.cert_type [
    | pkcs12 ↦ pkcs12_of params.cert_path params.cert_password (not is_certificate)
    | pkcs8 ↦ pkcs8_of params.cert_path (not is_certificate)
    | pkcs11 ↦ pkcs11_of params.cert_path params.cert_password params.cert_id (not is_certificate)
    | system ↦ err "error-not-implemented"
    | no_cert ↦ ok no_identity
  ]

-- With no transport set, the probe of the NAT traversal decides, and then the platform.
unfoldable pub esp_transport : TransportType → Bool → Bool → TransportType
esp_transport auto_detect probed ipsec_native =
    if probed then if ipsec_native then kernel else udp else tcpt
esp_transport chosen probed ipsec_native = chosen
