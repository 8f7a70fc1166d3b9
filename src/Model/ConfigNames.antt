-- ===== src/Model/ConfigNames.antt =====
-- The names and the numbers of the enumerations of crates/snxcore/src/model/params.rs are read back.
use snx_rs.Prelude.{◌≡◌, refl}
use snx_rs.Prelude.Result.{ok}
use snx_rs.Model.TunnelType
use snx_rs.Model.TunnelType.{TunnelType, ipsec, ssl}
use snx_rs.Model.CertType
use snx_rs.Model.CertType.{CertType, no_cert}
use snx_rs.Model.ColorTheme
use snx_rs.Model.ColorTheme.{ColorTheme, dark}
use snx_rs.Model.TransportType
use snx_rs.Model.TransportType.{TransportType, udp}
use snx_rs.Model.TlsVersion
use snx_rs.Model.TlsVersion.{TlsVersion, tls12}
use snx_rs.Prelude.Text.{text_eq}

tunnel_type_name : (t : TunnelType) → TunnelType.from_str (TunnelType.as_str t) ≡ ok t
unfolding TunnelType.from_str TunnelType.as_str text_eq
tunnel_type_name ipsec = refl
tunnel_type_name ssl = refl

tunnel_type_shown : (t : TunnelType) → TunnelType.from_str (TunnelType.to_string t) ≡ ok t
unfolding TunnelType.from_str TunnelType.to_string text_eq
tunnel_type_shown ipsec = refl
tunnel_type_shown ssl = refl

cert_type_name : (t : CertType) → CertType.from_str (CertType.to_string t) ≡ ok t
unfolding CertType.from_str CertType.to_string text_eq
cert_type_name no_cert = refl
cert_type_name _ = refl

color_theme_name : (t : ColorTheme) → ColorTheme.from_str (ColorTheme.to_string t) ≡ ok t
unfolding ColorTheme.from_str ColorTheme.to_string text_eq
color_theme_name dark = refl
color_theme_name _ = refl

transport_type_name :
    (t : TransportType) → TransportType.from_str (TransportType.to_string t) ≡ ok t
unfolding TransportType.from_str TransportType.to_string text_eq
transport_type_name udp = refl
transport_type_name _ = refl

tls_version_name : (t : TlsVersion) → TlsVersion.from_str (TlsVersion.to_string t) ≡ ok t
unfolding TlsVersion.from_str TlsVersion.to_string text_eq
tls_version_name tls12 = refl
tls_version_name _ = refl

-- The name that each enumeration of the parameters is written with is read back as the same value:
-- `as_str` of the tunnel type, its `Display`, and the `Display` of the other four.
pub config_names :
    ((t : TunnelType) → TunnelType.from_str (TunnelType.as_str t) ≡ ok t)
    × ((t : TunnelType) → TunnelType.from_str (TunnelType.to_string t) ≡ ok t)
    × ((t : CertType) → CertType.from_str (CertType.to_string t) ≡ ok t)
    × ((t : ColorTheme) → ColorTheme.from_str (ColorTheme.to_string t) ≡ ok t)
    × ((t : TransportType) → TransportType.from_str (TransportType.to_string t) ≡ ok t)
    × ((t : TlsVersion) → TlsVersion.from_str (TlsVersion.to_string t) ≡ ok t)
config_names = (
  tunnel_type_name, tunnel_type_shown, cert_type_name, color_theme_name, transport_type_name,
  tls_version_name,
)

tunnel_type_number : (t : TunnelType) → TunnelType.from_u32 (TunnelType.as_u32 t) ≡ t
unfolding TunnelType.from_u32 TunnelType.as_u32
tunnel_type_number ipsec = refl
tunnel_type_number ssl = refl

cert_type_number : (t : CertType) → CertType.from_u32 (CertType.as_u32 t) ≡ t
unfolding CertType.from_u32 CertType.as_u32
cert_type_number no_cert = refl
cert_type_number _ = refl

color_theme_number : (t : ColorTheme) → ColorTheme.from_u32 (ColorTheme.as_u32 t) ≡ t
unfolding ColorTheme.from_u32 ColorTheme.as_u32
color_theme_number dark = refl
color_theme_number _ = refl

transport_type_number : (t : TransportType) → TransportType.from_u32 (TransportType.as_u32 t) ≡ t
unfolding TransportType.from_u32 TransportType.as_u32
transport_type_number udp = refl
transport_type_number _ = refl

tls_version_number : (t : TlsVersion) → TlsVersion.from_u32 (TlsVersion.as_u32 t) ≡ t
unfolding TlsVersion.from_u32 TlsVersion.as_u32
tls_version_number tls12 = refl
tls_version_number _ = refl

-- The number of each enumeration's value is taken back to the same value.
pub config_numbers :
    ((t : TunnelType) → TunnelType.from_u32 (TunnelType.as_u32 t) ≡ t)
    × ((t : CertType) → CertType.from_u32 (CertType.as_u32 t) ≡ t)
    × ((t : ColorTheme) → ColorTheme.from_u32 (ColorTheme.as_u32 t) ≡ t)
    × ((t : TransportType) → TransportType.from_u32 (TransportType.as_u32 t) ≡ t)
    × ((t : TlsVersion) → TlsVersion.from_u32 (TlsVersion.as_u32 t) ≡ t)
config_numbers = (
  tunnel_type_number, cert_type_number, color_theme_number, transport_type_number,
  tls_version_number,
)
