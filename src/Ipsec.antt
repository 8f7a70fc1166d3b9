-- ===== src/Ipsec.antt =====
-- crates/snxcore/src/tunnel/ipsec/connector.rs: the login for an IPsec tunnel, its session and the
-- renewal of its keys. The isakmp service, the database of sessions, the gateway connector, the
-- clock and the network stand in the record `Outside`, whose operations pass on a state of their
-- own; the numbers of the attribute types are the isakmp crate's. Times are in nanoseconds.
pub mod Monad
pub mod Attributes
pub mod Exchange
pub mod Challenge
pub mod Auth
pub mod Stored
pub mod Rekey
pub mod Identity
pub mod Rounds
pub mod Tunnel
pub mod Due
pub mod Natt
use snx_rs.Prelude.{ℕ, Bool, Option, none, List, String}
use snx_rs.Prelude.Result.{Result}
use snx_rs.Prelude.Text.{Text}
use snx_rs.Model.Params.{TunnelParams}
use snx_rs.Model.TransportType.{TransportType}
use snx_rs.Model.Login.{LoginOption, LoginOptionsData}
use snx_rs.Model.Session.{IPsecSession, TunnelCommand, TunnelSession}
use snx_rs.Slim.{Bytes}
use snx_rs.Sexpr.Tree.{Pairs}

-- A data attribute of the isakmp crate: its value is a short or a long one.
pub record Attribute : Type 0 where
  pub attribute_type : ℕ
  pub as_short : Option ℕ
  pub as_long : Option Bytes

pub record AttributesPayload : Type 0 where
  pub attributes : List Attribute
  pub identifier : ℕ

-- The numbers of `ConfigAttributeType`, and of `EspAttributeType::LifeDuration`.
pub record Codes : Type 0 where
  pub auth_type : ℕ
  pub challenge : ℕ
  pub status : ℕ
  pub message : ℕ
  pub user_name : ℕ
  pub ccc_session_id : ℕ
  pub ipv4_address : ℕ
  pub ipv4_netmask : ℕ
  pub address_expiry : ℕ
  pub ipv4_dns : ℕ
  pub internal_domain_name : ℕ
  pub life_duration : ℕ

pub record OfficeMode : Type 0 where
  pub ccc_session : Text
  pub username : Text
  pub ip_address : ℕ
  pub netmask : ℕ
  pub dns : List ℕ
  pub domains : List Text

-- `GatewayInformation` of model/proto.rs, as far as the connector reads it
pub record GatewayInformation : Type 0 where
  pub internal_ca_fingerprint : List (Text × Text)
  pub login_options_data : Option LoginOptionsData

-- `IdentityRequest` of the isakmp crate
pub record IdentityRequest : Type 0 where
  pub auth_blob : Text
  pub with_mfa : Bool
  pub internal_ca_fingerprints : List Text

pub record Outside (Esp W : Type 0) : Type 0 where
  pub codes : Codes
  pub from_utf8_lossy : Bytes → Text
  pub parse_text : Text → Result Pairs
  pub hex_encode : Bytes → Text
  pub hex_decode : Text → Result Bytes
  pub with_netmask : ℕ → ℕ → Option (ℕ × ℕ)
  pub tr : String → Text
  pub mac : Bytes
  pub gateway_address : ℕ
  pub auth_blob : Option LoginOption → Text
  pub is_elapsed : String → Bool
  pub get_default_ipv4 : W → Result ℕ × W
  pub get_gateway_information : W → Result GatewayInformation × W
  pub new_service : GatewayInformation → W → Result (Unit {0}) × W
  pub do_sa_proposal : ℕ → W → Result (Unit {0}) × W
  pub do_key_exchange : ℕ → ℕ → W → Result (Unit {0}) × W
  pub do_identity_protection : IdentityRequest → W → Result (Option AttributesPayload × ℕ) × W
  pub send_ack_response : ℕ → ℕ → W → Result (Unit {0}) × W
  pub send_attribute : ℕ → ℕ → ℕ → Bytes → W → Result AttributesPayload × W
  pub send_om_request : Option (ℕ × ℕ) → Bytes → W → Result AttributesPayload × W
  pub propose_esp : ℕ → ℕ → W → Result (List Attribute) × W
  pub esp_in : W → Esp
  pub esp_out : W → Esp
  pub delete_sa : W → Result (Unit {0}) × W
  -- whether a message was decoded and a payload of it is a security association
  pub decode : Bytes → W → Result (Option Bool) × W
  pub save_session : OfficeMode → W → Result Bytes × W
  pub load_session : Bytes → W → Result OfficeMode × W
  pub open_database : W → Result (Unit {0}) × W
  pub replace_row : ℕ → Text → Bytes → W → Result (Unit {0}) × W
  pub query_row : ℕ → Text → W → Result Bytes × W
  pub delete_rows : ℕ → Text → W → Result (Unit {0}) × W
  pub is_online : W → Bool
  pub now : W → ℕ
  pub create : TransportType → TunnelSession Esp → W → Result (Unit {0}) × W
  pub send_command : ℕ → TunnelCommand Esp → W → Result (Unit {0}) × W

-- `IPsecTunnelConnector`, but for the service and the parameters.
pub record IPsecTunnelConnector (Esp : Type 0) : Type 0 where
  pub last_message_id : ℕ
  pub last_identifier : ℕ
  pub last_challenge_type : ℕ
  pub ccc_session : Text
  pub username : Text
  pub ipsec_session : IPsecSession Esp
  pub last_rekey : Option ℕ
  pub last_ip_lease : Option ℕ
  pub command_sender : Option ℕ
  pub esp_transport : TransportType
