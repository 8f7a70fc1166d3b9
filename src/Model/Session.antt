-- ===== src/Model/Session.antt =====
-- The sessions, statuses, requests and events of crates/snxcore/src/model.rs and
-- crates/snxcore/src/tunnel.rs. The keys of an IPsec tunnel (`EspCryptMaterial` of the isakmp
-- crate) are a parameter `Esp`. A point in time and a round trip are in nanoseconds.
use snx_rs.Prelude.{ℕ, Bool, true, false, Option, none, List, [], String, if◌then◌else◌}
use snx_rs.Prelude.Text.{Text, codes, text_eq}
use snx_rs.Model.TunnelType.{TunnelType}
use snx_rs.Model.TransportType.{TransportType}
use snx_rs.Model.Params.{TunnelParams}

pub record IPsecSession (Esp : Type 0) : Type 0 where
  pub lifetime : ℕ
  pub address : ℕ
  pub netmask : ℕ
  pub dns : List ℕ
  pub domains : List Text
  pub esp_in : Esp
  pub esp_out : Esp
  pub transport_type : TransportType
  pub address_lifetime : ℕ

pub data MfaType : Type 0 where
  password_input identity_provider user_name_input mobile_access : MfaType

unfoldable pub from_id : Text → MfaType
from_id id = if text_eq id (codes "CPSC_SP_URL") then identity_provider else password_input

pub record MfaChallenge : Type 0 where
  pub mfa_type : MfaType
  pub prompt : Text

pub data AuthenticatedSession (Esp : Type 0) : Type 0 where
  ssl_session_key : Text → AuthenticatedSession Esp
  ipsec_session : IPsecSession Esp → AuthenticatedSession Esp

pub data SessionState (Esp : Type 0) : Type 0 where
  no_state : SessionState Esp
  authenticated : AuthenticatedSession Esp → SessionState Esp
  pending_challenge : MfaChallenge → SessionState Esp

pub record TunnelSession (Esp : Type 0) : Type 0 where
  pub session_id : Text
  pub state : SessionState Esp
  pub username : Option Text

unfoldable pub empty : (Esp : Type 0) → TunnelSession Esp
empty Esp = record { session_id = []; state = no_state; username = none }

pub record LiveStats : Type 0 where
  pub last_rtt_ms : Option ℕ
  pub bytes_rx : ℕ
  pub bytes_tx : ℕ
  pub packets_rx : ℕ
  pub packets_tx : ℕ
  pub errors_rx : ℕ
  pub errors_tx : ℕ
  pub bps_rx : ℕ
  pub bps_tx : ℕ

-- `SearchDomain` of crates/snxcore/src/platform.rs
pub record SearchDomain : Type 0 where
  pub name : Text
  pub is_routing : Bool

pub record ConnectionInfo : Type 0 where
  pub since : Option ℕ
  pub server_name : Text
  pub username : Text
  pub login_type : Text
  pub tunnel_type : TunnelType
  pub transport_type : TransportType
  pub ip_address : ℕ × ℕ
  pub dns_servers : List ℕ
  pub search_domains : List SearchDomain
  pub interface_name : Text
  pub dns_configured : Bool
  pub routing_configured : Bool
  pub default_route : Bool
  pub profile_id : ℕ
  pub profile_name : Text
  pub live : LiveStats

pub data ConnectionStatus : Type 0 where
  disconnected : ConnectionStatus
  connecting : ConnectionStatus
  connected : ConnectionInfo → ConnectionStatus
  mfa : MfaChallenge → ConnectionStatus

pub data TunnelServiceRequest : Type 0 where
  connect : TunnelParams → TunnelServiceRequest
  challenge_code : Text → TunnelParams → TunnelServiceRequest
  disconnect : TunnelServiceRequest
  get_status : TunnelServiceRequest

unfoldable pub is_polling : TunnelServiceRequest → Bool
is_polling get_status = true
is_polling _ = false

pub data TunnelServiceResponse : Type 0 where
  ok : TunnelServiceResponse
  error : String → TunnelServiceResponse
  connection_status : ConnectionStatus → TunnelServiceResponse

pub data TunnelCommand (Esp : Type 0) : Type 0 where
  terminate : Bool → TunnelCommand Esp
  rekey : IPsecSession Esp → TunnelCommand Esp

pub data TunnelEvent : Type 0 where
  connected : ConnectionInfo → TunnelEvent
  disconnected : TunnelEvent
  rekey_check : TunnelEvent
  remote_control_data : List ℕ → TunnelEvent
  rekeyed : ℕ × ℕ → TunnelEvent
  rtt : ℕ → TunnelEvent
