-- ===== src/Tunnels.antt =====
-- The tunnels of crates/snxcore/src/tunnel/ssl.rs and crates/snxcore/src/tunnel/ipsec/imp/tun.rs: their
-- routes, their DNS settings, their first message and their end. What they ask of the platform and
-- of the gateway connector are operations on a state of its own; a configurator and a sender are
-- whether they are there.
pub mod Routing
pub mod Ssl
pub mod Tun
pub mod Hello
pub mod Routes
pub mod Configured
use snx_rs.Prelude.{ℕ, Bool, Option, List, ◌==◌, ◌&&◌}
use snx_rs.Prelude.Result.{Result}
use snx_rs.Prelude.Text.{Text}
use snx_rs.Model.TunnelType.{TunnelType}
use snx_rs.Resolver.{PlatformFeatures, ResolverConfig}

-- An address and a prefix length.
abbrev pub Net : Type 0
Net = ℕ × ℕ

pub record NetworkRange : Type 0 where
  pub from : ℕ
  pub to : ℕ

pub data RoutingConfig : Type 0 where
  full : ℕ → Bool → RoutingConfig
  split : ℕ → List Net → RoutingConfig
  cleanup : ℕ → Bool → RoutingConfig

pub record DeviceConfig : Type 0 where
  pub name : Text
  pub mtu : ℕ
  pub address : Net
  pub allow_forwarding : Bool

pub record Platform (W : Type 0) : Type 0 where
  -- ipnet and iprange
  pub with_netmask : ℕ → ℕ → Result Net
  pub trunc : Net → Net
  pub subnets : ℕ → ℕ → List Net
  pub get_features : W → PlatformFeatures
  pub new_routing_configurator : Text → TunnelType → W → Result (Unit {0}) × W
  pub configure : RoutingConfig → W → Result (Unit {0}) × W
  pub get_client_settings : Text → W → Result (List NetworkRange) × W
  pub new_resolver_configurator : Text → W → Result (Unit {0}) × W
  pub configure_dns : ResolverConfig → W → Result (Unit {0}) × W
  pub cleanup_dns : ResolverConfig → W → Result (Unit {0}) × W
  pub send_terminate : W → W
  pub delete_device : Text → W → W
