-- ===== src/Tunnels/Ssl.antt =====
-- The SSL tunnel of crates/snxcore/src/tunnel/ssl.rs: its routes, its DNS settings and its end.
use snx_rs.Prelude.{ℕ, Bool, true, false, Option, none, some, List, [], if◌then◌else◌}
use snx_rs.Prelude.Result.{Result, ok, err}
use snx_rs.Prelude.Text.{Text}
use snx_rs.Model.TunnelType.{ssl}
use snx_rs.Model.Params.{TunnelParams}
use snx_rs.Resolver.{ResolverConfig, builder, search_domains, dns_servers, build}
use snx_rs.Tunnels.{Net, NetworkRange, RoutingConfig, full, split, cleanup, DeviceConfig, Platform}
use snx_rs.Tunnels.Routing.{and_then, ranges_to_subnets, routes, setup_dns}

-- What the tunnel keeps of the hello reply: the servers, the suffixes and the ranges.
pub record HelloReply : Type 0 where
  pub servers : Option (List ℕ)
  pub suffixes : Option (List Text)
  pub range : Option (List NetworkRange)

pub record SslTunnel : Type 0 where
  pub params : TunnelParams
  pub session_id : Text
  pub gateway_address : ℕ
  pub hello_reply : HelloReply
  pub tun_device : Option Text
  pub routing_configurator : Bool
  pub terminate_sender : Bool

unfoldable pub or_empty {ℓ} : {A : Type ℓ} → Option (List A) → List A
or_empty none = []
or_empty (some xs) = xs

module _ {W : Type 0} (platform : Platform W) where
  unfoldable pub make_resolver_config : SslTunnel → W → ResolverConfig
  unfolding builder search_domains dns_servers build or_empty
  make_resolver_config tunnel w = build (
      dns_servers (or_empty tunnel.hello_reply.servers) (
        search_domains (or_empty tunnel.hello_reply.suffixes)
          (builder tunnel.params (platform.get_features w))))

  unfoldable pub ranges_of : SslTunnel → W → Result (List NetworkRange) × W
  ranges_of tunnel w = elim tunnel.hello_reply.range [
    | some range ↦ (ok range, w)
    | none ↦ platform.get_client_settings tunnel.session_id w
  ]

  unfoldable pub routing_config : SslTunnel → Net → W → Result RoutingConfig × W
  unfolding ranges_of ranges_to_subnets routes
  routing_config tunnel address w =
      let by_ranges = and_then (ranges_of tunnel w) λ ranges after. (
        ok (
            split tunnel.gateway_address
              (routes platform tunnel.params (ranges_to_subnets platform ranges) address)),
        after,
      ) in
      if tunnel.params.no_routing
      then (ok (split tunnel.gateway_address tunnel.params.add_routes), w)
      else if tunnel.params.default_route
      then (ok (full tunnel.gateway_address tunnel.params.disable_ipv6), w)
      else by_ranges

  -- The configurator is kept only once it has configured.
  unfoldable pub setup_routing : SslTunnel → DeviceConfig → W → Result SslTunnel × W
  unfolding routing_config
  setup_routing tunnel device_config w =
      and_then (platform.new_routing_configurator device_config.name ssl w) λ configurator after.
        and_then (routing_config tunnel device_config.address after) λ config later.
          and_then (platform.configure config later)
            λ done last. (ok (record tunnel { routing_configurator = true }), last)

  unfoldable pub clean_routing : SslTunnel → W → W
  clean_routing tunnel w =
      if tunnel.routing_configurator
      then (platform.configure (cleanup tunnel.gateway_address tunnel.params.disable_ipv6) w).1
      else w

  unfoldable pub clean_dns : SslTunnel → Text → W → W
  unfolding make_resolver_config setup_dns
  clean_dns tunnel device w =
      if tunnel.params.no_dns
      then w
      else (setup_dns platform (make_resolver_config tunnel w) device true w).1

  -- Each of the steps is done whether or not those before it succeed.
  unfoldable pub clean_device : SslTunnel → Text → W → SslTunnel × W
  unfolding clean_routing clean_dns
  clean_device tunnel device w =
      let after = clean_dns tunnel device (clean_routing tunnel w) in
      let told = if tunnel.terminate_sender then platform.send_terminate after else after in
      (
        record tunnel { tun_device = none; routing_configurator = false; terminate_sender = false },
        platform.delete_device device told,
      )

  unfoldable pub clean_by : Option Text → SslTunnel → W → SslTunnel × W
  unfolding clean_device
  clean_by none tunnel w = (tunnel, w)
  clean_by (some device) tunnel w = clean_device tunnel device w

  unfoldable pub clean_up : SslTunnel → W → SslTunnel × W
  unfolding clean_by
  clean_up tunnel w = clean_by tunnel.tun_device tunnel w

-- The device's address: with the netmask of the reply if that makes one, or by itself.
unfoldable pub device_address : {W : Type 0} → Platform W → ℕ → Option ℕ → Net
device_address platform address none = (address, 32)
device_address platform address (some netmask) = elim (platform.with_netmask address netmask) [
  | ok net ↦ net
  | err e ↦ (address, 32)
]
