-- ===== src/Tunnels/Tun.antt =====
-- The IPsec tunnel of crates/snxcore/src/tunnel/ipsec/imp/tun.rs: its routes, its DNS settings, what a
-- renewal of the session changes, and its end.
use snx_rs.Prelude.{ℕ, Bool, true, false, not, Option, none, some, List, if◌then◌else◌}
use snx_rs.Prelude.Result.{Result, ok, err}
use snx_rs.Prelude.Text.{Text}
use snx_rs.Model.TunnelType.{ipsec}
use snx_rs.Model.Params.{TunnelParams}
use snx_rs.Model.Session.{IPsecSession}
use snx_rs.Resolver.{ResolverConfig, builder, search_domains, dns_servers, build}
use snx_rs.Tunnels.{Net, RoutingConfig, full, split, cleanup, Platform}
use snx_rs.Tunnels.Routing.{and_then, routes, setup_dns}

pub record TunIPsecTunnel (Esp : Type 0) : Type 0 where
  pub params : TunnelParams
  pub session : Option (IPsecSession Esp)
  pub gateway_address : ℕ
  pub subnets : List Net
  pub tun_device : Option Text
  pub routing_configurator : Bool

module _ {Esp W : Type 0} (platform : Platform W) where
  unfoldable pub resolver_config : TunnelParams → IPsecSession Esp → W → ResolverConfig
  unfolding builder search_domains dns_servers build
  resolver_config params session w = build (
      dns_servers session.dns
        (search_domains session.domains (builder params (platform.get_features w))))

  unfoldable pub routing_config : TunIPsecTunnel Esp → IPsecSession Esp → Result RoutingConfig
  unfolding routes
  routing_config tunnel session =
      let by_subnets : Result RoutingConfig =
        elim (platform.with_netmask session.address session.netmask) [
          | err e ↦ err e
          | ok network ↦
              ok (
                split tunnel.gateway_address (routes platform tunnel.params tunnel.subnets network))
        ] in
      if tunnel.params.no_routing
      then ok (split tunnel.gateway_address tunnel.params.add_routes)
      else if tunnel.params.default_route
      then ok (full tunnel.gateway_address tunnel.params.disable_ipv6)
      else by_subnets

  unfoldable pub setup_routing :
      TunIPsecTunnel Esp → Text → IPsecSession Esp → W → Result (TunIPsecTunnel Esp) × W
  unfolding routing_config
  setup_routing tunnel dev_name session w =
      and_then (platform.new_routing_configurator dev_name ipsec w) λ configurator after.
        and_then (routing_config tunnel session, after)
          λ config later.
            and_then (platform.configure config later)
              λ done last. (ok (record tunnel { routing_configurator = true }), last)

  unfoldable pub clean_dns : TunIPsecTunnel Esp → Text → W → W
  unfolding resolver_config setup_dns
  clean_dns tunnel device w = elim tunnel.session [
    | none ↦ w
    | some session ↦
        if not tunnel.params.no_dns
        then (setup_dns platform (resolver_config tunnel.params session w) device true w).1
        else w
  ]

  unfoldable pub clean_routing : TunIPsecTunnel Esp → W → W
  clean_routing tunnel w =
      if tunnel.routing_configurator
      then (platform.configure (cleanup tunnel.gateway_address tunnel.params.disable_ipv6) w).1
      else w

  unfoldable pub clean_device : TunIPsecTunnel Esp → Text → W → TunIPsecTunnel Esp × W
  unfolding clean_dns clean_routing
  clean_device tunnel device w = (
    record tunnel { tun_device = none; routing_configurator = false },
    platform.delete_device device (clean_routing tunnel (clean_dns tunnel device w)),
  )

  unfoldable pub clean_by : Option Text → TunIPsecTunnel Esp → W → TunIPsecTunnel Esp × W
  unfolding clean_device
  clean_by none tunnel w = (tunnel, w)
  clean_by (some device) tunnel w = clean_device tunnel device w

  unfoldable pub clean_up : TunIPsecTunnel Esp → W → TunIPsecTunnel Esp × W
  unfolding clean_by
  clean_up tunnel w = clean_by tunnel.tun_device tunnel w
