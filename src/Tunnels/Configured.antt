-- ===== src/Tunnels/Configured.antt =====
-- The routing that both kinds of tunnel configure.
use snx_rs.Prelude.{
  ℕ, Bool, true, false, not, ◌&&◌, ◌||◌, List, ◌≡◌, refl, ltb, if◌then◌else◌, String,
}
use snx_rs.Prelude.Result.{Result, ok, err, ◌>>=◌}
use snx_rs.Model.Params.{TunnelParams}
use snx_rs.Model.Session.{IPsecSession}
use snx_rs.Tunnels.{Net, NetworkRange, RoutingConfig, full, split, Platform}
use snx_rs.Tunnels.Routing.{net_eq, has, and_then, ranges_to_subnets, routes}
use snx_rs.Tunnels.Routes.{has-routes}
use snx_rs.Tunnels.Ssl
use snx_rs.Tunnels.Ssl.{SslTunnel, ranges_of}
use snx_rs.Tunnels.Tun
use snx_rs.Tunnels.Tun.{TunIPsecTunnel}

module _ {W : Type 0} (platform : Platform W) where
  -- The own network of a tunnel, unless its address stands alone.
  unfoldable pub is_own : Net → Net → Bool
  unfolding net_eq
  is_own (address, prefix_len) net =
      ltb prefix_len 32 && net_eq (platform.trunc (address, prefix_len)) net

  -- The routing that fits the parameters, where `acquired` is what is found out of the gateway's
  -- subnets and the tunnel's own address.
  pub data Routed (params : TunnelParams) (gateway : ℕ) (acquired : Result (List Net × Net))
      : Result RoutingConfig → Type 0 where
    by_profile :
        (routes : List Net)
        → params.no_routing ≡ true
        → ((net : Net) → has net routes ≡ has net params.add_routes)
        → Routed params gateway acquired (ok (split gateway routes))
    by_default :
        params.no_routing ≡ false
        → params.default_route ≡ true
        → Routed params gateway acquired (ok (full gateway params.disable_ipv6))
    by_gateway :
        (routes subnets : List Net) (address : Net)
        → params.no_routing ≡ false
        → params.default_route ≡ false
        → acquired ≡ ok (subnets, address)
        → ((net : Net)
            → has net routes ≡ (
                ((has net params.add_routes || has net subnets)
                  && not (has net params.ignore_routes))
                || is_own address net))
        → Routed params gateway acquired (ok (split gateway routes))
    unknown :
        (e : String)
        → params.no_routing ≡ false
        → params.default_route ≡ false
        → acquired ≡ err e
        → Routed params gateway acquired (err e)

  routes-Routed :
      (params : TunnelParams) (gateway : ℕ) (subnets : List Net) (address : Net)
      → params.no_routing ≡ false
      → params.default_route ≡ false
      → Routed params gateway
          (ok (subnets, address))
          (ok (split gateway (routes platform params subnets address)))
  unfolding is_own
  routes-Routed params gateway subnets (address, prefix_len) asked split_up =
      by_gateway (routes platform params subnets (address, prefix_len)) subnets
        (address, prefix_len) asked split_up refl
        λ net. has-routes platform params subnets address prefix_len net

  by_ranges-Routed :
      (tunnel : SslTunnel) (address : Net) (given : Result (List NetworkRange) × W)
      → tunnel.params.no_routing ≡ false
      → tunnel.params.default_route ≡ false
      → Routed tunnel.params tunnel.gateway_address
          (given.0 >>= λ ranges. ok (ranges_to_subnets platform ranges, address))
          (and_then given λ ranges after. (
            ok (
                split tunnel.gateway_address
                  (routes platform tunnel.params (ranges_to_subnets platform ranges) address)),
            after,
          )).0
  by_ranges-Routed tunnel address (ok ranges, after) asked split_up =
      routes-Routed tunnel.params tunnel.gateway_address (ranges_to_subnets platform ranges) address
        asked split_up
  by_ranges-Routed tunnel address (err e, after) asked split_up = unknown e asked split_up refl

  module _ (params : TunnelParams) (gateway : ℕ) (acquired : Result (List Net × Net)) where
    by_flags-Routed :
        (no_routing default_route : Bool) (given : Result RoutingConfig)
        → params.no_routing ≡ no_routing
        → params.default_route ≡ default_route
        → (no_routing ≡ false → default_route ≡ false → Routed params gateway acquired given)
        → Routed params gateway acquired (
            if no_routing
            then ok (split gateway params.add_routes)
            else if default_route
            then ok (full gateway params.disable_ipv6)
            else given)
    by_flags-Routed true default_route given e e' h = by_profile params.add_routes e λ net. refl
    by_flags-Routed false true given e e' h = by_default e e'
    by_flags-Routed false false given e e' h = h refl refl

    by_flags-Routed_beside :
        (no_routing default_route : Bool) (given : Result RoutingConfig × W) (w : W)
        → params.no_routing ≡ no_routing
        → params.default_route ≡ default_route
        → (no_routing ≡ false → default_route ≡ false → Routed params gateway acquired given.0)
        → Routed params gateway acquired
            (if no_routing
              then (ok (split gateway params.add_routes), w)
              else if default_route
              then (ok (full gateway params.disable_ipv6), w)
              else given).0
    by_flags-Routed_beside true default_route given w e e' h =
        by_profile params.add_routes e λ net. refl
    by_flags-Routed_beside false true given w e e' h = by_default e e'
    by_flags-Routed_beside false false given w e e' h = h refl refl

  ssl-Routed :
      (tunnel : SslTunnel) (address : Net) (w : W)
      → Routed tunnel.params tunnel.gateway_address
          ((ranges_of platform tunnel w).0 >>= λ ranges.
            ok (ranges_to_subnets platform ranges, address))
          (Ssl.routing_config platform tunnel address w).0
  unfolding Ssl.routing_config
  ssl-Routed tunnel address w =
      by_flags-Routed_beside tunnel.params tunnel.gateway_address
        ((ranges_of platform tunnel w).0 >>= λ ranges.
          ok (ranges_to_subnets platform ranges, address))
        tunnel.params.no_routing tunnel.params.default_route
        (and_then (ranges_of platform tunnel w) λ ranges after. (
          ok (
              split tunnel.gateway_address
                (routes platform tunnel.params (ranges_to_subnets platform ranges) address)),
          after,
        ))
        w refl refl (by_ranges-Routed tunnel address (ranges_of platform tunnel w))

  by_subnets-Routed :
      {Esp : Type 0} (tunnel : TunIPsecTunnel Esp) (network : Result Net)
      → tunnel.params.no_routing ≡ false
      → tunnel.params.default_route ≡ false
      → Routed tunnel.params tunnel.gateway_address
          (network >>= λ address. ok (tunnel.subnets, address))
          (elim network [
            | err e ↦ err e
            | ok address ↦ ok (
                split tunnel.gateway_address (routes platform tunnel.params tunnel.subnets address))
          ])
  by_subnets-Routed tunnel (ok address) asked split_up =
      routes-Routed tunnel.params tunnel.gateway_address tunnel.subnets address asked split_up
  by_subnets-Routed tunnel (err e) asked split_up = unknown e asked split_up refl

  tun-Routed :
      {Esp : Type 0} (tunnel : TunIPsecTunnel Esp) (session : IPsecSession Esp)
      → Routed tunnel.params tunnel.gateway_address
          (platform.with_netmask session.address session.netmask >>= λ address.
            ok (tunnel.subnets, address))
          (Tun.routing_config platform tunnel session)
  unfolding Tun.routing_config
  tun-Routed tunnel session =
      by_flags-Routed tunnel.params tunnel.gateway_address
        (platform.with_netmask session.address session.netmask >>= λ address.
          ok (tunnel.subnets, address))
        tunnel.params.no_routing tunnel.params.default_route _ refl refl
        (by_subnets-Routed tunnel (platform.with_netmask session.address session.netmask))

  -- The SSL tunnel and the IPsec tunnel over a tun device configure, without routing, exactly the
  -- routes that the profile adds; with a default route, this one; and else a route exactly if the
  -- profile adds it or the gateway gives it and the profile does not ignore it, or if it is the
  -- tunnel's own network, whether ignored or not. An error in finding the gateway's ranges or the
  -- tunnel's own network is given only where these are needed.
  pub routing_config-Routed :
      {Esp : Type 0} (ssl : SslTunnel) (address : Net) (w : W) (ipsec : TunIPsecTunnel Esp)
      (session : IPsecSession Esp)
      → Routed ssl.params ssl.gateway_address
          ((ranges_of platform ssl w).0 >>= λ ranges.
            ok (ranges_to_subnets platform ranges, address))
          (Ssl.routing_config platform ssl address w).0
        × Routed ipsec.params ipsec.gateway_address
            (platform.with_netmask session.address session.netmask >>= λ network.
              ok (ipsec.subnets, network))
            (Tun.routing_config platform ipsec session)
  routing_config-Routed ssl address w ipsec session =
      (ssl-Routed ssl address w, tun-Routed ipsec session)
