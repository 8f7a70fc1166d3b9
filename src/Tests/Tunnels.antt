-- ===== src/Tests/Tunnels.antt =====
-- Tests of the tunnels, on a platform that counts what it is asked.
use snx_rs.Prelude.{ℕ, ◌+◌, true, false, none, some, [], ◌∷◌, ◌≡◌, refl}
use snx_rs.Prelude.Result.{ok, ◌>>=◌}
use snx_rs.Prelude.Text.{codes}
use snx_rs.Model.Params.{TunnelParams}
use snx_rs.Model.TransportType.{udp}
use snx_rs.Model.Session.{IPsecSession}
use snx_rs.Tunnels.{Platform}
use snx_rs.Tunnels.Routing.{net_eq, ranges_to_subnets, routes}
use snx_rs.Tunnels.Hello.{client_hello, hello_reply, panicked, greeted}
use snx_rs.Tunnels.Ssl
use snx_rs.Tunnels.Ssl.{SslTunnel, ranges_of}
use snx_rs.Tunnels.Tun
use snx_rs.Tunnels.Tun.{TunIPsecTunnel}
use snx_rs.Tunnels.Configured.{Routed, routing_config-Routed}
use snx_rs.Tests.Data.{params}

abbrev platform : Platform ℕ
platform = record {
  with_netmask = λ a m. ok (a, 24);
  trunc = λ net. (0x0a00_0000, net.1);
  subnets = λ a b. (a, 24) ∷ [];
  get_features = λ n. record { ipsec_native = false; ipsec_keepalive = true; split_dns = true };
  new_routing_configurator = λ name type n. (ok tt, n + 1);
  configure = λ config n. (ok tt, n + 1);
  get_client_settings = λ id n. (ok [], n + 1);
  new_resolver_configurator = λ name n. (ok tt, n + 1);
  configure_dns = λ config n. (ok tt, n + 1);
  cleanup_dns = λ config n. (ok tt, n + 1);
  send_terminate = λ n. n + 1;
  delete_device = λ name n. n + 1;
}

abbrev ignoring : TunnelParams
ignoring = record params {
  add_routes = (0x0b00_0000, 8) ∷ [];
  ignore_routes = (0x0c00_0000, 24) ∷ (0x0a00_0000, 24) ∷ [];
}

-- The tunnel's own network is there though it is ignored.
routes_of_both :
    routes platform ignoring ((0x0c00_0000, 24) ∷ (0x0d00_0000, 24) ∷ []) (0x0a00_0005, 24)
    ≡ (0x0b00_0000, 8) ∷ (0x0d00_0000, 24) ∷ (0x0a00_0000, 24) ∷ []
unfolding routes net_eq
routes_of_both = refl

abbrev ssl_tunnel : SslTunnel
ssl_tunnel = record {
  params = ignoring;
  session_id = codes "42";
  gateway_address = 1;
  hello_reply = record {
    servers = none;
    suffixes = none;
    range = some (record { from = 2; to = 9 } ∷ []);
  };
  tun_device = some (codes "snx-tun");
  routing_configurator = true;
  terminate_sender = true;
}

abbrev ipsec_tunnel : TunIPsecTunnel (Unit {0})
ipsec_tunnel = record {
  params = ignoring;
  session = none;
  gateway_address = 1;
  subnets = (0x0c00_0000, 24) ∷ (0x0d00_0000, 24) ∷ [];
  tun_device = some (codes "snx-tun");
  routing_configurator = true;
}

abbrev keys : IPsecSession (Unit {0})
keys = record {
  lifetime = 3600;
  address = 0x0a00_0005;
  netmask = 0xffff_ff00;
  dns = [];
  domains = [];
  esp_in = tt;
  esp_out = tt;
  transport_type = udp;
  address_lifetime = 3600;
}

routing_config-Routed_example :
    Routed platform ssl_tunnel.params ssl_tunnel.gateway_address
      ((ranges_of platform ssl_tunnel 0).0 >>= λ ranges.
        ok (ranges_to_subnets platform ranges, (0x0a00_0005, 24)))
      (Ssl.routing_config platform ssl_tunnel (0x0a00_0005, 24) 0).0
    × Routed platform ipsec_tunnel.params ipsec_tunnel.gateway_address
        (platform.with_netmask keys.address keys.netmask >>= λ network.
          ok (ipsec_tunnel.subnets, network))
        (Tun.routing_config platform ipsec_tunnel keys)
routing_config-Routed_example =
    routing_config-Routed platform ssl_tunnel (0x0a00_0005, 24) 0 ipsec_tunnel keys

-- A gateway that lets an authentication last less than a minute.
short_authentication : client_hello (hello_reply (codes "10.0.0.5") 59 20) ≡ panicked
unfolding client_hello
short_authentication = refl

long_authentication :
    client_hello (hello_reply (codes "10.0.0.5") 3600 20) ≡ greeted (codes "10.0.0.5") 3540 20
unfolding client_hello
long_authentication = refl
