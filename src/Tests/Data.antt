-- ===== src/Tests/Data.antt =====
-- Values that the tests share.
use snx_rs.Prelude.{true, false, none, some, []}
use snx_rs.Prelude.Text.{codes}
use snx_rs.Model.TunnelType.{ipsec}
use snx_rs.Model.TransportType
use snx_rs.Model.Params.{TunnelParams, default_params}
use snx_rs.Model.Session.{
  TunnelSession, authenticated, pending_challenge, ssl_session_key, password_input, LiveStats,
  ConnectionInfo,
}

abbrev pub params : TunnelParams
params = default_params (codes "Default") (codes "/etc/snx-rs/snx-rs.conf")

abbrev pub persistent : TunnelParams
persistent = record (default_params (codes "Default") (codes "/etc/snx-rs/snx-rs.conf")) {
  ike_persist = true;
}

abbrev pub session : TunnelSession (Unit {0})
session = record {
  session_id = codes "42";
  state = authenticated (ssl_session_key (codes "key"));
  username = none;
}

abbrev pub pending : TunnelSession (Unit {0})
pending = record {
  session_id = codes "42";
  state = pending_challenge (record { mfa_type = password_input; prompt = codes "Code:" });
  username = none;
}

abbrev pub stats : LiveStats
stats = record {
  last_rtt_ms = none;
  bytes_rx = 1;
  bytes_tx = 2;
  packets_rx = 3;
  packets_tx = 4;
  errors_rx = 0;
  errors_tx = 0;
  bps_rx = 5;
  bps_tx = 6;
}

abbrev pub info : ConnectionInfo
info = record {
  since = some 1;
  server_name = codes "vpn";
  username = codes "me";
  login_type = codes "vpn";
  tunnel_type = ipsec;
  transport_type = TransportType.udp;
  ip_address = (0x0a00_0001, 24);
  dns_servers = [];
  search_domains = [];
  interface_name = codes "snx-tun";
  dns_configured = true;
  routing_configured = true;
  default_route = false;
  profile_id = 1;
  profile_name = codes "Default";
  live = stats;
}
