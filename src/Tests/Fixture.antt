-- ===== src/Tests/Fixture.antt =====
-- A router with one proxy on port 10000, for the processes whose path holds "firefox".
use proxifyre_rs.Prelude.{
  ℕ, Bool, true, false, Option, none, some, [], ◌∷◌, Text, codes, if◌then◌else◌, ◌==◌,
}
use proxifyre_rs.Net.{IpAddr, SocketAddr, port}
use proxifyre_rs.Proxy.Listener.{TransparentProxy}
use proxifyre_rs.Router.Mappings.{new}
use proxifyre_rs.Router.PacketInfo.{PacketInfo, PacketKind}
use proxifyre_rs.Router.State.{SocksLocalRouter}

abbrev pub ipv4 : ℕ → ℕ → ℕ → ℕ → IpAddr
ipv4 a b c d = IpAddr.v4 (record { a = a; b = b; c = c; d = d })

abbrev pub server : IpAddr
server = ipv4 203 0 113 10

abbrev pub host : IpAddr
host = ipv4 192 0 2 10

abbrev pub proxy : TransparentProxy
proxy = record {
  port = 0;
  socks5 = record {
    proxy_addr = SocketAddr.v4 (record { a = 127; b = 0; c = 0; d = 1 }) 1080;
    auth = none;
    prefer_ipv4_mapped_ipv6 = false;
  };
  tcp_port_v4 = 10000;
  tcp_port_v6 = 10000;
  udp_port_v4 = 10000;
  udp_port_v6 = 10000;
  shutdown = false;
  handles = [];
}

abbrev pub router : SocksLocalRouter
router = record {
  adapter_name = codes "Ethernet";
  tcp_connections = [];
  udp_endpoints = new;
  proxies = proxy ∷ [];
  name_to_proxy = (codes "firefox", 0) ∷ [];
  static_filters = [];
  shutdown = false;
  restart = false;
  is_active = true;
  packet_task = true;
  notify_handle = none;
  notify_context = none;
  bytes_sent = 0;
  bytes_received = 0;
}

-- The proxy's own sockets belong to another process.
abbrev pub find_process_path : Bool → SocketAddr → SocketAddr → Option Text
find_process_path is_udp src dst =
    if port src == 10000 then some (codes "C:/proxifyre.exe") else some (codes "C:/firefox.exe")

-- The answers do not change.
abbrev pub lookups : ℕ → Bool → SocketAddr → SocketAddr → Option Text
lookups now = find_process_path

abbrev pub syn_packet : PacketInfo
syn_packet = record {
  kind = PacketKind.tcp_v4;
  src_ip = host;
  dst_ip = server;
  src_port = 53000;
  dst_port = 443;
  syn = true;
  ack = false;
  rst = false;
  fin = false;
}

abbrev pub datagram : PacketInfo
datagram = record syn_packet { kind = PacketKind.udp_v4; dst_port = 53; syn = false }
