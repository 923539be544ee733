-- ===== src/Proxy/Datagram.antt =====
-- The beginning and the end of `handle_udp_packet` of proxy/transparent_proxy.rs, and `send_to` of
-- proxy/socks5.rs: where a datagram goes, and what the relay gets.
use proxifyre_rs.Net.{IpAddr, SocketAddr, socket_addr}
use proxifyre_rs.Prelude.{ℕ, Bool, Option, none, some, List, Result, ok, err}
use proxifyre_rs.Proxy.Associations.Worker.{Job}
use proxifyre_rs.Proxy.Codec.{build_udp_request, maybe_map_ipv4_to_ipv6_mapped}

-- The datagram with its destination; `local` is the address of the listener, `none` of an error. The
-- datagram is dropped where there is no destination.
unfoldable pub job_of :
    {Q : Type 0}
    → (SocketAddr → SocketAddr → Result Q (IpAddr × ℕ))
    → Option SocketAddr
    → List ℕ
    → SocketAddr
    → Option Job
job_of query none packet client_addr = none
job_of query (some local) packet client_addr = elim (query client_addr local) [
  | err e ↦ none
  | ok (dst_ip, dst_port) ↦
      some (record {
        client_addr = client_addr;
        dst_ip = dst_ip;
        dst_port = dst_port;
        packet = packet;
      })
]

-- The bytes that the association's socket sends.
unfoldable pub send_to : Bool → List ℕ → List ℕ → SocketAddr → List ℕ
send_to prefer_ipv4_mapped_ipv6 buf payload dst =
    build_udp_request buf (maybe_map_ipv4_to_ipv6_mapped dst prefer_ipv4_mapped_ipv6) payload

abbrev pub remote_addr : Job → SocketAddr
remote_addr j = socket_addr j.dst_ip j.dst_port
