-- ===== src/Router/Flow/Tcp.antt =====
-- The mapping of a TCP connection under each step of the router.
use proxifyre_rs.Prelude.{ℕ, ◌≡◌, ◌≢◌, Bool, true, ◌||◌, Option, some, Text, arith, inl, inr, ◌⊎◌}
use proxifyre_rs.HashMap.{get, IsMap, get-or_insert, get-remove, or_insert-IsMap, remove-IsMap}
use proxifyre_rs.Net.{SocketAddr}
use proxifyre_rs.Router.Flow.{
  client_key, reply_key, close_tcp, open_tcp, tcp_from_proxy, tcp_port_of, tcp_syn, tcp_established,
  process_tcp_payload, udp_from_proxy, udp_lookup, process_udp_payload,
}
use proxifyre_rs.Router.Mappings.{TcpPortMapping}
use proxifyre_rs.Router.PacketInfo.{PacketInfo}
use proxifyre_rs.Router.State.{SocksLocalRouter, TcpKey, tcp_discrete}

-- The packet ends the connection: a RST or FIN from the client or from the proxy.
abbrev pub Closes : TcpKey → PacketInfo → Type 0
Closes k i = ((i.rst || i.fin) ≡ true) × ((client_key i ≡ k) ⊎ (reply_key i ≡ k))

abbrev tcp_get : TcpKey → SocksLocalRouter → Option TcpPortMapping
tcp_get k r = get tcp_discrete k r.tcp_connections

-- The table maps the connection to this entry.
abbrev pub Holds : TcpKey → TcpPortMapping → SocksLocalRouter → Type 0
Holds k e r = (get tcp_discrete k r.tcp_connections ≡ some e) × IsMap tcp_discrete r.tcp_connections

close_tcp-Holds :
    (r : SocksLocalRouter) (key k : TcpKey) (i : PacketInfo) (e : TcpPortMapping)
    → (((i.rst || i.fin) ≡ true) → key ≢ k)
    → Holds k e r
    → Holds k e (close_tcp r key i)
unfolding close_tcp
close_tcp-Holds r key k i e h g = ground (
  arith,
  get-remove tcp_discrete key k r.tcp_connections g.1,
  remove-IsMap tcp_discrete key r.tcp_connections g.1,
)

open_tcp-Holds :
    (r : SocksLocalRouter) (k : TcpKey) (i : PacketInfo) (p : ℕ) (e : TcpPortMapping)
    → Holds k e r
    → Holds k e (open_tcp r i p)
unfolding open_tcp
open_tcp-Holds r k i p e g =
    let entry : TcpPortMapping = record {
      dst_ip = i.dst_ip;
      dst_port = i.dst_port;
      proxy_port = p;
    } in
    ground (
      arith,
      get-or_insert tcp_discrete (client_key i) k entry r.tcp_connections,
      or_insert-IsMap tcp_discrete (client_key i) entry r.tcp_connections g.1,
    )

tcp_from_proxy-Holds :
    (r : SocksLocalRouter) (k : TcpKey) (i : PacketInfo) (e : TcpPortMapping)
    → ¬ Closes k i
    → Holds k e r
    → Holds k e (tcp_from_proxy r i).0
unfolding tcp_from_proxy
tcp_from_proxy-Holds r k i e h g =
    ground (arith, close_tcp-Holds r (reply_key i) k i e (λ c q. h (c, inr q)) g)

udp_from_proxy-tcp :
    (r : SocksLocalRouter) (i : PacketInfo)
    → (udp_from_proxy r i).0.tcp_connections ≡ r.tcp_connections
unfolding udp_from_proxy
udp_from_proxy-tcp r i = ground arith

module _ (find_process_path : Bool → SocketAddr → SocketAddr → Option Text) where
  tcp_syn-Holds :
      (r : SocksLocalRouter) (k : TcpKey) (i : PacketInfo) (e : TcpPortMapping)
      → Holds k e r
      → Holds k e (tcp_syn find_process_path r i).0
  unfolding tcp_syn
  tcp_syn-Holds r k i e g =
      ground (arith, open_tcp-Holds r k i (tcp_port_of find_process_path r i) e g)

  tcp_established-Holds :
      (r : SocksLocalRouter) (k : TcpKey) (i : PacketInfo) (e : TcpPortMapping)
      → ¬ Closes k i
      → Holds k e r
      → Holds k e (tcp_established find_process_path r i).0
  unfolding tcp_established
  tcp_established-Holds r k i e h g =
      ground (arith, close_tcp-Holds r (client_key i) k i e (λ c q. h (c, inl q)) g)

  pub process_tcp_payload-Holds :
      (r : SocksLocalRouter) (k : TcpKey) (i : PacketInfo) (e : TcpPortMapping)
      → ¬ Closes k i
      → Holds k e r
      → Holds k e (process_tcp_payload find_process_path r i).0
  unfolding process_tcp_payload
  process_tcp_payload-Holds r k i e h g = ground (
    arith,
    tcp_syn-Holds r k i e g,
    tcp_established-Holds r k i e h g,
    tcp_from_proxy-Holds (tcp_syn find_process_path r i).0 k i e h,
    tcp_from_proxy-Holds (tcp_established find_process_path r i).0 k i e h,
  )

  pub process_udp_payload-tcp :
      (r : SocksLocalRouter) (i : PacketInfo) (now : ℕ)
      → (process_udp_payload find_process_path r i now).0.tcp_connections ≡ r.tcp_connections
  unfolding process_udp_payload udp_lookup
  process_udp_payload-tcp r i now = ground (arith, udp_from_proxy-tcp r i)
