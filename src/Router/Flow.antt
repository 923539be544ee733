-- ===== src/Router/Flow.antt =====
-- router/flow.rs: what is done with a TCP or a UDP packet, and the two queries of the transparent
-- proxy (the closures of `add_socks5_proxy` in router/mod.rs). The process lookup is a trait object:
-- its answer to one call, `none` for an error, is the parameter `find_process_path`. Log lines are
-- left out.
pub mod Rewritten
pub mod Kept
pub mod Ranges
pub mod Answers
pub mod Tcp
pub mod Session
pub mod Closed
pub mod Lasting
pub mod Udp
pub mod Peers
pub mod Datagram
use proxifyre_rs.Prelude.{
  ℕ, ◌-◌, Bool, true, false, not, ◌&&◌, ◌||◌, Option, none, some, List, [], ◌∷◌, Text, Result, ok,
  err, if◌then◌else◌, ◌==◌, ltb, ok_or,
}
use proxifyre_rs.HashMap.{get, insert, or_insert, remove, modify}
use proxifyre_rs.Net.{IpAddr, SocketAddr, ip, port, is_unspecified, to_ipv4_mapped, socket_addr}
use proxifyre_rs.Router.Mappings.{
  UdpFlowKey, UdpIndexKey, TcpPortMapping, UdpPortMapping, UdpMappings, flow_discrete,
  index_discrete, insert_flow, retain_active,
}
use proxifyre_rs.Router.PacketInfo.{PacketInfo, PortRewrite, to_proxy, from_proxy, is_v6, src, dst}
use proxifyre_rs.Router.State.{
  SocksLocalRouter, TcpKey, tcp_discrete, get_proxy_port_tcp, get_proxy_port_udp, is_tcp_proxy_port,
  is_udp_proxy_port,
}

abbrev pub udp_timeout : ℕ
udp_timeout = 60000

-- The key of a packet from the client.
abbrev pub client_key : PacketInfo → TcpKey
client_key i = record { dst_ip = i.dst_ip; src_ip = i.src_ip; src_port = i.src_port }

-- The key of the connection that a packet from the proxy belongs to.
abbrev pub reply_key : PacketInfo → TcpKey
reply_key i = record { dst_ip = i.dst_ip; src_ip = i.src_ip; src_port = i.dst_port }

abbrev pub client_flow : PacketInfo → UdpFlowKey
client_flow i = record { dst_ip = i.dst_ip; src_ip = i.src_ip; src_port = i.src_port }

abbrev pub reply_flow : PacketInfo → UdpFlowKey
reply_flow i = record { dst_ip = i.dst_ip; src_ip = i.src_ip; src_port = i.dst_port }

-- `if rst || fin { map.remove(&key) }`.
unfoldable pub close_tcp : SocksLocalRouter → TcpKey → PacketInfo → SocksLocalRouter
close_tcp r key i =
    if i.rst || i.fin
    then record r { tcp_connections = remove tcp_discrete key r.tcp_connections }
    else r

unfoldable pub open_tcp : SocksLocalRouter → PacketInfo → ℕ → SocksLocalRouter
open_tcp r i proxy_port =
    let entry : TcpPortMapping = record {
      dst_ip = i.dst_ip;
      dst_port = i.dst_port;
      proxy_port = proxy_port;
    } in
    record r { tcp_connections = or_insert tcp_discrete (client_key i) entry r.tcp_connections }

-- The last part of `process_tcp_payload`: a packet that the proxy sends.
unfoldable pub tcp_from_proxy :
    SocksLocalRouter → PacketInfo → SocksLocalRouter × Option PortRewrite
tcp_from_proxy r i =
    if is_tcp_proxy_port r i.src_port
    then elim (get tcp_discrete (reply_key i) r.tcp_connections) [
      | none ↦ (r, none)
      | some entry ↦ (close_tcp r (reply_key i) i, some (PortRewrite.from_proxy entry.dst_port))
    ]
    else (r, none)

unfoldable pub udp_from_proxy :
    SocksLocalRouter → PacketInfo → SocksLocalRouter × Option PortRewrite
udp_from_proxy r i =
    if is_udp_proxy_port r i.src_port
    then elim (get flow_discrete (reply_flow i) r.udp_endpoints.by_flow) [
      | none ↦ (r, none)
      | some entry ↦ (r, some (PortRewrite.from_proxy entry.dst_port))
    ]
    else (r, none)

module _ (find_process_path : Bool → SocketAddr → SocketAddr → Option Text) where
  -- The port of the proxy for the process behind a packet; 0 stands for none.
  unfoldable pub tcp_port_of : SocksLocalRouter → PacketInfo → ℕ
  tcp_port_of r i = elim (find_process_path false (src i) (dst i)) [
    | none ↦ 0
    | some path ↦ get_proxy_port_tcp r path (is_v6 i.kind)
  ]

  unfoldable pub udp_port_of : SocksLocalRouter → PacketInfo → ℕ
  udp_port_of r i = elim (find_process_path true (src i) (dst i)) [
    | none ↦ 0
    | some path ↦ get_proxy_port_udp r path (is_v6 i.kind)
  ]

  -- A SYN without ACK opens a connection.
  unfoldable pub tcp_syn : SocksLocalRouter → PacketInfo → SocksLocalRouter × Option PortRewrite
  tcp_syn r i =
      let proxy_port = tcp_port_of r i in
      if proxy_port == 0
      then (r, none)
      else (open_tcp r i proxy_port, some (PortRewrite.to_proxy proxy_port))

  unfoldable pub tcp_established :
      SocksLocalRouter → PacketInfo → SocksLocalRouter × Option PortRewrite
  tcp_established r i = elim (get tcp_discrete (client_key i) r.tcp_connections) [
    | none ↦ (r, none)
    | some entry ↦ (close_tcp r (client_key i) i, some (PortRewrite.to_proxy entry.proxy_port))
  ]

  unfoldable pub process_tcp_payload :
      SocksLocalRouter → PacketInfo → SocksLocalRouter × Option PortRewrite
  process_tcp_payload r i =
      let (r', rewrite) = if i.syn && not i.ack then tcp_syn r i else tcp_established r i in
      elim rewrite [ some w ↦ (r', some w) | none ↦ tcp_from_proxy r' i ]

  -- No mapping is there: ask for the process.
  unfoldable pub udp_lookup :
      SocksLocalRouter → PacketInfo → ℕ → SocksLocalRouter × Option PortRewrite
  udp_lookup r i now =
      let proxy_port = udp_port_of r i in
      let entry : UdpPortMapping = record {
        dst_ip = i.dst_ip;
        dst_port = i.dst_port;
        proxy_port = proxy_port;
        last_active = now;
      } in
      if proxy_port == 0 then udp_from_proxy r i else (
        record r { udp_endpoints = insert_flow r.udp_endpoints (client_flow i) entry },
        some (PortRewrite.to_proxy proxy_port),
      )

  unfoldable pub process_udp_payload :
      SocksLocalRouter → PacketInfo → ℕ → SocksLocalRouter × Option PortRewrite
  process_udp_payload r i now = elim (get flow_discrete (client_flow i) r.udp_endpoints.by_flow) [
    | none ↦ udp_lookup r i now
    | some entry ↦
        if entry.dst_port == i.dst_port
        then (
          record r {
            udp_endpoints = record r.udp_endpoints {
              by_flow =
                  modify flow_discrete (client_flow i) (λ e. record e { last_active = now })
                    r.udp_endpoints.by_flow;
            };
          },
          some (PortRewrite.to_proxy entry.proxy_port),
        )
        else (r, none)
  ]

unfoldable pub cleanup_stale_udp_endpoints : SocksLocalRouter → ℕ → SocksLocalRouter
cleanup_stale_udp_endpoints r now = record r {
  udp_endpoints = retain_active r.udp_endpoints (λ e. ltb (now - e.last_active) udp_timeout);
}

unfoldable pub normalize_mapped_ipv6 : SocketAddr → SocketAddr
normalize_mapped_ipv6 (SocketAddr.v4 a p) = SocketAddr.v4 a p
normalize_mapped_ipv6 (SocketAddr.v6 a p flow scope) = elim (to_ipv4_mapped a) [
  | none ↦ SocketAddr.v6 a p flow scope
  | some v4 ↦ socket_addr (IpAddr.v4 v4) p
]

-- What the packet loop hands to the router, one at a time: a parsed TCP or UDP packet with the time
-- at which it is handled, or the clean-up of every twentieth batch. The process lookup answers
-- differently at different times, so that what it answers in a run is a function of the time too.
pub data Event : Type 0 where
  tcp : PacketInfo → ℕ → Event
  udp : PacketInfo → ℕ → Event
  cleanup : ℕ → Event

module _ (find_process_path : ℕ → Bool → SocketAddr → SocketAddr → Option Text) where
  unfoldable pub step : SocksLocalRouter → Event → SocksLocalRouter
  step r (tcp i at) = (process_tcp_payload (find_process_path at) r i).0
  step r (udp i now) = (process_udp_payload (find_process_path now) r i now).0
  step r (cleanup now) = cleanup_stale_udp_endpoints r now

  unfoldable pub run : SocksLocalRouter → List Event → SocksLocalRouter
  run r [] = r
  run r (e ∷ es) = run (step r e) es

-- The errors of the queries, all of kind NotFound.
pub data QueryError : Type 0 where
  original_destination_not_found ambiguous_destination_mapping : QueryError

unfoldable pub query_tcp :
    SocksLocalRouter → SocketAddr → SocketAddr → Result QueryError (IpAddr × ℕ)
query_tcp r peer local =
    let peer = normalize_mapped_ipv6 peer in
    let local = normalize_mapped_ipv6 local in
    let key : TcpKey = record { dst_ip = ip peer; src_ip = ip local; src_port = port peer } in
    elim (get tcp_discrete key r.tcp_connections) [
      | none ↦ err original_destination_not_found
      | some entry ↦ ok (entry.dst_ip, entry.dst_port)
    ]

query_flow : UdpMappings → UdpFlowKey → Result QueryError (IpAddr × ℕ)
query_flow u key = elim (get flow_discrete key u.by_flow) [
  | none ↦ err original_destination_not_found
  | some entry ↦ ok (entry.dst_ip, entry.dst_port)
]

query_peer : UdpMappings → UdpIndexKey → Result QueryError (IpAddr × ℕ)
unfolding query_flow
query_peer u i = elim (get index_discrete i u.by_peer) [
  | none ↦ err original_destination_not_found
  | some none ↦ err ambiguous_destination_mapping
  | some (some key) ↦ query_flow u key
]

unfoldable pub query_udp : UdpMappings → SocketAddr → SocketAddr → Result QueryError (IpAddr × ℕ)
unfolding query_flow query_peer
query_udp u peer local =
    let peer = normalize_mapped_ipv6 peer in
    let local = normalize_mapped_ipv6 local in
    if is_unspecified (ip local)
    then query_peer u (record { dst_ip = ip peer; src_port = port peer })
    else query_flow u (record { dst_ip = ip peer; src_ip = ip local; src_port = port peer })
