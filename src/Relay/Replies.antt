-- ===== src/Relay/Replies.antt =====
-- What the proxy sends back, from the bytes that the packet loop reads to those that the client
-- gets.
use proxifyre_rs.HashMap.{get}
use proxifyre_rs.Net.{SocketAddr}
use proxifyre_rs.Prelude.{
  ℕ, ◌<◌, ◌≡◌, refl, ap, ◌∙◌, subst, Bool, true, false, not, ◌&&◌, Option, none, some, Text, length,
}
use proxifyre_rs.Router.Adapter.Routed.{Fate, TurnedTo, route_packet-Fate}
use proxifyre_rs.Router.Adapter.{IntermediateBuffer, process_payload, route_packet}
use proxifyre_rs.Router.Flow.Datagram.{udp_reply_mirrors_call}
use proxifyre_rs.Router.Flow.Ranges.{PortsFit}
use proxifyre_rs.Router.Flow.Rewritten.{rewritten}
use proxifyre_rs.Router.Flow.Session.{opened, reply_mirrors_call}
use proxifyre_rs.Router.Flow.Tcp.{Holds}
use proxifyre_rs.Router.Flow.{
  client_key, reply_key, client_flow, reply_flow, udp_port_of, process_tcp_payload,
  process_udp_payload,
}
use proxifyre_rs.Router.Mappings.{UdpPortMapping, flow_discrete}
use proxifyre_rs.Router.Packet.Frames.{ChecksumsHold, MacsSwapped, data_of, SameData}
use proxifyre_rs.Router.Packet.Reparsed.{is_group}
use proxifyre_rs.Router.Packet.{parse_packet_info}
use proxifyre_rs.Router.PacketInfo.{PacketInfo, PacketKind, PortRewrite, src, dst}
use proxifyre_rs.Router.State.{SocksLocalRouter, tcp_discrete, is_tcp_proxy_port, is_udp_proxy_port}
use proxifyre_rs.Router.Wire.{Wire}

abbrev pub IsTcp : PacketKind → Type 0
IsTcp PacketKind.tcp_v4 = Unit
IsTcp PacketKind.tcp_v6 = Unit
IsTcp PacketKind.udp_v4 = ⊥
IsTcp PacketKind.udp_v6 = ⊥

abbrev pub IsUdp : PacketKind → Type 0
IsUdp PacketKind.tcp_v4 = ⊥
IsUdp PacketKind.tcp_v6 = ⊥
IsUdp PacketKind.udp_v4 = Unit
IsUdp PacketKind.udp_v6 = Unit

-- The packet that is sent for `p`, of the kind, comes for a reader from where `i` goes, and goes
-- to where `i` comes from: it is as long, with the same data, checksums that verify and its MAC
-- addresses exchanged, and goes back to the side that it came from.
abbrev pub Returned :
    Wire → PacketInfo → PacketKind → IntermediateBuffer → IntermediateBuffer → Bool → Type 0
Returned w i kind p q to_adapter =
    (k : PacketInfo) × (parse_packet_info w q.bytes ≡ some k)
    × (src k ≡ dst i)
    × (dst k ≡ src i)
    × (length q.bytes ≡ length p.bytes)
    × ChecksumsHold w kind q.bytes
    × MacsSwapped w p.bytes q.bytes
    × SameData (data_of w kind) p.bytes q.bytes
    × (to_adapter ≡ not p.on_send)

module _ (w : Wire) (find_process_path : ℕ → Bool → SocketAddr → SocketAddr → Option Text) where
  process_payload-tcp :
      (r : SocksLocalRouter) (j : PacketInfo) (now : ℕ) (k : PacketKind)
      → IsTcp k
      → process_payload (find_process_path now) r j now k
        ≡ process_tcp_payload (find_process_path now) r j
  unfolding process_payload
  process_payload-tcp r j now PacketKind.tcp_v4 h = refl
  process_payload-tcp r j now PacketKind.tcp_v6 h = refl
  process_payload-tcp r j now PacketKind.udp_v4 h = absurd h
  process_payload-tcp r j now PacketKind.udp_v6 h = absurd h

  process_payload-udp :
      (r : SocksLocalRouter) (j : PacketInfo) (now : ℕ) (k : PacketKind)
      → IsUdp k
      → process_payload (find_process_path now) r j now k
        ≡ process_udp_payload (find_process_path now) r j now
  unfolding process_payload
  process_payload-udp r j now PacketKind.tcp_v4 h = absurd h
  process_payload-udp r j now PacketKind.tcp_v6 h = absurd h
  process_payload-udp r j now PacketKind.udp_v4 h = refl
  process_payload-udp r j now PacketKind.udp_v6 h = refl

  module _ (r : SocksLocalRouter) (p : IntermediateBuffer) (now : ℕ) (i j : PacketInfo)
      (fit : PortsFit r) (port : j.dst_port < 65536) (read : parse_packet_info w p.bytes ≡ some j)
      (single : is_group j.src_ip ≡ false) where
    answered_Returned :
        (x : PortRewrite)
        → (process_payload (find_process_path now) r j now j.kind).1 ≡ some x
        → src (rewritten x j) ≡ dst i
        → dst (rewritten x j) ≡ src i
        → let (r', q, to_adapter) = route_packet w find_process_path r p now in
          Returned w i j.kind p q to_adapter
    answered_Returned x made s d =
        let (r', q, to_adapter) = route_packet w find_process_path r p now in
        let fate = route_packet-Fate w find_process_path r p now j fit port read single in
        let (again, size, sums, macs, data_kept, side) : TurnedTo w p j x q to_adapter =
          subst (λ o. Fate w o p j q to_adapter) made fate in
        (rewritten x j, again, s, d, size, sums, macs, data_kept, side)

    -- A TCP packet of the proxy to the client of an open connection, in a router whose ports are
    -- 16-bit numbers and read from bytes, leaves the router as bytes that are read as a packet
    -- from the address that the client called to the client's own address. They are as many, with
    -- the same data, checksums that verify and MAC addresses exchanged, and go back to the side
    -- that they came from. The packet is no opening SYN, comes from the port of a proxy and from
    -- no group's address, and its pair of addresses is not itself a connection of the table.
    pub tcp_reply_reaches_client :
        (proxy_port : ℕ)
        → IsTcp j.kind
        → Holds (client_key i) (opened i proxy_port) r
        → reply_key j ≡ client_key i
        → (j.syn && not j.ack) ≡ false
        → is_tcp_proxy_port r j.src_port ≡ true
        → get tcp_discrete (client_key j) r.tcp_connections ≡ none
        → let (r', q, to_adapter) = route_packet w find_process_path r p now in
          Returned w i j.kind p q to_adapter
    tcp_reply_reaches_client proxy_port kind holds k s own fresh =
        let (x, made, from, to) =
          reply_mirrors_call (find_process_path now) r i j proxy_port holds k s own fresh in
        answered_Returned x (ap (λ o. o.1) (process_payload-tcp r j now j.kind kind) ∙ made) from to

    -- A UDP datagram of the proxy to the client of a flow in the table, in a router whose ports
    -- are 16-bit numbers and read from bytes, leaves the router as bytes that are read as a
    -- datagram from the address that the client called to the client's own address. They are as
    -- many, with the same data, checksums that verify and MAC addresses exchanged, and go back to
    -- the side that they came from. The datagram comes from the port of a proxy and from no
    -- group's address, its pair of addresses is not itself a flow of the table, and its process
    -- has no proxy.
    pub udp_reply_reaches_client :
        (e : UdpPortMapping)
        → IsUdp j.kind
        → get flow_discrete (client_flow i) r.udp_endpoints.by_flow ≡ some e
        → e.dst_port ≡ i.dst_port
        → reply_flow j ≡ client_flow i
        → is_udp_proxy_port r j.src_port ≡ true
        → get flow_discrete (client_flow j) r.udp_endpoints.by_flow ≡ none
        → udp_port_of (find_process_path now) r j ≡ 0
        → let (r', q, to_adapter) = route_packet w find_process_path r p now in
          Returned w i j.kind p q to_adapter
    udp_reply_reaches_client e kind entry same k own fresh direct =
        let (x, made, from, to) =
          udp_reply_mirrors_call (find_process_path now) r i e entry same j now k own fresh
            direct in
        answered_Returned x (ap (λ o. o.1) (process_payload-udp r j now j.kind kind ∙ made)) from to
