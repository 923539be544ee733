-- ===== src/Relay/Answers.antt =====
-- A datagram of the relay, from what the reader gets of it to what the client gets.
use proxifyre_rs.HashMap.{get}
use proxifyre_rs.Net.{SocketAddr, IsAddr, ip, port, ip-socket_addr, port-socket_addr}
use proxifyre_rs.Prelude.{
  ℕ, ◌<◌, ◌≡◌, sym, ap, ◌∙◌, Bool, true, false, Option, none, some, List, ◌++◌, Text, length, drop,
  arith, ◌==◌, take-append_length,
}
use proxifyre_rs.Proxy.Answer.{answer_of, sent}
use proxifyre_rs.Proxy.Codec.RoundTrip.{recv_datagram-build_udp_request}
use proxifyre_rs.Proxy.Codec.{Resolver, build_udp_request}
use proxifyre_rs.Relay.Replies.{IsUdp, Returned, udp_reply_reaches_client}
use proxifyre_rs.Router.Adapter.{IntermediateBuffer, route_packet}
use proxifyre_rs.Router.Flow.Ranges.{PortsFit}
use proxifyre_rs.Router.Flow.Rewritten.{rewritten}
use proxifyre_rs.Router.Flow.{client_flow, reply_flow, udp_port_of, normalize_mapped_ipv6}
use proxifyre_rs.Router.Mappings.{UdpPortMapping, flow_discrete}
use proxifyre_rs.Router.Packet.Frames.{data_of}
use proxifyre_rs.Router.Packet.Reparsed.{is_group}
use proxifyre_rs.Router.Packet.{parse_packet_info}
use proxifyre_rs.Router.PacketInfo.{PacketInfo, PortRewrite, src, dst}
use proxifyre_rs.Router.State.{SocksLocalRouter, is_udp_proxy_port}
use proxifyre_rs.Router.Wire.{Wire}

-- A datagram in the form of the relay is sent on as its payload, where there is one.
answer_of-build_udp_request :
    (names : Resolver) (from client_addr : SocketAddr) (relay_buf buf payload : List ℕ)
    → IsAddr from
    → 0 < length payload
    → answer_of names buf (build_udp_request relay_buf from payload) client_addr
      ≡ sent payload client_addr
unfolding answer_of
answer_of-build_udp_request names from client_addr relay_buf buf payload h full =
    let packet = build_udp_request relay_buf from payload in
    let rest = drop (length payload) (packet ++ drop (length packet) buf) in
    let nonempty : (length payload == 0) ≡ false = ground arith in
    rw (recv_datagram-build_udp_request names from relay_buf buf payload h, answer_of, nonempty)
      (ap (λ bs. sent bs client_addr) (take-append_length payload rest))

-- A datagram to where the client's datagram seemed to come from, from where it was sent.
reply_flow-rewritten :
    (i j : PacketInfo) (p : ℕ)
    → dst j ≡ src (rewritten (PortRewrite.to_proxy p) i)
    → j.src_ip ≡ i.src_ip
    → reply_flow j ≡ client_flow i
unfolding rewritten
reply_flow-rewritten i j p to from =
    let addr : j.dst_ip ≡ i.dst_ip =
      sym (ip-socket_addr j.dst_ip j.dst_port) ∙ ap ip to ∙ ip-socket_addr i.dst_ip i.src_port in
    let number : j.dst_port ≡ i.src_port =
      sym (port-socket_addr j.dst_ip j.dst_port)
      ∙ ap port to
      ∙ port-socket_addr i.dst_ip i.src_port in
    cc

module _ (w : Wire) (find_process_path : ℕ → Bool → SocketAddr → SocketAddr → Option Text) where
  -- The relay sends a datagram with a payload to an association of the client of a flow in the table,
  -- under the address from which the proxy has got the client's datagram. Then the reader has the
  -- listener send the payload to that address. Where this is the UDP packet `p`, from the port of a
  -- proxy and the address that the client's datagram was sent to the proxy at, it leaves a router
  -- whose ports are 16-bit numbers as bytes with this payload, which are read as a datagram from the
  -- address that the client called to the client's own address. They are as many, with checksums that
  -- verify and MAC addresses exchanged, and go back to the side that they came from. The packet comes
  -- from no group's address, its pair of addresses is not itself a flow of the table, and its process
  -- has no proxy.
  pub relayed_datagram_reaches_client :
      (r : SocksLocalRouter) (p : IntermediateBuffer) (now : ℕ) (i j : PacketInfo)
      (e : UdpPortMapping) (names : Resolver) (from client_addr : SocketAddr)
      (relay_buf buf payload : List ℕ) (proxy_port : ℕ)
      → PortsFit r
      → j.dst_port < 65536
      → parse_packet_info w p.bytes ≡ some j
      → data_of w j.kind p.bytes ≡ some payload
      → is_group j.src_ip ≡ false
      → IsUdp j.kind
      → IsAddr from
      → 0 < length payload
      → normalize_mapped_ipv6 client_addr ≡ src (rewritten (PortRewrite.to_proxy proxy_port) i)
      → dst j ≡ normalize_mapped_ipv6 client_addr
      → j.src_ip ≡ i.src_ip
      → get flow_discrete (client_flow i) r.udp_endpoints.by_flow ≡ some e
      → e.dst_port ≡ i.dst_port
      → is_udp_proxy_port r j.src_port ≡ true
      → get flow_discrete (client_flow j) r.udp_endpoints.by_flow ≡ none
      → udp_port_of (find_process_path now) r j ≡ 0
      → let (r', q, to_adapter) = route_packet w find_process_path r p now in
        (answer_of names buf (build_udp_request relay_buf from payload) client_addr
          ≡ sent payload client_addr)
        × Returned w i j.kind p q to_adapter
        × (data_of w j.kind q.bytes ≡ some payload)
  relayed_datagram_reaches_client r p now i j e names from client_addr relay_buf buf payload
        proxy_port fit dp read holds single kind is_addr full ep to at_host entry same own fresh
        direct =
      let (r', q, to_adapter) = route_packet w find_process_path r p now in
      let returned : Returned w i j.kind p q to_adapter =
        udp_reply_reaches_client w find_process_path r p now i j fit dp read single e kind entry
          same (reply_flow-rewritten i j proxy_port (to ∙ ep) at_host) own fresh direct in
      let (k, again, s, d, size, sums, macs, (bs, before, after), side) = returned in
      (
        answer_of-build_udp_request names from client_addr relay_buf buf payload is_addr full,
        returned,
        after ∙ sym before ∙ holds,
      )
