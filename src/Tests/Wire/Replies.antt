-- ===== src/Tests/Wire/Replies.antt =====
-- The answers of the proxy to firefox, as bytes.
use proxifyre_rs.HashMap.{get}
use proxifyre_rs.Net.{SocketAddr, ip_discrete}
use proxifyre_rs.Prelude.{ℕ, refl, true, false, List, [], ◌∷◌, ◌≡◌, some, arith, ℕ_discrete}
use proxifyre_rs.Relay.Replies.{Returned, tcp_reply_reaches_client}
use proxifyre_rs.Relay.Answers.{relayed_datagram_reaches_client}
use proxifyre_rs.Proxy.Answer.{Answer, answer_of}
use proxifyre_rs.Proxy.Codec.{build_udp_request}
use proxifyre_rs.Router.Flow.Rewritten.{rewritten}
use proxifyre_rs.Router.Packet.Frames.{data_of, data_in}
use proxifyre_rs.Router.Adapter.{route_packet}
use proxifyre_rs.Router.Flow.Datagram.{started}
use proxifyre_rs.Router.Flow.Session.{opened}
use proxifyre_rs.Router.Flow.{client_key, client_flow, udp_port_of, normalize_mapped_ipv6}
use proxifyre_rs.Router.Mappings.{flow_discrete}
use proxifyre_rs.Router.Packet.{parse_packet_info, parse_ipv4, parse_transport}
use proxifyre_rs.Router.PacketInfo.{PacketInfo, PacketKind}
use proxifyre_rs.Router.State.{
  SocksLocalRouter, tcp_discrete, is_tcp_proxy_port, is_udp_proxy_port, find_proxy,
  get_proxy_port_udp,
}
use proxifyre_rs.Tests.Fixture.{router, lookups, syn_packet, datagram, host, server}
use proxifyre_rs.Tests.Wire.Relay.{names, sent}
use proxifyre_rs.Tests.Wire.{wire, ethertype_of, protocol_of, tcp}

abbrev syn_ack : PacketInfo
syn_ack = record syn_packet {
  src_ip = host;
  dst_ip = server;
  src_port = 10000;
  dst_port = 53000;
  ack = true;
}

abbrev answer : PacketInfo
answer = record syn_ack { kind = PacketKind.udp_v4; syn = false; ack = false }

abbrev syn_ack_bytes : List ℕ
syn_ack_bytes =
    2 ∷ 1 ∷ 0 ∷ 192 ∷ 0 ∷ 2 ∷ 10 ∷ 203 ∷ 0 ∷ 113 ∷ 10 ∷ 6 ∷ 0 ∷ 10000 ∷ 53000 ∷ 1 ∷ 1 ∷ 0 ∷ 0 ∷ 0
    ∷ []

abbrev bytes : List ℕ
bytes = 1 ∷ 2 ∷ 3 ∷ []

abbrev answer_bytes : List ℕ
answer_bytes =
    2 ∷ 1 ∷ 0 ∷ 192 ∷ 0 ∷ 2 ∷ 10 ∷ 203 ∷ 0 ∷ 113 ∷ 10 ∷ 17 ∷ 0 ∷ 10000 ∷ 53000 ∷ 0 ∷ 0 ∷ 0 ∷ 0 ∷ 0
    ∷ bytes

syn_ack_is_read : parse_packet_info wire syn_ack_bytes ≡ some syn_ack
unfolding wire parse_packet_info ethertype_of parse_ipv4 parse_transport protocol_of tcp
syn_ack_is_read = refl

answer_is_read : parse_packet_info wire answer_bytes ≡ some answer
unfolding wire parse_packet_info ethertype_of parse_ipv4 parse_transport protocol_of tcp
answer_is_read = refl

-- A connection and a flow are in the tables.
abbrev busy : SocksLocalRouter
busy = record router {
  tcp_connections = (client_key syn_packet, opened syn_packet 10000) ∷ [];
  udp_endpoints = record {
    by_flow = (client_flow datagram, started datagram 10000 5) ∷ [];
    by_peer = [];
  };
}

tcp_reply_reaches_client_example :
    let (r', q, to_adapter) = route_packet wire lookups busy (sent syn_ack_bytes) 7 in
    Returned wire syn_packet PacketKind.tcp_v4 (sent syn_ack_bytes) q to_adapter
unfolding get tcp_discrete ip_discrete ℕ_discrete is_tcp_proxy_port
tcp_reply_reaches_client_example =
    tcp_reply_reaches_client wire lookups busy (sent syn_ack_bytes) 7 syn_packet syn_ack
      (omega arith) (omega arith) syn_ack_is_read refl 10000 tt (refl, (refl, tt)) refl refl refl
      refl

abbrev resolver : SocketAddr
resolver = SocketAddr.v4 (record { a = 203; b = 0; c = 113; d = 10 }) 53

abbrev client : SocketAddr
client = SocketAddr.v4 (record { a = 203; b = 0; c = 113; d = 10 }) 53000

answer_has_data : data_of wire PacketKind.udp_v4 answer_bytes ≡ some bytes
unfolding data_in wire tcp
answer_has_data = refl

relayed_datagram_reaches_client_example :
    let (r', q, to_adapter) = route_packet wire lookups busy (sent answer_bytes) 7 in
    (answer_of names [] (build_udp_request [] resolver bytes) client ≡ Answer.sent bytes client)
    × Returned wire datagram PacketKind.udp_v4 (sent answer_bytes) q to_adapter
    × (data_of wire PacketKind.udp_v4 q.bytes ≡ some bytes)
unfolding get flow_discrete ip_discrete ℕ_discrete is_udp_proxy_port udp_port_of get_proxy_port_udp
    find_proxy normalize_mapped_ipv6 rewritten
relayed_datagram_reaches_client_example =
    relayed_datagram_reaches_client wire lookups busy (sent answer_bytes) 7 datagram answer
      (started datagram 10000 5) names resolver client [] [] bytes 10000 (omega arith) (omega arith)
      answer_is_read answer_has_data refl tt (ground arith) (omega arith) refl refl refl refl refl
      refl refl refl
