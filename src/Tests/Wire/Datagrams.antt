-- ===== src/Tests/Wire/Datagrams.antt =====
-- A datagram of firefox to 203.0.113.10:53, from its bytes to the relay.
use proxifyre_rs.HashMap.{get, insert, or_insert, retain}
use proxifyre_rs.Net.{SocketAddr, socket_addr, ip_discrete, unspecified_v6, to_ipv4_mapped}
use proxifyre_rs.Prelude.{
  ℕ, ◌≡◌, refl, false, true, some, List, [], ◌∷◌, ◌++◌, ok, arith, drop, ℕ_discrete,
}
use proxifyre_rs.Proxy.Associations.Worker.{Job, Steps, at, idle, sending}
use proxifyre_rs.Proxy.Associations.{UdpState, limit_reached, reap, cleanup_stale_udp_associations}
use proxifyre_rs.Proxy.Codec.RoundTrip.{header_length, on_wire}
use proxifyre_rs.Proxy.Codec.{maybe_map_ipv4_to_ipv6_mapped, parse_udp_response}
use proxifyre_rs.Proxy.Protocol
use proxifyre_rs.Proxy.Protocol.{reached}
use proxifyre_rs.Proxy.Datagram.{job_of, send_to, remote_addr}
use proxifyre_rs.Proxy.Readers.{reap_loop, reap_udp_reader_handles}
use proxifyre_rs.Relay.Datagrams.{loop_datagram_reaches_destination}
use proxifyre_rs.Router.Adapter.Events.{events, event_of, cleanup_event}
use proxifyre_rs.Router.Adapter.Loop.{
  Session, Opening, run_packet_loop, session_events, round_events, read_events, following,
}
use proxifyre_rs.Router.Flow.Peers.{sharing}
use proxifyre_rs.Router.Flow.Rewritten.{rewritten}
use proxifyre_rs.Router.Flow.{
  Event, run, step, process_tcp_payload, tcp_syn, open_tcp, tcp_port_of, udp_port_of, query_udp,
  normalize_mapped_ipv6,
}
use proxifyre_rs.Router.Mappings.Invariant.{new-IsIndexed}
use proxifyre_rs.Router.Mappings.{flow_discrete, index_discrete}
use proxifyre_rs.Router.Packet.{parse_packet_info, parse_ipv4, parse_transport}
use proxifyre_rs.Router.PacketInfo.{is_v6}
use proxifyre_rs.Router.State.{tcp_discrete, find_proxy, get_proxy_port_tcp, get_proxy_port_udp}
use proxifyre_rs.Tests.Fixture.{router, lookups, syn_packet, datagram, server}
use proxifyre_rs.Tests.Wire.Relay.{names, peer, sent}
use proxifyre_rs.Tests.Wire.{wire, syn_bytes, ethertype_of, protocol_of, tcp}

abbrev listener : SocketAddr
listener = SocketAddr.v6 unspecified_v6 10000 0 0

abbrev datagram_bytes : List ℕ
datagram_bytes =
    2 ∷ 1 ∷ 0 ∷ 192 ∷ 0 ∷ 2 ∷ 10 ∷ 203 ∷ 0 ∷ 113 ∷ 10 ∷ 17 ∷ 0 ∷ 53000 ∷ 53 ∷ 0 ∷ 0 ∷ 0 ∷ 0 ∷ 0 ∷ []

abbrev sessions : List Session
sessions =
    record {
      opening = Opening.found;
      rounds =
          record {
            shutdown = false;
            restart = false;
            packets = some ((sent syn_bytes, 4) ∷ (sent datagram_bytes, 5) ∷ []);
            now = 6;
          }
          ∷ [];
      shutdown = true;
    }
    ∷ []

sessions_are_read :
    session_events wire sessions ≡ (Event.tcp syn_packet 4 ∷ []) ++ (Event.udp datagram 5 ∷ [])
unfolding session_events round_events read_events following events event_of cleanup_event wire
    parse_packet_info ethertype_of parse_ipv4 parse_transport protocol_of tcp
sessions_are_read = refl

abbrev empty : UdpState
empty = record { udp_connections = []; udp_reader_handles = [] }

loop_datagram_reaches_destination_example :
    let r' = (run_packet_loop wire lookups router sessions).0 in
    let dst = reached true (socket_addr server 53) in
    (j : Job) × (job_of (query_udp r'.udp_endpoints) (some listener) (1 ∷ 2 ∷ []) peer ≡ some j)
    × ((used : ℕ) × (s' : UdpState) × Steps (at idle empty) (at (sending j used) s'))
    × (parse_udp_response names (send_to true [] j.packet (remote_addr j))
        ≡ ok (header_length dst, on_wire dst))
    × (drop (header_length dst) (send_to true [] j.packet (remote_addr j)) ≡ 1 ∷ 2 ∷ [])
    × (send_to true [] j.packet (remote_addr j) ≡ Protocol.datagram_bytes dst (1 ∷ 2 ∷ []))
unfolding get insert or_insert retain tcp_discrete ip_discrete ℕ_discrete flow_discrete
    index_discrete tcp_port_of udp_port_of find_proxy get_proxy_port_tcp get_proxy_port_udp is_v6
    rewritten normalize_mapped_ipv6 to_ipv4_mapped run step process_tcp_payload tcp_syn open_tcp
    sharing limit_reached reap reap_loop reap_udp_reader_handles cleanup_stale_udp_associations
    maybe_map_ipv4_to_ipv6_mapped
loop_datagram_reaches_destination_example =
    loop_datagram_reaches_destination wire lookups router sessions (Event.tcp syn_packet 4 ∷ [])
      datagram 5 true names peer listener [] (1 ∷ 2 ∷ []) empty 7 3 sessions_are_read new-IsIndexed
      refl (omega arith) refl refl (ground arith) refl
