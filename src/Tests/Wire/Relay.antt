-- ===== src/Tests/Wire/Relay.antt =====
-- A TCP connection of firefox, from the bytes of its packets to the request to the SOCKS5 server.
use proxifyre_rs.HashMap.{get, insert, or_insert}
use proxifyre_rs.Net.{SocketAddr, socket_addr, ip_discrete, unspecified_v4}
use proxifyre_rs.Prelude.{
  ℕ, ◌≡◌, refl, true, false, none, some, List, [], ◌∷◌, ◌++◌, codes, arith, ℕ_discrete,
}
use proxifyre_rs.Proxy.Codec.{Resolver}
use proxifyre_rs.Proxy.Handler.{handle_tcp_connection}
use proxifyre_rs.Proxy.Session.{Io}
use proxifyre_rs.Proxy.Session.Accepts.{plain}
use proxifyre_rs.Proxy.Protocol.{granted, offered, connect_request}
use proxifyre_rs.Proxy.Stream.{finished, talk}
use proxifyre_rs.Relay.Batches.{loop_reaches_destination}
use proxifyre_rs.Router.Adapter.Loop.{
  Session, Opening, run_packet_loop, session_events, round_events, read_events, following,
}
use proxifyre_rs.Router.Adapter.Events.{events, event_of, cleanup_event}
use proxifyre_rs.Router.Adapter.{IntermediateBuffer}
use proxifyre_rs.Router.Packet.{parse_packet_info, parse_ipv4, parse_transport}
use proxifyre_rs.Router.Flow.{
  process_tcp_payload, tcp_syn, open_tcp, tcp_port_of, normalize_mapped_ipv6, query_tcp, run, step,
  Event,
}
use proxifyre_rs.Router.Flow.Rewritten.{rewritten}
use proxifyre_rs.Router.PacketInfo.{PacketInfo, is_v6}
use proxifyre_rs.Router.State.{tcp_discrete, find_proxy, get_proxy_port_tcp}
use proxifyre_rs.Tests.Fixture.{router, proxy, lookups, syn_packet, server}
use proxifyre_rs.Tests.Wire.{wire, syn_bytes, ethertype_of, protocol_of, tcp}

abbrev pub names : Resolver
names = record {
  from_utf8_lossy = λ bytes. codes "localhost";
  to_socket_addrs = λ name. none;
  lookup_host = λ name port. none;
}

abbrev pub peer : SocketAddr
peer = SocketAddr.v4 (record { a = 203; b = 0; c = 113; d = 10 }) 53000

abbrev local : SocketAddr
local = SocketAddr.v4 (record { a = 192; b = 0; c = 2; d = 10 }) 10000

abbrev bound : SocketAddr
bound = SocketAddr.v4 unspecified_v4 1081

-- A SYN of the same process from port 53001, and a later segment of the connection from 53000.
abbrev other_packet : PacketInfo
other_packet = record syn_packet { src_port = 53001 }

abbrev later_packet : PacketInfo
later_packet = record syn_packet { syn = false; ack = true }

abbrev other_bytes : List ℕ
other_bytes =
    2 ∷ 1 ∷ 0 ∷ 192 ∷ 0 ∷ 2 ∷ 10 ∷ 203 ∷ 0 ∷ 113 ∷ 10 ∷ 6 ∷ 0 ∷ 53001 ∷ 443 ∷ 1 ∷ 0 ∷ 0 ∷ 0 ∷ 0 ∷ []

abbrev later_bytes : List ℕ
later_bytes =
    2 ∷ 1 ∷ 0 ∷ 192 ∷ 0 ∷ 2 ∷ 10 ∷ 203 ∷ 0 ∷ 113 ∷ 10 ∷ 6 ∷ 0 ∷ 53000 ∷ 443 ∷ 0 ∷ 1 ∷ 0 ∷ 0 ∷ 0 ∷ []

abbrev pub sent : List ℕ → IntermediateBuffer
sent b = record { bytes = b; on_send = true }

abbrev sessions : List Session
sessions =
    record {
      opening = Opening.found;
      rounds =
          record {
            shutdown = false;
            restart = false;
            packets = some ((sent other_bytes, 4) ∷ (sent syn_bytes, 5) ∷ []);
            now = 6;
          }
          ∷ record {
            shutdown = false;
            restart = false;
            packets = some ((sent (1 ∷ []), 7) ∷ (sent later_bytes, 8) ∷ []);
            now = 9;
          }
          ∷ [];
      shutdown = true;
    }
    ∷ []

sessions_are_read :
    session_events wire sessions
    ≡ (Event.tcp other_packet 4 ∷ []) ++ (Event.tcp syn_packet 5 ∷ (Event.tcp later_packet 8 ∷ []))
unfolding session_events round_events read_events following events event_of cleanup_event wire
    parse_packet_info ethertype_of parse_ipv4 parse_transport protocol_of tcp
sessions_are_read = refl

loop_reaches_destination_example :
    let r' = (run_packet_loop wire lookups router sessions).0 in
    (dialogue : Io (Unit {0})) × (handle_tcp_connection
        (query_tcp r')
        names
        proxy.socks5
        (some peer)
        (some local)
      ≡ some dialogue)
    × (talk dialogue ((5 ∷ 0 ∷ []) ++ (granted bound ++ 72 ∷ [])) []
        ≡ (offered none ++ connect_request false (socket_addr server 443), finished tt (72 ∷ [])))
unfolding get insert or_insert tcp_discrete ip_discrete ℕ_discrete tcp_port_of find_proxy
    get_proxy_port_tcp is_v6 rewritten normalize_mapped_ipv6 run step process_tcp_payload tcp_syn
    open_tcp
loop_reaches_destination_example =
    loop_reaches_destination wire lookups router sessions (Event.tcp other_packet 4 ∷ [])
      (Event.tcp later_packet 8 ∷ []) syn_packet 5 proxy.socks5 names peer local bound (72 ∷ [])
      sessions_are_read tt refl refl (omega arith) ((λ c. cc (c.0)), tt) refl refl plain
      (ground arith)
