-- ===== src/Tests/Tcp.antt =====
-- A TCP connection of firefox to 203.0.113.10:443.
use proxifyre_rs.Prelude.{
  ◌≡◌, refl, true, false, none, some, List, [], ◌∷◌, ◌∷◌, arith, ok, err, ℕ_discrete,
}
use proxifyre_rs.HashMap.{get, insert, or_insert, remove}
use proxifyre_rs.Net.{SocketAddr, ip_discrete}
use proxifyre_rs.Router.Flow.Rewritten.{rewritten}
use proxifyre_rs.Router.Flow.Session.{query_tcp-run, opened}
use proxifyre_rs.Router.Flow.Closed.{closed_is_direct}
use proxifyre_rs.Router.Flow.Tcp.{Holds}
use proxifyre_rs.Router.Flow.{
  process_tcp_payload, tcp_port_of, tcp_syn, open_tcp, close_tcp, tcp_established, tcp_from_proxy,
  normalize_mapped_ipv6, query_tcp, run, step, cleanup_stale_udp_endpoints, Event, client_key,
  original_destination_not_found,
}
use proxifyre_rs.Router.PacketInfo.{PacketInfo, PortRewrite, is_v6}
use proxifyre_rs.Router.State.{
  SocksLocalRouter, tcp_discrete, find_proxy, get_proxy_port_tcp, is_tcp_proxy_port,
}
use proxifyre_rs.Tests.Fixture.{router, find_process_path, lookups, syn_packet, datagram, server}

program : Unit {0}
unfolding get insert or_insert remove tcp_discrete ip_discrete ℕ_discrete tcp_port_of find_proxy
    get_proxy_port_tcp is_tcp_proxy_port is_v6 process_tcp_payload tcp_syn tcp_established
    tcp_from_proxy close_tcp open_tcp rewritten normalize_mapped_ipv6 query_tcp
program = tt

abbrev opened_router : SocksLocalRouter
opened_router = record router {
  tcp_connections = (client_key syn_packet, opened syn_packet 10000) ∷ [];
}

syn_is_redirected :
    process_tcp_payload find_process_path router syn_packet
    ≡ (opened_router, some (PortRewrite.to_proxy 10000))
unfolding program
syn_is_redirected = refl

-- The connection that the proxy accepts: from the server's address to its own port, IPv4-mapped, as
-- a dual-stack socket shows it.
abbrev peer : SocketAddr
peer = SocketAddr.v4 (record { a = 203; b = 0; c = 113; d = 10 }) 53000

abbrev local : SocketAddr
local = SocketAddr.v4 (record { a = 192; b = 0; c = 2; d = 10 }) 10000

query_tcp-run_example :
    ((process_tcp_payload find_process_path router syn_packet).1
      ≡ some (PortRewrite.to_proxy (tcp_port_of find_process_path router syn_packet)))
    × (query_tcp
          (run lookups
            (process_tcp_payload find_process_path router syn_packet).0
            (Event.udp datagram 7 ∷ Event.cleanup 9 ∷ []))
          peer
          local
        ≡ ok (server, 443))
unfolding program
query_tcp-run_example =
    query_tcp-run lookups 3 router syn_packet tt refl refl (omega arith)
      (Event.udp datagram 7 ∷ Event.cleanup 9 ∷ []) peer local (tt, (tt, tt)) refl refl

opened-Holds : Holds (client_key syn_packet) (opened syn_packet 10000) opened_router
unfolding program
opened-Holds = (refl, (refl, tt))

abbrev syn_ack : PacketInfo
syn_ack = record syn_packet { src_port = 10000; dst_port = 53000; ack = true }

abbrev fin_packet : PacketInfo
fin_packet = record syn_packet { syn = false; ack = true; fin = true }

abbrev last_ack : PacketInfo
last_ack = record fin_packet { fin = false }

-- A clean-up, and the last ACK of the connection.
abbrev after_fin : List Event
after_fin = Event.cleanup 9 ∷ Event.tcp last_ack 7 ∷ []

closed_is_direct_example :
    let r' =
      run lookups (process_tcp_payload find_process_path opened_router fin_packet).0 after_fin in
    (query_tcp r' peer local ≡ err original_destination_not_found)
    × (process_tcp_payload find_process_path r' last_ack ≡ (r', none))
unfolding program run step cleanup_stale_udp_endpoints
closed_is_direct_example =
    closed_is_direct lookups 3 11 opened_router fin_packet (opened syn_packet 10000) opened-Holds
      refl refl after_fin last_ack peer local (tt, ((λ e. absurd (ground arith)), tt)) refl refl
      refl refl refl
