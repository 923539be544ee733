-- ===== src/Tests/Udp.antt =====
-- A UDP flow of firefox to 203.0.113.10:53, and the unit tests of router/mod.rs.
use proxifyre_rs.Prelude.{
  ℕ, ◌≡◌, refl, none, some, List, [], ◌∷◌, arith, ok, err, ℕ_discrete, dec_lt, ◌==◌,
}
use proxifyre_rs.HashMap.{get, insert, modify, retain, contains_key}
use proxifyre_rs.Net.{IpAddr, SocketAddr, ip_discrete, unspecified_v6, to_ipv4_mapped}
use proxifyre_rs.Router.Flow.Datagram.{shared_port_is_ambiguous, active_flow_is_kept, started}
use proxifyre_rs.Router.Flow.Lasting.{second_port_is_direct}
use proxifyre_rs.Router.Flow.Peers.{sharing, query_udp-answer}
use proxifyre_rs.Router.Flow.Rewritten.{rewritten}
use proxifyre_rs.Router.Flow.Udp.{run-IsIndexed, get-cleanup}
use proxifyre_rs.Router.Flow.{
  process_udp_payload, udp_lookup, udp_port_of, udp_from_proxy, normalize_mapped_ipv6, query_udp,
  cleanup_stale_udp_endpoints, run, Event, client_flow, ambiguous_destination_mapping,
}
use proxifyre_rs.Router.Mappings.Invariant.{IsIndexed, new-IsIndexed, insert_flow-IsIndexed}
use proxifyre_rs.Router.Mappings.{
  UdpFlowKey, UdpIndexKey, UdpPortMapping, new, flow_discrete, index_discrete, entry_discrete,
  insert_flow, insert_peer_index, retain_active, rebuild_peer_index, index_keys,
}
use proxifyre_rs.Router.PacketInfo.{PortRewrite, is_v6}
use proxifyre_rs.Router.State.{SocksLocalRouter, find_proxy, get_proxy_port_udp, is_udp_proxy_port}
use proxifyre_rs.Tests.Fixture.{router, find_process_path, lookups, datagram, host, server, ipv4}

program : Unit {0}
unfolding get insert modify retain contains_key flow_discrete index_discrete entry_discrete
    ip_discrete ℕ_discrete insert_flow insert_peer_index retain_active rebuild_peer_index index_keys
    udp_port_of find_proxy get_proxy_port_udp is_udp_proxy_port is_v6 process_udp_payload udp_lookup
    udp_from_proxy normalize_mapped_ipv6 query_udp rewritten sharing cleanup_stale_udp_endpoints
program = tt

abbrev other_host : IpAddr
other_host = ipv4 192 0 2 11

abbrev key_a : UdpFlowKey
key_a = record { dst_ip = server; src_ip = host; src_port = 53000 }

abbrev key_b : UdpFlowKey
key_b = record key_a { src_ip = other_host }

abbrev udp_entry : ℕ → UdpPortMapping
udp_entry p = record { dst_ip = server; dst_port = p; proxy_port = 10000; last_active = 0 }

abbrev peer_key : UdpIndexKey
peer_key = record { dst_ip = server; src_port = 53000 }

udp_peer_index_tracks_unique_mapping :
    get index_discrete peer_key (insert_flow new key_a (udp_entry 53)).by_peer ≡ some (some key_a)
unfolding program
udp_peer_index_tracks_unique_mapping = refl

udp_peer_index_marks_ambiguous_mapping :
    get index_discrete peer_key
      (insert_flow (insert_flow new key_a (udp_entry 53)) key_b (udp_entry 53)).by_peer
    ≡ some none
unfolding program
udp_peer_index_marks_ambiguous_mapping = refl

udp_peer_index_rebuilds_after_cleanup :
    get index_discrete peer_key
      (retain_active
        (insert_flow (insert_flow new key_a (udp_entry 53)) key_b (udp_entry 123))
        (λ e. e.dst_port == 53)).by_peer
    ≡ some (some key_a)
unfolding program
udp_peer_index_rebuilds_after_cleanup = refl

-- The router after the first datagram, at time 5.
abbrev flowing : SocksLocalRouter
flowing = record router {
  udp_endpoints = insert_flow new (client_flow datagram) (started datagram 10000 5);
}

flowing-IsIndexed : IsIndexed flowing.udp_endpoints
flowing-IsIndexed = insert_flow-IsIndexed new _ _ new-IsIndexed

abbrev peer : SocketAddr
peer = SocketAddr.v4 (record { a = 203; b = 0; c = 113; d = 10 }) 53000

-- The listener's address, [::]:10000.
abbrev local : SocketAddr
local = SocketAddr.v6 unspecified_v6 10000 0 0

run-IsIndexed_example :
    IsIndexed
      (run lookups router (
        Event.udp datagram 5
        ∷ Event.udp (record datagram { src_ip = other_host }) 6
        ∷ Event.cleanup 70000
        ∷ [])).udp_endpoints
run-IsIndexed_example = run-IsIndexed lookups router _ new-IsIndexed

get-cleanup_example :
    get flow_discrete key_a (cleanup_stale_udp_endpoints flowing 60005).udp_endpoints.by_flow ≡ none
unfolding program dec_lt
get-cleanup_example = get-cleanup flowing key_a 60005 flowing-IsIndexed

query_udp-answer_example : query_udp flowing.udp_endpoints peer local ≡ ok (server, 53)
unfolding program to_ipv4_mapped
query_udp-answer_example = query_udp-answer flowing.udp_endpoints peer local flowing-IsIndexed refl

-- The datagram again, and a clean-up.
abbrev between : List Event
between = Event.udp datagram 6 ∷ Event.cleanup 50000 ∷ []

second_port_is_direct_example :
    let (first, answer) = process_udp_payload find_process_path router datagram 5 in
    let r' = run lookups first between in
    (answer ≡ some (PortRewrite.to_proxy (udp_port_of find_process_path router datagram)))
    × (process_udp_payload find_process_path r' (record datagram { dst_port = 123 }) 50001
        ≡ (r', none))
unfolding program
second_port_is_direct_example =
    second_port_is_direct lookups router datagram 5 between (record datagram { dst_port = 123 })
      50001 new-IsIndexed refl (omega arith) (omega arith, (omega arith, tt)) refl (omega arith)

shared_port_is_ambiguous_example :
    let j = record datagram { src_ip = other_host } in
    ((process_udp_payload find_process_path flowing j 6).1
      ≡ some (PortRewrite.to_proxy (udp_port_of find_process_path flowing j)))
    × (query_udp (process_udp_payload find_process_path flowing j 6).0.udp_endpoints peer local
        ≡ err ambiguous_destination_mapping)
unfolding program to_ipv4_mapped
shared_port_is_ambiguous_example =
    shared_port_is_ambiguous find_process_path flowing (record datagram { src_ip = other_host }) 6
      refl (omega arith) peer local (started datagram 10000 5) [] flowing-IsIndexed refl refl refl

active_flow_is_kept_example :
    ((process_udp_payload find_process_path flowing datagram 50000).1
      ≡ some (PortRewrite.to_proxy 10000))
    × (get flow_discrete key_a
          (cleanup_stale_udp_endpoints
            (process_udp_payload find_process_path flowing datagram 50000).0
            100000).udp_endpoints.by_flow
        ≡ some (record (udp_entry 53) { last_active = 50000 }))
unfolding program
active_flow_is_kept_example =
    active_flow_is_kept find_process_path flowing datagram (started datagram 10000 5) refl refl
      50000 100000 flowing-IsIndexed (omega arith)
