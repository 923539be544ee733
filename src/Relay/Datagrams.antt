-- ===== src/Relay/Datagrams.antt =====
-- A UDP datagram from the bytes that the packet loop reads to what the relay of the SOCKS5 server gets.
use proxifyre_rs.HashMap.{get}
use proxifyre_rs.Net.{SocketAddr, socket_addr, IsAddr, ip, is_unspecified}
use proxifyre_rs.Prelude.{
  ℕ, ◌≡◌, ◌≢◌, refl, sym, ap, ◌∙◌, Bool, true, false, Option, none, some, List, [], ◌∷◌, ◌++◌, ok,
  Text, drop, arith,
}
use proxifyre_rs.Proxy.Associations.Worker.Path.{worker_sends}
use proxifyre_rs.Proxy.Associations.Worker.{Job, idle, sending, at, Steps}
use proxifyre_rs.Proxy.Associations.{UdpState, limit_reached, reap, cleanup_stale_udp_associations}
use proxifyre_rs.Proxy.Codec.RoundTrip.{
  header_length, on_wire, parse_udp_response-build_udp_request,
}
use proxifyre_rs.Proxy.Codec.{Resolver, maybe_map_ipv4_to_ipv6_mapped, parse_udp_response}
use proxifyre_rs.Proxy.Protocol.{
  reached, datagram_bytes, maybe_map_ipv4_to_ipv6_mapped_lem, build_udp_request_lem,
}
use proxifyre_rs.Proxy.Datagram.{job_of, send_to, remote_addr}
use proxifyre_rs.Router.Adapter.Events.{forget, run-append, run-forget}
use proxifyre_rs.Router.Adapter.Loop.{Session, run_packet_loop, session_events, run_packet_loop-run}
use proxifyre_rs.Router.Flow.Datagram.{query_udp-process_udp_payload}
use proxifyre_rs.Router.Flow.Kept.{run-choice, udp_port_of-SameChoice}
use proxifyre_rs.Router.Flow.Peers.{sharing}
use proxifyre_rs.Router.Flow.Rewritten.{rewritten}
use proxifyre_rs.Router.Flow.Udp.{run-IsIndexed}
use proxifyre_rs.Router.Flow.{
  client_flow, udp_port_of, process_udp_payload, normalize_mapped_ipv6, query_udp, Event, step, run,
}
use proxifyre_rs.Router.Mappings.Invariant.{IsIndexed}
use proxifyre_rs.Router.Mappings.{UdpFlowKey, FlowMap, flow_discrete, index_key}
use proxifyre_rs.Router.PacketInfo.{PacketInfo, PortRewrite, src}
use proxifyre_rs.Router.State.{SocksLocalRouter}
use proxifyre_rs.Router.Wire.{Wire}

-- A flow that shares its address and port with none is not in the table.
get-none_of_sharing :
    (k : UdpFlowKey) (m : FlowMap) → sharing (index_key k) m ≡ [] → get flow_discrete k m ≡ none
unfolding sharing get
get-none_of_sharing k [] h = refl
get-none_of_sharing k ((j, e) ∷ m) h = ground (arith, get-none_of_sharing k m)

module _ (w : Wire) (find_process_path : ℕ → Bool → SocketAddr → SocketAddr → Option Text) where
  -- The flows after the packet loop are those after the run over its events.
  flows-loop :
      (r : SocksLocalRouter) (ss : List Session) (pre : List Event) (i : PacketInfo) (now : ℕ)
      → session_events w ss ≡ pre ++ (Event.udp i now ∷ [])
      → let q = run find_process_path r pre in
        (run_packet_loop w find_process_path r ss).0.udp_endpoints
        ≡ (process_udp_payload (find_process_path now) q i now).0.udp_endpoints
  unfolding run step forget
  flows-loop r ss pre i now e =
      let f = find_process_path in
      ap (λ s. s.udp_endpoints)
        (run_packet_loop-run w f r ss
          ∙ ap (run f (forget r)) e
          ∙ sym (run-forget f r (pre ++ (Event.udp i now ∷ [])))
          ∙ ap forget (run-append f r pre (Event.udp i now ∷ [])))

  -- The packet loop has read the first datagram of a process to be proxied to a new destination, with
  -- whatever else before it, and no other flow is to that address from that port. Then the UDP
  -- worker, which is given the datagram by its listener, finds the destination that the process
  -- called; where it may have one more association, there is a way in which it comes to send the
  -- datagram; and what it sends is read by the parser of such datagrams as that very destination
  -- (::ffff:a.b.c.d towards an IPv6 server, where it is a.b.c.d) and the payload. Its bytes are the
  -- header of RFC 1928 for that destination, and the payload.
  pub loop_datagram_reaches_destination :
      (r : SocksLocalRouter) (ss : List Session) (pre : List Event) (i : PacketInfo) (now : ℕ)
      (prefer : Bool) (names : Resolver) (peer local : SocketAddr) (buf payload : List ℕ)
      (s : UdpState) (time assoc : ℕ)
      → session_events w ss ≡ pre ++ (Event.udp i now ∷ [])
      → IsIndexed r.udp_endpoints
      → sharing (index_key (client_flow i)) (run find_process_path r pre).udp_endpoints.by_flow ≡ []
      → udp_port_of (find_process_path now) r i ≢ 0
      → is_unspecified (ip (normalize_mapped_ipv6 local)) ≡ true
      → normalize_mapped_ipv6 peer
        ≡ src (rewritten (PortRewrite.to_proxy (udp_port_of (find_process_path now) r i)) i)
      → IsAddr (reached prefer (socket_addr i.dst_ip i.dst_port))
      → limit_reached (reap (cleanup_stale_udp_associations time s)) ≡ false
      → let r' = (run_packet_loop w find_process_path r ss).0 in
        let dst = reached prefer (socket_addr i.dst_ip i.dst_port) in
        (j : Job) × (job_of (query_udp r'.udp_endpoints) (some local) payload peer ≡ some j)
        × ((used : ℕ) × (s' : UdpState) × Steps (at idle s) (at (sending j used) s'))
        × (parse_udp_response names (send_to prefer buf j.packet (remote_addr j))
            ≡ ok (header_length dst, on_wire dst))
        × (drop (header_length dst) (send_to prefer buf j.packet (remote_addr j)) ≡ payload)
        × (send_to prefer buf j.packet (remote_addr j) ≡ datagram_bytes dst payload)
  unfolding job_of send_to
  loop_datagram_reaches_destination r ss pre i now prefer names peer local buf payload s time assoc
        e indexed alone has_proxy wild ep is_addr room =
      let f = find_process_path in
      let q = run f r pre in
      let fresh = get-none_of_sharing (client_flow i) q.udp_endpoints.by_flow alone in
      let port = udp_port_of-SameChoice (f now) r q i (run-choice f r pre) in
      let to = λ (p : ℕ). src (rewritten (PortRewrite.to_proxy p) i) in
      let asked =
        (query_udp-process_udp_payload (f now) q i now fresh (λ z. has_proxy (sym port ∙ z)) peer
          local (run-IsIndexed f r pre indexed) alone wild (ep ∙ ap to (sym port))).1 in
      let answered = ap (λ u. query_udp u peer local) (flows-loop r ss pre i now e) ∙ asked in
      let j : Job = record {
        client_addr = peer;
        dst_ip = i.dst_ip;
        dst_port = i.dst_port;
        packet = payload;
      } in
      let addr = socket_addr i.dst_ip i.dst_port in
      let dst = reached prefer addr in
      let (parsed, rest) = parse_udp_response-build_udp_request names dst buf payload is_addr in
      let mapped : maybe_map_ipv4_to_ipv6_mapped addr prefer ≡ dst =
        maybe_map_ipv4_to_ipv6_mapped_lem prefer addr in
      (
        j,
        rw (answered, job_of) refl,
        worker_sends j time assoc s room,
        rw (mapped, send_to) parsed,
        rw (mapped, send_to) rest,
        rw (mapped, send_to) (build_udp_request_lem buf dst payload),
      )
