-- ===== src/Router/Flow/Datagram.antt =====
-- A UDP flow from its first datagram on.
use proxifyre_rs.Prelude.{
  ℕ, ◌-◌, ◌+◌, ◌<◌, ◌≡◌, refl, ◌≢◌, Bool, true, Option, none, some, List, [], ◌∷◌, ◌++◌, Text,
  arith, if_pos, ◌∙◌, ok, err, ap, dec_lt,
}
use proxifyre_rs.HashMap.{get, insert, get-modify}
use proxifyre_rs.Net.{SocketAddr, ip, port, is_unspecified, ip-socket_addr, port-socket_addr}
use proxifyre_rs.Router.Flow.Peers.{sharing, answer, query_udp-answer}
use proxifyre_rs.Router.Flow.Rewritten.{rewritten}
use proxifyre_rs.Router.Flow.Udp.{process_udp_payload-IsIndexed, get-cleanup, kept}
use proxifyre_rs.Router.Flow.{
  client_flow, reply_flow, udp_from_proxy, udp_port_of, udp_lookup, process_udp_payload,
  normalize_mapped_ipv6, query_udp, ambiguous_destination_mapping, cleanup_stale_udp_endpoints,
}
use proxifyre_rs.Router.Mappings.Index.{insert_flow-by_flow}
use proxifyre_rs.Router.Mappings.Invariant.{IsIndexed}
use proxifyre_rs.Router.Mappings.{
  UdpFlowKey, UdpPortMapping, FlowMap, flow_discrete, insert_flow, index_key,
}
use proxifyre_rs.Router.PacketInfo.{PacketInfo, PortRewrite, src, dst}
use proxifyre_rs.Router.State.{SocksLocalRouter, is_udp_proxy_port}

sharing-insert_new :
    (k : UdpFlowKey) (e : UdpPortMapping) (m : FlowMap)
    → get flow_discrete k m ≡ none
    → sharing (index_key k) (insert flow_discrete k e m) ≡ sharing (index_key k) m ++ e ∷ []
unfolding sharing get insert
sharing-insert_new k e [] h = ground arith
sharing-insert_new k e ((j, w) ∷ m) h = ground (arith, sharing-insert_new k e m)

answer-append_one :
    (e : UdpPortMapping) (es : List UdpPortMapping) (f : UdpPortMapping)
    → answer (e ∷ es ++ f ∷ []) ≡ err ambiguous_destination_mapping
answer-append_one e [] f = refl
answer-append_one e (_ ∷ es) f = refl

-- The entry that the first datagram writes.
abbrev pub started : PacketInfo → ℕ → ℕ → UdpPortMapping
started i p now = record {
  dst_ip = i.dst_ip;
  dst_port = i.dst_port;
  proxy_port = p;
  last_active = now;
}

module _ (find_process_path : Bool → SocketAddr → SocketAddr → Option Text) where
  pub other_port :
      (r : SocksLocalRouter) (j : PacketInfo) (now : ℕ) (e : UdpPortMapping)
      → get flow_discrete (client_flow j) r.udp_endpoints.by_flow ≡ some e
      → e.dst_port ≢ j.dst_port
      → process_udp_payload find_process_path r j now ≡ (r, none)
  unfolding process_udp_payload
  other_port r j now e g other = ground arith

  module _ (r : SocksLocalRouter) (i : PacketInfo) (now : ℕ)
      (fresh : get flow_discrete (client_flow i) r.udp_endpoints.by_flow ≡ none)
      (has_proxy : udp_port_of find_process_path r i ≢ 0) where
    pub first_datagram : process_udp_payload find_process_path r i now ≡ (
      record r {
        udp_endpoints =
            insert_flow r.udp_endpoints
              (client_flow i)
              (started i (udp_port_of find_process_path r i) now);
      },
      some (PortRewrite.to_proxy (udp_port_of find_process_path r i)),
    )
    unfolding process_udp_payload udp_lookup
    first_datagram = ground arith

    query_first :
        (peer local : SocketAddr)
        → IsIndexed r.udp_endpoints
        → is_unspecified (ip (normalize_mapped_ipv6 local)) ≡ true
        → normalize_mapped_ipv6 peer
          ≡ src (rewritten (PortRewrite.to_proxy (udp_port_of find_process_path r i)) i)
        → query_udp (process_udp_payload find_process_path r i now).0.udp_endpoints peer local
          ≡ answer (
              sharing (index_key (client_flow i)) r.udp_endpoints.by_flow
              ++ started i (udp_port_of find_process_path r i) now ∷ [])
    unfolding rewritten
    query_first peer local h q ep =
        let u = (process_udp_payload find_process_path r i now).0.udp_endpoints in
        let entry = started i (udp_port_of find_process_path r i) now in
        query_udp-answer u peer local (process_udp_payload-IsIndexed find_process_path r i now h) q
        ∙ ap (λ s. answer (sharing (record { dst_ip = ip s; src_port = port s }) u.by_flow)) ep
        ∙ rw (ip-socket_addr, port-socket_addr)
            (ap (λ m. answer (sharing (index_key (client_flow i)) m))
                (ap (λ t. t.0.udp_endpoints.by_flow) first_datagram
                  ∙ insert_flow-by_flow r.udp_endpoints (client_flow i) entry)
              ∙ ap answer (sharing-insert_new (client_flow i) entry r.udp_endpoints.by_flow fresh))

    -- The first datagram of a proxied process to a new destination goes to the port of its proxy.
    -- If no other flow is to that address from that port, the proxy's query about the datagram gives
    -- the destination that the client called.
    pub query_udp-process_udp_payload :
        (peer local : SocketAddr)
        → IsIndexed r.udp_endpoints
        → sharing (index_key (client_flow i)) r.udp_endpoints.by_flow ≡ []
        → is_unspecified (ip (normalize_mapped_ipv6 local)) ≡ true
        → normalize_mapped_ipv6 peer
          ≡ src (rewritten (PortRewrite.to_proxy (udp_port_of find_process_path r i)) i)
        → ((process_udp_payload find_process_path r i now).1
            ≡ some (PortRewrite.to_proxy (udp_port_of find_process_path r i)))
          × (query_udp (process_udp_payload find_process_path r i now).0.udp_endpoints peer local
              ≡ ok (i.dst_ip, i.dst_port))
    query_udp-process_udp_payload peer local h alone q ep =
        (ap (λ t. t.1) first_datagram, query_first peer local h q ep ∙ rw alone)

    -- If another flow is to that address from that port, of another source address, the first
    -- datagram is sent to the proxy as well; there every query about it fails as ambiguous.
    pub shared_port_is_ambiguous :
        (peer local : SocketAddr) (e : UdpPortMapping) (es : List UdpPortMapping)
        → IsIndexed r.udp_endpoints
        → sharing (index_key (client_flow i)) r.udp_endpoints.by_flow ≡ e ∷ es
        → is_unspecified (ip (normalize_mapped_ipv6 local)) ≡ true
        → normalize_mapped_ipv6 peer
          ≡ src (rewritten (PortRewrite.to_proxy (udp_port_of find_process_path r i)) i)
        → ((process_udp_payload find_process_path r i now).1
            ≡ some (PortRewrite.to_proxy (udp_port_of find_process_path r i)))
          × (query_udp (process_udp_payload find_process_path r i now).0.udp_endpoints peer local
              ≡ err ambiguous_destination_mapping)
    shared_port_is_ambiguous peer local e es h shared q ep = (
      ap (λ t. t.1) first_datagram,
      query_first peer local h q ep ∙ rw shared (answer-append_one e es _),
    )

  module _ (r : SocksLocalRouter) (i : PacketInfo) (e : UdpPortMapping)
      (open_before : get flow_discrete (client_flow i) r.udp_endpoints.by_flow ≡ some e)
      (same_port : e.dst_port ≡ i.dst_port) where
    refreshed :
        (now : ℕ)
        → (get flow_discrete
              (client_flow i)
              (process_udp_payload find_process_path r i now).0.udp_endpoints.by_flow
            ≡ some (record e { last_active = now }))
          × ((process_udp_payload find_process_path r i now).1
              ≡ some (PortRewrite.to_proxy e.proxy_port))
    unfolding process_udp_payload
    refreshed now = ground (
      arith,
      get-modify flow_discrete (client_flow i) (client_flow i)
          (λ (v : UdpPortMapping). record v { last_active = now }) r.udp_endpoints.by_flow,
    )

    -- A datagram of a flow that is in the table goes to the flow's proxy, and keeps the flow through
    -- each clean-up of the next 60 seconds.
    pub active_flow_is_kept :
        (now later : ℕ)
        → IsIndexed r.udp_endpoints
        → later < now + 60000
        → ((process_udp_payload find_process_path r i now).1
            ≡ some (PortRewrite.to_proxy e.proxy_port))
          × (get flow_discrete
                (client_flow i)
                (cleanup_stale_udp_endpoints
                  (process_udp_payload find_process_path r i now).0
                  later).udp_endpoints.by_flow
              ≡ some (record e { last_active = now }))
    active_flow_is_kept now later h lt = (
      (refreshed now).1,
      get-cleanup (process_udp_payload find_process_path r i now).0 (client_flow i) later
            (process_udp_payload-IsIndexed find_process_path r i now h)
          ∙ ap (kept later) (refreshed now).0
          ∙ if_pos (dec_lt (later - now) 60000) (omega arith) _ _,
    )

    -- A datagram of the proxy to the client of a flow in the table leaves the router with the address
    -- that the client called as its source, and the client's own address as its destination. The
    -- datagram's pair of addresses is not itself a flow of the table, and its process has no proxy.
    pub udp_reply_mirrors_call :
        (j : PacketInfo) (now : ℕ)
        → reply_flow j ≡ client_flow i
        → is_udp_proxy_port r j.src_port ≡ true
        → get flow_discrete (client_flow j) r.udp_endpoints.by_flow ≡ none
        → udp_port_of find_process_path r j ≡ 0
        → (w : PortRewrite) × ((process_udp_payload find_process_path r j now) ≡ (r, some w))
          × (src (rewritten w j) ≡ dst i)
          × (dst (rewritten w j) ≡ src i)
    unfolding process_udp_payload udp_lookup udp_from_proxy rewritten
    udp_reply_mirrors_call j now k p g z = (PortRewrite.from_proxy e.dst_port, ground arith, cc, cc)
