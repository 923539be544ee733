-- ===== src/Router/Flow/Session.antt =====
-- A TCP connection from its SYN on: the proxy is told the destination that the client called, and
-- the client sees the answers come from there.
use proxifyre_rs.Prelude.{
  ℕ, ◌≡◌, refl, ◌≢◌, ite, Bool, true, false, not, ◌&&◌, ◌||◌, Option, none, some, List, [], ◌∷◌,
  Text, ok, err, arith,
}
use proxifyre_rs.HashMap.{get, remove, IsMap, get-or_insert, get-remove, or_insert-IsMap}
use proxifyre_rs.Net.{SocketAddr, ip-socket_addr, port-socket_addr}
use proxifyre_rs.Router.Flow.Rewritten.{rewritten}
use proxifyre_rs.Router.Flow.Tcp.{Closes, Holds, process_tcp_payload-Holds, process_udp_payload-tcp}
use proxifyre_rs.Router.Flow.{
  client_key, reply_key, close_tcp, open_tcp, tcp_from_proxy, tcp_port_of, tcp_syn, tcp_established,
  process_tcp_payload, normalize_mapped_ipv6, query_tcp, Event, step, run, tcp, udp, cleanup,
  original_destination_not_found, cleanup_stale_udp_endpoints,
}
use proxifyre_rs.Router.Mappings.{TcpPortMapping}
use proxifyre_rs.Router.PacketInfo.{PacketInfo, PortRewrite, src, dst}
use proxifyre_rs.Router.State.{SocksLocalRouter, TcpKey, tcp_discrete, is_tcp_proxy_port}

-- The event does not end the connection.
abbrev pub Spares : TcpKey → Event → Type 0
Spares k (tcp i at) = ¬ Closes k i
Spares k (udp i now) = Unit
Spares k (cleanup now) = Unit

abbrev pub AllSpare : TcpKey → List Event → Type 0
AllSpare k [] = Unit
AllSpare k (e ∷ es) = Spares k e × AllSpare k es

-- The entry that a SYN writes.
abbrev pub opened : PacketInfo → ℕ → TcpPortMapping
opened i p = record { dst_ip = i.dst_ip; dst_port = i.dst_port; proxy_port = p }

query_tcp-Holds :
    (r : SocksLocalRouter) (i : PacketInfo) (p : ℕ) (peer local : SocketAddr)
    → Holds (client_key i) (opened i p) r
    → normalize_mapped_ipv6 peer ≡ src (rewritten (PortRewrite.to_proxy p) i)
    → normalize_mapped_ipv6 local ≡ dst (rewritten (PortRewrite.to_proxy p) i)
    → query_tcp r peer local ≡ ok (i.dst_ip, i.dst_port)
unfolding query_tcp rewritten
query_tcp-Holds r i p peer local h ep el = ground (
  arith,
  ip-socket_addr i.dst_ip i.src_port,
  ip-socket_addr i.src_ip p,
  port-socket_addr i.dst_ip i.src_port,
)

pub query_tcp-none :
    (r : SocksLocalRouter) (i : PacketInfo) (p : ℕ) (peer local : SocketAddr)
    → get tcp_discrete (client_key i) r.tcp_connections ≡ none
    → normalize_mapped_ipv6 peer ≡ src (rewritten (PortRewrite.to_proxy p) i)
    → normalize_mapped_ipv6 local ≡ dst (rewritten (PortRewrite.to_proxy p) i)
    → query_tcp r peer local ≡ err original_destination_not_found
unfolding query_tcp rewritten
query_tcp-none r i p peer local h ep el = ground (
  arith,
  ip-socket_addr i.dst_ip i.src_port,
  ip-socket_addr i.src_ip p,
  port-socket_addr i.dst_ip i.src_port,
)

module _ (find_process_path : Bool → SocketAddr → SocketAddr → Option Text) where
  pub unmatched_is_direct :
      (r : SocksLocalRouter) (j : PacketInfo)
      → get tcp_discrete (client_key j) r.tcp_connections ≡ none
      → (j.syn && not j.ack) ≡ false
      → is_tcp_proxy_port r j.src_port ≡ false
      → process_tcp_payload find_process_path r j ≡ (r, none)
  unfolding process_tcp_payload tcp_established tcp_from_proxy
  unmatched_is_direct r j g s q = ground arith

module _ (find_process_path : ℕ → Bool → SocketAddr → SocketAddr → Option Text) where
  step-Holds :
      (r : SocksLocalRouter) (k : TcpKey) (ev : Event) (e : TcpPortMapping)
      → Spares k ev
      → Holds k e r
      → Holds k e (step find_process_path r ev)
  unfolding step cleanup_stale_udp_endpoints
  step-Holds r k (tcp i at) e s h = process_tcp_payload-Holds (find_process_path at) r k i e s h
  step-Holds r k (udp i now) e s h = rw (process_udp_payload-tcp (find_process_path now) r i now) h
  step-Holds r k (cleanup now) e s h = h

  run-Holds :
      (r : SocksLocalRouter) (k : TcpKey) (es : List Event) (e : TcpPortMapping)
      → AllSpare k es
      → Holds k e r
      → Holds k e (run find_process_path r es)
  unfolding run
  run-Holds r k [] e s h = h
  run-Holds r k (ev ∷ es) e s h =
      run-Holds (step find_process_path r ev) k es e s.1 (step-Holds r k ev e s.0 h)

  module _ (at : ℕ) (r : SocksLocalRouter) (i : PacketInfo)
      (unique : IsMap tcp_discrete r.tcp_connections)
      (fresh : get tcp_discrete (client_key i) r.tcp_connections ≡ none)
      (is_syn : (i.syn && not i.ack) ≡ true)
      (has_proxy : tcp_port_of (find_process_path at) r i ≢ 0) where
    syn_opens :
        (Holds
          (client_key i)
          (opened i (tcp_port_of (find_process_path at) r i))
          (process_tcp_payload (find_process_path at) r i).0)
        × ((process_tcp_payload (find_process_path at) r i).1
            ≡ some (PortRewrite.to_proxy (tcp_port_of (find_process_path at) r i)))
    unfolding process_tcp_payload tcp_syn open_tcp
    syn_opens =
        let p = tcp_port_of (find_process_path at) r i in
        ground (
          arith,
          get-or_insert tcp_discrete (client_key i) (client_key i) (opened i p) r.tcp_connections,
          or_insert-IsMap tcp_discrete (client_key i) (opened i p) r.tcp_connections unique,
        )

    -- A SYN of a proxied process, for a connection that is not in the table, goes to the port of its
    -- proxy. Until a packet of the connection carries RST or FIN, whatever other packets and
    -- clean-ups the router handles, the proxy's query about the connection that it accepted (its
    -- addresses plain or IPv4-mapped) gives the destination that the client called.
    pub query_tcp-run :
        (es : List Event) (peer local : SocketAddr)
        → AllSpare (client_key i) es
        → normalize_mapped_ipv6 peer
          ≡ src (rewritten (PortRewrite.to_proxy (tcp_port_of (find_process_path at) r i)) i)
        → normalize_mapped_ipv6 local
          ≡ dst (rewritten (PortRewrite.to_proxy (tcp_port_of (find_process_path at) r i)) i)
        → ((process_tcp_payload (find_process_path at) r i).1
            ≡ some (PortRewrite.to_proxy (tcp_port_of (find_process_path at) r i)))
          × (query_tcp
                (run find_process_path (process_tcp_payload (find_process_path at) r i).0 es)
                peer
                local
              ≡ ok (i.dst_ip, i.dst_port))
    query_tcp-run es peer local spare ep el =
        let p = tcp_port_of (find_process_path at) r i in
        let r' = (process_tcp_payload (find_process_path at) r i).0 in
        (
          syn_opens.1,
          query_tcp-Holds (run find_process_path r' es) i p peer local
              (run-Holds r' (client_key i) es (opened i p) spare syn_opens.0) ep el,
        )

module _ (find_process_path : Bool → SocketAddr → SocketAddr → Option Text) where
  reply_of_Holds :
      (r : SocksLocalRouter) (i j : PacketInfo) (p : ℕ)
      → Holds (client_key i) (opened i p) r
      → reply_key j ≡ client_key i
      → (j.syn && not j.ack) ≡ false
      → is_tcp_proxy_port r j.src_port ≡ true
      → get tcp_discrete (client_key j) r.tcp_connections ≡ none
      → (process_tcp_payload find_process_path r j).1 ≡ some (PortRewrite.from_proxy i.dst_port)
  unfolding process_tcp_payload tcp_established tcp_from_proxy
  reply_of_Holds r i j p h k s q g = ground arith

  -- A packet of the proxy to the client of an open connection leaves the router with the address
  -- that the client called as its source, and the client's own address as its destination. The
  -- packet is no opening SYN, and its pair of addresses is not itself a connection of the table.
  pub reply_mirrors_call :
      (r : SocksLocalRouter) (i j : PacketInfo) (p : ℕ)
      → Holds (client_key i) (opened i p) r
      → reply_key j ≡ client_key i
      → (j.syn && not j.ack) ≡ false
      → is_tcp_proxy_port r j.src_port ≡ true
      → get tcp_discrete (client_key j) r.tcp_connections ≡ none
      → (w : PortRewrite) × ((process_tcp_payload find_process_path r j).1 ≡ some w)
        × (src (rewritten w j) ≡ dst i)
        × (dst (rewritten w j) ≡ src i)
  unfolding rewritten
  reply_mirrors_call r i j p h k s q g =
      (PortRewrite.from_proxy i.dst_port, reply_of_Holds r i j p h k s q g, cc, cc)

  module _ (r : SocksLocalRouter) (i : PacketInfo) (e : TcpPortMapping)
      (open_before : Holds (client_key i) e r) (no_syn : (i.syn && not i.ack) ≡ false)
      (closing : (i.rst || i.fin) ≡ true) where
    pub client_close : process_tcp_payload find_process_path r i ≡ (
      record r { tcp_connections = remove tcp_discrete (client_key i) r.tcp_connections },
      some (PortRewrite.to_proxy e.proxy_port),
    )
    unfolding process_tcp_payload tcp_established close_tcp
    client_close = ground arith

    -- A RST or FIN of the client is still sent to the proxy, and takes its connection out of the
    -- table, and no other.
    pub client_close_forgets :
        (k : TcpKey)
        → ((process_tcp_payload find_process_path r i).1 ≡ some (PortRewrite.to_proxy e.proxy_port))
          × (get tcp_discrete k (process_tcp_payload find_process_path r i).0.tcp_connections
              ≡ ite (tcp_discrete (client_key i) k) none (get tcp_discrete k r.tcp_connections))
    client_close_forgets k =
        rw client_close
          (refl, get-remove tcp_discrete (client_key i) k r.tcp_connections open_before.1)
