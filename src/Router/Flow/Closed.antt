-- ===== src/Router/Flow/Closed.antt =====
-- A TCP connection after its first FIN or RST.
use proxifyre_rs.Prelude.{
  ℕ, ◌≡◌, ◌≢◌, refl, Bool, true, false, not, ◌&&◌, ◌||◌, none, List, [], ◌∷◌, Text, err, arith,
  Option, Bool-cases, inl, inr, if_pos, ap, ◌∙◌,
}
use proxifyre_rs.HashMap.{get, IsMap, get-or_insert, get-remove, or_insert-IsMap, remove-IsMap}
use proxifyre_rs.Net.{SocketAddr}
use proxifyre_rs.Router.Flow.Rewritten.{rewritten}
use proxifyre_rs.Router.Flow.Session.{
  query_tcp-none, unmatched_is_direct, client_close, client_close_forgets,
}
use proxifyre_rs.Router.Flow.Tcp.{Holds, process_udp_payload-tcp}
use proxifyre_rs.Router.Flow.{
  client_key, reply_key, close_tcp, open_tcp, tcp_from_proxy, tcp_port_of, tcp_syn, tcp_established,
  process_tcp_payload, normalize_mapped_ipv6, query_tcp, Event, step, run, tcp, udp, cleanup,
  original_destination_not_found, cleanup_stale_udp_endpoints,
}
use proxifyre_rs.Router.Mappings.{TcpPortMapping}
use proxifyre_rs.Router.PacketInfo.{PacketInfo, PortRewrite, src, dst}
use proxifyre_rs.Router.State.{SocksLocalRouter, TcpKey, tcp_discrete, is_tcp_proxy_port}

-- The event is not a SYN of the connection.
abbrev pub KeepsShut : TcpKey → Event → Type 0
KeepsShut k (tcp i at) = ((i.syn && not i.ack) ≡ true) → client_key i ≢ k
KeepsShut k (udp i now) = Unit
KeepsShut k (cleanup now) = Unit

abbrev pub AllKeepShut : TcpKey → List Event → Type 0
AllKeepShut k [] = Unit
AllKeepShut k (e ∷ es) = KeepsShut k e × AllKeepShut k es

-- The connection is not in the table.
abbrev pub Absent : TcpKey → SocksLocalRouter → Type 0
Absent k r = (get tcp_discrete k r.tcp_connections ≡ none) × IsMap tcp_discrete r.tcp_connections

close_tcp-Absent :
    (r : SocksLocalRouter) (key k : TcpKey) (i : PacketInfo)
    → Absent k r
    → Absent k (close_tcp r key i)
unfolding close_tcp
close_tcp-Absent r key k i g = ground (
  arith,
  get-remove tcp_discrete key k r.tcp_connections g.1,
  remove-IsMap tcp_discrete key r.tcp_connections g.1,
)

open_tcp-Absent :
    (r : SocksLocalRouter) (k : TcpKey) (i : PacketInfo) (p : ℕ)
    → client_key i ≢ k
    → Absent k r
    → Absent k (open_tcp r i p)
unfolding open_tcp
open_tcp-Absent r k i p other g =
    let entry : TcpPortMapping = record {
      dst_ip = i.dst_ip;
      dst_port = i.dst_port;
      proxy_port = p;
    } in
    ground (
      arith,
      get-or_insert tcp_discrete (client_key i) k entry r.tcp_connections,
      or_insert-IsMap tcp_discrete (client_key i) entry r.tcp_connections g.1,
    )

tcp_from_proxy-Absent :
    (r : SocksLocalRouter) (k : TcpKey) (i : PacketInfo)
    → Absent k r
    → Absent k (tcp_from_proxy r i).0
unfolding tcp_from_proxy
tcp_from_proxy-Absent r k i g = ground (arith, close_tcp-Absent r (reply_key i) k i g)

module _ (find_process_path : Bool → SocketAddr → SocketAddr → Option Text) where
  tcp_syn-Absent :
      (r : SocksLocalRouter) (k : TcpKey) (i : PacketInfo)
      → client_key i ≢ k
      → Absent k r
      → Absent k (tcp_syn find_process_path r i).0
  unfolding tcp_syn
  tcp_syn-Absent r k i other g =
      ground (arith, open_tcp-Absent r k i (tcp_port_of find_process_path r i) other g)

  tcp_established-Absent :
      (r : SocksLocalRouter) (k : TcpKey) (i : PacketInfo)
      → Absent k r
      → Absent k (tcp_established find_process_path r i).0
  unfolding tcp_established
  tcp_established-Absent r k i g = ground (arith, close_tcp-Absent r (client_key i) k i g)

  process_tcp_payload-Absent :
      (r : SocksLocalRouter) (k : TcpKey) (i : PacketInfo)
      → (((i.syn && not i.ack) ≡ true) → client_key i ≢ k)
      → Absent k r
      → Absent k (process_tcp_payload find_process_path r i).0
  unfolding process_tcp_payload
  process_tcp_payload-Absent r k i other g = elim (Bool-cases (i.syn && not i.ack)) [
    | inl e ↦ ground (
      arith,
      tcp_syn-Absent r k i (other e) g,
      tcp_from_proxy-Absent (tcp_syn find_process_path r i).0 k i,
    )
    | inr e ↦ ground (
      arith,
      tcp_established-Absent r k i g,
      tcp_from_proxy-Absent (tcp_established find_process_path r i).0 k i,
    )
  ]

module _ (find_process_path : ℕ → Bool → SocketAddr → SocketAddr → Option Text) where
  step-Absent :
      (r : SocksLocalRouter) (k : TcpKey) (e : Event)
      → KeepsShut k e
      → Absent k r
      → Absent k (step find_process_path r e)
  unfolding step cleanup_stale_udp_endpoints
  step-Absent r k (tcp i at) s h = process_tcp_payload-Absent (find_process_path at) r k i s h
  step-Absent r k (udp i now) s h = rw (process_udp_payload-tcp (find_process_path now) r i now) h
  step-Absent r k (cleanup now) s h = h

  run-Absent :
      (r : SocksLocalRouter) (k : TcpKey) (es : List Event)
      → AllKeepShut k es
      → Absent k r
      → Absent k (run find_process_path r es)
  unfolding run
  run-Absent r k [] s h = h
  run-Absent r k (e ∷ es) s h =
      run-Absent (step find_process_path r e) k es s.1 (step-Absent r k e s.0 h)

  -- A FIN or RST of the client, on a connection that is in the table, closes it. After it and after any
  -- packets and clean-ups without a SYN of the connection, the proxy's query about the connection
  -- fails, and a packet of the client on it that opens none passes the router unchanged, unless its
  -- source port is that of a proxy.
  pub closed_is_direct :
      (at after : ℕ) (r : SocksLocalRouter) (i : PacketInfo) (e : TcpPortMapping)
      → Holds (client_key i) e r
      → (i.syn && not i.ack) ≡ false
      → (i.rst || i.fin) ≡ true
      → (es : List Event) (j : PacketInfo) (peer local : SocketAddr) → AllKeepShut (client_key i) es
      → client_key j ≡ client_key i
      → (j.syn && not j.ack) ≡ false
      → is_tcp_proxy_port
          (run find_process_path (process_tcp_payload (find_process_path at) r i).0 es)
          j.src_port
        ≡ false
      → normalize_mapped_ipv6 peer ≡ src (rewritten (PortRewrite.to_proxy e.proxy_port) i)
      → normalize_mapped_ipv6 local ≡ dst (rewritten (PortRewrite.to_proxy e.proxy_port) i)
      → let r' = run find_process_path (process_tcp_payload (find_process_path at) r i).0 es in
        (query_tcp r' peer local ≡ err original_destination_not_found)
        × (process_tcp_payload (find_process_path after) r' j ≡ (r', none))
  closed_is_direct at after r i e open_before no_syn closing es j peer local shut k s q ep el =
      let now = (process_tcp_payload (find_process_path at) r i).0 in
      let gone : get tcp_discrete (client_key i) now.tcp_connections ≡ none =
        (client_close_forgets (find_process_path at) r i e open_before no_syn closing
          (client_key i)).1
        ∙ if_pos (tcp_discrete (client_key i) (client_key i)) refl none _ in
      let unique : IsMap tcp_discrete now.tcp_connections =
        rw (client_close (find_process_path at) r i e open_before no_syn closing)
          (remove-IsMap tcp_discrete (client_key i) r.tcp_connections open_before.1) in
      let (later, _) = run-Absent now (client_key i) es shut (gone, unique) in
      let r' = run find_process_path now es in
      (
        query_tcp-none r' i e.proxy_port peer local later ep el,
        unmatched_is_direct (find_process_path after) r' j
            (ap (λ key. get tcp_discrete key r'.tcp_connections) k ∙ later) s q,
      )
