-- ===== src/Router/Flow/Kept.antt =====
-- What the packets leave alone: the proxies, the names that they are associated with, whether the
-- router is active, and that the table of TCP connections has one entry for each key.
use proxifyre_rs.HashMap.{IsMap, or_insert-IsMap, remove-IsMap}
use proxifyre_rs.Net.{SocketAddr}
use proxifyre_rs.Prelude.{ℕ, ◌≡◌, refl, ◌∙◌, Bool, Option, List, [], ◌∷◌, Text, arith}
use proxifyre_rs.Router.Flow.Tcp.{process_udp_payload-tcp}
use proxifyre_rs.Router.Flow.{
  client_key, reply_key, close_tcp, open_tcp, tcp_from_proxy, tcp_port_of, udp_port_of, tcp_syn,
  tcp_established, process_tcp_payload, udp_from_proxy, udp_lookup, process_udp_payload,
  cleanup_stale_udp_endpoints, Event, tcp, udp, cleanup, step, run,
}
use proxifyre_rs.Router.Mappings.{TcpPortMapping}
use proxifyre_rs.Router.PacketInfo.{PacketInfo}
use proxifyre_rs.Router.State.{
  SocksLocalRouter, TcpKey, tcp_discrete, get_proxy_port_tcp, get_proxy_port_udp,
}

-- The choice of proxies is the same in both, and so is whether the router is active.
abbrev pub SameChoice : SocksLocalRouter → SocksLocalRouter → Type 0
SameChoice r s =
    (s.proxies ≡ r.proxies) × (s.name_to_proxy ≡ r.name_to_proxy) × (s.is_active ≡ r.is_active)

abbrev pub OneEach : SocksLocalRouter → Type 0
OneEach r = IsMap tcp_discrete r.tcp_connections

close_tcp-choice :
    (r : SocksLocalRouter) (key : TcpKey) (i : PacketInfo) → SameChoice r (close_tcp r key i)
unfolding close_tcp
close_tcp-choice r key i = ground arith

tcp_from_proxy-choice :
    (r : SocksLocalRouter) (i : PacketInfo) → SameChoice r (tcp_from_proxy r i).0
unfolding tcp_from_proxy
tcp_from_proxy-choice r i = ground (arith, close_tcp-choice r (reply_key i) i)

udp_from_proxy-choice :
    (r : SocksLocalRouter) (i : PacketInfo) → SameChoice r (udp_from_proxy r i).0
unfolding udp_from_proxy
udp_from_proxy-choice r i = ground arith

close_tcp-OneEach :
    (r : SocksLocalRouter) (key : TcpKey) (i : PacketInfo) → OneEach r → OneEach (close_tcp r key i)
unfolding close_tcp
close_tcp-OneEach r key i u = ground (arith, remove-IsMap tcp_discrete key r.tcp_connections u)

open_tcp-OneEach :
    (r : SocksLocalRouter) (i : PacketInfo) (p : ℕ) → OneEach r → OneEach (open_tcp r i p)
unfolding open_tcp
open_tcp-OneEach r i p u =
    let entry : TcpPortMapping = record {
      dst_ip = i.dst_ip;
      dst_port = i.dst_port;
      proxy_port = p;
    } in
    or_insert-IsMap tcp_discrete (client_key i) entry r.tcp_connections u

tcp_from_proxy-OneEach :
    (r : SocksLocalRouter) (i : PacketInfo) → OneEach r → OneEach (tcp_from_proxy r i).0
unfolding tcp_from_proxy
tcp_from_proxy-OneEach r i u = ground (arith, close_tcp-OneEach r (reply_key i) i u)

module _ (find_process_path : Bool → SocketAddr → SocketAddr → Option Text) where
  tcp_syn-OneEach :
      (r : SocksLocalRouter) (i : PacketInfo)
      → OneEach r
      → OneEach (tcp_syn find_process_path r i).0
  unfolding tcp_syn
  tcp_syn-OneEach r i u = ground (arith, open_tcp-OneEach r i (tcp_port_of find_process_path r i) u)

  tcp_established-OneEach :
      (r : SocksLocalRouter) (i : PacketInfo)
      → OneEach r
      → OneEach (tcp_established find_process_path r i).0
  unfolding tcp_established
  tcp_established-OneEach r i u = ground (arith, close_tcp-OneEach r (client_key i) i u)

  process_tcp_payload-choice :
      (r : SocksLocalRouter) (i : PacketInfo)
      → SameChoice r (process_tcp_payload find_process_path r i).0
  unfolding process_tcp_payload tcp_syn tcp_established open_tcp
  process_tcp_payload-choice r i = ground (
    arith,
    close_tcp-choice r (client_key i) i,
    tcp_from_proxy-choice (tcp_syn find_process_path r i).0 i,
    tcp_from_proxy-choice (tcp_established find_process_path r i).0 i,
  )

  process_tcp_payload-OneEach :
      (r : SocksLocalRouter) (i : PacketInfo)
      → OneEach r
      → OneEach (process_tcp_payload find_process_path r i).0
  unfolding process_tcp_payload
  process_tcp_payload-OneEach r i u =
      let s = tcp_syn-OneEach r i u in
      let e = tcp_established-OneEach r i u in
      ground (
        arith,
        tcp_from_proxy-OneEach (tcp_syn find_process_path r i).0 i s,
        tcp_from_proxy-OneEach (tcp_established find_process_path r i).0 i e,
      )

  process_udp_payload-choice :
      (r : SocksLocalRouter) (i : PacketInfo) (now : ℕ)
      → SameChoice r (process_udp_payload find_process_path r i now).0
  unfolding process_udp_payload udp_lookup
  process_udp_payload-choice r i now = ground (arith, udp_from_proxy-choice r i)

module _ (find_process_path : ℕ → Bool → SocketAddr → SocketAddr → Option Text) where
  step-choice : (r : SocksLocalRouter) (e : Event) → SameChoice r (step find_process_path r e)
  unfolding step cleanup_stale_udp_endpoints
  step-choice r (tcp i at) = process_tcp_payload-choice (find_process_path at) r i
  step-choice r (udp i now) = process_udp_payload-choice (find_process_path now) r i now
  step-choice r (cleanup now) = (refl, refl, refl)

  step-OneEach :
      (r : SocksLocalRouter) (e : Event) → OneEach r → OneEach (step find_process_path r e)
  unfolding step cleanup_stale_udp_endpoints
  step-OneEach r (tcp i at) u = process_tcp_payload-OneEach (find_process_path at) r i u
  step-OneEach r (udp i now) u = rw (process_udp_payload-tcp (find_process_path now) r i now) u
  step-OneEach r (cleanup now) u = u

  -- Whatever packets and clean-ups the router handles, the proxies, their names and whether the router
  -- is active stay.
  pub run-choice :
      (r : SocksLocalRouter) (es : List Event) → SameChoice r (run find_process_path r es)
  unfolding run
  run-choice r [] = (refl, refl, refl)
  run-choice r (e ∷ es) =
      let here = step-choice r e in
      let later = run-choice (step find_process_path r e) es in
      (later.0 ∙ here.0, later.1 ∙ here.1, later.2 ∙ here.2)

  pub run-OneEach :
      (r : SocksLocalRouter) (es : List Event) → OneEach r → OneEach (run find_process_path r es)
  unfolding run
  run-OneEach r [] u = u
  run-OneEach r (e ∷ es) u = run-OneEach (step find_process_path r e) es (step-OneEach r e u)

module _ (find_process_path : Bool → SocketAddr → SocketAddr → Option Text) where
  -- The port that a packet's process gets is that of a router with the same choice.
  pub tcp_port_of-SameChoice :
      (r s : SocksLocalRouter) (i : PacketInfo)
      → SameChoice r s
      → tcp_port_of find_process_path s i ≡ tcp_port_of find_process_path r i
  unfolding tcp_port_of get_proxy_port_tcp
  tcp_port_of-SameChoice r s i (p, n, a) = rw (p, n) refl

  pub udp_port_of-SameChoice :
      (r s : SocksLocalRouter) (i : PacketInfo)
      → SameChoice r s
      → udp_port_of find_process_path s i ≡ udp_port_of find_process_path r i
  unfolding udp_port_of get_proxy_port_udp
  udp_port_of-SameChoice r s i (p, n, a) = rw (p, n) refl
