-- ===== src/Relay/Batches.antt =====
-- The packet loop in front of the relay: from the bytes that the loop reads to the request that the
-- SOCKS5 server gets.
use mathlib.Core.Path.{fun_ext}
use proxifyre_rs.HashMap.{get, IsMap}
use proxifyre_rs.Net.{SocketAddr, socket_addr, IsAddr}
use proxifyre_rs.Prelude.{
  ℕ, ◌≡◌, ◌≢◌, refl, sym, ap, ◌∙◌, Bool, true, not, ◌&&◌, Option, none, some, List, [], ◌∷◌, ◌++◌,
  Text,
}
use proxifyre_rs.Proxy.Codec.{Resolver}
use proxifyre_rs.Proxy.Dialer.{Socks5Dialer}
use proxifyre_rs.Proxy.Handler.{handle_tcp_connection}
use proxifyre_rs.Proxy.Session.{Io}
use proxifyre_rs.Proxy.Session.Accepts.{Accepts}
use proxifyre_rs.Proxy.Protocol.{granted, connect_request}
use proxifyre_rs.Proxy.Stream.{finished, talk}
use proxifyre_rs.Relay.{connection_reaches_destination}
use proxifyre_rs.Router.Adapter.Events.{forget, run-append, run-forget}
use proxifyre_rs.Router.Adapter.Loop.{Session, run_packet_loop, session_events, run_packet_loop-run}
use proxifyre_rs.Router.Flow.Kept.{run-choice, run-OneEach, tcp_port_of-SameChoice}
use proxifyre_rs.Router.Flow.Rewritten.{rewritten}
use proxifyre_rs.Router.Flow.Session.{AllSpare}
use proxifyre_rs.Router.Flow.{
  client_key, tcp_port_of, process_tcp_payload, normalize_mapped_ipv6, query_tcp, Event, step, run,
}
use proxifyre_rs.Router.PacketInfo.{PacketInfo, PortRewrite, src, dst}
use proxifyre_rs.Router.State.{SocksLocalRouter, tcp_discrete}
use proxifyre_rs.Router.Wire.{Wire}

query_tcp-forget : (r : SocksLocalRouter) → query_tcp (forget r) ≡ query_tcp r
unfolding query_tcp forget
query_tcp-forget r = fun_ext (λ peer. fun_ext (λ local. refl))

module _ (w : Wire) (find_process_path : ℕ → Bool → SocketAddr → SocketAddr → Option Text) where
  -- The proxy's queries after the packet loop are those after the run over its events.
  query_tcp-loop :
      (r : SocksLocalRouter) (ss : List Session) (pre es : List Event) (i : PacketInfo) (at : ℕ)
      → session_events w ss ≡ pre ++ (Event.tcp i at ∷ es)
      → let q = run find_process_path r pre in
        query_tcp (run_packet_loop w find_process_path r ss).0
        ≡ query_tcp (run find_process_path (process_tcp_payload (find_process_path at) q i).0 es)
  unfolding run step
  query_tcp-loop r ss pre es i at e =
      let f = find_process_path in
      sym (query_tcp-forget (run_packet_loop w f r ss).0)
      ∙ ap query_tcp (
          run_packet_loop-run w f r ss
          ∙ ap (run f (forget r)) e
          ∙ sym (run-forget f r (pre ++ (Event.tcp i at ∷ es)))
          ∙ ap forget (run-append f r pre (Event.tcp i at ∷ es)))
      ∙ query_tcp-forget (run f (process_tcp_payload (find_process_path at) (run f r pre) i).0 es)

  -- The packet loop reads a SYN of a process to be proxied, for a connection that is not in the table
  -- by then, and after it no packet that ends the connection. Whatever else it reads before and
  -- after, in whatever batches and sessions, the transparent proxy, for the connection that it
  -- accepts from the redirected packets after the loop, starts a dialogue with its SOCKS5 server;
  -- with a server that accepts the handshake and grants the request, that dialogue succeeds, and
  -- what has been sent after the handshake is the bytes of a CONNECT for the very destination that the process
  -- called (for ::ffff:a.b.c.d towards an IPv6 server, where it called a.b.c.d).
  pub loop_reaches_destination :
      (r : SocksLocalRouter) (ss : List Session) (pre es : List Event) (i : PacketInfo) (at : ℕ)
      (d : Socks5Dialer) (names : Resolver) (peer local bound : SocketAddr) (rest : List ℕ)
      {server client : List ℕ}
      → session_events w ss ≡ pre ++ (Event.tcp i at ∷ es)
      → IsMap tcp_discrete r.tcp_connections
      → get tcp_discrete (client_key i) (run find_process_path r pre).tcp_connections ≡ none
      → (i.syn && not i.ack) ≡ true
      → tcp_port_of (find_process_path at) r i ≢ 0
      → AllSpare (client_key i) es
      → normalize_mapped_ipv6 peer
        ≡ src (rewritten (PortRewrite.to_proxy (tcp_port_of (find_process_path at) r i)) i)
      → normalize_mapped_ipv6 local
        ≡ dst (rewritten (PortRewrite.to_proxy (tcp_port_of (find_process_path at) r i)) i)
      → Accepts d.auth server client
      → IsAddr bound
      → let r' = (run_packet_loop w find_process_path r ss).0 in
        (dialogue : Io (Unit {0})) × (handle_tcp_connection
            (query_tcp r')
            names
            d
            (some peer)
            (some local)
          ≡ some dialogue)
        × (talk dialogue (server ++ (granted bound ++ rest)) [] ≡ (
          client ++ connect_request d.prefer_ipv4_mapped_ipv6 (socket_addr i.dst_ip i.dst_port),
          finished tt rest,
        ))
  loop_reaches_destination r ss pre es i at d names peer local bound rest e unique new is_syn
        has_proxy spare ep el accepts is_addr =
      let f = find_process_path in
      let choice = run-choice f r pre in
      let one = run-OneEach f r pre unique in
      let port = tcp_port_of-SameChoice (f at) r (run f r pre) i choice in
      let to = λ (p : ℕ). rewritten (PortRewrite.to_proxy p) i in
      let (dialogue, started, talked) =
        connection_reaches_destination f at (run f r pre) i d names es peer local bound rest one new
          is_syn (λ q. has_proxy (sym port ∙ q)) spare (ep ∙ ap (λ p. src (to p)) (sym port))
          (el ∙ ap (λ p. dst (to p)) (sym port)) accepts is_addr in
      (
        dialogue,
        ap (λ q. handle_tcp_connection q names d (some peer) (some local))
              (query_tcp-loop r ss pre es i at e)
            ∙ started,
        talked,
      )
