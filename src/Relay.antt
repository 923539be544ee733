-- ===== src/Relay.antt =====
-- The router, the transparent proxy and the SOCKS5 client together: a TCP connection from the SYN of
-- a proxied process to the request that the SOCKS5 server gets.
pub mod Batches
pub mod Datagrams
pub mod Replies
pub mod Answers
use proxifyre_rs.HashMap.{get, IsMap}
use proxifyre_rs.Net.{SocketAddr, socket_addr, IsAddr}
use proxifyre_rs.Prelude.{
  ℕ, ◌≡◌, ◌≢◌, refl, Bool, true, not, ◌&&◌, Option, none, some, List, [], ◌++◌, Text,
}
use proxifyre_rs.Proxy.Codec.{Resolver, maybe_map_ipv4_to_ipv6_mapped}
use proxifyre_rs.Proxy.Dialer.{Socks5Dialer}
use proxifyre_rs.Proxy.Handler.{handle_tcp_connection}
use proxifyre_rs.Proxy.Session.{Io, connect, connect_tcp}
use proxifyre_rs.Proxy.Session.Accepts.{Accepts, connect_tcp-Accepts}
use proxifyre_rs.Proxy.Protocol.{granted, connect_request}
use proxifyre_rs.Proxy.Stream.{finished, talk}
use proxifyre_rs.Router.Flow.Rewritten.{rewritten}
use proxifyre_rs.Router.Flow.Session.{AllSpare, query_tcp-run}
use proxifyre_rs.Router.Flow.{
  client_key, tcp_port_of, process_tcp_payload, normalize_mapped_ipv6, query_tcp, Event, run,
}
use proxifyre_rs.Router.PacketInfo.{PacketInfo, PortRewrite, src, dst}
use proxifyre_rs.Router.State.{SocksLocalRouter, tcp_discrete}

module _ (find_process_path : ℕ → Bool → SocketAddr → SocketAddr → Option Text) where
  -- A process to be proxied opens a connection which is not in the table. While no packet ends it,
  -- the transparent proxy, for the connection that it accepts from the redirected packets, starts a
  -- dialogue with its SOCKS5 server; with a server that accepts the handshake and grants the
  -- request, that dialogue succeeds, and what has been sent after the handshake is the bytes of
  -- a CONNECT for the very destination that the process called (for ::ffff:a.b.c.d towards an IPv6
  -- server, where it called a.b.c.d).
  pub connection_reaches_destination :
      (at : ℕ) (r : SocksLocalRouter) (i : PacketInfo) (d : Socks5Dialer) (names : Resolver)
      (es : List Event) (peer local bound : SocketAddr) (rest : List ℕ) {server client : List ℕ}
      → IsMap tcp_discrete r.tcp_connections
      → get tcp_discrete (client_key i) r.tcp_connections ≡ none
      → (i.syn && not i.ack) ≡ true
      → tcp_port_of (find_process_path at) r i ≢ 0
      → AllSpare (client_key i) es
      → normalize_mapped_ipv6 peer
        ≡ src (rewritten (PortRewrite.to_proxy (tcp_port_of (find_process_path at) r i)) i)
      → normalize_mapped_ipv6 local
        ≡ dst (rewritten (PortRewrite.to_proxy (tcp_port_of (find_process_path at) r i)) i)
      → Accepts d.auth server client
      → IsAddr bound
      → let r' = run find_process_path (process_tcp_payload (find_process_path at) r i).0 es in
        (dialogue : Io (Unit {0})) × (handle_tcp_connection
            (query_tcp r')
            names
            d
            (some peer)
            (some local)
          ≡ some dialogue)
        × (talk dialogue (server ++ (granted bound ++ rest)) [] ≡ (
          client ++ connect_request d.prefer_ipv4_mapped_ipv6 (socket_addr i.dst_ip i.dst_port),
          finished tt rest,
        ))
  unfolding handle_tcp_connection
  connection_reaches_destination at r i d names es peer local bound rest unique new is_syn has_proxy
        spare ep el accepts is_addr =
      let asked =
        (query_tcp-run find_process_path at r i unique new is_syn has_proxy es peer local spare ep
          el).1 in
      (
        connect_tcp names d (socket_addr i.dst_ip i.dst_port),
        rw (asked, handle_tcp_connection) refl,
        connect_tcp-Accepts names d (socket_addr i.dst_ip i.dst_port) bound rest accepts is_addr,
      )
