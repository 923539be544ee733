-- ===== src/Proxy/Handler.antt =====
-- `handle_tcp_connection` of proxy/transparent_proxy.rs, up to the copying of bytes.
use proxifyre_rs.Net.{IpAddr, SocketAddr, socket_addr}
use proxifyre_rs.Prelude.{ℕ, Option, none, some, Result, ok, err}
use proxifyre_rs.Proxy.Codec.{Resolver}
use proxifyre_rs.Proxy.Dialer.{Socks5Dialer}
use proxifyre_rs.Proxy.Session.{Io, connect_tcp}

-- `peer` and `local` are the addresses of the accepted connection, `none` of an error. The result is
-- the dialogue with the SOCKS5 server, `none` where the connection is dropped before one.
unfoldable pub handle_tcp_connection :
    {Q : Type 0}
    → (SocketAddr → SocketAddr → Result Q (IpAddr × ℕ))
    → Resolver
    → Socks5Dialer
    → Option SocketAddr
    → Option SocketAddr
    → Option (Io (Unit {0}))
handle_tcp_connection query r d none local = none
handle_tcp_connection query r d (some peer) none = none
handle_tcp_connection query r d (some peer) (some local) = elim (query peer local) [
  | err e ↦ none
  | ok (dst_ip, dst_port) ↦ some (connect_tcp r d (socket_addr dst_ip dst_port))
]
