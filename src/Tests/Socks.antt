-- ===== src/Tests/Socks.antt =====
-- A dialogue with a SOCKS5 server, and a datagram to and from its relay.
use proxifyre_rs.Prelude.{
  ℕ, ◌≡◌, ◌≢◌, refl, none, some, List, [], ◌∷◌, ◌++◌, ok, err, length, take, drop, leb, false,
  arith, codes, replicate, as_bytes, if◌then◌else◌,
}
use proxifyre_rs.Net.{SocketAddr, IsAddr, unspecified_v4}
use proxifyre_rs.Proxy.Buffer.{panic}
use proxifyre_rs.Proxy.Codec.{
  Resolver, build_udp_request, parse_udp_response, recv_datagram, normalize_udp_relay, relay_v4,
}
use proxifyre_rs.Proxy.Codec.RoundTrip.{
  parse_udp_response-build_udp_request, recv_datagram-build_udp_request, header_length, on_wire,
}
use proxifyre_rs.Proxy.Codec.NoPanic.{recv_datagram-ne-panic}
use proxifyre_rs.Proxy.Dialer.{Socks5Auth, Socks5Dialer}
use proxifyre_rs.Proxy.Session.{handshake, connect_tcp, associate_udp}
use proxifyre_rs.Proxy.Session.Accepts.{
  Accepts, login, Explained, connect_tcp-Accepts, associate_udp-Accepts, handshake-Explained,
}
use proxifyre_rs.Proxy.Protocol.{
  offered, credentials, granted, connect_request, associate_request, relay_of,
}
use proxifyre_rs.Proxy.Stream.{talk, finished}
use proxifyre_rs.Proxy.Stream.Conn.{TcpStream, exec, Follows, exec-Follows}

abbrev resolver : Resolver
resolver = record {
  from_utf8_lossy = λ bytes. codes "localhost";
  to_socket_addrs = λ name. none;
  lookup_host = λ name port. none;
}

abbrev user : Socks5Auth
user = record { username = codes "user"; password = codes "secret" }

abbrev dialer : Socks5Dialer
dialer = record {
  proxy_addr = SocketAddr.v4 (record { a = 203; b = 0; c = 113; d = 1 }) 1080;
  auth = some user;
  prefer_ipv4_mapped_ipv6 = false;
}

abbrev target : SocketAddr
target = SocketAddr.v4 (record { a = 192; b = 0; c = 2; d = 10 }) 443

target-IsAddr : IsAddr target
target-IsAddr = ground arith

abbrev relay : SocketAddr
relay = SocketAddr.v4 unspecified_v4 1081

relay-IsAddr : IsAddr relay
relay-IsAddr = ground arith

-- The stream as the two lists of bytes.
abbrev two_lists : TcpStream (Unit {0})
two_lists = record {
  Conn = List ℕ × List ℕ;
  incoming = λ c. c.0;
  sent = λ c. c.1;
  write_all = λ bytes c. ok (c.0, c.1 ++ bytes);
  read_exact = λ n c. if leb n (length c.0) then ok (take n c.0, (drop n c.0, c.1)) else err tt;
  write_all_lem = λ bytes c. ((c.0, c.1 ++ bytes), refl, refl, refl);
  read_exact_lem = λ n c h. ((drop n c.0, c.1), ground arith, refl, refl);
  read_exact_eof = λ n c h. (tt, ground arith);
}

user-Accepts : Accepts (some user) (5 ∷ 2 ∷ 1 ∷ 0 ∷ []) (offered (some user) ++ credentials user)
unfolding as_bytes
user-Accepts = login (ground arith) (ground arith)

connect_tcp-Accepts_example :
    talk
      (connect_tcp resolver dialer target)
      ((5 ∷ 2 ∷ 1 ∷ 0 ∷ []) ++ (granted relay ++ 72 ∷ []))
      []
    ≡ (
      offered (some user) ++ credentials user ++ connect_request false target,
      finished tt (72 ∷ []),
    )
connect_tcp-Accepts_example =
    connect_tcp-Accepts resolver dialer target relay (72 ∷ []) user-Accepts relay-IsAddr

associate_udp-Accepts_example :
    talk (associate_udp resolver dialer) ((5 ∷ 2 ∷ 1 ∷ 0 ∷ []) ++ (granted relay ++ [])) [] ≡ (
      offered (some user) ++ credentials user ++ associate_request,
      finished (relay_of (on_wire relay) dialer.proxy_addr) [],
    )
associate_udp-Accepts_example =
    associate_udp-Accepts resolver dialer relay [] user-Accepts relay-IsAddr

-- The relay is then at the proxy's own host.
associated_relay :
    normalize_udp_relay (on_wire relay) dialer.proxy_addr
    ≡ SocketAddr.v4 (record { a = 203; b = 0; c = 113; d = 1 }) 1081
unfolding normalize_udp_relay relay_v4
associated_relay = ground arith

handshake-Explained_example :
    Explained
      (some user)
      (5 ∷ 2 ∷ 1 ∷ [])
      ((talk (handshake (some user)) (5 ∷ 2 ∷ 1 ∷ []) []).0)
      ((talk (handshake (some user)) (5 ∷ 2 ∷ 1 ∷ []) []).1)
    × ((server client rest : List ℕ)
        → 5 ∷ 2 ∷ 1 ∷ [] ≡ server ++ rest
        → Accepts (some user) server client
        → talk (handshake (some user)) (5 ∷ 2 ∷ 1 ∷ []) [] ≡ (client, finished tt rest))
handshake-Explained_example = handshake-Explained (some user) (5 ∷ 2 ∷ 1 ∷ [])

exec-Follows_example :
    Follows two_lists
      (exec two_lists (connect_tcp resolver dialer target) ((5 ∷ 0 ∷ []), []))
      (talk (connect_tcp resolver dialer target) (5 ∷ 0 ∷ []) [])
exec-Follows_example =
    exec-Follows two_lists (connect_tcp resolver dialer target) ((5 ∷ 0 ∷ []), [])

recv_datagram-build_udp_request_example :
    let packet = build_udp_request [] target (1 ∷ 2 ∷ []) in
    recv_datagram resolver (replicate 20 0) packet
    ≡ ok (
      2,
      on_wire target,
      (1 ∷ 2 ∷ []) ++ drop 2 (packet ++ drop (length packet) (replicate 20 0)),
    )
recv_datagram-build_udp_request_example =
    recv_datagram-build_udp_request resolver target [] (replicate 20 0) (1 ∷ 2 ∷ []) target-IsAddr

parse_udp_response-build_udp_request_example :
    (parse_udp_response resolver (build_udp_request [] target (7 ∷ []))
      ≡ ok (header_length target, on_wire target))
    × (drop (header_length target) (build_udp_request [] target (7 ∷ [])) ≡ 7 ∷ [])
parse_udp_response-build_udp_request_example =
    parse_udp_response-build_udp_request resolver target [] (7 ∷ []) target-IsAddr

recv_datagram-ne-panic_example :
    recv_datagram resolver (replicate 8 0) (0 ∷ 0 ∷ 0 ∷ 3 ∷ 9 ∷ []) ≢ err panic
recv_datagram-ne-panic_example =
    recv_datagram-ne-panic resolver (replicate 8 0) (0 ∷ 0 ∷ 0 ∷ 3 ∷ 9 ∷ []) (ground arith)
