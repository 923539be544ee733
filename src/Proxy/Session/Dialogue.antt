-- ===== src/Proxy/Session/Dialogue.antt =====
-- Whole dialogues with a server, byte by byte.
use proxifyre_rs.Prelude.{
  ℕ, ◌≤◌, ◌≡◌, sym, ap, Bool, ◌∙◌, Option, some, List, [], ◌∷◌, ◌++◌, length, to_be_bytes,
  from_be_bytes-to_be_bytes, append_assoc, arith, as_bytes,
}
use proxifyre_rs.Net.{Ipv4Addr, Ipv6Addr, IpAddr, SocketAddr, socket_addr, IsAddr, unspecified_v4}
use proxifyre_rs.Proxy.Codec.RoundTrip.{on_wire}
use proxifyre_rs.Proxy.Codec.{Resolver, encode_addr, maybe_map_ipv4_to_ipv6_mapped}
use proxifyre_rs.Proxy.Protocol.{
  offered, credentials, address_bytes, connect_request, associate_request, granted, encode_addr_lem,
  maybe_map_ipv4_to_ipv6_mapped_lem,
}
use proxifyre_rs.Proxy.Dialer.{Socks5Auth}
use proxifyre_rs.Proxy.Session.{
  Command, connect, udp_associate, Io, as_byte, username_password_auth, other_method, handshake,
  read_port, read_v4, read_v6, read_addr_with_atyp, read_reply, send_request,
}
use proxifyre_rs.Proxy.Stream.{pure, ◌>>=◌, finished, talk, talk-read, talk->>=}

-- What the server says when it accepts "no authentication".
pub handshake_plain :
    (auth : Option Socks5Auth) (rest sent : List ℕ)
    → talk (handshake auth) (5 ∷ 0 ∷ rest) sent ≡ (sent ++ offered auth, finished tt rest)
unfolding handshake talk
handshake_plain auth rest sent = ground arith

pub handshake_login :
    (auth : Socks5Auth) (v : ℕ) (rest sent : List ℕ)
    → length (as_bytes auth.username) ≤ 255
    → length (as_bytes auth.password) ≤ 255
    → talk (handshake (some auth)) (v ∷ 2 ∷ 1 ∷ 0 ∷ rest) sent
      ≡ (sent ++ offered (some auth) ++ credentials auth, finished tt rest)
unfolding handshake other_method username_password_auth talk
handshake_login auth v rest sent hu hp = ground arith

read_port-talk :
    (p : ℕ) (rest sent : List ℕ)
    → talk read_port (to_be_bytes p ++ rest) sent ≡ (sent, finished p rest)
unfolding read_port talk
read_port-talk p rest sent = ground (arith, from_be_bytes-to_be_bytes p)

-- The end of `read_v6`.
abbrev ending : List ℕ → ℕ → Io SocketAddr
ending octets p = pure (socket_addr (IpAddr.v6 (record { octets = octets })) p)

read_v6-talk :
    (a : Ipv6Addr) (p : ℕ) (rest sent : List ℕ)
    → length a.octets ≡ 16
    → talk read_v6 (a.octets ++ (to_be_bytes p ++ rest)) sent
      ≡ (sent, finished (SocketAddr.v6 a p 0 0) rest)
unfolding read_v6 talk
read_v6-talk a p rest sent h =
    talk-read 16 (λ o. read_port >>= ending o) a.octets (to_be_bytes p ++ rest) sent (sym h)
    ∙ talk->>= read_port (ending a.octets) (to_be_bytes p ++ rest) sent (read_port-talk p rest sent)

module _ (r : Resolver) where
  read_reply_v4 :
      (a : Ipv4Addr) (p : ℕ) (rest sent : List ℕ)
      → talk (read_reply r) (granted (SocketAddr.v4 a p) ++ rest) sent
        ≡ (sent, finished (SocketAddr.v4 a p) rest)
  unfolding read_reply read_addr_with_atyp read_v4 read_port talk encode_addr
  read_reply_v4 a p rest sent = ground (arith, from_be_bytes-to_be_bytes p)

  read_reply-granted_v6 :
      (rest sent : List ℕ)
      → talk (read_reply r) (5 ∷ 0 ∷ 0 ∷ 4 ∷ rest) sent ≡ talk read_v6 rest sent
  unfolding read_reply read_addr_with_atyp talk
  read_reply-granted_v6 rest sent = ground arith

  read_reply_v6 :
      (a : Ipv6Addr) (p f s : ℕ) (rest sent : List ℕ)
      → length a.octets ≡ 16
      → talk (read_reply r) (granted (SocketAddr.v6 a p f s) ++ rest) sent
        ≡ (sent, finished (SocketAddr.v6 a p 0 0) rest)
  unfolding encode_addr
  read_reply_v6 a p f s rest sent h = rw (append_assoc a.octets (to_be_bytes p) rest) (
      read_reply-granted_v6 (a.octets ++ (to_be_bytes p ++ rest)) sent
      ∙ read_v6-talk a p rest sent h)

  -- A reply in the form of RFC 1928 is read back: the address that the server has bound, as it is
  -- on the wire. Exactly the reply is read, and nothing is sent.
  pub read_reply-granted :
      (bound : SocketAddr) (rest sent : List ℕ)
      → IsAddr bound
      → talk (read_reply r) (granted bound ++ rest) sent ≡ (sent, finished (on_wire bound) rest)
  read_reply-granted (SocketAddr.v4 a p) rest sent h = read_reply_v4 a p rest sent
  read_reply-granted (SocketAddr.v6 a p f s) rest sent h = read_reply_v6 a p f s rest sent h.0.1

  send_request-granted :
      (cmd : Command) (dst bound : SocketAddr) (rest sent : List ℕ)
      → IsAddr bound
      → talk (send_request r cmd dst) (granted bound ++ rest) sent
        ≡ (sent ++ 5 ∷ as_byte cmd ∷ 0 ∷ address_bytes dst, finished (on_wire bound) rest)
  unfolding send_request talk
  send_request-granted cmd dst bound rest sent h =
      let bytes : encode_addr (5 ∷ as_byte cmd ∷ 0 ∷ []) dst
          ≡ 5 ∷ as_byte cmd ∷ 0 ∷ address_bytes dst =
        encode_addr_lem (5 ∷ as_byte cmd ∷ 0 ∷ []) dst in
      read_reply-granted bound rest (sent ++ encode_addr (5 ∷ as_byte cmd ∷ 0 ∷ []) dst) h
      ∙ ap (λ bs. (sent ++ bs, finished (on_wire bound) rest)) bytes

  -- A CONNECT that is granted.
  pub send_connect-granted :
      (dst bound : SocketAddr) (mapped : Bool) (rest sent : List ℕ)
      → IsAddr bound
      → talk
          (send_request r connect (maybe_map_ipv4_to_ipv6_mapped dst mapped))
          (granted bound ++ rest)
          sent
        ≡ (sent ++ connect_request mapped dst, finished (on_wire bound) rest)
  unfolding as_byte
  send_connect-granted dst bound mapped rest sent h =
      send_request-granted connect (maybe_map_ipv4_to_ipv6_mapped dst mapped) bound rest sent h
      ∙ ap (λ a. (sent ++ 5 ∷ 1 ∷ 0 ∷ address_bytes a, finished (on_wire bound) rest))
          (maybe_map_ipv4_to_ipv6_mapped_lem mapped dst)

  -- A UDP ASSOCIATE that is granted.
  pub send_associate-granted :
      (bound : SocketAddr) (rest sent : List ℕ)
      → IsAddr bound
      → talk
          (send_request r udp_associate (SocketAddr.v4 unspecified_v4 0))
          (granted bound ++ rest)
          sent
        ≡ (sent ++ associate_request, finished (on_wire bound) rest)
  unfolding as_byte
  send_associate-granted bound rest sent h =
      send_request-granted udp_associate (SocketAddr.v4 unspecified_v4 0) bound rest sent h
