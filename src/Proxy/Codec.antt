-- ===== src/Proxy/Codec.antt =====
-- The datagrams and addresses of proxy/socks5.rs. Text from bytes and the name service are
-- parameters: `none` of a look-up is its error.
pub mod RoundTrip
pub mod NoPanic
pub mod Relayed
use proxifyre_rs.Prelude.{
  ℕ, ◌+◌, ◌-◌, Bool, true, false, not, ◌||◌, Option, none, some, List, [], ◌∷◌, ◌++◌, Result, ok,
  err, ◌>>=◌, ◌>>◌, fail_if, ok_or, Text, codes, decimal, if◌then◌else◌, ltb, ◌==◌, length, drop,
  to_be_bytes, from_be_bytes,
}
use proxifyre_rs.Net.{
  Ipv4Addr, Ipv6Addr, IpAddr, SocketAddr, socket_addr, octets_v4, ip, port, to_ipv6_mapped,
  is_unspecified_v4, is_unspecified_v6, to_ipv4,
}
use proxifyre_rs.Proxy.Buffer.{Failure, io, panic, index, slice, copy_within}

pub record Resolver : Type 0 where
  pub from_utf8_lossy : List ℕ → Text
  pub to_socket_addrs : Text → Option (List SocketAddr)
  pub lookup_host : Text → ℕ → Option (List SocketAddr)

pub data DatagramError : Type 0 where
  header_too_short reserved_bytes_not_zero fragmentation_not_supported : DatagramError
  ipv4_addr_truncated ipv6_addr_truncated domain_truncated domain_addr_truncated : DatagramError
  lookup_failed failed_to_resolve_domain : DatagramError
  unsupported_udp_address_type : ℕ → DatagramError

unfoldable pub encode_addr : List ℕ → SocketAddr → List ℕ
encode_addr buf (SocketAddr.v4 a p) = buf ++ (1 ∷ (octets_v4 a ++ to_be_bytes p))
encode_addr buf (SocketAddr.v6 a p flow scope) = buf ++ (4 ∷ (a.octets ++ to_be_bytes p))

-- The buffer is cleared first, so the result does not depend on it.
unfoldable pub build_udp_request : List ℕ → SocketAddr → List ℕ → List ℕ
unfolding encode_addr
build_udp_request buf dst payload =
    let buf : List ℕ = [] in encode_addr (buf ++ 0 ∷ 0 ∷ 0 ∷ []) dst ++ payload

abbrev pub Parsed : Type 0 → Type 0
Parsed A = Result (Failure DatagramError) A

unfoldable pub parse_v4 : List ℕ → Parsed (ℕ × SocketAddr)
parse_v4 buf = do
  fail_if (ltb (length buf) (4 + 4 + 2)) (io ipv4_addr_truncated)
  a ← index buf 4
  b ← index buf 5
  c ← index buf 6
  d ← index buf 7
  hi ← index buf 8
  lo ← index buf 9
  ok (10, socket_addr (IpAddr.v4 (record { a = a; b = b; c = c; d = d })) (from_be_bytes hi lo))

unfoldable pub parse_v6 : List ℕ → Parsed (ℕ × SocketAddr)
parse_v6 buf = do
  fail_if (ltb (length buf) (4 + 16 + 2)) (io ipv6_addr_truncated)
  octets ← slice buf 4 20
  hi ← index buf 20
  lo ← index buf 21
  ok (22, socket_addr (IpAddr.v6 (record { octets = octets })) (from_be_bytes hi lo))

-- `addrs.next()`
abbrev pub first : List SocketAddr → Option SocketAddr
first [] = none
first (a ∷ addrs) = some a

module _ (r : Resolver) where
  -- The length of the name is known.
  unfoldable pub parse_domain_tail : List ℕ → ℕ → Parsed (ℕ × SocketAddr)
  parse_domain_tail buf len = do
    fail_if (ltb (length buf) (5 + len + 2)) (io domain_addr_truncated)
    host ← slice buf 5 (5 + len)
    hi ← index buf (5 + len)
    lo ← index buf (5 + len + 1)
    addrs ←
        ok_or (r.to_socket_addrs (r.from_utf8_lossy host ++ b':' ∷ decimal (from_be_bytes hi lo)))
          (io lookup_failed)
    addr ← ok_or (first addrs) (io failed_to_resolve_domain)
    ok (5 + len + 2, addr)

  unfoldable pub parse_domain : List ℕ → Parsed (ℕ × SocketAddr)
  parse_domain buf = do
    fail_if (ltb (length buf) (4 + 1)) (io domain_truncated)
    len ← index buf 4
    parse_domain_tail buf len

  unfoldable pub parse_udp_response : List ℕ → Parsed (ℕ × SocketAddr)
  parse_udp_response buf = do
    fail_if (ltb (length buf) 4) (io header_too_short)
    b0 ← index buf 0
    b1 ← index buf 1
    fail_if (not (b0 == 0) || not (b1 == 0)) (io reserved_bytes_not_zero)
    b2 ← index buf 2
    fail_if (not (b2 == 0)) (io fragmentation_not_supported)
    atyp ← index buf 3
    if atyp == 1
        then parse_v4 buf
        else if atyp == 4
        then parse_v6 buf
        else if atyp == 3
        then parse_domain buf
        else err (io (unsupported_udp_address_type atyp))

  -- `recv_datagram` after the socket has written `packet` to the front of `buf`: the payload's
  -- length, the sender, and the buffer.
  unfoldable pub recv_datagram : List ℕ → List ℕ → Parsed (ℕ × SocketAddr × List ℕ)
  recv_datagram buf packet = do
    let n = length packet
    let filled = packet ++ drop n buf
    (payload_offset, addr) ← parse_udp_response packet
    moved ← copy_within filled payload_offset n
    ok (n - payload_offset, addr, moved)

unfoldable pub maybe_map_ipv4_to_ipv6_mapped : SocketAddr → Bool → SocketAddr
maybe_map_ipv4_to_ipv6_mapped addr false = addr
maybe_map_ipv4_to_ipv6_mapped (SocketAddr.v4 a p) true =
    socket_addr (IpAddr.v6 (to_ipv6_mapped a)) p
maybe_map_ipv4_to_ipv6_mapped (SocketAddr.v6 a p flow scope) true = SocketAddr.v6 a p flow scope

-- The arms with an unspecified relay, by the proxy's address.
unfoldable pub relay_v4 : SocketAddr → ℕ → IpAddr → SocketAddr
relay_v4 relay p (IpAddr.v4 a) = socket_addr (IpAddr.v4 a) p
relay_v4 relay p (IpAddr.v6 a) = elim (to_ipv4 a) [
  | none ↦ relay
  | some a4 ↦ socket_addr (IpAddr.v4 a4) p
]

unfoldable pub relay_v6 : ℕ → IpAddr → SocketAddr
relay_v6 p (IpAddr.v6 a) = socket_addr (IpAddr.v6 a) p
relay_v6 p (IpAddr.v4 a) = socket_addr (IpAddr.v6 (to_ipv6_mapped a)) p

unfoldable pub normalize_udp_relay : SocketAddr → SocketAddr → SocketAddr
unfolding relay_v4 relay_v6
normalize_udp_relay (SocketAddr.v4 a p) proxy_addr =
    if is_unspecified_v4 a
    then relay_v4 (SocketAddr.v4 a p) p (ip proxy_addr)
    else SocketAddr.v4 a p
normalize_udp_relay (SocketAddr.v6 a p flow scope) proxy_addr =
    if is_unspecified_v6 a then relay_v6 p (ip proxy_addr) else SocketAddr.v6 a p flow scope
