-- ===== src/Proxy/Protocol.antt =====
-- The messages of RFC 1928 and RFC 1929 as bytes, written out without the code that sends them.
use proxifyre_rs.Net.{IpAddr, SocketAddr, ip, is_unspecified, to_ipv4}
use proxifyre_rs.Prelude.{
  ℕ, ◌/◌, ◌%◌, ◌≡◌, refl, Bool, true, false, Option, none, some, List, [], ◌∷◌, ◌++◌, length,
  as_bytes, if◌then◌else◌,
}
use proxifyre_rs.Proxy.Codec.{
  encode_addr, build_udp_request, maybe_map_ipv4_to_ipv6_mapped, normalize_udp_relay, relay_v4,
  relay_v6,
}
use proxifyre_rs.Proxy.Dialer.{Socks5Auth}

-- Version 5; no authentication, and user name with password where there are credentials.
abbrev pub offered : Option Socks5Auth → List ℕ
offered none = 5 ∷ 1 ∷ 0 ∷ []
offered (some auth) = 5 ∷ 2 ∷ 0 ∷ 2 ∷ []

-- The message of RFC 1929.
abbrev pub credentials : Socks5Auth → List ℕ
credentials auth =
    1
    ∷ length (as_bytes auth.username)
    ∷ (as_bytes auth.username ++ length (as_bytes auth.password) ∷ as_bytes auth.password)

-- The kind of an address, its octets, and the port with its high byte first.
abbrev pub address_bytes : SocketAddr → List ℕ
address_bytes (SocketAddr.v4 a p) = 1 ∷ a.a ∷ a.b ∷ a.c ∷ a.d ∷ p / 256 ∷ p % 256 ∷ []
address_bytes (SocketAddr.v6 a p flow scope) = 4 ∷ (a.octets ++ p / 256 ∷ p % 256 ∷ [])

-- The address that stands for a destination: ::ffff:a.b.c.d for a.b.c.d, where these are wanted.
abbrev pub reached : Bool → SocketAddr → SocketAddr
reached false dst = dst
reached true (SocketAddr.v4 a p) =
    SocketAddr.v6
      (record {
        octets = 0 ∷ 0 ∷ 0 ∷ 0 ∷ 0 ∷ 0 ∷ 0 ∷ 0 ∷ 0 ∷ 0 ∷ 255 ∷ 255 ∷ a.a ∷ a.b ∷ a.c ∷ a.d ∷ [];
      })
      p 0 0
reached true (SocketAddr.v6 a p flow scope) = SocketAddr.v6 a p flow scope

-- CONNECT for a destination.
abbrev pub connect_request : Bool → SocketAddr → List ℕ
connect_request mapped dst = 5 ∷ 1 ∷ 0 ∷ address_bytes (reached mapped dst)

-- UDP ASSOCIATE for 0.0.0.0:0.
abbrev pub associate_request : List ℕ
associate_request = 5 ∷ 3 ∷ 0 ∷ 1 ∷ 0 ∷ 0 ∷ 0 ∷ 0 ∷ 0 ∷ 0 ∷ []

-- A reply that grants the request, with the address that the server has bound.
abbrev pub granted : SocketAddr → List ℕ
granted bound = 5 ∷ 0 ∷ 0 ∷ address_bytes bound

-- A datagram for a destination.
abbrev pub datagram_bytes : SocketAddr → List ℕ → List ℕ
datagram_bytes dst payload = 0 ∷ 0 ∷ 0 ∷ (address_bytes dst ++ payload)

pub maybe_map_ipv4_to_ipv6_mapped_lem :
    (mapped : Bool) (dst : SocketAddr)
    → maybe_map_ipv4_to_ipv6_mapped dst mapped ≡ reached mapped dst
unfolding maybe_map_ipv4_to_ipv6_mapped
maybe_map_ipv4_to_ipv6_mapped_lem false dst = refl
maybe_map_ipv4_to_ipv6_mapped_lem true (SocketAddr.v4 a p) = refl
maybe_map_ipv4_to_ipv6_mapped_lem true (SocketAddr.v6 a p flow scope) = refl

pub encode_addr_lem :
    (buf : List ℕ) (dst : SocketAddr) → encode_addr buf dst ≡ buf ++ address_bytes dst
unfolding encode_addr
encode_addr_lem buf (SocketAddr.v4 a p) = refl
encode_addr_lem buf (SocketAddr.v6 a p flow scope) = refl

pub build_udp_request_lem :
    (buf : List ℕ) (dst : SocketAddr) (payload : List ℕ)
    → build_udp_request buf dst payload ≡ datagram_bytes dst payload
unfolding build_udp_request encode_addr
build_udp_request_lem buf (SocketAddr.v4 a p) payload = refl
build_udp_request_lem buf (SocketAddr.v6 a p flow scope) payload = refl

-- The relay with the proxy's host for its own, in the relay's kind of address; an IPv6 host that
-- stands for no IPv4 address leaves it as it is.
abbrev pub own_host : SocketAddr → IpAddr → SocketAddr
own_host (SocketAddr.v4 b p) (IpAddr.v4 a) = SocketAddr.v4 a p
own_host (SocketAddr.v4 b p) (IpAddr.v6 a) = elim (to_ipv4 a) [
  | none ↦ SocketAddr.v4 b p
  | some c ↦ SocketAddr.v4 c p
]
own_host (SocketAddr.v6 b p flow scope) (IpAddr.v6 a) = SocketAddr.v6 a p 0 0
own_host (SocketAddr.v6 b p flow scope) (IpAddr.v4 a) = reached true (SocketAddr.v4 a p)

-- Where the relay of a reply is, with a proxy at this address.
abbrev pub relay_of : SocketAddr → SocketAddr → SocketAddr
relay_of bound proxy_addr =
    if is_unspecified (ip bound) then own_host bound (ip proxy_addr) else bound

pub normalize_udp_relay_lem :
    (bound proxy_addr : SocketAddr)
    → normalize_udp_relay bound proxy_addr ≡ relay_of bound proxy_addr
unfolding normalize_udp_relay relay_v4 relay_v6
normalize_udp_relay_lem (SocketAddr.v4 b p) (SocketAddr.v4 a q) = refl
normalize_udp_relay_lem (SocketAddr.v4 b p) (SocketAddr.v6 a q f s) = refl
normalize_udp_relay_lem (SocketAddr.v6 b p flow scope) (SocketAddr.v4 a q) = refl
normalize_udp_relay_lem (SocketAddr.v6 b p flow scope) (SocketAddr.v6 a q f s) = refl
