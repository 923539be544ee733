-- ===== src/Net.antt =====
-- std::net: addresses as the program uses them. An octet is a number below 256 and a port one
-- below 65536 (`IsAddr`).
use proxifyre_rs.Prelude.{
  ℕ, ◌<◌, ◌≡◌, refl, Bool, true, false, ◌||◌, ◌&&◌, leb, ◌==◌, get_or, Option, none, some, List, [],
  ◌∷◌, ◌++◌, ℕ_discrete, length, take, drop, replicate, AreBytes, bytes_eq, if◌then◌else◌,
}

pub record Ipv4Addr : Type 0 where
  pub a : ℕ
  pub b : ℕ
  pub c : ℕ
  pub d : ℕ

-- The sixteen octets.
pub record Ipv6Addr : Type 0 where
  pub octets : List ℕ

pub data IpAddr : Type 0 where
  v4 : Ipv4Addr → IpAddr
  v6 : Ipv6Addr → IpAddr

-- A V6 address carries its flow information and its scope beside the port.
pub data SocketAddr : Type 0 where
  v4 : Ipv4Addr → ℕ → SocketAddr
  v6 : Ipv6Addr → ℕ → ℕ → ℕ → SocketAddr

unfoldable pub ip_discrete : Discrete IpAddr
ip_discrete = hlevel ℕ_discrete

abbrev pub socket_addr : IpAddr → ℕ → SocketAddr
socket_addr (IpAddr.v4 a) p = SocketAddr.v4 a p
socket_addr (IpAddr.v6 a) p = SocketAddr.v6 a p 0 0

abbrev pub ip : SocketAddr → IpAddr
ip (SocketAddr.v4 a p) = IpAddr.v4 a
ip (SocketAddr.v6 a p f s) = IpAddr.v6 a

abbrev pub port : SocketAddr → ℕ
port (SocketAddr.v4 a p) = p
port (SocketAddr.v6 a p f s) = p

pub ip-socket_addr : (a : IpAddr) (p : ℕ) → ip (socket_addr a p) ≡ a
ip-socket_addr (IpAddr.v4 a) p = refl
ip-socket_addr (IpAddr.v6 a) p = refl

pub port-socket_addr : (a : IpAddr) (p : ℕ) → port (socket_addr a p) ≡ p
port-socket_addr (IpAddr.v4 a) p = refl
port-socket_addr (IpAddr.v6 a) p = refl

abbrev pub is_ipv6 : SocketAddr → Bool
is_ipv6 (SocketAddr.v4 a p) = false
is_ipv6 (SocketAddr.v6 a p f s) = true

abbrev pub octets_v4 : Ipv4Addr → List ℕ
octets_v4 i = i.a ∷ i.b ∷ i.c ∷ i.d ∷ []

abbrev pub unspecified_v4 : Ipv4Addr
unspecified_v4 = record { a = 0; b = 0; c = 0; d = 0 }

abbrev pub unspecified_v6 : Ipv6Addr
unspecified_v6 = record { octets = replicate 16 0 }

abbrev pub is_unspecified_v4 : Ipv4Addr → Bool
is_unspecified_v4 i = bytes_eq (octets_v4 i) (octets_v4 unspecified_v4)

abbrev pub is_unspecified_v6 : Ipv6Addr → Bool
is_unspecified_v6 i = bytes_eq i.octets unspecified_v6.octets

abbrev pub is_unspecified : IpAddr → Bool
is_unspecified (IpAddr.v4 i) = is_unspecified_v4 i
is_unspecified (IpAddr.v6 i) = is_unspecified_v6 i

-- ::ffff:0:0/96
abbrev pub mapped_prefix : List ℕ
mapped_prefix = replicate 10 0 ++ 255 ∷ 255 ∷ []

unfoldable pub from_octets_v4 : List ℕ → Option Ipv4Addr
from_octets_v4 (a ∷ b ∷ c ∷ d ∷ []) = some (record { a = a; b = b; c = c; d = d })
from_octets_v4 _ = none

abbrev pub to_ipv6_mapped : Ipv4Addr → Ipv6Addr
to_ipv6_mapped i = record { octets = mapped_prefix ++ octets_v4 i }

-- `Ipv6Addr::to_ipv4_mapped`: only ::ffff:a.b.c.d.
unfoldable pub to_ipv4_mapped : Ipv6Addr → Option Ipv4Addr
unfolding from_octets_v4
to_ipv4_mapped i =
    if bytes_eq (take 12 i.octets) mapped_prefix then from_octets_v4 (drop 12 i.octets) else none

-- `Ipv6Addr::to_ipv4`: ::ffff:a.b.c.d, and ::a.b.c.d too.
unfoldable pub to_ipv4 : Ipv6Addr → Option Ipv4Addr
unfolding from_octets_v4
to_ipv4 i =
    if bytes_eq (take 12 i.octets) mapped_prefix || bytes_eq (take 12 i.octets) (replicate 12 0)
    then from_octets_v4 (drop 12 i.octets)
    else none

-- `Ipv4Addr::is_multicast` (224.0.0.0/4), `is_broadcast`, and `Ipv6Addr::is_multicast` (ff00::/8).
abbrev pub is_multicast_v4 : Ipv4Addr → Bool
is_multicast_v4 i = leb 224 i.a && leb i.a 239

abbrev pub is_broadcast : Ipv4Addr → Bool
is_broadcast i = bytes_eq (octets_v4 i) (replicate 4 255)

abbrev pub is_multicast_v6 : Ipv6Addr → Bool
is_multicast_v6 i = get_or i.octets 0 0 == 255

-- What the types of the source guarantee.
abbrev pub IsIp : IpAddr → Type 0
IsIp (IpAddr.v4 i) = AreBytes (octets_v4 i)
IsIp (IpAddr.v6 i) = AreBytes i.octets × (length i.octets ≡ 16)

abbrev pub IsAddr : SocketAddr → Type 0
IsAddr s = IsIp (ip s) × (port s < 65536)
