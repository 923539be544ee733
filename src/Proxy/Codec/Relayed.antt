-- ===== src/Proxy/Codec/Relayed.antt =====
-- Where the datagrams of an association go: `normalize_udp_relay`.
use proxifyre_rs.Net.{
  Ipv4Addr, SocketAddr, ip, port, is_unspecified, is_unspecified_v4, is_unspecified_v6,
  to_ipv6_mapped,
}
use proxifyre_rs.Prelude.{ℕ, ◌≡◌, ◌⊎◌, refl, true, false, arith, Bool-cases, inl, inr}
use proxifyre_rs.Proxy.Codec.{normalize_udp_relay, relay_v4, relay_v6}

-- With a proxy that has a specified IPv4 address, the relay that the program connects to has a
-- specified address too, whatever the server has answered, and the port of the answer; an address
-- that the server has specified is kept.
pub normalize_udp_relay_v4 :
    (relay : SocketAddr) (a : Ipv4Addr) (p : ℕ)
    → is_unspecified_v4 a ≡ false
    → (is_unspecified (ip (normalize_udp_relay relay (SocketAddr.v4 a p))) ≡ false)
      × (port (normalize_udp_relay relay (SocketAddr.v4 a p)) ≡ port relay)
      × ((is_unspecified (ip relay) ≡ true)
          ⊎ (normalize_udp_relay relay (SocketAddr.v4 a p) ≡ relay))
unfolding normalize_udp_relay relay_v4 relay_v6
normalize_udp_relay_v4 (SocketAddr.v4 b q) a p h = elim (Bool-cases (is_unspecified_v4 b)) [
  | inl any ↦
      let to : normalize_udp_relay (SocketAddr.v4 b q) (SocketAddr.v4 a p) ≡ SocketAddr.v4 a q =
        ground arith in
      rw to (h, refl, inl any)
  | inr given ↦
      let to : normalize_udp_relay (SocketAddr.v4 b q) (SocketAddr.v4 a p) ≡ SocketAddr.v4 b q =
        ground arith in
      rw to (given, refl, inr refl)
]
normalize_udp_relay_v4 (SocketAddr.v6 b q f s) a p h = elim (Bool-cases (is_unspecified_v6 b)) [
  | inl any ↦
      let to : normalize_udp_relay (SocketAddr.v6 b q f s) (SocketAddr.v4 a p)
          ≡ SocketAddr.v6 (to_ipv6_mapped a) q 0 0 =
        ground arith in
      rw to (refl, refl, inl any)
  | inr given ↦
      let to : normalize_udp_relay (SocketAddr.v6 b q f s) (SocketAddr.v4 a p)
          ≡ SocketAddr.v6 b q f s =
        ground arith in
      rw to (given, refl, inr refl)
]
