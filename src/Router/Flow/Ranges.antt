-- ===== src/Router/Flow/Ranges.antt =====
-- The ports that the router writes are 16-bit numbers.
use proxifyre_rs.HashMap.Values.{AllValues}
use proxifyre_rs.Net.{SocketAddr}
use proxifyre_rs.Prelude.{
  ℕ, zero, suc, ◌<◌, ◌≡◌, subst, Bool, true, false, Option, none, some, List, [], ◌∷◌, Text, arith,
  get_elem?, Bool-cases, Option-cases, inl, inr, contains,
}
use proxifyre_rs.Proxy.Listener.{TransparentProxy}
use proxifyre_rs.Router.Flow.{tcp_port_of, udp_port_of, Event, tcp, udp, cleanup}
use proxifyre_rs.Router.Mappings.{TcpPortMapping, UdpPortMapping}
use proxifyre_rs.Router.Packet.Turned.{InRange}
use proxifyre_rs.Router.PacketInfo.{PacketInfo, PortRewrite, src, dst}
use proxifyre_rs.Router.State.{SocksLocalRouter, find_proxy, get_proxy_port_tcp, get_proxy_port_udp}

-- The port of a rewrite is one of 16 bits.
abbrev pub InRanges : Option PortRewrite → Type 0
InRanges none = Unit {0}
InRanges (some x) = InRange x

abbrev pub ProxyFits : TransparentProxy → Type 0
ProxyFits p =
    (p.tcp_port_v4 < 65536)
    × (p.tcp_port_v6 < 65536)
    × (p.udp_port_v4 < 65536)
    × (p.udp_port_v6 < 65536)

abbrev pub AllFit : List TransparentProxy → Type 0
AllFit [] = Unit
AllFit (p ∷ ps) = ProxyFits p × AllFit ps

abbrev pub TcpFits : TcpPortMapping → Type 0
TcpFits e = (e.dst_port < 65536) × (e.proxy_port < 65536)

abbrev pub UdpFits : UdpPortMapping → Type 0
UdpFits e = (e.dst_port < 65536) × (e.proxy_port < 65536)

-- The ports of a router are 16-bit numbers: those of its proxies, and those in its two tables.
abbrev pub PortsFit : SocksLocalRouter → Type 0
PortsFit r =
    AllFit r.proxies
    × AllValues TcpFits r.tcp_connections
    × AllValues UdpFits r.udp_endpoints.by_flow

-- What an event carries is a 16-bit number too.
abbrev pub EventFits : Event → Type 0
EventFits (tcp i at) = i.dst_port < 65536
EventFits (udp i now) = i.dst_port < 65536
EventFits (cleanup now) = Unit

abbrev pub AllEventsFit : List Event → Type 0
AllEventsFit [] = Unit
AllEventsFit (e ∷ es) = EventFits e × AllEventsFit es

get_elem?-AllFit :
    (ps : List TransparentProxy) (n : ℕ) (p : TransparentProxy)
    → AllFit ps
    → get_elem? ps n ≡ some p
    → ProxyFits p
get_elem?-AllFit [] n p h e = absurd (ground arith)
get_elem?-AllFit (q ∷ ps) zero p h e = let same : q ≡ p = ground arith in subst ProxyFits same h.0
get_elem?-AllFit (q ∷ ps) (suc n) p h e = get_elem?-AllFit ps n p h.1 e

find_proxy-ProxyFits :
    (path : Text) (ps : List TransparentProxy) (names : List (Text × ℕ)) (p : TransparentProxy)
    → AllFit ps
    → find_proxy path ps names ≡ some p
    → ProxyFits p
unfolding find_proxy
find_proxy-ProxyFits path ps [] p h e = absurd (ground arith)
find_proxy-ProxyFits path ps ((name, id) ∷ names) p h e = elim (Bool-cases (contains path name)) [
  | inr g ↦ find_proxy-ProxyFits path ps names p h (rw (g, find_proxy) at e)
  | inl g ↦ elim (Option-cases (get_elem? ps id)) [
    | inl n ↦ find_proxy-ProxyFits path ps names p h (rw (g, n, find_proxy) at e)
    | inr (q, n) ↦
        let found : some q ≡ some p = rw (g, n, find_proxy) at e in
        let same : q ≡ p = ground arith in subst ProxyFits same (get_elem?-AllFit ps id q h n)
  ]
]

module _ (find_process_path : Bool → SocketAddr → SocketAddr → Option Text) where
  pub tcp_port_of-lt :
      (r : SocksLocalRouter) (i : PacketInfo)
      → AllFit r.proxies
      → tcp_port_of find_process_path r i < 65536
  unfolding tcp_port_of get_proxy_port_tcp
  tcp_port_of-lt r i h = elim (Option-cases (find_process_path false (src i) (dst i))) [
    | inl n ↦ ground arith
    | inr (path, n) ↦ elim (Option-cases (find_proxy path r.proxies r.name_to_proxy)) [
      | inl m ↦ ground arith
      | inr (p, m) ↦
          let fits = find_proxy-ProxyFits path r.proxies r.name_to_proxy p h m in ground arith
    ]
  ]

  pub udp_port_of-lt :
      (r : SocksLocalRouter) (i : PacketInfo)
      → AllFit r.proxies
      → udp_port_of find_process_path r i < 65536
  unfolding udp_port_of get_proxy_port_udp
  udp_port_of-lt r i h = elim (Option-cases (find_process_path true (src i) (dst i))) [
    | inl n ↦ ground arith
    | inr (path, n) ↦ elim (Option-cases (find_proxy path r.proxies r.name_to_proxy)) [
      | inl m ↦ ground arith
      | inr (p, m) ↦
          let fits = find_proxy-ProxyFits path r.proxies r.name_to_proxy p h m in ground arith
    ]
  ]
