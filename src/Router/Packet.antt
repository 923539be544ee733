-- ===== src/Router/Packet.antt =====
-- router/packet.rs: the headers of a packet are read, and a packet is turned around. A packet is the
-- bytes of its buffer up to its length.
pub mod Turned
pub mod Carries
pub mod Frames
pub mod Reparsed
use proxifyre_rs.Net.{Ipv4Addr, Ipv6Addr, IpAddr, is_multicast_v4, is_broadcast, is_multicast_v6}
use proxifyre_rs.Prelude.{
  ℕ, Bool, false, ◌||◌, Option, none, some, List, length, ltb, if◌then◌else◌,
}
use proxifyre_rs.Router.PacketInfo.{
  PacketInfo, PacketKind, PortRewrite, ProxyDirection, tcp_v4, tcp_v6, udp_v4, udp_v6,
}
use proxifyre_rs.Router.Wire.{
  Wire, Frame, IpHeader, IpLayer, Segment, Transport, EtherType, Protocol,
}

abbrev pub tcp_info : PacketKind → IpAddr → IpAddr → Segment → PacketInfo
tcp_info kind src_ip dst_ip tcp = record {
  kind = kind;
  src_ip = src_ip;
  dst_ip = dst_ip;
  src_port = tcp.src_port;
  dst_port = tcp.dst_port;
  syn = tcp.syn;
  ack = tcp.ack;
  rst = tcp.rst;
  fin = tcp.fin;
}

abbrev pub udp_info : PacketKind → IpAddr → IpAddr → Segment → PacketInfo
udp_info kind src_ip dst_ip udp = record {
  kind = kind;
  src_ip = src_ip;
  dst_ip = dst_ip;
  src_port = udp.src_port;
  dst_port = udp.dst_port;
  syn = false;
  ack = false;
  rst = false;
  fin = false;
}

-- The match on `next_header`, in either version of IP; `is_group` is the test of the destination of
-- a UDP datagram.
unfoldable pub parse_transport :
    {A : Type 0}
    → Wire
    → (A → IpAddr)
    → (A → Bool)
    → PacketKind
    → PacketKind
    → IpHeader A
    → Option PacketInfo
parse_transport w to_ip is_group tcp_kind udp_kind h = elim h.next_header [
  | Protocol.tcp ↦ elim (w.tcp.read h.payload) [
    | none ↦ none
    | some tcp ↦ some (tcp_info tcp_kind (to_ip h.src_addr) (to_ip h.dst_addr) tcp)
  ]
  | Protocol.udp ↦ if is_group h.dst_addr then none else elim (w.udp.read h.payload) [
    | none ↦ none
    | some udp ↦ some (udp_info udp_kind (to_ip h.src_addr) (to_ip h.dst_addr) udp)
  ]
  | Protocol.other ↦ none
]

abbrev pub is_group_v4 : Ipv4Addr → Bool
is_group_v4 a = is_multicast_v4 a || is_broadcast a

unfoldable pub parse_ipv4 : Wire → Frame → Option PacketInfo
parse_ipv4 w f = elim (w.ipv4.read f.payload) [
  | none ↦ none
  | some h ↦ parse_transport w IpAddr.v4 is_group_v4 tcp_v4 udp_v4 h
]

unfoldable pub parse_ipv6 : Wire → Frame → Option PacketInfo
parse_ipv6 w f = elim (w.ipv6.read f.payload) [
  | none ↦ none
  | some h ↦ parse_transport w IpAddr.v6 is_multicast_v6 tcp_v6 udp_v6 h
]

unfoldable pub parse_packet_info : Wire → List ℕ → Option PacketInfo
parse_packet_info w b = if ltb (length b) 14 then none else elim (w.ethernet b) [
  | none ↦ none
  | some f ↦ elim f.ethertype [
    | EtherType.ipv4 ↦ parse_ipv4 w f
    | EtherType.ipv6 ↦ parse_ipv6 w f
    | EtherType.other ↦ none
  ]
]

abbrev pub direction_of : PortRewrite → ProxyDirection
direction_of (PortRewrite.to_proxy port) = ProxyDirection.to_proxy
direction_of (PortRewrite.from_proxy port) = ProxyDirection.from_proxy

unfoldable pub set_port : Transport → PortRewrite → List ℕ → List ℕ
set_port t (PortRewrite.to_proxy port) b = t.set_dst_port.write port b
set_port t (PortRewrite.from_proxy port) b = t.set_src_port.write port b

-- `swap_ipv4` and `swap_ipv6`, on the bytes of a view that has been checked.
unfoldable pub swap_ip : {A : Type 0} → IpLayer A → List ℕ → List ℕ
swap_ip l b = elim (l.read b) [
  | none ↦ b
  | some h ↦ l.set_dst_addr.write h.src_addr (l.set_src_addr.write h.dst_addr b)
]

unfoldable pub swap_mac : Wire → List ℕ → List ℕ
swap_mac w b = elim (w.ethernet b) [
  | none ↦ b
  | some f ↦ w.set_dst_addr.write f.src_addr (w.set_src_addr.write f.dst_addr b)
]

-- The checksum over the new addresses, where the transport header can be read.
unfoldable pub fill_transport :
    {A : Type 0} → IpLayer A → Transport → (A → IpAddr) → List ℕ → List ℕ
fill_transport l t to_ip b = elim (l.read b) [
  | none ↦ b
  | some h ↦ elim (t.read h.payload) [
    | none ↦ b
    | some s ↦
        l.set_payload.write (t.fill_checksum.write (to_ip h.src_addr, to_ip h.dst_addr) h.payload) b
  ]
]

-- The IP packet turned around, `none` where a header cannot be read; `finish` is what is done to the
-- IP header at the end.
unfoldable pub turn_ip :
    {A : Type 0}
    → IpLayer A
    → Transport
    → (A → IpAddr)
    → (List ℕ → List ℕ)
    → PortRewrite
    → List ℕ
    → Option (List ℕ)
turn_ip l t to_ip finish rewrite b = elim (l.read b) [
  | none ↦ none
  | some h ↦ elim (t.read h.payload) [
    | none ↦ none
    | some s ↦ some (
        finish (
          fill_transport l t to_ip
            (swap_ip l (l.set_payload.write (set_port t rewrite h.payload) b))))
  ]
]

-- The four functions end alike: with the bytes of the frame and the direction.
unfoldable pub finish_frame :
    Wire → List ℕ → PortRewrite → Option (List ℕ) → List ℕ × Option ProxyDirection
finish_frame w b rewrite none = (b, none)
finish_frame w b rewrite (some payload) =
    (swap_mac w (w.set_payload.write payload b), some (direction_of rewrite))

unfoldable pub apply_tcp_v4 : Wire → List ℕ → Frame → PortRewrite → List ℕ × Option ProxyDirection
apply_tcp_v4 w b f rewrite =
    finish_frame w b rewrite
      (turn_ip w.ipv4 w.tcp IpAddr.v4 (w.fill_checksum.write tt) rewrite f.payload)

unfoldable pub apply_tcp_v6 : Wire → List ℕ → Frame → PortRewrite → List ℕ × Option ProxyDirection
apply_tcp_v6 w b f rewrite =
    finish_frame w b rewrite (turn_ip w.ipv6 w.tcp IpAddr.v6 (λ p. p) rewrite f.payload)

unfoldable pub apply_udp_v4 : Wire → List ℕ → Frame → PortRewrite → List ℕ × Option ProxyDirection
apply_udp_v4 w b f rewrite =
    finish_frame w b rewrite
      (turn_ip w.ipv4 w.udp IpAddr.v4 (w.fill_checksum.write tt) rewrite f.payload)

unfoldable pub apply_udp_v6 : Wire → List ℕ → Frame → PortRewrite → List ℕ × Option ProxyDirection
apply_udp_v6 w b f rewrite =
    finish_frame w b rewrite (turn_ip w.ipv6 w.udp IpAddr.v6 (λ p. p) rewrite f.payload)

unfoldable pub apply_kind :
    PacketKind → Wire → List ℕ → Frame → PortRewrite → List ℕ × Option ProxyDirection
apply_kind tcp_v4 = apply_tcp_v4
apply_kind tcp_v6 = apply_tcp_v6
apply_kind udp_v4 = apply_udp_v4
apply_kind udp_v6 = apply_udp_v6

unfoldable pub apply_rewrite :
    Wire → List ℕ → PacketInfo → Option PortRewrite → List ℕ × Option ProxyDirection
apply_rewrite w b info none = (b, none)
apply_rewrite w b info (some rewrite) =
    if ltb (length b) 14
    then (b, none)
    else elim (w.ethernet b) [ none ↦ (b, none) | some f ↦ apply_kind info.kind w b f rewrite ]
