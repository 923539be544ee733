-- ===== src/Router/Packet/Carries.antt =====
-- What it is for a packet to carry headers, layer by layer.
use proxifyre_rs.Net.{Ipv4Addr, Ipv6Addr, IpAddr, is_multicast_v6}
use proxifyre_rs.Prelude.{
  ℕ, ◌≤◌, ◌≡◌, refl, ◌⊎◌, inl, inr, Bool, false, some, List, length, arith, Option-cases, ltb,
}
use proxifyre_rs.Router.Packet.{
  parse_packet_info, parse_ipv4, parse_ipv6, parse_transport, tcp_info, udp_info, is_group_v4,
}
use proxifyre_rs.Router.PacketInfo.{PacketInfo, PacketKind, tcp_v4, tcp_v6, udp_v4, udp_v6}
use proxifyre_rs.Router.Wire.{
  Wire, Frame, IpHeader, IpLayer, Segment, Transport, EtherType, Protocol,
}

-- The bytes hold a frame, with an IP packet, with a segment, and these give the information.
pub record Carries {A : Type 0} (w : Wire) (l : IpLayer A) (t : Transport) (ethertype : EtherType)
    (protocol : Protocol) (mk : A → A → Segment → PacketInfo) (b : List ℕ) (info : PacketInfo)
    : Type 0 where
  pub frame : Frame
  pub header : IpHeader A
  pub segment : Segment
  pub long : 14 ≤ length b
  pub reads_frame : w.ethernet b ≡ some frame
  pub is_ethertype : frame.ethertype ≡ ethertype
  pub reads_header : l.read frame.payload ≡ some header
  pub is_protocol : header.next_header ≡ protocol
  pub reads_segment : t.read header.payload ≡ some segment
  pub is_info : info ≡ mk header.src_addr header.dst_addr segment

abbrev pub mk_v4 :
    (IpAddr → IpAddr → Segment → PacketInfo) → Ipv4Addr → Ipv4Addr → Segment → PacketInfo
mk_v4 mk a b s = mk (IpAddr.v4 a) (IpAddr.v4 b) s

abbrev pub mk_v6 :
    (IpAddr → IpAddr → Segment → PacketInfo) → Ipv6Addr → Ipv6Addr → Segment → PacketInfo
mk_v6 mk a b s = mk (IpAddr.v6 a) (IpAddr.v6 b) s

-- One of the four kinds that the router looks at.
pub data Carried (w : Wire) (b : List ℕ) (info : PacketInfo) : Type 0 where
  as_tcp_v4 :
      Carries w w.ipv4 w.tcp EtherType.ipv4 Protocol.tcp (mk_v4 (tcp_info tcp_v4)) b info
      → Carried w b info
  as_tcp_v6 :
      Carries w w.ipv6 w.tcp EtherType.ipv6 Protocol.tcp (mk_v6 (tcp_info tcp_v6)) b info
      → Carried w b info
  as_udp_v4 :
      Carries w w.ipv4 w.udp EtherType.ipv4 Protocol.udp (mk_v4 (udp_info udp_v4)) b info
      → Carried w b info
  as_udp_v6 :
      Carries w w.ipv6 w.udp EtherType.ipv6 Protocol.udp (mk_v6 (udp_info udp_v6)) b info
      → Carried w b info

module _ (w : Wire) where
  -- What `parse_transport` has found.
  abbrev Found :
      {A : Type 0} → (A → IpAddr) → PacketKind → PacketKind → IpHeader A → PacketInfo → Type 0
  Found to_ip tcp_kind udp_kind h info =
      ((h.next_header ≡ Protocol.tcp)
        × (s : Segment) × (w.tcp.read h.payload ≡ some s)
        × (info ≡ tcp_info tcp_kind (to_ip h.src_addr) (to_ip h.dst_addr) s))
      ⊎ ((h.next_header ≡ Protocol.udp)
          × (s : Segment) × (w.udp.read h.payload ≡ some s)
          × (info ≡ udp_info udp_kind (to_ip h.src_addr) (to_ip h.dst_addr) s))

  found :
      {A : Type 0} (to_ip : A → IpAddr) (g : A → Bool) (tk uk : PacketKind) (h : IpHeader A)
      (info : PacketInfo) (p : Protocol)
      → h.next_header ≡ p
      → parse_transport w to_ip g tk uk h ≡ some info
      → Found to_ip tk uk h info
  unfolding parse_transport
  found to_ip g tk uk h info Protocol.tcp e q = elim (Option-cases (w.tcp.read h.payload)) [
    | inl r ↦ absurd (ground arith)
    | inr (s, r) ↦ inl (e, s, r, ground arith)
  ]
  found to_ip g tk uk h info Protocol.udp e q = elim (Option-cases (w.udp.read h.payload)) [
    | inl r ↦ absurd (ground arith)
    | inr (s, r) ↦ inr (e, s, r, ground arith)
  ]
  found to_ip g tk uk h info Protocol.other e q = absurd (ground arith)

  module _ (b : List ℕ) (info : PacketInfo) (f : Frame) (long : 14 ≤ length b)
      (reads : w.ethernet b ≡ some f) where
    carries :
        {A : Type 0} (l : IpLayer A) (t : Transport) (et : EtherType) (pr : Protocol)
        (mk : A → A → Segment → PacketInfo) (h : IpHeader A) (s : Segment)
        → f.ethertype ≡ et
        → l.read f.payload ≡ some h
        → h.next_header ≡ pr
        → t.read h.payload ≡ some s
        → info ≡ mk h.src_addr h.dst_addr s
        → Carries w l t et pr mk b info
    carries l t et pr mk h s e r p rs q = record {
      frame = f;
      header = h;
      segment = s;
      long = long;
      reads_frame = reads;
      is_ethertype = e;
      reads_header = r;
      is_protocol = p;
      reads_segment = rs;
      is_info = q;
    }

    found_v4 :
        f.ethertype ≡ EtherType.ipv4
        → (h : IpHeader Ipv4Addr) → w.ipv4.read f.payload ≡ some h
        → Found IpAddr.v4 tcp_v4 udp_v4 h info
        → Carried w b info
    found_v4 e h r (inl (p, s, rs, q)) =
        as_tcp_v4 (carries w.ipv4 w.tcp EtherType.ipv4 Protocol.tcp _ h s e r p rs q)
    found_v4 e h r (inr (p, s, rs, q)) =
        as_udp_v4 (carries w.ipv4 w.udp EtherType.ipv4 Protocol.udp _ h s e r p rs q)

    found_v6 :
        f.ethertype ≡ EtherType.ipv6
        → (h : IpHeader Ipv6Addr) → w.ipv6.read f.payload ≡ some h
        → Found IpAddr.v6 tcp_v6 udp_v6 h info
        → Carried w b info
    found_v6 e h r (inl (p, s, rs, q)) =
        as_tcp_v6 (carries w.ipv6 w.tcp EtherType.ipv6 Protocol.tcp _ h s e r p rs q)
    found_v6 e h r (inr (p, s, rs, q)) =
        as_udp_v6 (carries w.ipv6 w.udp EtherType.ipv6 Protocol.udp _ h s e r p rs q)

    frame-Carried :
        (e : EtherType) → f.ethertype ≡ e → parse_packet_info w b ≡ some info → Carried w b info
    unfolding parse_packet_info parse_ipv4 parse_ipv6
    frame-Carried EtherType.ipv4 e q =
        let short : ltb (length b) 14 ≡ false = ground arith in
        let p : parse_ipv4 w f ≡ some info = ground arith in
        elim (Option-cases (w.ipv4.read f.payload)) [
          | inl r ↦ absurd (ground arith)
          | inr (h, r) ↦
              found_v4 e h r
                (found IpAddr.v4 is_group_v4 tcp_v4 udp_v4 h info h.next_header refl (ground arith))
        ]
    frame-Carried EtherType.ipv6 e q =
        let short : ltb (length b) 14 ≡ false = ground arith in
        let p : parse_ipv6 w f ≡ some info = ground arith in
        elim (Option-cases (w.ipv6.read f.payload)) [
          | inl r ↦ absurd (ground arith)
          | inr (h, r) ↦ found_v6 e h r (
              found IpAddr.v6 is_multicast_v6 tcp_v6 udp_v6 h info h.next_header refl
                (ground arith))
        ]
    frame-Carried EtherType.other e q = absurd (ground arith)

  -- A packet of which the information is read carries it.
  pub parse_packet_info-Carried :
      (b : List ℕ) (info : PacketInfo) → parse_packet_info w b ≡ some info → Carried w b info
  unfolding parse_packet_info
  parse_packet_info-Carried b info q = elim (Option-cases (w.ethernet b)) [
    | inl r ↦ absurd (ground arith)
    | inr (f, r) ↦ frame-Carried b info f (ground arith) r f.ethertype refl q
  ]

  -- The other way, a packet that carries information is read, unless it is a datagram to a group.
  pub Carries-parse_tcp_v4 :
      (b : List ℕ) (info : PacketInfo)
      → Carries w w.ipv4 w.tcp EtherType.ipv4 Protocol.tcp (mk_v4 (tcp_info tcp_v4)) b info
      → parse_packet_info w b ≡ some info
  unfolding parse_packet_info parse_ipv4 parse_transport
  Carries-parse_tcp_v4 b info c = ground arith

  pub Carries-parse_tcp_v6 :
      (b : List ℕ) (info : PacketInfo)
      → Carries w w.ipv6 w.tcp EtherType.ipv6 Protocol.tcp (mk_v6 (tcp_info tcp_v6)) b info
      → parse_packet_info w b ≡ some info
  unfolding parse_packet_info parse_ipv6 parse_transport
  Carries-parse_tcp_v6 b info c = ground arith

  pub Carries-parse_udp_v4 :
      (b : List ℕ) (info : PacketInfo)
      (c : Carries w w.ipv4 w.udp EtherType.ipv4 Protocol.udp (mk_v4 (udp_info udp_v4)) b info)
      → is_group_v4 c.header.dst_addr ≡ false
      → parse_packet_info w b ≡ some info
  unfolding parse_packet_info parse_ipv4 parse_transport
  Carries-parse_udp_v4 b info c g = ground arith

  pub Carries-parse_udp_v6 :
      (b : List ℕ) (info : PacketInfo)
      (c : Carries w w.ipv6 w.udp EtherType.ipv6 Protocol.udp (mk_v6 (udp_info udp_v6)) b info)
      → is_multicast_v6 c.header.dst_addr ≡ false
      → parse_packet_info w b ≡ some info
  unfolding parse_packet_info parse_ipv6 parse_transport
  Carries-parse_udp_v6 b info c g = ground arith
