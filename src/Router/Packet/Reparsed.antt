-- ===== src/Router/Packet/Reparsed.antt =====
-- A packet that has been turned around, read again.
use proxifyre_rs.Net.{IpAddr, is_multicast_v6}
use proxifyre_rs.Prelude.{
  ℕ, ◌≤◌, ◌≡◌, refl, sym, ap, subst, ◌∙◌, Bool, true, false, some, List, length, arith, ltb,
}
use proxifyre_rs.Router.Flow.Rewritten.{rewritten}
use proxifyre_rs.Router.Packet.Carries.{
  Carried, as_tcp_v4, as_tcp_v6, as_udp_v4, as_udp_v6, mk_v4, mk_v6, parse_packet_info-Carried,
  Carries-parse_tcp_v4, Carries-parse_tcp_v6, Carries-parse_udp_v4, Carries-parse_udp_v6,
}
use proxifyre_rs.Router.Packet.Turned.{turned_segment, InRange}
use proxifyre_rs.Router.Packet.{
  parse_packet_info, tcp_info, udp_info, is_group_v4, direction_of, apply_rewrite, apply_kind,
  apply_tcp_v4, apply_tcp_v6, apply_udp_v4, apply_udp_v6,
}
use proxifyre_rs.Router.PacketInfo.{
  PacketInfo, PacketKind, PortRewrite, tcp_v4, tcp_v6, udp_v4, udp_v6,
}
use proxifyre_rs.Router.Wire.{Wire, Frame, Segment, EtherType, Protocol}
use proxifyre_rs.Router.Packet.Frames.{ChecksumsHold, MacsSwapped, data_of, SameData, turned}

-- An address that a datagram is not looked at for.
abbrev pub is_group : IpAddr → Bool
is_group (IpAddr.v4 a) = is_group_v4 a
is_group (IpAddr.v6 a) = is_multicast_v6 a

tcp_turned :
    (k : PacketKind) (r : PortRewrite) (a b : IpAddr) (s : Segment)
    → rewritten r (tcp_info k a b s) ≡ tcp_info k b a (turned_segment r s)
unfolding rewritten
tcp_turned k (PortRewrite.to_proxy port) a b s = refl
tcp_turned k (PortRewrite.from_proxy port) a b s = refl

udp_turned :
    (k : PacketKind) (r : PortRewrite) (a b : IpAddr) (s : Segment)
    → rewritten r (udp_info k a b s) ≡ udp_info k b a (turned_segment r s)
unfolding rewritten
udp_turned k (PortRewrite.to_proxy port) a b s = refl
udp_turned k (PortRewrite.from_proxy port) a b s = refl

module _ (w : Wire) where
  -- What `apply_rewrite` does to a packet with this information.
  abbrev pub Turns : List ℕ → PacketInfo → PortRewrite → Type 0
  Turns b info r =
      (b' : List ℕ) × (apply_rewrite w b info (some r) ≡ (b', some (direction_of r)))
      × (parse_packet_info w b' ≡ some (rewritten r info))
      × (length b' ≡ length b)
      × ChecksumsHold w info.kind b'
      × MacsSwapped w b b'
      × SameData (data_of w info.kind) b b'

  apply_long :
      (b : List ℕ) (info : PacketInfo) (r : PortRewrite) (f : Frame)
      → 14 ≤ length b
      → w.ethernet b ≡ some f
      → apply_rewrite w b info (some r) ≡ apply_kind info.kind w b f r
  unfolding apply_rewrite
  apply_long b info r f long e =
      let enough : ltb (length b) 14 ≡ false = ground arith in rw (enough, apply_rewrite, e) refl

  turns :
      (b : List ℕ) (info : PacketInfo) (r : PortRewrite) (f : Frame) (k : PacketKind) (b' : List ℕ)
      → 14 ≤ length b
      → w.ethernet b ≡ some f
      → info.kind ≡ k
      → apply_kind k w b f r ≡ (b', some (direction_of r))
      → parse_packet_info w b' ≡ some (rewritten r info)
      → length b' ≡ length b
      → ChecksumsHold w k b'
      → MacsSwapped w b b'
      → SameData (data_of w k) b b'
      → Turns b info r
  turns b info r f k b' long reads kind made again size sums macs data_kept = (
    b',
    apply_long b info r f long reads ∙ ap (λ x. apply_kind x w b f r) kind ∙ made,
    again,
    size,
    subst (λ x. ChecksumsHold w x b') (sym kind) sums,
    macs,
    subst (λ x. SameData (data_of w x) b b') (sym kind) data_kept,
  )

  Carried-Turns :
      (b : List ℕ) (info : PacketInfo) (r : PortRewrite)
      → InRange r
      → is_group info.src_ip ≡ false
      → Carried w b info
      → Turns b info r
  unfolding apply_kind apply_tcp_v4 apply_tcp_v6 apply_udp_v4 apply_udp_v6
  Carried-Turns b info r i single (as_tcp_v4 c) =
      let (b', made, c', same, size, sums, macs, data_kept) =
        turned w w.ipv4 w.tcp EtherType.ipv4 Protocol.tcp IpAddr.v4 (mk_v4 (tcp_info tcp_v4))
          (λ r a b s. tcp_turned tcp_v4 r (IpAddr.v4 a) (IpAddr.v4 b) s) (w.fill_checksum.write tt)
          w.verify_checksum (w.fill_checksum.read-write tt) (w.fill_checksum.length-write tt)
          w.verify-fill b info r c i in
      turns b info r c.frame tcp_v4 b' c.long c.reads_frame (ap (λ x. x.kind) c.is_info) made
        (Carries-parse_tcp_v4 w b' (rewritten r info) c') size sums macs data_kept
  Carried-Turns b info r i single (as_tcp_v6 c) =
      let (b', made, c', same, size, sums, macs, data_kept) =
        turned w w.ipv6 w.tcp EtherType.ipv6 Protocol.tcp IpAddr.v6 (mk_v6 (tcp_info tcp_v6))
          (λ r a b s. tcp_turned tcp_v6 r (IpAddr.v6 a) (IpAddr.v6 b) s) (λ p. p) (λ p. true)
          (λ p h e. e) (λ p. refl) (λ p h e. refl) b info r c i in
      turns b info r c.frame tcp_v6 b' c.long c.reads_frame (ap (λ x. x.kind) c.is_info) made
        (Carries-parse_tcp_v6 w b' (rewritten r info) c') size sums macs data_kept
  Carried-Turns b info r i single (as_udp_v4 c) =
      let (b', made, c', same, size, sums, macs, data_kept) =
        turned w w.ipv4 w.udp EtherType.ipv4 Protocol.udp IpAddr.v4 (mk_v4 (udp_info udp_v4))
          (λ r a b s. udp_turned udp_v4 r (IpAddr.v4 a) (IpAddr.v4 b) s) (w.fill_checksum.write tt)
          w.verify_checksum (w.fill_checksum.read-write tt) (w.fill_checksum.length-write tt)
          w.verify-fill b info r c i in
      let lone : is_group_v4 c'.header.dst_addr ≡ false =
        ap is_group_v4 same ∙ sym (ap (λ x. is_group x.src_ip) c.is_info) ∙ single in
      turns b info r c.frame udp_v4 b' c.long c.reads_frame (ap (λ x. x.kind) c.is_info) made
        (Carries-parse_udp_v4 w b' (rewritten r info) c' lone) size sums macs data_kept
  Carried-Turns b info r i single (as_udp_v6 c) =
      let (b', made, c', same, size, sums, macs, data_kept) =
        turned w w.ipv6 w.udp EtherType.ipv6 Protocol.udp IpAddr.v6 (mk_v6 (udp_info udp_v6))
          (λ r a b s. udp_turned udp_v6 r (IpAddr.v6 a) (IpAddr.v6 b) s) (λ p. p) (λ p. true)
          (λ p h e. e) (λ p. refl) (λ p h e. refl) b info r c i in
      let lone : is_multicast_v6 c'.header.dst_addr ≡ false =
        ap is_multicast_v6 same ∙ sym (ap (λ x. is_group x.src_ip) c.is_info) ∙ single in
      turns b info r c.frame udp_v6 b' c.long c.reads_frame (ap (λ x. x.kind) c.is_info) made
        (Carries-parse_udp_v6 w b' (rewritten r info) c' lone) size sums macs data_kept

  -- A packet of which the information is read, from an address that is not a group's, is turned
  -- around by `apply_rewrite` in place: the new bytes are as many, they read as the information
  -- with ends exchanged and the port set that the rewrite names, the checksums of the new bytes
  -- verify, the MAC addresses are exchanged, the data is the same, and the direction of the
  -- rewrite is returned.
  pub apply_rewrite-Turns :
      (b : List ℕ) (info : PacketInfo) (r : PortRewrite)
      → parse_packet_info w b ≡ some info
      → InRange r
      → is_group info.src_ip ≡ false
      → Turns b info r
  apply_rewrite-Turns b info r q i single =
      Carried-Turns b info r i single (parse_packet_info-Carried w b info q)
