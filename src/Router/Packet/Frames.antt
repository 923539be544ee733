-- ===== src/Router/Packet/Frames.antt =====
-- A frame that has been turned around, whatever the version of IP and the transport.
use proxifyre_rs.Net.{IpAddr}
use proxifyre_rs.Prelude.{ℕ, ◌≡◌, refl, ap, ◌∙◌, Bool, true, Option, none, some, List, length}
use proxifyre_rs.Router.Flow.Rewritten.{rewritten}
use proxifyre_rs.Router.Packet.Carries.{Carries}
use proxifyre_rs.Router.Packet.Turned.{
  turned_segment, payload-turned_segment, InRange, turn_ip-Reads, read-swap_mac, length-swap_mac,
}
use proxifyre_rs.Router.Packet.{direction_of, turn_ip, finish_frame, swap_mac}
use proxifyre_rs.Router.PacketInfo.{
  PacketInfo, PacketKind, PortRewrite, tcp_v4, tcp_v6, udp_v4, udp_v6,
}
use proxifyre_rs.Router.Wire.{
  Wire, Frame, IpHeader, IpLayer, Segment, Transport, EtherType, Protocol,
}

-- Both packets have the same data.
abbrev pub SameData : (List ℕ → Option (List ℕ)) → List ℕ → List ℕ → Type 0
SameData data_at b b' = (d : List ℕ) × (data_at b ≡ some d) × (data_at b' ≡ some d)

module _ (w : Wire) where
  -- The data after the transport header.
  unfoldable pub data_in : {A : Type 0} → IpLayer A → Transport → List ℕ → Option (List ℕ)
  data_in l t b = elim (w.ethernet b) [
    | none ↦ none
    | some f ↦ elim (l.read f.payload) [
      | none ↦ none
      | some h ↦ elim (t.read h.payload) [ none ↦ none | some s ↦ some s.payload ]
    ]
  ]

  abbrev pub data_of : PacketKind → List ℕ → Option (List ℕ)
  data_of tcp_v4 b = data_in w.ipv4 w.tcp b
  data_of tcp_v6 b = data_in w.ipv6 w.tcp b
  data_of udp_v4 b = data_in w.ipv4 w.udp b
  data_of udp_v6 b = data_in w.ipv6 w.udp b

  -- The checksums of a packet verify: that of the transport header with the addresses of the IP
  -- header, and that of the IP header by `good`.
  abbrev pub Checked :
      {A : Type 0} → IpLayer A → Transport → (A → IpAddr) → (List ℕ → Bool) → List ℕ → Type 0
  Checked {A} l t to_ip good b =
      (f : Frame) × (h : IpHeader A) × (w.ethernet b ≡ some f)
      × (l.read f.payload ≡ some h)
      × (t.verify_checksum (to_ip h.src_addr) (to_ip h.dst_addr) h.payload ≡ true)
      × (good f.payload ≡ true)

  -- The checksums that a packet of the kind has; an IPv6 header has none.
  abbrev pub ChecksumsHold : PacketKind → List ℕ → Type 0
  ChecksumsHold tcp_v4 b = Checked w.ipv4 w.tcp IpAddr.v4 w.verify_checksum b
  ChecksumsHold tcp_v6 b = Checked w.ipv6 w.tcp IpAddr.v6 (λ p. true) b
  ChecksumsHold udp_v4 b = Checked w.ipv4 w.udp IpAddr.v4 w.verify_checksum b
  ChecksumsHold udp_v6 b = Checked w.ipv6 w.udp IpAddr.v6 (λ p. true) b

  abbrev pub MacsSwapped : List ℕ → List ℕ → Type 0
  MacsSwapped b b' =
      (f : Frame) × (f' : Frame) × (w.ethernet b ≡ some f)
      × (w.ethernet b' ≡ some f')
      × (f'.src_addr ≡ f.dst_addr)
      × (f'.dst_addr ≡ f.src_addr)

  module _ {A : Type 0} (l : IpLayer A) (t : Transport) (et : EtherType) (pr : Protocol)
      (to_ip : A → IpAddr) (mk : A → A → Segment → PacketInfo)
      (mk_turned : (r : PortRewrite) (a b : A) (s : Segment)
        → rewritten r (mk a b s) ≡ mk b a (turned_segment r s))
      (finish : List ℕ → List ℕ) (good : List ℕ → Bool)
      (read-finish : (p : List ℕ) (h : IpHeader A) → l.read p ≡ some h → l.read (finish p) ≡ some h)
      (length-finish : (p : List ℕ) → length (finish p) ≡ length p)
      (good-finish : (p : List ℕ) (h : IpHeader A)
        → l.read p ≡ some h
        → good (finish p) ≡ true) where
    pub turned :
        (b : List ℕ) (info : PacketInfo) (r : PortRewrite) (c : Carries w l t et pr mk b info)
        → InRange r
        → (b' : List ℕ) × (finish_frame w b r (turn_ip l t to_ip finish r c.frame.payload)
            ≡ (b', some (direction_of r)))
          × (c' : Carries w l t et pr mk b' (rewritten r info)) × (c'.header.dst_addr
              ≡ c.header.src_addr)
          × (length b' ≡ length b)
          × Checked l t to_ip good b'
          × MacsSwapped b b'
          × SameData (data_in l t) b b'
    unfolding finish_frame data_in
    turned b info r c i =
        let (p, made, (q, reads, seg, sum), len) =
          turn_ip-Reads l t to_ip finish r c.frame.payload c.header c.segment i c.reads_header
            c.reads_segment in
        let f1 : Frame = record c.frame { payload = finish p } in
        let b1 = w.set_payload.write (finish p) b in
        let e1 : w.ethernet b1 ≡ some f1 =
          w.set_payload.read-write (finish p) b c.frame (length-finish p ∙ len) c.reads_frame in
        let f2 : Frame = record f1 { src_addr = f1.dst_addr; dst_addr = f1.src_addr } in
        let e2 : w.ethernet (swap_mac w b1) ≡ some f2 = read-swap_mac w b1 f1 e1 in
        let h2 : IpHeader A = record c.header {
          src_addr = c.header.dst_addr;
          dst_addr = c.header.src_addr;
          payload = q;
        } in
        let r2 : l.read (finish p) ≡ some h2 = read-finish p h2 reads in
        let size : length (swap_mac w b1) ≡ length b =
          length-swap_mac w b1 f1 e1 ∙ w.set_payload.length-write (finish p) b in
        (
          swap_mac w b1,
          rw (made, finish_frame) refl,
          record {
            frame = f2;
            header = h2;
            segment = turned_segment r c.segment;
            long = rw size c.long;
            reads_frame = e2;
            is_ethertype = c.is_ethertype;
            reads_header = r2;
            is_protocol = c.is_protocol;
            reads_segment = seg;
            is_info =
                ap (rewritten r) c.is_info
                ∙ mk_turned r c.header.src_addr c.header.dst_addr c.segment;
          },
          refl,
          size,
          (f2, h2, e2, r2, sum, good-finish p h2 reads),
          (c.frame, f2, c.reads_frame, e2, refl, refl),
          (
            c.segment.payload,
            rw (c.reads_frame, c.reads_header, c.reads_segment, data_in) refl,
            rw (e2, r2, seg, data_in) (ap some (payload-turned_segment r c.segment)),
          ),
        )
