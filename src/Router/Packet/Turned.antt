-- ===== src/Router/Packet/Turned.antt =====
-- What the setters leave behind, one view after the other.
use proxifyre_rs.Net.{IpAddr}
use proxifyre_rs.Prelude.{ℕ, ◌<◌, ◌≡◌, refl, ◌∙◌, true, some, List, length}
use proxifyre_rs.Router.Packet.{set_port, swap_ip, swap_mac, fill_transport, turn_ip}
use proxifyre_rs.Router.PacketInfo.{PortRewrite}
use proxifyre_rs.Router.Wire.{Wire, Frame, IpHeader, IpLayer, Segment, Transport}

-- The segment with its port replaced.
abbrev pub turned_segment : PortRewrite → Segment → Segment
turned_segment (PortRewrite.to_proxy port) s = record s { dst_port = port }
turned_segment (PortRewrite.from_proxy port) s = record s { src_port = port }

pub payload-turned_segment :
    (r : PortRewrite) (s : Segment) → (turned_segment r s).payload ≡ s.payload
payload-turned_segment (PortRewrite.to_proxy port) s = refl
payload-turned_segment (PortRewrite.from_proxy port) s = refl

-- The port of the rewrite is one of 16 bits.
abbrev pub InRange : PortRewrite → Type 0
InRange (PortRewrite.to_proxy port) = port < 65536
InRange (PortRewrite.from_proxy port) = port < 65536

read-set_port :
    (t : Transport) (r : PortRewrite) (b : List ℕ) (s : Segment)
    → InRange r
    → t.read b ≡ some s
    → t.read (set_port t r b) ≡ some (turned_segment r s)
unfolding set_port
read-set_port t (PortRewrite.to_proxy port) b s i e =
    t.set_dst_port.read-write port b s (t.fits_port port i).1 e
read-set_port t (PortRewrite.from_proxy port) b s i e =
    t.set_src_port.read-write port b s (t.fits_port port i).0 e

length-set_port :
    (t : Transport) (r : PortRewrite) (b : List ℕ) → length (set_port t r b) ≡ length b
unfolding set_port
length-set_port t (PortRewrite.to_proxy port) b = t.set_dst_port.length-write port b
length-set_port t (PortRewrite.from_proxy port) b = t.set_src_port.length-write port b

abbrev pub swapped : {A : Type 0} → IpHeader A → IpHeader A
swapped h = record h { src_addr = h.dst_addr; dst_addr = h.src_addr }

module _ {A : Type 0} (l : IpLayer A) where
  read-swap_ip :
      (b : List ℕ) (h : IpHeader A) → l.read b ≡ some h → l.read (swap_ip l b) ≡ some (swapped h)
  unfolding swap_ip
  read-swap_ip b h e =
      rw (e, swap_ip)
        (l.set_dst_addr.read-write h.src_addr (l.set_src_addr.write h.dst_addr b)
          (record h { src_addr = h.dst_addr }) (l.fits_addr b h e).1
          (l.set_src_addr.read-write h.dst_addr b h (l.fits_addr b h e).0 e))

  length-swap_ip :
      (b : List ℕ) (h : IpHeader A) → l.read b ≡ some h → length (swap_ip l b) ≡ length b
  unfolding swap_ip
  length-swap_ip b h e =
      rw (e, swap_ip)
        (l.set_dst_addr.length-write h.src_addr (l.set_src_addr.write h.dst_addr b)
          ∙ l.set_src_addr.length-write h.dst_addr b)

  module _ (t : Transport) (to_ip : A → IpAddr) where
    -- The header and the segment of an IP packet whose transport checksum is right.
    abbrev pub Reads : List ℕ → IpHeader A → Segment → Type 0
    Reads b h s =
        (p : List ℕ) × (l.read b ≡ some (record h { payload = p }))
        × (t.read p ≡ some s)
        × (t.verify_checksum (to_ip h.src_addr) (to_ip h.dst_addr) p ≡ true)

    fill_transport-Reads :
        (b : List ℕ) (h : IpHeader A) (s : Segment)
        → l.read b ≡ some h
        → t.read h.payload ≡ some s
        → Reads (fill_transport l t to_ip b) h s × (length (fill_transport l t to_ip b) ≡ length b)
    unfolding fill_transport
    fill_transport-Reads b h s eh es =
        let ends : IpAddr × IpAddr = (to_ip h.src_addr, to_ip h.dst_addr) in
        let filled = t.fill_checksum.write ends h.payload in
        rw (eh, fill_transport, es)
          (
            (
              filled,
              l.set_payload.read-write filled b h (t.fill_checksum.length-write ends h.payload) eh,
              t.fill_checksum.read-write ends h.payload s es,
              t.verify-fill ends h.payload s es,
            ),
            l.set_payload.length-write filled b,
          )

    -- The packet before its IP header is finished.
    pub turn_ip-Reads :
        (finish : List ℕ → List ℕ) (r : PortRewrite) (b : List ℕ) (h : IpHeader A) (s : Segment)
        → InRange r
        → l.read b ≡ some h
        → t.read h.payload ≡ some s
        → (b' : List ℕ) × (turn_ip l t to_ip finish r b ≡ some (finish b'))
          × Reads b' (swapped h) (turned_segment r s)
          × (length b' ≡ length b)
    unfolding turn_ip
    turn_ip-Reads finish r b h s i eh es =
        let seg = set_port t r h.payload in
        let b1 = l.set_payload.write seg b in
        let e1 = l.set_payload.read-write seg b h (length-set_port t r h.payload) eh in
        let h1 : IpHeader A = record h { payload = seg } in
        let (reads, len) =
          fill_transport-Reads (swap_ip l b1) (swapped h1) (turned_segment r s)
            (read-swap_ip b1 h1 e1) (read-set_port t r h.payload s i es) in
        (
          fill_transport l t to_ip (swap_ip l b1),
          rw (eh, turn_ip, es) refl,
          reads,
          len ∙ length-swap_ip b1 h1 e1 ∙ l.set_payload.length-write seg b,
        )

module _ (w : Wire) where
  pub read-swap_mac :
      (b : List ℕ) (f : Frame)
      → w.ethernet b ≡ some f
      → w.ethernet (swap_mac w b) ≡ some (record f { src_addr = f.dst_addr; dst_addr = f.src_addr })
  unfolding swap_mac
  read-swap_mac b f e =
      rw (e, swap_mac)
        (w.set_dst_addr.read-write f.src_addr (w.set_src_addr.write f.dst_addr b)
          (record f { src_addr = f.dst_addr }) (w.fits_addr b f e).1
          (w.set_src_addr.read-write f.dst_addr b f (w.fits_addr b f e).0 e))

  pub length-swap_mac :
      (b : List ℕ) (f : Frame) → w.ethernet b ≡ some f → length (swap_mac w b) ≡ length b
  unfolding swap_mac
  length-swap_mac b f e =
      rw (e, swap_mac)
        (w.set_dst_addr.length-write f.src_addr (w.set_src_addr.write f.dst_addr b)
          ∙ w.set_src_addr.length-write f.dst_addr b)
