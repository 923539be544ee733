-- ===== src/Router/Adapter/Counters.antt =====
-- The counters of bytes over a batch.
use proxifyre_rs.Net.{SocketAddr}
use proxifyre_rs.Prelude.{
  ℕ, ◌+◌, ◌%◌, ◌^◌, ◌<◌, ◌≡◌, refl, sym, subst, Bool, true, false, Bool-cases, ltb, if◌then◌else◌,
  Option, none, some, List, [], ◌∷◌, Text, length, arith, Option-cases, inl, inr,
}
use proxifyre_rs.Router.Flow.{
  process_tcp_payload, tcp_syn, tcp_established, tcp_from_proxy, open_tcp, close_tcp,
  process_udp_payload, udp_lookup, udp_from_proxy, cleanup_stale_udp_endpoints,
}
use proxifyre_rs.Router.Packet.{
  parse_packet_info, apply_rewrite, apply_kind, apply_tcp_v4, apply_tcp_v6, apply_udp_v4,
  apply_udp_v6, finish_frame,
}
use proxifyre_rs.Router.Adapter.{
  IntermediateBuffer, count_bytes, count_batch, process_payload, process_packet, route_packet,
  route, process_batch,
}
use proxifyre_rs.Router.PacketInfo.{
  PacketInfo, PacketKind, PortRewrite, ProxyDirection, tcp_v4, tcp_v6, udp_v4, udp_v6,
}
use proxifyre_rs.Router.State.{SocksLocalRouter}
use proxifyre_rs.Router.Wire.{Wire, Frame}

-- The counter of a direction.
unfoldable pub counter_of : ProxyDirection → SocksLocalRouter → ℕ
counter_of ProxyDirection.to_proxy r = r.bytes_sent
counter_of ProxyDirection.from_proxy r = r.bytes_received

-- The length, for a packet that was turned in this direction.
unfoldable pub length_of : ProxyDirection → Option ProxyDirection → ℕ → ℕ
length_of d none n = 0
length_of ProxyDirection.to_proxy (some ProxyDirection.to_proxy) n = n
length_of ProxyDirection.to_proxy (some ProxyDirection.from_proxy) n = 0
length_of ProxyDirection.from_proxy (some ProxyDirection.to_proxy) n = 0
length_of ProxyDirection.from_proxy (some ProxyDirection.from_proxy) n = n

-- A rewrite to the proxy counts as sent, one from the proxy as received.
unfoldable pub aims : ProxyDirection → PortRewrite → Bool
aims ProxyDirection.to_proxy (PortRewrite.to_proxy port) = true
aims ProxyDirection.to_proxy (PortRewrite.from_proxy port) = false
aims ProxyDirection.from_proxy (PortRewrite.to_proxy port) = false
aims ProxyDirection.from_proxy (PortRewrite.from_proxy port) = true

-- What counts of a packet after a rewrite is its length, if it was turned and the rewrite aims there.
abbrev Counts : ProxyDirection → PortRewrite → List ℕ × Option ProxyDirection → Type 0
Counts d x o =
    length_of d o.1 (length o.0)
    ≡ (elim o.1 [ none ↦ 0 | some _ ↦ if aims d x then length o.0 else 0 ])

counter_of-count_bytes :
    (d : ProxyDirection) (o : Option ProxyDirection) (n : ℕ) (r : SocksLocalRouter)
    → counter_of d r < 2 ^ 64
    → counter_of d (count_bytes o n r) ≡ (counter_of d r + length_of d o n) % 2 ^ 64
unfolding counter_of count_bytes length_of
counter_of-count_bytes d o n r h = ground arith

counter_of-cleanup :
    (d : ProxyDirection) (r : SocksLocalRouter) (now : ℕ)
    → counter_of d (cleanup_stale_udp_endpoints r now) ≡ counter_of d r
unfolding counter_of cleanup_stale_udp_endpoints
counter_of-cleanup ProxyDirection.to_proxy r now = refl
counter_of-cleanup ProxyDirection.from_proxy r now = refl

tcp_from_proxy-counters :
    (d : ProxyDirection) (r : SocksLocalRouter) (i : PacketInfo)
    → counter_of d (tcp_from_proxy r i).0 ≡ counter_of d r
unfolding tcp_from_proxy close_tcp counter_of
tcp_from_proxy-counters d r i = ground arith

module _ (find_process_path : Bool → SocketAddr → SocketAddr → Option Text) where
  tcp-counters :
      (d : ProxyDirection) (r : SocksLocalRouter) (i : PacketInfo)
      → counter_of d (process_tcp_payload find_process_path r i).0 ≡ counter_of d r
  unfolding process_tcp_payload tcp_syn tcp_established open_tcp close_tcp counter_of
  tcp-counters d r i = ground (arith, tcp_from_proxy-counters d r i)

  udp-counters :
      (d : ProxyDirection) (r : SocksLocalRouter) (i : PacketInfo) (now : ℕ)
      → counter_of d (process_udp_payload find_process_path r i now).0 ≡ counter_of d r
  unfolding process_udp_payload udp_lookup udp_from_proxy counter_of
  udp-counters d r i now = ground arith

  payload-counters :
      (d : ProxyDirection) (r : SocksLocalRouter) (i : PacketInfo) (now : ℕ) (k : PacketKind)
      → counter_of d (process_payload find_process_path r i now k).0 ≡ counter_of d r
  unfolding process_payload
  payload-counters d r i now tcp_v4 = tcp-counters d r i
  payload-counters d r i now tcp_v6 = tcp-counters d r i
  payload-counters d r i now udp_v4 = udp-counters d r i now
  payload-counters d r i now udp_v6 = udp-counters d r i now

module _ (w : Wire) (find_process_path : ℕ → Bool → SocketAddr → SocketAddr → Option Text) where
  packet-counters :
      (d : ProxyDirection) (r : SocksLocalRouter) (b : List ℕ) (now : ℕ)
      → counter_of d (process_packet w find_process_path r b now).0 ≡ counter_of d r
  unfolding process_packet
  packet-counters d r b now = elim (Option-cases (parse_packet_info w b)) [
    | inl e ↦ rw (e, process_packet) refl
    | inr (i, e) ↦
        rw (e, process_packet) (payload-counters (find_process_path now) d r i now i.kind)
  ]

  -- The bytes of a packet for which the router answers with a rewrite in the direction, where the
  -- packet has been turned.
  abbrev counted_answer : ProxyDirection → List ℕ → PacketInfo → Option PortRewrite → ℕ
  counted_answer d b i none = 0
  counted_answer d b i (some x) =
      let (b', turned) = apply_rewrite w b i (some x) in
      elim turned [ none ↦ 0 | some _ ↦ if aims d x then length b' else 0 ]

  unfoldable pub counted : ProxyDirection → SocksLocalRouter → List ℕ → ℕ → ℕ
  counted d r b now = elim (parse_packet_info w b) [
    | none ↦ 0
    | some i ↦ counted_answer d b i (process_payload (find_process_path now) r i now i.kind).1
  ]

  -- These bytes of the packets of a batch.
  unfoldable pub total : ProxyDirection → SocksLocalRouter → List (IntermediateBuffer × ℕ) → ℕ
  total d r [] = 0
  total d r ((p, now) ∷ ps) =
      counted d r p.bytes now + total d (route_packet w find_process_path r p now).0 ps

  finish_frame-direction :
      (d : ProxyDirection) (b : List ℕ) (x : PortRewrite) (o : Option (List ℕ))
      → Counts d x (finish_frame w b x o)
  unfolding finish_frame length_of aims
  finish_frame-direction d b x none = refl
  finish_frame-direction ProxyDirection.to_proxy b (PortRewrite.to_proxy p) (some q) = refl
  finish_frame-direction ProxyDirection.to_proxy b (PortRewrite.from_proxy p) (some q) = refl
  finish_frame-direction ProxyDirection.from_proxy b (PortRewrite.to_proxy p) (some q) = refl
  finish_frame-direction ProxyDirection.from_proxy b (PortRewrite.from_proxy p) (some q) = refl

  apply_kind-direction :
      (d : ProxyDirection) (k : PacketKind) (b : List ℕ) (f : Frame) (x : PortRewrite)
      → Counts d x (apply_kind k w b f x)
  unfolding apply_kind apply_tcp_v4 apply_tcp_v6 apply_udp_v4 apply_udp_v6
  apply_kind-direction d tcp_v4 b f x = finish_frame-direction d b x _
  apply_kind-direction d tcp_v6 b f x = finish_frame-direction d b x _
  apply_kind-direction d udp_v4 b f x = finish_frame-direction d b x _
  apply_kind-direction d udp_v6 b f x = finish_frame-direction d b x _

  apply_rewrite-direction :
      (d : ProxyDirection) (b : List ℕ) (i : PacketInfo) (x : PortRewrite)
      → Counts d x (apply_rewrite w b i (some x))
  unfolding apply_rewrite length_of
  apply_rewrite-direction d b i x =
      let C = λ (o : List ℕ × Option ProxyDirection). Counts d x o in
      elim (Bool-cases (ltb (length b) 14)) [
        | inl e ↦
            let to : apply_rewrite w b i (some x) ≡ (b, none) = ground arith in
            subst C (sym to) refl
        | inr e ↦ elim (Option-cases (w.ethernet b)) [
          | inl n ↦
              let to : apply_rewrite w b i (some x) ≡ (b, none) = ground arith in
              subst C (sym to) refl
          | inr (f, n) ↦
              let to : apply_rewrite w b i (some x) ≡ apply_kind i.kind w b f x = ground arith in
              subst C (sym to) (apply_kind-direction d i.kind b f x)
        ]
      ]

  answer-direction :
      (d : ProxyDirection) (b : List ℕ) (i : PacketInfo) (o : Option PortRewrite)
      → let (b', direction) = apply_rewrite w b i o in
        length_of d direction (length b') ≡ counted_answer d b i o
  unfolding apply_rewrite length_of
  answer-direction d b i none = refl
  answer-direction d b i (some x) = apply_rewrite-direction d b i x

  packet-direction :
      (d : ProxyDirection) (r : SocksLocalRouter) (b : List ℕ) (now : ℕ)
      → let (r', b', direction) = process_packet w find_process_path r b now in
        length_of d direction (length b') ≡ counted d r b now
  unfolding process_packet counted length_of
  packet-direction d r b now = elim (Option-cases (parse_packet_info w b)) [
    | inl e ↦ rw (e, process_packet, counted) refl
    | inr (i, e) ↦
        rw (e, process_packet, counted)
          (answer-direction d b i (process_payload (find_process_path now) r i now i.kind).1)
  ]

  route_packet-counters :
      (d : ProxyDirection) (r : SocksLocalRouter) (p : IntermediateBuffer) (now : ℕ)
      → counter_of d r < 2 ^ 64
      → counter_of d (route_packet w find_process_path r p now).0
        ≡ (counter_of d r + counted d r p.bytes now) % 2 ^ 64
  unfolding route_packet
  route_packet-counters d r p now h =
      let o = process_packet w find_process_path r p.bytes now in
      let same : counter_of d o.0 ≡ counter_of d r = packet-counters d r p.bytes now in
      let added = counter_of-count_bytes d o.2 (length o.1) o.0 (omega (arith, same)) in
      omega (arith, added, same, packet-direction d r p.bytes now)

  route-counters :
      (d : ProxyDirection) (r : SocksLocalRouter) (ps : List (IntermediateBuffer × ℕ))
      → counter_of d r < 2 ^ 64
      → counter_of d (route w find_process_path r ps).0 ≡ (counter_of d r + total d r ps) % 2 ^ 64
  unfolding route total
  route-counters d r [] h = omega arith
  route-counters d r ((p, now) ∷ ps) h =
      let one = route_packet-counters d r p now h in
      let rest =
        route-counters d (route_packet w find_process_path r p now).0 ps (omega (arith, one)) in
      omega (arith, one, rest)

  -- A batch adds to the counter of bytes sent, modulo 2 ^ 64, the bytes of the packets that it turns
  -- where the router has answered with a rewrite to a proxy, and to that of bytes received those where
  -- it has answered with one from a proxy, so that the counter stays a 64-bit number; and the counter of batches
  -- stays below 20.
  pub process_batch-counters :
      (d : ProxyDirection) (r : SocksLocalRouter) (counter : ℕ) (ps : List (IntermediateBuffer × ℕ))
      (now : ℕ)
      → counter_of d r < 2 ^ 64
      → let ((r', counter'), calls) = process_batch w find_process_path r counter ps now in
        (counter_of d r' ≡ (counter_of d r + total d r ps) % 2 ^ 64)
        × (counter_of d r' < 2 ^ 64)
        × (counter' < 20)
  unfolding process_batch count_batch
  process_batch-counters d r counter ps now h =
      let sum = route-counters d r ps h in
      ground (arith, sum, counter_of-cleanup d (route w find_process_path r ps).0 now)
