-- ===== src/Router/Adapter/Events.antt =====
-- The packet loop as a run of the router over parsed packets.
use proxifyre_rs.Net.{SocketAddr}
use proxifyre_rs.Prelude.{
  ℕ, ◌≡◌, refl, sym, ap, ◌∙◌, Bool, Option, none, some, List, [], ◌∷◌, ◌++◌, Text, length, arith,
  Option-cases, inl, inr, if◌then◌else◌, leb, suc,
}
use proxifyre_rs.Router.Adapter.{
  IntermediateBuffer, count_bytes, count_batch, process_payload, process_packet, route_packet,
  route, process_batch,
}
use proxifyre_rs.Router.Flow.{
  process_tcp_payload, tcp_syn, tcp_established, tcp_from_proxy, open_tcp, close_tcp, tcp_port_of,
  udp_port_of, process_udp_payload, udp_lookup, udp_from_proxy, cleanup_stale_udp_endpoints, Event,
  tcp, udp, cleanup, step, run,
}
use proxifyre_rs.Router.Packet.{parse_packet_info}
use proxifyre_rs.Router.PacketInfo.{
  PacketInfo, PacketKind, ProxyDirection, tcp_v4, tcp_v6, udp_v4, udp_v6,
}
use proxifyre_rs.Router.State.{
  SocksLocalRouter, get_proxy_port_tcp, get_proxy_port_udp, is_tcp_proxy_port, is_udp_proxy_port,
}
use proxifyre_rs.Router.Wire.{Wire}

-- The state without the two counters of bytes.
unfoldable pub forget : SocksLocalRouter → SocksLocalRouter
forget r = record r { bytes_sent = 0; bytes_received = 0 }

unfoldable pub event_of : PacketInfo → ℕ → PacketKind → Event
event_of i now tcp_v4 = tcp i now
event_of i now tcp_v6 = tcp i now
event_of i now udp_v4 = udp i now
event_of i now udp_v6 = udp i now

-- The events of a batch: a packet that cannot be read is none.
unfoldable pub events : Wire → List (IntermediateBuffer × ℕ) → List Event
events w [] = []
events w ((p, now) ∷ ps) = elim (parse_packet_info w p.bytes) [
  | none ↦ events w ps
  | some i ↦ event_of i now i.kind ∷ events w ps
]

-- The clean-up after a batch, if it is the twentieth.
unfoldable pub cleanup_event : ℕ → ℕ → List Event
cleanup_event counter now = if leb 20 (suc counter) then cleanup now ∷ [] else []

forget-count_bytes :
    (o : Option ProxyDirection) (n : ℕ) (r : SocksLocalRouter)
    → forget (count_bytes o n r) ≡ forget r
unfolding forget count_bytes
forget-count_bytes none n r = refl
forget-count_bytes (some ProxyDirection.to_proxy) n r = refl
forget-count_bytes (some ProxyDirection.from_proxy) n r = refl

tcp_from_proxy-forget :
    (r : SocksLocalRouter) (i : PacketInfo)
    → forget (tcp_from_proxy r i).0 ≡ (tcp_from_proxy (forget r) i).0
unfolding forget tcp_from_proxy close_tcp is_tcp_proxy_port
tcp_from_proxy-forget r i = ground arith

udp_from_proxy-forget :
    (r : SocksLocalRouter) (i : PacketInfo)
    → forget (udp_from_proxy r i).0 ≡ (udp_from_proxy (forget r) i).0
unfolding forget udp_from_proxy is_udp_proxy_port
udp_from_proxy-forget r i = ground arith

module _ (find_process_path : Bool → SocketAddr → SocketAddr → Option Text) where
  tcp_port_of-forget :
      (r : SocksLocalRouter) (i : PacketInfo)
      → tcp_port_of find_process_path (forget r) i ≡ tcp_port_of find_process_path r i
  unfolding forget tcp_port_of get_proxy_port_tcp
  tcp_port_of-forget r i = refl

  udp_port_of-forget :
      (r : SocksLocalRouter) (i : PacketInfo)
      → udp_port_of find_process_path (forget r) i ≡ udp_port_of find_process_path r i
  unfolding forget udp_port_of get_proxy_port_udp
  udp_port_of-forget r i = refl

  tcp-forget :
      (r : SocksLocalRouter) (i : PacketInfo)
      → forget (process_tcp_payload find_process_path r i).0
        ≡ (process_tcp_payload find_process_path (forget r) i).0
  unfolding process_tcp_payload tcp_syn tcp_established open_tcp close_tcp forget
  tcp-forget r i = ground (arith, tcp_port_of-forget r i, tcp_from_proxy-forget r i)

  udp-forget :
      (r : SocksLocalRouter) (i : PacketInfo) (now : ℕ)
      → forget (process_udp_payload find_process_path r i now).0
        ≡ (process_udp_payload find_process_path (forget r) i now).0
  unfolding process_udp_payload udp_lookup forget
  udp-forget r i now = ground (arith, udp_port_of-forget r i, udp_from_proxy-forget r i)

module _ (find_process_path : ℕ → Bool → SocketAddr → SocketAddr → Option Text) where
  payload-forget :
      (r : SocksLocalRouter) (i : PacketInfo) (now : ℕ) (k : PacketKind)
      → forget (process_payload (find_process_path now) r i now k).0
        ≡ step find_process_path (forget r) (event_of i now k)
  unfolding process_payload event_of step
  payload-forget r i now tcp_v4 = tcp-forget (find_process_path now) r i
  payload-forget r i now tcp_v6 = tcp-forget (find_process_path now) r i
  payload-forget r i now udp_v4 = udp-forget (find_process_path now) r i now
  payload-forget r i now udp_v6 = udp-forget (find_process_path now) r i now

  step-forget :
      (r : SocksLocalRouter) (e : Event)
      → forget (step find_process_path r e) ≡ step find_process_path (forget r) e
  unfolding step cleanup_stale_udp_endpoints forget
  step-forget r (tcp i at) = tcp-forget (find_process_path at) r i
  step-forget r (udp i now) = udp-forget (find_process_path now) r i now
  step-forget r (cleanup now) = refl

  pub run-append :
      (r : SocksLocalRouter) (es fs : List Event)
      → run find_process_path r (es ++ fs) ≡ run find_process_path (run find_process_path r es) fs
  unfolding run
  run-append r [] fs = refl
  run-append r (e ∷ es) fs = run-append (step find_process_path r e) es fs

  -- The counters of bytes do not matter to a run.
  pub run-forget :
      (r : SocksLocalRouter) (es : List Event)
      → forget (run find_process_path r es) ≡ run find_process_path (forget r) es
  unfolding run
  run-forget r [] = refl
  run-forget r (e ∷ es) =
      run-forget (step find_process_path r e) es
      ∙ ap (λ s. run find_process_path s es) (step-forget r e)

module _ (w : Wire) (find_process_path : ℕ → Bool → SocketAddr → SocketAddr → Option Text) where
  route_packet-forget :
      (r : SocksLocalRouter) (p : IntermediateBuffer) (now : ℕ) (es : List Event)
      → run find_process_path (forget (route_packet w find_process_path r p now).0) es
        ≡ run find_process_path (forget r) (events w ((p, now) ∷ []) ++ es)
  unfolding route_packet process_packet events run
  route_packet-forget r p now es =
      let o = process_packet w find_process_path r p.bytes now in
      let plain = ap (λ s. run find_process_path s es) (forget-count_bytes o.2 (length o.1) o.0) in
      elim (Option-cases (parse_packet_info w p.bytes)) [
        | inl e ↦
            let same : o.0 ≡ r = rw (e, process_packet) refl in
            rw (e, events) (plain ∙ ap (λ s. run find_process_path (forget s) es) same)
        | inr (i, e) ↦
            let same : o.0 ≡ (process_payload (find_process_path now) r i now i.kind).0 =
              rw (e, process_packet) refl in
            rw (e, events)
              (plain
                ∙ ap (λ s. run find_process_path (forget s) es) same
                ∙ ap (λ s. run find_process_path s es)
                    (payload-forget find_process_path r i now i.kind))
      ]

  events-cons :
      (p : IntermediateBuffer × ℕ) (ps : List (IntermediateBuffer × ℕ))
      → events w (p ∷ ps) ≡ events w (p ∷ []) ++ events w ps
  unfolding events
  events-cons (p, now) ps = ground arith

  route-forget :
      (r : SocksLocalRouter) (ps : List (IntermediateBuffer × ℕ))
      → forget (route w find_process_path r ps).0 ≡ run find_process_path (forget r) (events w ps)
  unfolding route run events
  route-forget r [] = refl
  route-forget r ((p, now) ∷ ps) =
      route-forget (route_packet w find_process_path r p now).0 ps
      ∙ route_packet-forget r p now (events w ps)
      ∙ ap (run find_process_path (forget r)) (sym (events-cons (p, now) ps))

  cleanup-forget :
      (r : SocksLocalRouter) (counter now : ℕ)
      → forget (count_batch r counter now).0
        ≡ run find_process_path (forget r) (cleanup_event counter now)
  unfolding count_batch cleanup_event run step forget cleanup_stale_udp_endpoints
  cleanup-forget r counter now = ground arith

  -- A batch changes the router as the events of its packets do, in their order, and then the
  -- clean-up if the batch is the twentieth: up to the two counters of bytes, the state is that of the
  -- run over these events.
  pub process_batch-run :
      (r : SocksLocalRouter) (counter : ℕ) (ps : List (IntermediateBuffer × ℕ)) (now : ℕ)
      → let ((r', counter'), calls) = process_batch w find_process_path r counter ps now in
        forget r' ≡ run find_process_path (forget r) (events w ps ++ cleanup_event counter now)
  unfolding process_batch
  process_batch-run r counter ps now =
      cleanup-forget (route w find_process_path r ps).0 counter now
      ∙ ap (λ s. run find_process_path s (cleanup_event counter now)) (route-forget r ps)
      ∙ sym (run-append find_process_path (forget r) (events w ps) (cleanup_event counter now))
