-- ===== src/Router/Adapter/Routed.antt =====
-- The fate of one packet of a batch.
use proxifyre_rs.Net.{SocketAddr}
use proxifyre_rs.Prelude.{
  ℕ, ◌<◌, ◌≡◌, refl, sym, subst, Bool, false, not, Option, none, some, List, Text, if◌then◌else◌,
  length,
}
use proxifyre_rs.Router.Adapter.{
  IntermediateBuffer, process_payload, process_packet, route_packet, is_redirected,
}
use proxifyre_rs.Router.Flow.Answers.{process_tcp_payload-Answered, process_udp_payload-Answered}
use proxifyre_rs.Router.Flow.Ranges.{InRanges, PortsFit}
use proxifyre_rs.Router.Flow.Rewritten.{rewritten}
use proxifyre_rs.Router.Packet.Frames.{ChecksumsHold, MacsSwapped, data_of, SameData}
use proxifyre_rs.Router.Packet.Reparsed.{is_group, apply_rewrite-Turns}
use proxifyre_rs.Router.Packet.{parse_packet_info, apply_rewrite}
use proxifyre_rs.Router.PacketInfo.{PacketInfo, PacketKind, PortRewrite}
use proxifyre_rs.Router.State.{SocksLocalRouter}
use proxifyre_rs.Router.Wire.{Wire}

module _ (w : Wire) where
  -- The packet is turned: `q` is as long, reads as the information rewritten, has its checksums,
  -- its MAC addresses exchanged and its data, and goes to the side that the packet came from.
  abbrev pub TurnedTo :
      IntermediateBuffer → PacketInfo → PortRewrite → IntermediateBuffer → Bool → Type 0
  TurnedTo p i x q to_adapter =
      (parse_packet_info w q.bytes ≡ some (rewritten x i))
      × (length q.bytes ≡ length p.bytes)
      × ChecksumsHold w i.kind q.bytes
      × MacsSwapped w p.bytes q.bytes
      × SameData (data_of w i.kind) p.bytes q.bytes
      × (to_adapter ≡ not p.on_send)

  -- What becomes of a packet with what the router has answered.
  abbrev pub Fate :
      Option PortRewrite → IntermediateBuffer → PacketInfo → IntermediateBuffer → Bool → Type 0
  Fate none p i q to_adapter = (q ≡ p) × (to_adapter ≡ p.on_send)
  Fate (some x) p i q to_adapter = TurnedTo p i x q to_adapter

  apply_none : (b : List ℕ) (i : PacketInfo) → apply_rewrite w b i none ≡ (b, none)
  unfolding apply_rewrite
  apply_none b i = refl

  fate :
      (p : IntermediateBuffer) (i : PacketInfo) (o : Option PortRewrite)
      → InRanges o
      → parse_packet_info w p.bytes ≡ some i
      → is_group i.src_ip ≡ false
      → let (b', d) = apply_rewrite w p.bytes i o in
        Fate o p i (record p { bytes = b' }) (if is_redirected d then not p.on_send else p.on_send)
  fate p i none u e single = rw (apply_none p.bytes i) (refl, refl)
  fate p i (some x) u e single =
      let (b', made, again, size, sums, macs, data_kept) =
        apply_rewrite-Turns w p.bytes i x e u single in
      subst
        (λ o.
          TurnedTo p i x (record p { bytes = o.0 })
            (if is_redirected o.1 then not p.on_send else p.on_send))
        (sym made) (again, size, sums, macs, data_kept, refl)

module _ (w : Wire) (find_process_path : ℕ → Bool → SocketAddr → SocketAddr → Option Text) where
  process_payload-InRanges :
      (r : SocksLocalRouter) (i : PacketInfo) (now : ℕ) (k : PacketKind)
      → PortsFit r
      → i.dst_port < 65536
      → InRanges (process_payload (find_process_path now) r i now k).1
  unfolding process_payload
  process_payload-InRanges r i now PacketKind.tcp_v4 h d =
      (process_tcp_payload-Answered (find_process_path now) r i h d).1
  process_payload-InRanges r i now PacketKind.tcp_v6 h d =
      (process_tcp_payload-Answered (find_process_path now) r i h d).1
  process_payload-InRanges r i now PacketKind.udp_v4 h d =
      (process_udp_payload-Answered (find_process_path now) r i now h d).1
  process_payload-InRanges r i now PacketKind.udp_v6 h d =
      (process_udp_payload-Answered (find_process_path now) r i now h d).1

  -- The ports of the proxies and of the tables are 16-bit numbers, and so is the destination port
  -- of a packet from an address that is not a group's, of which the information is read. It is
  -- treated as the router answers: with a rewrite it is turned around in place, as long as it was,
  -- reads as the information rewritten, with the same data, checksums that verify and MAC
  -- addresses exchanged, and goes back to the side that it came from; without one it goes on
  -- unchanged to the other side.
  pub route_packet-Fate :
      (r : SocksLocalRouter) (p : IntermediateBuffer) (now : ℕ) (i : PacketInfo)
      → PortsFit r
      → i.dst_port < 65536
      → parse_packet_info w p.bytes ≡ some i
      → is_group i.src_ip ≡ false
      → let (r', q, to_adapter) = route_packet w find_process_path r p now in
        Fate w (process_payload (find_process_path now) r i now i.kind).1 p i q to_adapter
  unfolding route_packet process_packet
  route_packet-Fate r p now i h d e single =
      rw (e, process_packet)
        (fate w p i (process_payload (find_process_path now) r i now i.kind).1
          (process_payload-InRanges r i now i.kind h d) e single)
