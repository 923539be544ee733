-- ===== src/Router/Adapter.antt =====
-- router/adapter.rs, and `process_packet` of router/packet.rs: the packets that one read of the
-- driver gives are looked at one after the other, and sent on in at most two calls. The time at
-- which a packet is looked at stands beside it.
pub mod Batch
pub mod Events
pub mod Counters
pub mod Loop
pub mod Routed
use proxifyre_rs.Prelude.{
  ℕ, suc, ◌+◌, ◌%◌, ◌^◌, Bool, true, false, not, Option, none, some, List, [], ◌∷◌, ◌++◌, Text,
  length, count, if◌then◌else◌, leb, ◌==◌,
}
use proxifyre_rs.Net.{SocketAddr}
use proxifyre_rs.Router.Flow.{process_tcp_payload, process_udp_payload, cleanup_stale_udp_endpoints}
use proxifyre_rs.Router.Packet.{parse_packet_info, apply_rewrite}
use proxifyre_rs.Router.PacketInfo.{
  PacketInfo, PacketKind, PortRewrite, ProxyDirection, tcp_v4, tcp_v6, udp_v4, udp_v6,
}
use proxifyre_rs.Router.State.{SocksLocalRouter}
use proxifyre_rs.Router.Wire.{Wire}

-- `IntermediateBuffer` of the driver: the bytes up to the length, and the flag of the direction.
pub record IntermediateBuffer : Type 0 where
  pub bytes : List ℕ
  pub on_send : Bool

-- A call of the driver that sends packets.
pub data Send : Type 0 where
  send_packets_to_adapter send_packets_to_mstcp : List IntermediateBuffer → Send

-- `fetch_add` on an `AtomicU64`, which wraps around.
abbrev pub fetch_add : ℕ → ℕ → ℕ
fetch_add counter n = (counter + n) % 2 ^ 64

unfoldable pub count_bytes : Option ProxyDirection → ℕ → SocksLocalRouter → SocksLocalRouter
count_bytes none n r = r
count_bytes (some ProxyDirection.to_proxy) n r = record r { bytes_sent = fetch_add r.bytes_sent n }
count_bytes (some ProxyDirection.from_proxy) n r = record r {
  bytes_received = fetch_add r.bytes_received n;
}

abbrev pub is_redirected : Option ProxyDirection → Bool
is_redirected none = false
is_redirected (some d) = true

-- The packets that the routing marks with the Boolean.
unfoldable pub marked : Bool → List IntermediateBuffer → List Bool → List IntermediateBuffer
marked b [] routing = []
marked b (p ∷ ps) [] = []
marked true (p ∷ ps) (m ∷ routing) =
    if m then p ∷ marked true ps routing else marked true ps routing
marked false (p ∷ ps) (m ∷ routing) =
    if m then marked false ps routing else p ∷ marked false ps routing

-- The calls at the end of a batch; a call without packets is left out.
unfoldable pub sends : List IntermediateBuffer → List Bool → List Send
sends ps routing =
    let adapter_count = count (λ m. m) routing in
    (if adapter_count == 0 then [] else send_packets_to_adapter (marked true ps routing) ∷ [])
    ++ (if adapter_count == length ps
        then []
        else send_packets_to_mstcp (marked false ps routing) ∷ [])

-- The next value of `cleanup_counter`, and the clean-up of every twentieth batch.
unfoldable pub count_batch : SocksLocalRouter → ℕ → ℕ → SocksLocalRouter × ℕ
count_batch r counter now =
    if leb 20 (suc counter) then (cleanup_stale_udp_endpoints r now, 0) else (r, suc counter)

module _ (find_process_path : Bool → SocketAddr → SocketAddr → Option Text) where
  unfoldable pub process_payload :
      SocksLocalRouter → PacketInfo → ℕ → PacketKind → SocksLocalRouter × Option PortRewrite
  process_payload r i now tcp_v4 = process_tcp_payload find_process_path r i
  process_payload r i now tcp_v6 = process_tcp_payload find_process_path r i
  process_payload r i now udp_v4 = process_udp_payload find_process_path r i now
  process_payload r i now udp_v6 = process_udp_payload find_process_path r i now

module _ (w : Wire) (find_process_path : ℕ → Bool → SocketAddr → SocketAddr → Option Text) where
  unfoldable pub process_packet :
      SocksLocalRouter → List ℕ → ℕ → SocksLocalRouter × List ℕ × Option ProxyDirection
  process_packet r b now = elim (parse_packet_info w b) [
    | none ↦ (r, b, none)
    | some i ↦
        let (r', rewrite) = process_payload (find_process_path now) r i now i.kind in
        let (b', direction) = apply_rewrite w b i rewrite in (r', b', direction)
  ]

  -- One round over a packet of the batch: the packet as it is sent, and whether to the adapter.
  unfoldable pub route_packet :
      SocksLocalRouter → IntermediateBuffer → ℕ → SocksLocalRouter × IntermediateBuffer × Bool
  route_packet r p now =
      let (r', b, direction) = process_packet r p.bytes now in
      (
        count_bytes direction (length b) r',
        record p { bytes = b },
        if is_redirected direction then not p.on_send else p.on_send,
      )

  -- The loop over the packets, with the vector `routing` at the end.
  unfoldable pub route :
      SocksLocalRouter
      → List (IntermediateBuffer × ℕ)
      → SocksLocalRouter × List IntermediateBuffer × List Bool
  route r [] = (r, [], [])
  route r ((p, now) ∷ ps) =
      let (r', p', to_adapter) = route_packet r p now in
      let (r'', ps', routing) = route r' ps in (r'', p' ∷ ps', to_adapter ∷ routing)

  -- What is done with a batch, which has a packet; `now` is the time of the clean-up.
  unfoldable pub process_batch :
      SocksLocalRouter → ℕ → List (IntermediateBuffer × ℕ) → ℕ → (SocksLocalRouter × ℕ) × List Send
  process_batch r counter ps now =
      let (r', ps', routing) = route r ps in (count_batch r' counter now, sends ps' routing)
