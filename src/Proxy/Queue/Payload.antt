-- ===== src/Proxy/Queue/Payload.antt =====
-- What is queued and what is handed on.
use proxifyre_rs.Net.{SocketAddr}
use proxifyre_rs.Prelude.{
  ℕ, zero, suc, ◌≤◌, ◌≡◌, refl, ap, ◌∙◌, none, some, List, [], ◌∷◌, ◌++◌, length, map, take, drop,
  leb, take-append_length, if◌then◌else◌, arith,
}
use proxifyre_rs.Proxy.Pool.{udp_queue_size}
use proxifyre_rs.Proxy.Queue.{UdpPacket, UdpTasks, Event, arrive, take_work, recv_from, step}

-- What `handle_udp_packet` is given of a packet.
abbrev pub Payload : Type 0
Payload = List ℕ × SocketAddr

abbrev pub payload : UdpPacket → Payload
payload p = (take p.packet_len p.packet, p.client_addr)

-- The datagram that an event queues, as it came: the queue has room for it.
unfoldable pub queued : Event → UdpTasks → List Payload
queued (arrive datagram client_addr) q = elim q.held [
  | none ↦ []
  | some buffer ↦
      if q.receives
      then if leb udp_queue_size (length q.queue) then [] else (datagram, client_addr) ∷ []
      else []
]
queued _ q = []

-- The packet that an event hands to `handle_udp_packet`.
unfoldable pub handled : Event → UdpTasks → List Payload
handled take_work q = elim q.working [
  | some p ↦ []
  | none ↦ if q.receives then map payload (take 1 q.queue) else []
]
handled _ q = []

unfoldable pub all_queued : List Event → UdpTasks → List Payload
all_queued [] q = []
all_queued (e ∷ es) q = queued e q ++ all_queued es (step e q)

unfoldable pub all_handled : List Event → UdpTasks → List Payload
all_handled [] q = []
all_handled (e ∷ es) q = handled e q ++ all_handled es (step e q)

take_all : {A : Type 0} (n : ℕ) (xs : List A) → length xs ≤ n → take n xs ≡ xs
take_all zero [] h = refl
take_all zero (x ∷ xs) h = absurd (omega arith)
take_all (suc n) [] h = refl
take_all (suc n) (x ∷ xs) h = ap (◌∷◌ x) (take_all n xs (omega arith))

pub payload-recv_from :
    (buffer datagram : List ℕ) (client_addr : SocketAddr)
    → length datagram ≤ length buffer
    → payload (recv_from buffer datagram client_addr) ≡ (datagram, client_addr)
unfolding recv_from
payload-recv_from buffer datagram client_addr h =
    let all = take_all (length buffer) datagram h in
    ap (λ d. (d, client_addr))
      (take-append_length (take (length buffer) datagram) (drop (length datagram) buffer) ∙ all)

-- The datagram of an event is no longer than a buffer.
abbrev pub FitsOne : Event → Type 0
FitsOne (arrive d a) = length d ≤ 65535
FitsOne _ = Unit {0}
