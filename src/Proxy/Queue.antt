-- ===== src/Proxy/Queue.antt =====
-- `accept_udp_connections` and `udp_worker_loop` of proxy/transparent_proxy.rs: the listener fills a
-- queue of 1024 packets from which the worker takes them. An event is what one of the two tasks does
-- next; one that its task cannot do then changes nothing.
pub mod Payload
pub mod Moves
pub mod InOrder
use proxifyre_rs.Net.{SocketAddr}
use proxifyre_rs.Prelude.{
  ℕ, Bool, true, false, Option, none, some, List, [], ◌∷◌, ◌++◌, length, take, drop, leb,
  if◌then◌else◌,
}
use proxifyre_rs.Proxy.Pool.{Pool, udp_queue_size, take_buffer, put_buffer}

pub record UdpPacket : Type 0 where
  pub packet : List ℕ
  pub packet_len : ℕ
  pub client_addr : SocketAddr

-- `held` is the buffer of the listener while it runs, `working` the packet that is being handled, and
-- `receives` is true until the worker ends, which closes the channel.
pub record UdpTasks : Type 0 where
  pub pool : Pool
  pub held : Option (List ℕ)
  pub queue : List UdpPacket
  pub working : Option UdpPacket
  pub receives : Bool

pub data Event : Type 0 where
  arrive : List ℕ → SocketAddr → Event
  fail stop_listener take_work finish_work stop_worker : Event

-- `recv_from`: the datagram at the start of the buffer, cut to its length.
unfoldable pub recv_from : List ℕ → List ℕ → SocketAddr → UdpPacket
recv_from buffer datagram client_addr = record {
  packet = take (length buffer) datagram ++ drop (length datagram) buffer;
  packet_len = length (take (length buffer) datagram);
  client_addr = client_addr;
}

-- The listener takes a buffer at the start of its loop.
unfoldable pub next_buffer : UdpTasks → UdpTasks
next_buffer q =
    let (buffer, pool) = take_buffer q.pool in record q { pool = pool; held = some buffer }

unfoldable pub put_back : List ℕ → UdpTasks → UdpTasks
put_back buffer q = record q { pool = put_buffer q.pool buffer }

-- `try_send` gives the packet back where the channel is closed or full.
unfoldable pub try_send : UdpPacket → UdpTasks → UdpTasks
try_send p q =
    if q.receives
    then if leb udp_queue_size (length q.queue)
      then next_buffer (put_back p.packet q)
      else next_buffer (record q { queue = q.queue ++ p ∷ [] })
    else record (put_back p.packet q) { held = none }

unfoldable pub take_packet : List UdpPacket → UdpTasks → UdpTasks
take_packet [] q = q
take_packet (p ∷ ps) q = record q { queue = ps; working = some p }

unfoldable pub step : Event → UdpTasks → UdpTasks
step (arrive datagram client_addr) q = elim q.held [
  | none ↦ q
  | some buffer ↦ try_send (recv_from buffer datagram client_addr) q
]
step fail q = elim q.held [ none ↦ q | some buffer ↦ next_buffer (put_back buffer q) ]
step stop_listener q = elim q.held [
  | none ↦ q
  | some buffer ↦ record (put_back buffer q) { held = none }
]
step take_work q = elim q.working [
  | some p ↦ q
  | none ↦ if q.receives then take_packet q.queue q else q
]
step finish_work q = elim q.working [
  | none ↦ q
  | some p ↦ record (put_back p.packet q) { working = none }
]
step stop_worker q = elim q.working [
  | some p ↦ q
  | none ↦ record q { queue = []; receives = false }
]

unfoldable pub run : List Event → UdpTasks → UdpTasks
run [] q = q
run (e ∷ es) q = run es (step e q)

-- Before the first event.
unfoldable pub started : Pool → UdpTasks
started pool =
    next_buffer (record { pool = pool; held = none; queue = []; working = none; receives = true })
