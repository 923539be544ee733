-- ===== src/Proxy/Pool.antt =====
-- `UdpPacketBufferPool` of proxy/transparent_proxy.rs, under its lock.
use proxifyre_rs.Prelude.{
  ℕ, ◌≤◌, ◌≡◌, ◌+◌, ◌-◌, List, [], ◌∷◌, ◌++◌, length, take, replicate, Bool-cases, inl, inr, ltb,
  ◌==◌, if◌then◌else◌, arith, length-append, length-take, length-replicate,
}

abbrev pub udp_queue_size : ℕ
udp_queue_size = 1024

abbrev pub udp_datagram_buffer_size : ℕ
udp_datagram_buffer_size = 65535

abbrev pub udp_packet_pool_max : ℕ
udp_packet_pool_max = udp_queue_size + 2

-- The buffers, the last one pushed first.
abbrev pub Pool : Type 0
Pool = List (List ℕ)

-- `vec![0u8; UDP_DATAGRAM_BUFFER_SIZE]`
unfoldable pub fresh_buffer : Unit {0} → List ℕ
fresh_buffer _ = replicate udp_datagram_buffer_size 0

-- `Vec::resize` with zeros.
unfoldable pub resize : List ℕ → ℕ → List ℕ
resize buffer n = take n buffer ++ replicate (n - length buffer) 0

length-resize : (buffer : List ℕ) (n : ℕ) → length (resize buffer n) ≡ n
unfolding resize
length-resize buffer n = omega (
  arith,
  length-append (take n buffer) (replicate (n - length buffer) 0),
  length-take n buffer,
  length-replicate {A = ℕ} (n - length buffer) 0,
)

-- What `put` keeps of a buffer.
unfoldable pub sized : List ℕ → ℕ → List ℕ
unfolding resize
sized buffer n = if length buffer == n then buffer else resize buffer n

length-sized : (buffer : List ℕ) (n : ℕ) → length (sized buffer n) ≡ n
unfolding sized
length-sized buffer n = ground (arith, length-resize buffer n)

unfoldable pub take_buffer : Pool → List ℕ × Pool
unfolding fresh_buffer
take_buffer [] = (fresh_buffer tt, [])
take_buffer (buffer ∷ pool) = (buffer, pool)

unfoldable pub put_buffer : Pool → List ℕ → Pool
unfolding sized
put_buffer pool buffer =
    if ltb (length pool) udp_packet_pool_max
    then sized buffer udp_datagram_buffer_size ∷ pool
    else pool

-- What the tasks of the proxy do with the pool: take a buffer, or put back one of any length.
pub data PoolEvent : Type 0 where
  taken : PoolEvent
  returned : List ℕ → PoolEvent

unfoldable pub pool_run : Pool → List PoolEvent → Pool
unfolding take_buffer put_buffer
pool_run pool [] = pool
pool_run pool (taken ∷ events) = pool_run ((take_buffer pool).1) events
pool_run pool (returned buffer ∷ events) = pool_run (put_buffer pool buffer) events

-- Every buffer has the size of a datagram.
abbrev pub AllSized : Pool → Type 0
AllSized [] = Unit
AllSized (buffer ∷ pool) = (length buffer ≡ udp_datagram_buffer_size) × AllSized pool

abbrev pub IsPool : Pool → Type 0
IsPool pool = AllSized pool × (length pool ≤ udp_packet_pool_max)

pub take_buffer-IsPool : (pool : Pool) → IsPool pool → IsPool ((take_buffer pool).1)
unfolding take_buffer
take_buffer-IsPool [] h = h
take_buffer-IsPool (buffer ∷ pool) ((size, sized), max) = (sized, omega arith)

pub put_buffer-IsPool :
    (pool : Pool) (buffer : List ℕ) → IsPool pool → IsPool (put_buffer pool buffer)
unfolding put_buffer
put_buffer-IsPool pool buffer (sizes, max) =
    elim (Bool-cases (ltb (length pool) udp_packet_pool_max)) [
      | inl room ↦
          rw (room, put_buffer)
            ((length-sized buffer udp_datagram_buffer_size, sizes), ground arith)
      | inr full ↦ rw (full, put_buffer) (sizes, max)
    ]

fresh : length (fresh_buffer tt) ≡ udp_datagram_buffer_size
unfolding fresh_buffer
fresh = length-replicate {A = ℕ} udp_datagram_buffer_size 0

-- From a pool that keeps them, whatever is taken and put back, these hold: the pool holds at most 1026 buffers, each of
-- them has 65535 bytes, and so has the buffer that is taken next.
pub pool_run-IsPool :
    (pool : Pool) (events : List PoolEvent)
    → IsPool pool
    → IsPool (pool_run pool events)
      × (length ((take_buffer (pool_run pool events)).0) ≡ udp_datagram_buffer_size)
unfolding pool_run take_buffer
pool_run-IsPool [] [] h = (h, fresh)
pool_run-IsPool (buffer ∷ pool) [] h = (h, h.0.0)
pool_run-IsPool pool (taken ∷ events) h =
    pool_run-IsPool ((take_buffer pool).1) events (take_buffer-IsPool pool h)
pool_run-IsPool pool (returned buffer ∷ events) h =
    pool_run-IsPool (put_buffer pool buffer) events (put_buffer-IsPool pool buffer h)
