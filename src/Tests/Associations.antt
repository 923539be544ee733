-- ===== src/Tests/Associations.antt =====
-- A UDP packet that gets an association, whose reader then ends; the buffer pool.
use proxifyre_rs.HashMap.{get, insert, remove, retain}
use proxifyre_rs.Prelude.{
  ◌≡◌, refl, some, List, [], ◌∷◌, ◌&&◌, not, arith, count, ℕ_discrete, true, false,
}
use proxifyre_rs.Net.{ip_discrete, SocketAddr}
use proxifyre_rs.Proxy.Associations.{
  UdpState, cleanup_stale_udp_associations, reap, find_assoc, limit_reached, attach, reader_end,
  spawn_udp_reader,
}
use proxifyre_rs.Proxy.Associations.Worker.{
  Job, Steps, done, more, packet, clean, reap_handles, limit, associate, sent, end_reader, initial,
  at, idle, sending, receive, check_limit, associated, job_key,
}
use proxifyre_rs.Proxy.Associations.Worker.Bound.{Bounded, Steps-Bounded}
use proxifyre_rs.Proxy.Associations.Worker.Served.{IsServed, Steps-IsServed}
use proxifyre_rs.Proxy.Pool.{PoolEvent, taken, returned}
use proxifyre_rs.Proxy.Readers.{
  Reader, key_discrete, reap_loop, reap_udp_reader_handles, reap_udp_reader_handles-ends,
}
use proxifyre_rs.Tests.Fixture.{server}

abbrev job : Job
job = record {
  client_addr = SocketAddr.v4 (record { a = 203; b = 0; c = 113; d = 10 }) 53000;
  dst_ip = server;
  dst_port = 53;
  packet = 1 ∷ 2 ∷ [];
}

abbrev reader : Reader
reader = record {
  local_key = job_key job;
  assoc = 7;
  client_addr = job.client_addr;
  is_finished = false;
}

abbrev empty : UdpState
empty = record { udp_connections = []; udp_reader_handles = [] }

abbrev with_one : UdpState
with_one = record {
  udp_connections = (job_key job, record { assoc = 7; last_active = 30 }) ∷ [];
  udp_reader_handles = reader ∷ [];
}

-- The packet is sent over the association 7.
path : Steps initial (at (sending job 7) with_one)
unfolding receive find_assoc get cleanup_stale_udp_associations retain reap reap_loop
    reap_udp_reader_handles check_limit limit_reached associated attach spawn_udp_reader insert
path =
    more
      (more
        (more (more (more done (packet job 10 empty)) (clean job 20 empty))
          (reap_handles job empty))
        (limit job empty))
      (associate job (some 7) 30 empty)

ended : Steps initial (at idle (reader_end 0 reader with_one))
ended = more (more path (sent job 7 with_one)) (end_reader idle 0 reader with_one refl refl)

-- With the reader, the association is gone.
gone : (reader_end 0 reader with_one).udp_connections ≡ []
unfolding reader_end remove key_discrete ip_discrete ℕ_discrete
gone = refl

Steps-Bounded_example : Bounded (at (sending job 7) with_one)
Steps-Bounded_example = Steps-Bounded path (ground arith)

Steps-IsServed_example : IsServed with_one
Steps-IsServed_example = Steps-IsServed path (tt, tt)

reap_udp_reader_handles-ends_example :
    let handles = record reader { is_finished = true } ∷ reader ∷ [] in
    (reap_loop 2 handles 0 ≡ some (reap_udp_reader_handles handles))
    × (count (λ h. true) (reap_udp_reader_handles handles)
        ≡ count (λ h. true && not h.is_finished) handles)
reap_udp_reader_handles-ends_example =
    reap_udp_reader_handles-ends (λ h. true) (record reader { is_finished = true } ∷ reader ∷ [])

abbrev events : List PoolEvent
events = taken ∷ returned (1 ∷ 2 ∷ []) ∷ taken ∷ []
