-- ===== src/Tests/Queue.antt =====
-- A run of the UDP listener and the worker.
use proxifyre_rs.Net.{SocketAddr}
use proxifyre_rs.Prelude.{◌≤◌, ◌≡◌, true, List, [], ◌∷◌, ◌++◌, length, map, arith}
use proxifyre_rs.Proxy.Pool.{IsPool}
use proxifyre_rs.Proxy.Queue.InOrder.{run-InOrder}
use proxifyre_rs.Proxy.Queue.Payload.{Payload, payload, all_queued, all_handled}
use proxifyre_rs.Proxy.Queue.{
  Event, arrive, fail, take_work, finish_work, stop_worker, run, started,
}

abbrev client : SocketAddr
client = SocketAddr.v4 (record { a = 10; b = 0; c = 0; d = 1 }) 4000

abbrev events : List Event
events =
    arrive (1 ∷ 2 ∷ []) client
    ∷ arrive (3 ∷ []) client
    ∷ fail
    ∷ take_work
    ∷ finish_work
    ∷ stop_worker
    ∷ arrive (4 ∷ []) client
    ∷ []

run-InOrder_example :
    let q = run events (started []) in
    IsPool q.pool
    × (length q.queue ≤ 1024)
    × ((lost : List Payload) × (all_handled events (started []) ++ (map payload q.queue ++ lost)
          ≡ all_queued events (started []))
        × (q.receives ≡ true → lost ≡ []))
run-InOrder_example =
    run-InOrder [] events (tt, omega arith)
      (omega arith, (omega arith, (tt, (tt, (tt, (tt, (omega arith, tt)))))))
