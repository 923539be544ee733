-- ===== src/Proxy/Queue/InOrder.antt =====
-- The packets that are handled are those that were queued, in their order.

use proxifyre_rs.Prelude.{
  ◌≤◌, ◌≡◌, refl, sym, ap, ◌∙◌, true, false, none, List, [], ◌∷◌, ◌++◌, length, map, arith,
  append_assoc, append-nil, Bool-cases, inl, inr,
}
use proxifyre_rs.Proxy.Pool.{Pool, IsPool}
use proxifyre_rs.Proxy.Queue.{UdpPacket, UdpTasks, Event, next_buffer, step, run, started}
use proxifyre_rs.Proxy.Queue.Moves.{
  IsTasks, Order, next_buffer-IsTasks, step-Moves, Moves-IsTasks, Moves-Order, Moves-closed,
}
use proxifyre_rs.Proxy.Queue.Payload.{
  Payload, payload, queued, handled, all_queued, all_handled, FitsOne,
}

-- All events together.
abbrev pub FitAll : List Event → Type 0
FitAll [] = Unit {0}
FitAll (e ∷ es) = FitsOne e × FitAll es

run-closed :
    (es : List Event) (q : UdpTasks)
    → IsTasks q
    → FitAll es
    → q.receives ≡ false
    → ((run es q).queue ≡ [])
      × ((run es q).receives ≡ false)
      × (all_queued es q ≡ [])
      × (all_handled es q ≡ [])
unfolding run all_queued all_handled
run-closed [] q i f e = (i.3 e, e, refl, refl)
run-closed (x ∷ es) q i f e =
    let m = step-Moves x q i f.0 in
    let (e', k', a, h) = Moves-closed q (step x q) (queued x q) (handled x q) e (i.3 e) m in
    let (k, c, qs, hs) =
      run-closed es (step x q) (Moves-IsTasks q (step x q) (queued x q) (handled x q) i m) f.1 e' in
    (k, c, rw (a, qs) refl, rw (h, hs) refl)

join :
    {A : Type 0} (h hr waits rest q a ar lost : List A)
    → hr ++ rest ≡ waits ++ ar
    → lost ≡ []
    → h ++ (waits ++ lost) ≡ q ++ a
    → (h ++ hr) ++ rest ≡ q ++ (a ++ ar)
join h hr waits rest q a ar lost later gone same =
    append_assoc h hr rest
    ∙ ap (◌++◌ h) later
    ∙ sym (append_assoc h waits ar)
    ∙ ap (λ x. (h ++ x) ++ ar) (sym (ap (◌++◌ waits) gone ∙ append-nil waits))
    ∙ ap (λ x. x ++ ar) same
    ∙ append_assoc q a ar

close_up :
    (h hr : List Payload) (waits later : List UdpPacket) (q a ar lost : List Payload)
    → later ≡ []
    → ar ≡ []
    → hr ≡ []
    → waits ≡ []
    → h ++ (map payload waits ++ lost) ≡ q ++ a
    → (h ++ hr) ++ (map payload later ++ lost) ≡ q ++ (a ++ ar)
close_up h hr waits later q a ar lost k qs hs ws same =
    ap (λ x. (h ++ x) ++ (map payload later ++ lost)) hs
    ∙ ap (λ x. (h ++ []) ++ (map payload x ++ lost)) k
    ∙ ap (λ x. x ++ lost) (append-nil h)
    ∙ ap (λ x. h ++ (map payload x ++ lost)) (sym ws)
    ∙ same
    ∙ ap (λ x. q ++ x) (sym (append-nil a))
    ∙ ap (λ x. q ++ (a ++ x)) (sym qs)

run-Order :
    (es : List Event) (q : UdpTasks)
    → IsTasks q
    → FitAll es
    → IsTasks (run es q) × Order (all_queued es q) q (all_handled es q) (run es q)
unfolding run all_queued all_handled
run-Order [] q i f = (i, ([], refl, λ x. refl))
run-Order (x ∷ es) q i f =
    let m = step-Moves x q i f.0 in
    let q1 = step x q in
    let i1 = Moves-IsTasks q q1 (queued x q) (handled x q) i m in
    let (i2, (lost2, same2, none2)) = run-Order es q1 i1 f.1 in
    let (lost1, same1, none1) = Moves-Order q q1 (queued x q) (handled x q) i m in
    elim (Bool-cases q1.receives) [
      | inl e ↦ (
        i2,
        (
          lost2,
          join (handled x q) (all_handled es q1) (map payload q1.queue) _ (map payload q.queue)
              (queued x q) (all_queued es q1) lost1 same2 (none1 e) same1,
          none2,
        ),
      )
      | inr e ↦
          let (k, c, qs, hs) = run-closed es q1 i1 f.1 e in
          (
            i2,
            (
              lost1,
              close_up (handled x q) (all_handled es q1) q1.queue (run es q1).queue
                  (map payload q.queue) (queued x q) (all_queued es q1) lost1 k qs hs (i1.3 e)
                  same1,
              λ t. absurd (ground arith),
            ),
          )
    ]

-- Whatever listener and worker do in whatever order, from their start on an empty queue and with
-- datagrams that fit a buffer: the queue holds at most 1024 packets, the pool keeps its bound and
-- sizes, and the packets handed to `handle_udp_packet`, followed by those that wait, are the datagrams
-- queued, unchanged, each once and in the order of arrival, but for those lost when the worker ends.
pub run-InOrder :
    (pool : Pool) (es : List Event)
    → IsPool pool
    → FitAll es
    → let q = run es (started pool) in
      IsPool q.pool
      × (length q.queue ≤ 1024)
      × ((lost : List Payload) × (all_handled es (started pool) ++ (map payload q.queue ++ lost)
            ≡ all_queued es (started pool))
          × (q.receives ≡ true → lost ≡ []))
unfolding started next_buffer
run-InOrder pool es h f =
    let q : UdpTasks = record {
      pool = pool;
      held = none;
      queue = [];
      working = none;
      receives = true;
    } in
    let i = next_buffer-IsTasks q h (omega arith) (λ e. absurd (ground arith)) in
    let ((kept, held, l, c), order) = run-Order es (started pool) i f in (kept, l, order)
