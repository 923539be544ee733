-- ===== src/Proxy/Queue/Moves.antt =====
-- The moves of the listener and of the worker, and what each keeps.
use proxifyre_rs.Net.{SocketAddr}
use proxifyre_rs.Prelude.{
  map-append, ℕ, ◌<◌, ◌≤◌, ◌≡◌, refl, sym, ap, subst, ◌∙◌, true, false, Option, none, some, List,
  [], ◌∷◌, ◌++◌, length, map, leb, arith, append-nil, length-append, Option-cases, Bool-cases, inl,
  inr,
}
use proxifyre_rs.Proxy.Pool.{
  Pool, IsPool, take_buffer, udp_queue_size, pool_run, take_buffer-IsPool, put_buffer-IsPool,
  pool_run-IsPool,
}
use proxifyre_rs.Proxy.Queue.{
  UdpPacket, UdpTasks, Event, arrive, fail, stop_listener, take_work, finish_work, stop_worker,
  recv_from, next_buffer, put_back, try_send, take_packet, step,
}
use proxifyre_rs.Proxy.Queue.Payload.{Payload, payload, queued, handled, payload-recv_from, FitsOne}

abbrev HeldSized : Option (List ℕ) → Type 0
HeldSized none = Unit {0}
HeldSized (some buffer) = length buffer ≡ 65535

-- The queue is within its bound, and empty once nothing takes from it; the buffers have their size.
abbrev pub IsTasks : UdpTasks → Type 0
IsTasks q =
    IsPool q.pool
    × HeldSized q.held
    × (length q.queue ≤ udp_queue_size)
    × (q.receives ≡ false → q.queue ≡ [])

take_buffer-sized : (pool : Pool) → IsPool pool → length (take_buffer pool).0 ≡ 65535
unfolding pool_run
take_buffer-sized pool h = (pool_run-IsPool pool [] h).1

pub next_buffer-IsTasks :
    (q : UdpTasks)
    → IsPool q.pool
    → length q.queue ≤ udp_queue_size
    → (q.receives ≡ false → q.queue ≡ [])
    → IsTasks (next_buffer q)
unfolding next_buffer
next_buffer-IsTasks q h l c = (take_buffer-IsPool q.pool h, take_buffer-sized q.pool h, l, c)

full_lem :
    {A : Type 0} (xs : List A) → leb udp_queue_size (length xs) ≡ false → length xs < udp_queue_size
full_lem xs h = ground arith

-- What an event does, with the datagram that it queues and the packet that it hands on.
pub data Moves (q : UdpTasks) : UdpTasks → List Payload → List Payload → Type 0 where
  stays : Moves q q [] []
  refills : (buffer : List ℕ) → Moves q (next_buffer (put_back buffer q)) [] []
  ends : (buffer : List ℕ) → Moves q (record (put_back buffer q) { held = none }) [] []
  queues :
      (p : UdpPacket)
      → q.receives ≡ true
      → leb udp_queue_size (length q.queue) ≡ false
      → Moves q (next_buffer (record q { queue = q.queue ++ p ∷ [] })) (payload p ∷ []) []
  takes :
      (p : UdpPacket) (ps : List UdpPacket)
      → q.queue ≡ p ∷ ps
      → q.receives ≡ true
      → Moves q (record q { queue = ps; working = some p }) [] (payload p ∷ [])
  finishes : (p : UdpPacket) → Moves q (record (put_back p.packet q) { working = none }) [] []
  closes : Moves q (record q { queue = []; receives = false }) [] []

Moves-subst :
    (q q1 q2 : UdpTasks) (a1 a2 h1 h2 : List Payload)
    → Moves q q2 a2 h2
    → q1 ≡ q2
    → a1 ≡ a2
    → h1 ≡ h2
    → Moves q q1 a1 h1
Moves-subst q q1 q2 a1 a2 h1 h2 m e a h =
    subst (λ x. Moves q x a1 h1) (sym e)
      (subst (λ x. Moves q q2 x h1) (sym a) (subst (λ x. Moves q q2 a2 x) (sym h) m))

arrive-Moves :
    (q : UdpTasks) (d : List ℕ) (a : SocketAddr) (buffer : List ℕ)
    → q.held ≡ some buffer
    → length d ≤ length buffer
    → Moves q (step (arrive d a) q) (queued (arrive d a) q) []
unfolding step queued try_send
arrive-Moves q d a buffer k l =
    let p = recv_from buffer d a in
    elim (Bool-cases q.receives) [
      | inr e ↦
          Moves-subst q _ (record (put_back p.packet q) { held = none }) _ [] [] [] (ends p.packet)
            (ground arith) (ground arith) refl
      | inl e ↦ elim (Bool-cases (leb udp_queue_size (length q.queue))) [
        | inl f ↦
            Moves-subst q _ (next_buffer (put_back p.packet q)) _ [] [] [] (refills p.packet)
              (ground arith) (ground arith) refl
        | inr f ↦
            let whole = payload-recv_from buffer d a l in
            Moves-subst q _ (next_buffer (record q { queue = q.queue ++ p ∷ [] })) _
              (payload p ∷ []) [] [] (queues p e f) (ground arith)
              ((ground arith) ∙ ap (λ x. x ∷ []) (sym whole)) refl
      ]
    ]

held_sized :
    (q : UdpTasks) (buffer : List ℕ) → IsTasks q → q.held ≡ some buffer → length buffer ≡ 65535
held_sized q buffer (pool, held, l, c) k = subst HeldSized k held

next_work :
    (q : UdpTasks) (ps : List UdpPacket)
    → q.queue ≡ ps
    → q.working ≡ none
    → q.receives ≡ true
    → Moves q (step take_work q) [] (handled take_work q)
unfolding step handled take_packet
next_work q [] k w e = Moves-subst q _ q _ [] _ [] stays (ground arith) refl (ground arith)
next_work q (p ∷ ps) k w e =
    Moves-subst q _ (record q { queue = ps; working = some p }) _ [] _ (payload p ∷ [])
      (takes p ps k e) (ground arith) refl (ground arith)

take_work-Moves :
    (q : UdpTasks) (ps : List UdpPacket)
    → q.queue ≡ ps
    → Moves q (step take_work q) [] (handled take_work q)
unfolding step handled take_packet
take_work-Moves q ps k = elim (Option-cases q.working) [
  | inr (p, w) ↦ Moves-subst q _ q _ [] _ [] stays (ground arith) refl (ground arith)
  | inl w ↦ elim (Bool-cases q.receives) [
    | inr e ↦ Moves-subst q _ q _ [] _ [] stays (ground arith) refl (ground arith)
    | inl e ↦ next_work q ps k w e
  ]
]

pub step-Moves :
    (e : Event) (q : UdpTasks)
    → IsTasks q
    → FitsOne e
    → Moves q (step e q) (queued e q) (handled e q)
unfolding step queued handled take_packet
step-Moves (arrive d a) q h fits = elim (Option-cases q.held) [
  | inl k ↦ Moves-subst q _ q _ [] [] [] stays (ground arith) (ground arith) refl
  | inr (buffer, k) ↦ arrive-Moves q d a buffer k (omega (arith, fits, held_sized q buffer h k))
]
step-Moves fail q h fits = elim (Option-cases q.held) [
  | inl k ↦ Moves-subst q _ q _ [] [] [] stays (ground arith) refl refl
  | inr (buffer, k) ↦
      Moves-subst q _ (next_buffer (put_back buffer q)) _ [] [] [] (refills buffer) (ground arith)
        refl refl
]
step-Moves stop_listener q h fits = elim (Option-cases q.held) [
  | inl k ↦ Moves-subst q _ q _ [] [] [] stays (ground arith) refl refl
  | inr (buffer, k) ↦
      Moves-subst q _ (record (put_back buffer q) { held = none }) _ [] [] [] (ends buffer)
        (ground arith) refl refl
]
step-Moves take_work q h fits = take_work-Moves q q.queue refl
step-Moves finish_work q h fits = elim (Option-cases q.working) [
  | inl k ↦ Moves-subst q _ q _ [] [] [] stays (ground arith) refl refl
  | inr (p, k) ↦
      Moves-subst q _ (record (put_back p.packet q) { working = none }) _ [] [] [] (finishes p)
        (ground arith) refl refl
]
step-Moves stop_worker q h fits = elim (Option-cases q.working) [
  | inl k ↦
      Moves-subst q _ (record q { queue = []; receives = false }) _ [] [] [] closes (ground arith)
        refl refl
  | inr (p, k) ↦ Moves-subst q _ q _ [] [] [] stays (ground arith) refl refl
]

pub Moves-IsTasks : (q q' : UdpTasks) (a h : List Payload) → IsTasks q → Moves q q' a h → IsTasks q'
unfolding put_back
Moves-IsTasks q _ _ _ i stays = i
Moves-IsTasks q _ _ _ (pool, held, l, c) (refills buffer) =
    next_buffer-IsTasks (put_back buffer q) (put_buffer-IsPool q.pool buffer pool) l c
Moves-IsTasks q _ _ _ (pool, held, l, c) (ends buffer) =
    (put_buffer-IsPool q.pool buffer pool, tt, l, c)
Moves-IsTasks q _ _ _ (pool, held, l, c) (queues p e f) =
    next_buffer-IsTasks (record q { queue = q.queue ++ p ∷ [] }) pool
      (omega (arith, length-append q.queue (p ∷ []), full_lem q.queue f))
      (λ x. absurd (ground arith))
Moves-IsTasks q _ _ _ (pool, held, l, c) (takes p ps k e) =
    (pool, held, ground arith, λ x. absurd (ground arith))
Moves-IsTasks q _ _ _ (pool, held, l, c) (finishes p) =
    (put_buffer-IsPool q.pool p.packet pool, held, l, c)
Moves-IsTasks q _ _ _ (pool, held, l, c) closes = (pool, held, omega arith, λ x. refl)

-- What is handed on, and then what waits, are what waited and then what is queued, but for what is
-- lost when the worker ends.
abbrev pub Order : List Payload → UdpTasks → List Payload → UdpTasks → Type 0
Order a q h q' =
    (lost : List Payload) × (h ++ (map payload q'.queue ++ lost) ≡ map payload q.queue ++ a)
    × (q'.receives ≡ true → lost ≡ [])

pub Moves-Order :
    (q q' : UdpTasks) (a h : List Payload) → IsTasks q → Moves q q' a h → Order a q h q'
unfolding put_back next_buffer
Moves-Order q _ _ _ i stays = ([], refl, λ x. refl)
Moves-Order q _ _ _ i (refills buffer) = ([], refl, λ x. refl)
Moves-Order q _ _ _ i (ends buffer) = ([], refl, λ x. refl)
Moves-Order q _ _ _ i (queues p e f) = (
  [],
  append-nil (map payload (q.queue ++ p ∷ [])) ∙ map-append payload q.queue (p ∷ []),
  λ x. refl,
)
Moves-Order q _ _ _ i (takes p ps k e) = ([], ap (λ x. map payload x ++ []) (sym k), λ x. refl)
Moves-Order q _ _ _ i (finishes p) = ([], refl, λ x. refl)
Moves-Order q _ _ _ i closes =
    (map payload q.queue, sym (append-nil (map payload q.queue)), λ x. absurd (ground arith))

-- Once the worker has ended, nothing is queued or handed on.
pub Moves-closed :
    (q q' : UdpTasks) (a h : List Payload)
    → q.receives ≡ false
    → q.queue ≡ []
    → Moves q q' a h
    → (q'.receives ≡ false) × (q'.queue ≡ []) × (a ≡ []) × (h ≡ [])
unfolding put_back next_buffer
Moves-closed q _ _ _ e k stays = (e, k, refl, refl)
Moves-closed q _ _ _ e k (refills buffer) = (e, k, refl, refl)
Moves-closed q _ _ _ e k (ends buffer) = (e, k, refl, refl)
Moves-closed q _ _ _ e k (queues p r f) = absurd (ground arith)
Moves-closed q _ _ _ e k (takes p ps j r) = absurd (ground arith)
Moves-closed q _ _ _ e k (finishes p) = (e, k, refl, refl)
Moves-closed q _ _ _ e k closes = (refl, refl, refl, refl)
