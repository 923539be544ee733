-- ===== src/Proxy/Associations/Worker/Bound.antt =====
-- The number of associations.
use proxifyre_rs.HashMap.{get, length-insert, length-retain-le, length-remove-le, length-modify}
use proxifyre_rs.Net.{SocketAddr}
use proxifyre_rs.Prelude.{
  ℕ, ◌≤◌, ◌≡◌, refl, ◌+◌, Option, none, some, length, arith, Option-cases, inl, inr,
}
use proxifyre_rs.Proxy.Associations.Worker.{
  Job, Phase, System, idle, not_found, cleaned, reaped, associating, sending, at, job_key, receive,
  check_limit, associated, Step, tick, packet, clean, reap_handles, limit, associate, sent, reply,
  end_reader, Steps, done, more,
}
use proxifyre_rs.Proxy.Associations.{
  UdpState, touch, cleanup_stale_udp_associations, reap, find_assoc, limit_reached, attach,
  reader_reply, reader_end,
}
use proxifyre_rs.Proxy.Readers.{UdpAssociationKey, key_discrete}

-- While an association is being made, there is room for it.
abbrev pub room : Phase → ℕ
room (associating j) = 1023
room idle = 1024
room (not_found j) = 1024
room (cleaned j) = 1024
room (reaped j) = 1024
room (sending j assoc) = 1024

abbrev pub Bounded : System → Type 0
Bounded x = length x.state.udp_connections ≤ room x.phase

length-cleanup :
    (now : ℕ) (s : UdpState)
    → length ((cleanup_stale_udp_associations now s).udp_connections) ≤ length s.udp_connections
unfolding cleanup_stale_udp_associations
length-cleanup now s = length-retain-le key_discrete _ s.udp_connections

length-find_assoc :
    (key : UdpAssociationKey) (now : ℕ) (s : UdpState)
    → length ((find_assoc key now s).1.udp_connections) ≡ length s.udp_connections
unfolding find_assoc touch
length-find_assoc key now s = elim (Option-cases (get key_discrete key s.udp_connections)) [
  | inl e ↦ rw (e, find_assoc) refl
  | inr (entry, e) ↦ rw (e, find_assoc) (length-modify key_discrete key _ s.udp_connections)
]

length-attach :
    (key : UdpAssociationKey) (assoc : ℕ) (client : SocketAddr) (now : ℕ) (s : UdpState)
    → length ((attach key assoc client now s).1.udp_connections) ≤ length s.udp_connections + 1
unfolding attach touch
length-attach key assoc client now s =
    elim (Option-cases (get key_discrete key s.udp_connections)) [
      | inl e ↦ rw (e, attach) (length-insert key_discrete key _ s.udp_connections)
      | inr (entry, e) ↦
          rw
            (
              e,
              attach,
              length-modify key_discrete key (λ x. record x { last_active = now })
                  s.udp_connections,
            )
            (omega arith)
    ]

receive-Bounded :
    (j : Job) (now : ℕ) (s : UdpState) → Bounded (at idle s) → Bounded (receive j now s)
unfolding receive
receive-Bounded j now s h =
    let same = length-find_assoc (job_key j) now s in
    elim (Option-cases ((find_assoc (job_key j) now s).0)) [
      | inl e ↦ rw (e, receive) (omega arith)
      | inr (assoc, e) ↦ rw (e, receive) (omega arith)
    ]

associated-Bounded :
    (j : Job) (result : Option ℕ) (now : ℕ) (s : UdpState)
    → Bounded (at (associating j) s)
    → Bounded (associated j result now s)
unfolding associated
associated-Bounded j none now s h = omega arith
associated-Bounded j (some assoc) now s h =
    omega (arith, length-attach (job_key j) assoc j.client_addr now s)

Step-Bounded : {a b : System} → Step a b → Bounded a → Bounded b
unfolding reap check_limit limit_reached reader_reply reader_end touch
Step-Bounded (tick now s) h = omega (arith, length-cleanup now s)
Step-Bounded (packet j now s) h = receive-Bounded j now s h
Step-Bounded (clean j now s) h = omega (arith, length-cleanup now s)
Step-Bounded (reap_handles j s) h = h
Step-Bounded (limit j s) h = ground arith
Step-Bounded (associate j result now s) h = associated-Bounded j result now s h
Step-Bounded (sent j assoc s) h = h
Step-Bounded (reply p i r now s at_i running) h =
    rw
      (length-modify key_discrete r.local_key (λ e. record e { last_active = now })
        s.udp_connections)
      h
Step-Bounded (end_reader p i r s at_i running) h =
    omega (arith, length-remove-le key_discrete r.local_key s.udp_connections)

-- However the worker and the readers interleave, from a state where it holds: there are at most 1024
-- associations, and at most 1023 while the worker waits for one more.
pub Steps-Bounded : {a b : System} → Steps a b → Bounded a → Bounded b
Steps-Bounded done h = h
Steps-Bounded (more path last) h = Step-Bounded last (Steps-Bounded path h)
