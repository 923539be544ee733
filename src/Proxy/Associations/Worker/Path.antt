-- ===== src/Proxy/Associations/Worker/Path.antt =====
-- A datagram is sent.
use proxifyre_rs.HashMap.{get}
use proxifyre_rs.Prelude.{ℕ, ◌≡◌, subst, false, none, some, arith, Option-cases, inl, inr}
use proxifyre_rs.Proxy.Associations.Worker.{
  Job, idle, not_found, associating, sending, at, job_key, receive, check_limit, associated, packet,
  clean, reap_handles, limit, associate, Steps, done, more,
}
use proxifyre_rs.Proxy.Associations.{
  UdpState, key_discrete, find_assoc, limit_reached, cleanup_stale_udp_associations, reap, attach,
}

check_limit_free :
    (j : Job) (s : UdpState) → limit_reached s ≡ false → check_limit j s ≡ at (associating j) s
unfolding check_limit
check_limit_free j s e = ground arith

receive_missed :
    (j : Job) (now : ℕ) (s : UdpState)
    → get key_discrete (job_key j) s.udp_connections ≡ none
    → receive j now s ≡ at (not_found j) s
unfolding receive
receive_missed j now s e = ground arith

-- Where an association of the key is there, or one more can be made and the server makes it, the
-- worker comes to send the datagram.
pub worker_sends :
    (j : Job) (now a : ℕ) (s : UdpState)
    → limit_reached (reap (cleanup_stale_udp_associations now s)) ≡ false
    → (assoc : ℕ) × (s' : UdpState) × Steps (at idle s) (at (sending j assoc) s')
unfolding receive associated
worker_sends j now a s room = elim (Option-cases (get key_discrete (job_key j) s.udp_connections)) [
  | inl e ↦
      let s2 = reap (cleanup_stale_udp_associations now s) in
      let begun = more done (packet j now s) in
      let missed = subst (λ x. Steps (at idle s) x) (receive_missed j now s e) begun in
      let tested = more (more (more missed (clean j now s)) (reap_handles j _)) (limit j s2) in
      let allowed = subst (λ x. Steps (at idle s) x) (check_limit_free j s2 room) tested in
      ((attach (job_key j) a j.client_addr now s2).0, _, more allowed (associate j (some a) now s2))
  | inr (entry, e) ↦
      let (found, s') = find_assoc (job_key j) now s in
      let to : receive j now s ≡ at (sending j entry.assoc) s' = ground arith in
      (entry.assoc, s', subst (λ x. Steps (at idle s) x) to (more done (packet j now s)))
]
