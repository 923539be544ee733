-- ===== src/Proxy/Associations/Worker/Served.antt =====
-- Every association has a running reader, which brings the replies back to the client.
use proxifyre_rs.HashMap.{
  get, insert, remove, modify, retain, IsMap, insert-IsMap, remove-IsMap, modify-IsMap,
  retain-IsMap,
}
use proxifyre_rs.Net.{SocketAddr}
use proxifyre_rs.Prelude.{
  ℕ, ◌≤◌, ◌≡◌, ◌≢◌, Bool, true, false, not, ◌&&◌, none, some, List, [], ◌∷◌, ◌++◌, arith,
  Option-cases, inl, inr, ◌==◌, ite, count, count-append, count_mono, get_elem?,
}
use proxifyre_rs.Proxy.Associations.Worker.{
  Job, System, job_key, receive, check_limit, associated, Step, tick, packet, clean, reap_handles,
  limit, associate, sent, reply, end_reader, Steps, done, more,
}
use proxifyre_rs.Proxy.Associations.{
  UdpState, UdpAssociationEntry, Connections, touch, cleanup_stale_udp_associations, reap,
  find_assoc, attach, reader_reply, reader_end, spawn_udp_reader,
}
use proxifyre_rs.Proxy.Readers.{
  Reader, UdpAssociationKey, key_discrete, reap_udp_reader_handles, finish,
  count-reap_udp_reader_handles, count-finish,
}

-- A running reader of the association, under the key.
abbrev pub serves : UdpAssociationKey → ℕ → Reader → Bool
serves key assoc h =
    not h.is_finished && (h.assoc == assoc && ite (key_discrete h.local_key key) true false)

abbrev pub AllServed : Connections → List Reader → Type 0
AllServed [] handles = Unit
AllServed ((key, e) ∷ m) handles = (1 ≤ count (serves key e.assoc) handles) × AllServed m handles

abbrev pub IsServed : UdpState → Type 0
IsServed s = IsMap key_discrete s.udp_connections × AllServed s.udp_connections s.udp_reader_handles

more_handles :
    (m : Connections) (hs hs' : List Reader)
    → ((key : UdpAssociationKey) (a : ℕ) → count (serves key a) hs ≤ count (serves key a) hs')
    → AllServed m hs
    → AllServed m hs'
more_handles [] hs hs' mono h = tt
more_handles ((key, e) ∷ m) hs hs' mono h =
    (omega (arith, mono key e.assoc), more_handles m hs hs' mono h.1)

retain-AllServed :
    (keep : UdpAssociationEntry → Bool) (m : Connections) (hs : List Reader)
    → AllServed m hs
    → AllServed (retain key_discrete keep m) hs
unfolding retain
retain-AllServed keep [] hs h = tt
retain-AllServed keep ((key, e) ∷ m) hs h = ground (arith, retain-AllServed keep m hs h.1)

touch-IsMap :
    (key : UdpAssociationKey) (now : ℕ) (m : Connections)
    → IsMap key_discrete m
    → IsMap key_discrete (touch key now m)
unfolding touch
touch-IsMap key now m h = modify-IsMap key_discrete key _ m h

touch-AllServed :
    (key : UdpAssociationKey) (now : ℕ) (m : Connections) (hs : List Reader)
    → AllServed m hs
    → AllServed (touch key now m) hs
unfolding touch modify
touch-AllServed key now [] hs h = tt
touch-AllServed key now ((j, e) ∷ m) hs h = ground (arith, touch-AllServed key now m hs h.1)

insert-AllServed :
    (key : UdpAssociationKey) (e : UdpAssociationEntry) (m : Connections) (hs : List Reader)
    → AllServed m hs
    → 1 ≤ count (serves key e.assoc) hs
    → AllServed (insert key_discrete key e m) hs
unfolding insert
insert-AllServed key e [] hs h served = (served, tt)
insert-AllServed key e ((j, w) ∷ m) hs h served =
    ground (arith, insert-AllServed key e m hs h.1 served)

-- The reader `r` ends: entries under other keys keep their readers.
module _ (i : ℕ) (r : Reader) (hs : List Reader) (at_i : get_elem? hs i ≡ some r) where
  other_served :
      (key : UdpAssociationKey) (a : ℕ)
      → r.local_key ≢ key
      → count (serves key a) hs ≤ count (serves key a) (finish i hs)
  other_served key a other = count-finish (serves key a) i hs r at_i (ground arith)

  absent-AllServed :
      (m : Connections)
      → get key_discrete r.local_key m ≡ none
      → AllServed m hs
      → AllServed m (finish i hs)
  unfolding get
  absent-AllServed [] absent h = tt
  absent-AllServed ((j, e) ∷ m) absent h =
      ground (arith, absent-AllServed m, other_served j e.assoc)

  remove-AllServed :
      (m : Connections)
      → IsMap key_discrete m
      → AllServed m hs
      → AllServed (remove key_discrete r.local_key m) (finish i hs)
  unfolding remove
  remove-AllServed [] is_map h = tt
  remove-AllServed ((j, e) ∷ m) is_map h =
      ground (arith, absent-AllServed m, remove-AllServed m is_map.1 h.1, other_served j e.assoc)

served_new :
    (key : UdpAssociationKey) (a : ℕ) (c : SocketAddr) (hs : List Reader)
    → 1
      ≤ count
          (serves key a)
          (hs ++ record { local_key = key; assoc = a; client_addr = c; is_finished = false } ∷ [])
unfolding count
served_new key a c hs = ground (
  arith,
  count-append (serves key a) hs
      (record { local_key = key; assoc = a; client_addr = c; is_finished = false } ∷ []),
)

count-reap :
    (key : UdpAssociationKey) (a : ℕ) (hs : List Reader)
    → count (serves key a) hs ≤ count (serves key a) (reap_udp_reader_handles hs)
count-reap key a hs =
    let running =
      count_mono (serves key a) (λ h. serves key a h && not h.is_finished) hs
        (λ h served. ground arith) in
    omega (arith, count-reap_udp_reader_handles (serves key a) hs)

find_assoc-IsServed :
    (key : UdpAssociationKey) (now : ℕ) (s : UdpState)
    → IsServed s
    → IsServed ((find_assoc key now s).1)
unfolding find_assoc
find_assoc-IsServed key now s h = elim (Option-cases (get key_discrete key s.udp_connections)) [
  | inl e ↦ rw (e, find_assoc) h
  | inr (entry, e) ↦
      rw (e, find_assoc)
        (
          touch-IsMap key now s.udp_connections h.0,
          touch-AllServed key now s.udp_connections s.udp_reader_handles h.1,
        )
]

attach-IsServed :
    (key : UdpAssociationKey) (a : ℕ) (c : SocketAddr) (now : ℕ) (s : UdpState)
    → IsServed s
    → IsServed ((attach key a c now s).1)
unfolding attach spawn_udp_reader
attach-IsServed key a c now s h = elim (Option-cases (get key_discrete key s.udp_connections)) [
  | inl e ↦
      let new : Reader = record {
        local_key = key;
        assoc = a;
        client_addr = c;
        is_finished = false;
      } in
      let hs = s.udp_reader_handles in
      rw (e, attach)
        (
          insert-IsMap key_discrete key _ s.udp_connections h.0,
          insert-AllServed key _ s.udp_connections (hs ++ new ∷ [])
              (more_handles s.udp_connections hs (hs ++ new ∷ [])
                (λ j b. omega (arith, count-append (serves j b) hs (new ∷ []))) h.1)
              (served_new key a c hs),
        )
  | inr (entry, e) ↦
      rw (e, attach)
        (
          touch-IsMap key now s.udp_connections h.0,
          touch-AllServed key now s.udp_connections s.udp_reader_handles h.1,
        )
]

cleanup-IsServed :
    (now : ℕ) (s : UdpState) → IsServed s → IsServed (cleanup_stale_udp_associations now s)
unfolding cleanup_stale_udp_associations
cleanup-IsServed now s h = (
  retain-IsMap key_discrete _ s.udp_connections h.0,
  retain-AllServed _ s.udp_connections s.udp_reader_handles h.1,
)

receive-IsServed :
    (j : Job) (now : ℕ) (s : UdpState) → IsServed s → IsServed ((receive j now s).state)
unfolding receive
receive-IsServed j now s h = elim (Option-cases ((find_assoc (job_key j) now s).0)) [
  | inl e ↦ rw (e, receive) (find_assoc-IsServed (job_key j) now s h)
  | inr (assoc, e) ↦ rw (e, receive) (find_assoc-IsServed (job_key j) now s h)
]

Step-IsServed : {a b : System} → Step a b → IsServed a.state → IsServed b.state
unfolding reap check_limit reader_reply reader_end associated
Step-IsServed (tick now s) h = cleanup-IsServed now s h
Step-IsServed (packet j now s) h = receive-IsServed j now s h
Step-IsServed (clean j now s) h = cleanup-IsServed now s h
Step-IsServed (reap_handles j s) h = (
  h.0,
  more_handles s.udp_connections s.udp_reader_handles (reap_udp_reader_handles s.udp_reader_handles)
      (λ key a. count-reap key a s.udp_reader_handles) h.1,
)
Step-IsServed (limit j s) h = ground arith
Step-IsServed (associate j none now s) h = h
Step-IsServed (associate j (some a) now s) h = attach-IsServed (job_key j) a j.client_addr now s h
Step-IsServed (sent j assoc s) h = h
Step-IsServed (reply p i r now s at_i running) h = (
  touch-IsMap r.local_key now s.udp_connections h.0,
  touch-AllServed r.local_key now s.udp_connections s.udp_reader_handles h.1,
)
Step-IsServed (end_reader p i r s at_i running) h = (
  remove-IsMap key_discrete r.local_key s.udp_connections h.0,
  remove-AllServed i r s.udp_reader_handles at_i s.udp_connections h.0 h.1,
)

-- However the worker and the readers interleave, from a state where it holds: every association in
-- the map has a reader of this very association that has not ended and that stands under the same
-- key, and the map has one entry for each key.
pub Steps-IsServed : {a b : System} → Steps a b → IsServed a.state → IsServed b.state
Steps-IsServed done h = h
Steps-IsServed (more path last) h = Step-IsServed last (Steps-IsServed path h)
