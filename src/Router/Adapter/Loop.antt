-- ===== src/Router/Adapter/Loop.antt =====
-- `run_packet_loop` of router/adapter.rs. The flags are shared with other tasks, so that a round has
-- what it sees of them, and the clock and the driver give the rest of it.
use proxifyre_rs.Net.{SocketAddr}
use proxifyre_rs.Prelude.{
  ℕ, suc, ◌≡◌, refl, ap, sym, ◌∙◌, Bool, true, false, Option, none, some, List, [], ◌∷◌, ◌++◌, Text,
  not, ◌||◌, arith, leb, if◌then◌else◌, Bool-cases, inl, inr,
}
use proxifyre_rs.Router.Adapter.Events.{
  forget, events, cleanup_event, run-append, process_batch-run,
}
use proxifyre_rs.Router.Adapter.{IntermediateBuffer, Send, count_batch, process_batch}
use proxifyre_rs.Router.Flow.{Event, run}
use proxifyre_rs.Router.State.{SocksLocalRouter}
use proxifyre_rs.Router.Wire.{Wire}

-- A round of the inner loop: the flags, and the packets read, `none` of an error.
pub record Round : Type 0 where
  pub shutdown : Bool
  pub restart : Bool
  pub packets : Option (List (IntermediateBuffer × ℕ))
  pub now : ℕ

pub data Opening : Type 0 where
  failed not_found found : Opening

-- A round of the outer loop: how the adapter is opened, and `shutdown` as it is seen at its end.
pub record Session : Type 0 where
  pub opening : Opening
  pub rounds : List Round
  pub shutdown : Bool

-- Another round is made.
unfoldable pub goes_on : Round → Bool
goes_on x = if x.shutdown then false else if x.restart then false else true

-- The packets of a round, where an error is none.
abbrev pub packets_of : Round → List (IntermediateBuffer × ℕ)
packets_of x = elim x.packets [ none ↦ [] | some ps ↦ ps ]

-- What follows a session: an error leaves the loop, an adapter that is not found is looked for again,
-- and one that was is opened again, unless the router is shutting down.
abbrev next_session : {A : Type 0} → Opening → Bool → A → A → A → A → A
next_session Opening.failed shutdown error missed last next = error
next_session Opening.not_found true error missed last next = error
next_session Opening.not_found false error missed last next = missed
next_session Opening.found true error missed last next = last
next_session Opening.found false error missed last next = next

module _ (w : Wire) (find_process_path : ℕ → Bool → SocketAddr → SocketAddr → Option Text) where
  -- A round in which nothing is read changes nothing.
  unfoldable pub read_round :
      SocksLocalRouter → ℕ → List (IntermediateBuffer × ℕ) → ℕ → (SocksLocalRouter × ℕ) × List Send
  read_round r counter [] now = ((r, counter), [])
  read_round r counter (p ∷ ps) now = process_batch w find_process_path r counter (p ∷ ps) now

  unfoldable pub read_rounds : SocksLocalRouter → ℕ → List Round → SocksLocalRouter × List Send
  read_rounds r counter [] = (r, [])
  read_rounds r counter (x ∷ xs) =
      let ((r', counter'), calls) = read_round r counter (packets_of x) x.now in
      let (r'', calls') = read_rounds r' counter' xs in
      if goes_on x then (r'', calls ++ calls') else (r, [])

  unfoldable pub run_packet_loop : SocksLocalRouter → List Session → SocksLocalRouter × List Send
  run_packet_loop r [] = (r, [])
  run_packet_loop r (s ∷ ss) =
      let (r', calls) = read_rounds r 0 s.rounds in
      let missed = run_packet_loop r ss in
      let (r'', calls') = run_packet_loop r' ss in
      next_session s.opening s.shutdown (r, []) missed (r', calls) (r'', calls ++ calls')

-- The events of what a round has read, and the next value of `cleanup_counter`.
unfoldable pub read_events : Wire → ℕ → List (IntermediateBuffer × ℕ) → ℕ → List Event × ℕ
read_events w counter [] now = ([], counter)
read_events w counter (p ∷ ps) now = (
  events w (p ∷ ps) ++ cleanup_event counter now,
  if leb 20 (suc counter) then 0 else suc counter,
)

unfoldable pub round_events : Wire → ℕ → List Round → List Event
round_events w counter [] = []
round_events w counter (x ∷ xs) =
    let (es, counter') = read_events w counter (packets_of x) x.now in
    let rest = round_events w counter' xs in if x.shutdown || x.restart then [] else es ++ rest

-- The events of a session, and of those after it: none where the adapter could not be opened for an
-- error, and those after it only where the router is not shutting down.
unfoldable pub following : Opening → Bool → List Event → List Event → List Event
following Opening.failed shutdown es rest = []
following Opening.not_found shutdown es rest = if shutdown then [] else rest
following Opening.found shutdown es rest = if shutdown then es else es ++ rest

unfoldable pub session_events : Wire → List Session → List Event
session_events w [] = []
session_events w (s ∷ ss) =
    following s.opening s.shutdown (round_events w 0 s.rounds) (session_events w ss)

following-next_session :
    (o : Opening) (shutdown : Bool) (es rest : List Event)
    → next_session o shutdown [] rest es (es ++ rest) ≡ following o shutdown es rest
unfolding following
following-next_session Opening.failed shutdown es rest = refl
following-next_session Opening.not_found true es rest = refl
following-next_session Opening.not_found false es rest = refl
following-next_session Opening.found true es rest = refl
following-next_session Opening.found false es rest = refl

goes_on_lem : (x : Round) → (x.shutdown || x.restart) ≡ not (goes_on x)
unfolding goes_on
goes_on_lem x = ground arith

next_session-related :
    {A B : Type 0} (R : A → B → Type 0) (o : Opening) (shutdown : Bool) (a b c d : A)
    (a' b' c' d' : B)
    → R a a'
    → R b b'
    → R c c'
    → R d d'
    → R (next_session o shutdown a b c d) (next_session o shutdown a' b' c' d')
next_session-related R Opening.failed shutdown a b c d a' b' c' d' x y z t = x
next_session-related R Opening.not_found true a b c d a' b' c' d' x y z t = x
next_session-related R Opening.not_found false a b c d a' b' c' d' x y z t = y
next_session-related R Opening.found true a b c d a' b' c' d' x y z t = z
next_session-related R Opening.found false a b c d a' b' c' d' x y z t = t

module _ (w : Wire) (find_process_path : ℕ → Bool → SocketAddr → SocketAddr → Option Text) where
  read_round-run :
      (r : SocksLocalRouter) (counter : ℕ) (ps : List (IntermediateBuffer × ℕ)) (now : ℕ)
      → let ((r', counter'), calls) = read_round w find_process_path r counter ps now in
        let (es, next) = read_events w counter ps now in
        (forget r' ≡ run find_process_path (forget r) es) × (counter' ≡ next)
  unfolding read_round read_events run process_batch count_batch
  read_round-run r counter [] now = (refl, refl)
  read_round-run r counter (p ∷ ps) now =
      (process_batch-run w find_process_path r counter (p ∷ ps) now, ground arith)

  read_rounds-run :
      (r : SocksLocalRouter) (counter : ℕ) (xs : List Round)
      → forget (read_rounds w find_process_path r counter xs).0
        ≡ run find_process_path (forget r) (round_events w counter xs)
  unfolding read_rounds round_events run
  read_rounds-run r counter [] = refl
  read_rounds-run r counter (x ∷ xs) =
      let ((r', counter'), calls) = read_round w find_process_path r counter (packets_of x) x.now in
      let (es, next) = read_events w counter (packets_of x) x.now in
      let (state, same) = read_round-run r counter (packets_of x) x.now in
      let later : forget (read_rounds w find_process_path r' counter' xs).0
          ≡ run find_process_path (forget r) (es ++ round_events w next xs) =
        read_rounds-run r' counter' xs
        ∙ ap (λ s. run find_process_path s (round_events w counter' xs)) state
        ∙ ap
            (λ c. run find_process_path (run find_process_path (forget r) es) (round_events w c xs))
            same
        ∙ sym (run-append find_process_path (forget r) es (round_events w next xs)) in
      elim (Bool-cases (goes_on x)) [
        | inl e ↦
            let on : (x.shutdown || x.restart) ≡ false = goes_on_lem x ∙ ap not e in
            rw (e, read_rounds, on, round_events) later
        | inr e ↦
            let off : (x.shutdown || x.restart) ≡ true = goes_on_lem x ∙ ap not e in
            rw (e, read_rounds, off, round_events) refl
      ]

  -- The packet loop changes the router, up to the two counters of bytes, as the run over the events
  -- of what it reads: those of each packet in the order of the batches, and a clean-up after every
  -- twentieth batch of an adapter. A session ends at the round that sees the shutdown or the restart,
  -- and nothing is read after one that ends in a shutdown or whose adapter an error has kept shut.
  pub run_packet_loop-run :
      (r : SocksLocalRouter) (ss : List Session)
      → forget (run_packet_loop w find_process_path r ss).0
        ≡ run find_process_path (forget r) (session_events w ss)
  unfolding run_packet_loop session_events run
  run_packet_loop-run r [] = refl
  run_packet_loop-run r (s ∷ ss) =
      let (r', calls) = read_rounds w find_process_path r 0 s.rounds in
      let (r'', calls') = run_packet_loop w find_process_path r' ss in
      let es = round_events w 0 s.rounds in
      let here = read_rounds-run r 0 s.rounds in
      let later : forget r'' ≡ run find_process_path (forget r) (es ++ session_events w ss) =
        run_packet_loop-run r' ss
        ∙ ap (λ q. run find_process_path q (session_events w ss)) here
        ∙ sym (run-append find_process_path (forget r) es (session_events w ss)) in
      next_session-related (λ o es. forget o.0 ≡ run find_process_path (forget r) es) s.opening
        s.shutdown (r, []) (run_packet_loop w find_process_path r ss) (r', calls)
        (r'', calls ++ calls') [] (session_events w ss) es (es ++ session_events w ss) refl
        (run_packet_loop-run r ss) here later
      ∙ ap (run find_process_path (forget r))
          (following-next_session s.opening s.shutdown es (session_events w ss))
