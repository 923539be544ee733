-- ===== src/Router/Adapter/Batch.antt =====
-- The two calls at the end of a batch against the sending of each packet by itself.
use proxifyre_rs.Net.{SocketAddr}
use proxifyre_rs.Prelude.{
  ℕ, ◌+◌, ◌≤◌, ◌≡◌, refl, ap, ◌∙◌, Bool, true, false, Option, List, [], ◌∷◌, ◌++◌, Text, length,
  arith, count, if◌then◌else◌, append-nil,
}
use proxifyre_rs.Router.Adapter.{
  IntermediateBuffer, Send, send_packets_to_adapter, send_packets_to_mstcp, marked, sends,
  count_batch, route_packet, route, process_batch,
}
use proxifyre_rs.Router.State.{SocksLocalRouter}
use proxifyre_rs.Router.Wire.{Wire}

-- The packets that calls send to the adapter, and those that they send to the protocol stack.
unfoldable pub delivered : Bool → List Send → List IntermediateBuffer
delivered b [] = []
delivered true (send_packets_to_adapter ps ∷ cs) = ps ++ delivered true cs
delivered false (send_packets_to_adapter ps ∷ cs) = delivered false cs
delivered true (send_packets_to_mstcp ps ∷ cs) = delivered true cs
delivered false (send_packets_to_mstcp ps ∷ cs) = ps ++ delivered false cs

-- The packets whose mark is the Boolean.
unfoldable pub on_side : Bool → List (IntermediateBuffer × Bool) → List IntermediateBuffer
on_side b [] = []
on_side true ((p, m) ∷ ds) = if m then p ∷ on_side true ds else on_side true ds
on_side false ((p, m) ∷ ds) = if m then on_side false ds else p ∷ on_side false ds

marked-none :
    (ps : List IntermediateBuffer) (routing : List Bool)
    → count (λ m. m) routing ≡ 0
    → marked true ps routing ≡ []
unfolding marked count
marked-none [] routing h = refl
marked-none (p ∷ ps) [] h = refl
marked-none (p ∷ ps) (true ∷ routing) h = absurd (ground arith)
marked-none (p ∷ ps) (false ∷ routing) h = marked-none ps routing h

count_le : (routing : List Bool) → count (λ m. m) routing ≤ length routing
unfolding count
count_le [] = omega arith
count_le (true ∷ routing) = omega (arith, count_le routing)
count_le (false ∷ routing) = omega (arith, count_le routing)

marked-all :
    (ps : List IntermediateBuffer) (routing : List Bool)
    → count (λ m. m) routing ≡ length routing
    → marked false ps routing ≡ []
unfolding marked count
marked-all [] routing h = refl
marked-all (p ∷ ps) [] h = refl
marked-all (p ∷ ps) (true ∷ routing) h = marked-all ps routing (omega arith)
marked-all (p ∷ ps) (false ∷ routing) h = absurd (omega (arith, count_le routing))

delivered-sends :
    (b : Bool) (ps : List IntermediateBuffer) (routing : List Bool)
    → length routing ≡ length ps
    → delivered b (sends ps routing) ≡ marked b ps routing
unfolding sends delivered
delivered-sends true ps routing h =
    ground (arith, marked-none ps routing, append-nil (marked true ps routing))
delivered-sends false ps routing h =
    ground (arith, marked-all ps routing, append-nil (marked false ps routing))

-- At most two calls.
length-sends : (ps : List IntermediateBuffer) (routing : List Bool) → length (sends ps routing) ≤ 2
unfolding sends
length-sends ps routing = ground arith

count-on_side :
    (q : IntermediateBuffer → Bool) (ds : List (IntermediateBuffer × Bool))
    → count q (on_side true ds) + count q (on_side false ds) ≡ count (λ d. q d.0) ds
unfolding on_side count
count-on_side q [] = refl
count-on_side q ((p, true) ∷ ds) = ground (arith, count-on_side q ds)
count-on_side q ((p, false) ∷ ds) = ground (arith, count-on_side q ds)

marked-step :
    (b m : Bool) (p : IntermediateBuffer) (ps : List IntermediateBuffer) (routing : List Bool)
    (ds : List (IntermediateBuffer × Bool))
    → marked b ps routing ≡ on_side b ds
    → marked b (p ∷ ps) (m ∷ routing) ≡ on_side b ((p, m) ∷ ds)
unfolding marked on_side
marked-step true true p ps routing ds h = ap (◌∷◌ p) h
marked-step true false p ps routing ds h = h
marked-step false true p ps routing ds h = h
marked-step false false p ps routing ds h = ap (◌∷◌ p) h

module _ (w : Wire) (find_process_path : ℕ → Bool → SocketAddr → SocketAddr → Option Text) where
  -- The reference: each packet is sent on as soon as it has been looked at.
  unfoldable pub forward_each :
      SocksLocalRouter
      → List (IntermediateBuffer × ℕ)
      → SocksLocalRouter × List (IntermediateBuffer × Bool)
  forward_each r [] = (r, [])
  forward_each r ((p, now) ∷ ps) =
      let (r', p', to_adapter) = route_packet w find_process_path r p now in
      let (r'', ds) = forward_each r' ps in (r'', (p', to_adapter) ∷ ds)

  abbrev Agrees : SocksLocalRouter → List (IntermediateBuffer × ℕ) → Type 0
  Agrees r ps =
      let a = route w find_process_path r ps in
      let f = forward_each r ps in
      (a.0 ≡ f.0) × (length a.2 ≡ length a.1) × ((b : Bool) → marked b a.1 a.2 ≡ on_side b f.1)

  route-forward_each : (r : SocksLocalRouter) (ps : List (IntermediateBuffer × ℕ)) → Agrees r ps
  unfolding route forward_each marked on_side
  route-forward_each r [] = (refl, refl, λ b. refl)
  route-forward_each r ((p, now) ∷ ps) =
      let (state, long, sides) =
        route-forward_each (route_packet w find_process_path r p now).0 ps in
      (state, omega (arith, long), λ b. marked-step b _ _ _ _ _ (sides b))

  -- A batch and the reference agree: the same state is reached, the packets that the calls send to
  -- either side are those that the reference sends there, in the same order, no more than two calls
  -- are made, and any test holds of as many packets of the two calls as of the reference.
  pub process_batch-forward_each :
      (r : SocksLocalRouter) (counter : ℕ) (ps : List (IntermediateBuffer × ℕ)) (now : ℕ)
      → let (state, calls) = process_batch w find_process_path r counter ps now in
        let (r', ds) = forward_each r ps in
        (state ≡ count_batch r' counter now)
        × (delivered true calls ≡ on_side true ds)
        × (delivered false calls ≡ on_side false ds)
        × (length calls ≤ 2)
        × ((q : IntermediateBuffer → Bool)
            → count q (delivered true calls) + count q (delivered false calls)
              ≡ count (λ d. q d.0) ds)
  unfolding process_batch
  process_batch-forward_each r counter ps now =
      let a = route w find_process_path r ps in
      let f = forward_each r ps in
      let (state, long, sides) = route-forward_each r ps in
      let up : delivered true (sends a.1 a.2) ≡ on_side true f.1 =
        delivered-sends true a.1 a.2 long ∙ sides true in
      let down : delivered false (sends a.1 a.2) ≡ on_side false f.1 =
        delivered-sends false a.1 a.2 long ∙ sides false in
      (
        ap (λ s. count_batch s counter now) state,
        up,
        down,
        length-sends a.1 a.2,
        λ q. rw (up, down) (count-on_side q f.1),
      )
