-- ===== src/Router/Flow/Lasting.antt =====
-- A UDP flow while it lasts.
use proxifyre_rs.Prelude.{
  ℕ, ◌+◌, ◌-◌, ◌<◌, ◌≤◌, ◌≡◌, refl, sym, ◌≢◌, Bool, Option, none, some, List, [], ◌∷◌, Text, arith,
  if_pos, ◌∙◌, ap, dec_lt, Option-cases, Bool-cases, inl, inr, ◌==◌,
}
use proxifyre_rs.HashMap.{get, get-insert, get-modify}
use proxifyre_rs.Net.{SocketAddr}
use proxifyre_rs.Router.Flow.Datagram.{started, other_port, first_datagram}
use proxifyre_rs.Router.Flow.Udp.{
  process_udp_payload-IsIndexed, process_tcp_payload-udp, step-IsIndexed, get-cleanup, kept,
  udp_from_proxy-lem,
}
use proxifyre_rs.Router.Flow.{
  client_flow, udp_port_of, udp_lookup, process_udp_payload, Event, tcp, udp, cleanup, step, run,
}
use proxifyre_rs.Router.Mappings.Index.{insert_flow-by_flow}
use proxifyre_rs.Router.Mappings.Invariant.{IsIndexed}
use proxifyre_rs.Router.Mappings.{UdpFlowKey, UdpPortMapping, flow_discrete}
use proxifyre_rs.Router.PacketInfo.{PacketInfo, PortRewrite}
use proxifyre_rs.Router.State.{SocksLocalRouter}

-- A datagram from the time `now` on, or a clean-up in the minute after it.
abbrev pub Within : ℕ → Event → Type 0
Within now (tcp i at) = Unit
Within now (udp i time) = now ≤ time
Within now (cleanup time) = time < now + 60000

abbrev pub AllWithin : ℕ → List Event → Type 0
AllWithin now [] = Unit
AllWithin now (e ∷ es) = Within now e × AllWithin now es

-- The flow is in the table with this destination port, and was active at this time or later.
abbrev pub Flows : UdpFlowKey → ℕ → ℕ → SocksLocalRouter → Type 0
Flows k port now r =
    (e : UdpPortMapping) × (get flow_discrete k r.udp_endpoints.by_flow ≡ some e)
    × (e.dst_port ≡ port)
    × (now ≤ e.last_active)

module _ (find_process_path : Bool → SocketAddr → SocketAddr → Option Text) where
  udp_lookup-get :
      (r : SocksLocalRouter) (k : UdpFlowKey) (j : PacketInfo) (time : ℕ)
      → client_flow j ≢ k
      → get flow_discrete k (udp_lookup find_process_path r j time).0.udp_endpoints.by_flow
        ≡ get flow_discrete k r.udp_endpoints.by_flow
  unfolding udp_lookup
  udp_lookup-get r k j time other =
      let entry = started j (udp_port_of find_process_path r j) time in
      ground (
        arith,
        udp_from_proxy-lem r j,
        insert_flow-by_flow r.udp_endpoints (client_flow j) entry,
        get-insert flow_discrete (client_flow j) k entry r.udp_endpoints.by_flow,
      )

  process_udp_payload-Flows :
      (r : SocksLocalRouter) (k : UdpFlowKey) (port now : ℕ) (j : PacketInfo) (time : ℕ)
      → now ≤ time
      → Flows k port now r
      → Flows k port now (process_udp_payload find_process_path r j time).0
  unfolding process_udp_payload
  process_udp_payload-Flows r k port now j time le (e, found, same, active) =
      elim (Option-cases (get flow_discrete (client_flow j) r.udp_endpoints.by_flow)) [
        | inl n ↦
            let other : client_flow j ≢ k = λ q. ground arith in
            rw (n, process_udp_payload) (e, udp_lookup-get r k j time other ∙ found, same, active)
        | inr (v, n) ↦ elim (Bool-cases (v.dst_port == j.dst_port)) [
          | inr b ↦ rw (n, process_udp_payload, b) (e, found, same, active)
          | inl b ↦
              let moved =
                get-modify flow_discrete (client_flow j) k
                  (λ (x : UdpPortMapping). record x { last_active = time })
                  r.udp_endpoints.by_flow in
              elim (flow_discrete (client_flow j) k) [
                | yes q ↦
                    rw (n, process_udp_payload, b)
                      (record e { last_active = time }, ground (arith, moved), same, le)
                | no q ↦ rw (n, process_udp_payload, b) (e, ground (arith, moved), same, active)
              ]
        ]
      ]

module _ (find_process_path : ℕ → Bool → SocketAddr → SocketAddr → Option Text) where
  step-Flows :
      (r : SocksLocalRouter) (k : UdpFlowKey) (port now : ℕ) (ev : Event)
      → Within now ev
      → IsIndexed r.udp_endpoints
      → Flows k port now r
      → Flows k port now (step find_process_path r ev)
  unfolding step
  step-Flows r k port now (tcp i at) w h f =
      rw (process_tcp_payload-udp (find_process_path at) r i) f
  step-Flows r k port now (udp i time) w h f =
      process_udp_payload-Flows (find_process_path time) r k port now i time w f
  step-Flows r k port now (cleanup time) w h (e, found, same, active) = (
    e,
    get-cleanup r k time h
        ∙ ap (kept time) found
        ∙ if_pos (dec_lt (time - e.last_active) 60000) (omega arith) _ _,
    same,
    active,
  )

  run-Flows :
      (r : SocksLocalRouter) (k : UdpFlowKey) (port now : ℕ) (es : List Event)
      → AllWithin now es
      → IsIndexed r.udp_endpoints
      → Flows k port now r
      → Flows k port now (run find_process_path r es)
  unfolding run
  run-Flows r k port now [] w h f = f
  run-Flows r k port now (ev ∷ es) w h f =
      run-Flows (step find_process_path r ev) k port now es w.1
        (step-IsIndexed find_process_path r ev h) (step-Flows r k port now ev w.0 h f)

  -- The first datagram of a process to be proxied, for a flow that is not in the table, is sent to its
  -- proxy. After it and after any packets since then, and any clean-ups of the next 60 seconds, a
  -- datagram of the same socket to another port of the same host is neither sent to the proxy nor
  -- recorded: it leaves unchanged, past the proxy.
  pub second_port_is_direct :
      (r : SocksLocalRouter) (i : PacketInfo) (now : ℕ) (es : List Event) (j : PacketInfo)
      (later : ℕ)
      → IsIndexed r.udp_endpoints
      → get flow_discrete (client_flow i) r.udp_endpoints.by_flow ≡ none
      → udp_port_of (find_process_path now) r i ≢ 0
      → AllWithin now es
      → client_flow j ≡ client_flow i
      → j.dst_port ≢ i.dst_port
      → let (first, answer) = process_udp_payload (find_process_path now) r i now in
        let r' = run find_process_path first es in
        (answer ≡ some (PortRewrite.to_proxy (udp_port_of (find_process_path now) r i)))
        × (process_udp_payload (find_process_path later) r' j later ≡ (r', none))
  second_port_is_direct r i now es j later indexed fresh has_proxy within k other =
      let made = first_datagram (find_process_path now) r i now fresh has_proxy in
      let first = (process_udp_payload (find_process_path now) r i now).0 in
      let entry = started i (udp_port_of (find_process_path now) r i) now in
      let k_i = client_flow i in
      let here : get flow_discrete k_i first.udp_endpoints.by_flow ≡ some entry =
        ap (λ t. get flow_discrete k_i t.0.udp_endpoints.by_flow) made
        ∙ ap (get flow_discrete k_i) (insert_flow-by_flow r.udp_endpoints k_i entry)
        ∙ get-insert flow_discrete k_i k_i entry r.udp_endpoints.by_flow
        ∙ if_pos (flow_discrete k_i k_i) refl (some entry) _ in
      let (e, found, same, active) =
        run-Flows first k_i i.dst_port now es within
          (process_udp_payload-IsIndexed (find_process_path now) r i now indexed)
          (entry, here, refl, omega arith) in
      let r' = run find_process_path first es in
      (
        ap (λ t. t.1) made,
        other_port (find_process_path later) r' j later e
            (ap (λ key. get flow_discrete key r'.udp_endpoints.by_flow) k ∙ found)
            (λ q. other (sym q ∙ same)),
      )
