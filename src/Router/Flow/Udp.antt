-- ===== src/Router/Flow/Udp.antt =====
-- The UDP tables under the router's steps.
use proxifyre_rs.Prelude.{
  ℕ, ◌-◌, ◌≡◌, refl, ite, Bool, Option, none, some, List, [], ◌∷◌, Text, arith, ltb, Option-cases,
  inl, inr, dec_lt, Bool-cases, ◌==◌,
}
use proxifyre_rs.HashMap.{get, modify, modify-IsMap, get-retain, get-retain-none}
use proxifyre_rs.Net.{SocketAddr}
use proxifyre_rs.Router.Flow.{
  client_flow, udp_from_proxy, udp_port_of, udp_lookup, process_udp_payload,
  cleanup_stale_udp_endpoints, Event, tcp, udp, cleanup, step, run, udp_timeout,
  process_tcp_payload, tcp_syn, tcp_established, tcp_from_proxy, open_tcp, close_tcp,
}
use proxifyre_rs.Router.Mappings.{
  UdpFlowKey, UdpPortMapping, UdpMappings, FlowMap, flow_discrete, retain_active,
  rebuild_peer_index, keys,
}
use proxifyre_rs.Router.Mappings.Invariant.{
  IsIndexed, insert_flow-IsIndexed, retain_active-IsIndexed,
}
use proxifyre_rs.Router.PacketInfo.{PacketInfo}
use proxifyre_rs.Router.State.{SocksLocalRouter}

keys-modify :
    (k : UdpFlowKey) (f : UdpPortMapping → UdpPortMapping) (m : FlowMap)
    → keys (modify flow_discrete k f m) ≡ keys m
unfolding modify
keys-modify k f [] = refl
keys-modify k f ((j, v) ∷ m) = ground (arith, keys-modify k f m)

modify-IsIndexed :
    (u : UdpMappings) (k : UdpFlowKey) (f : UdpPortMapping → UdpPortMapping)
    → IsIndexed u
    → IsIndexed (record u { by_flow = modify flow_discrete k f u.by_flow })
modify-IsIndexed u k f h = record {
  unique = modify-IsMap flow_discrete k f u.by_flow h.unique;
  agrees = λ i. rw (keys-modify k f u.by_flow) (h.agrees i);
}

pub udp_from_proxy-lem : (r : SocksLocalRouter) (i : PacketInfo) → (udp_from_proxy r i).0 ≡ r
unfolding udp_from_proxy
udp_from_proxy-lem r i = ground arith

tcp_from_proxy-udp :
    (r : SocksLocalRouter) (i : PacketInfo) → (tcp_from_proxy r i).0.udp_endpoints ≡ r.udp_endpoints
unfolding tcp_from_proxy close_tcp
tcp_from_proxy-udp r i = ground arith

module _ (find_process_path : Bool → SocketAddr → SocketAddr → Option Text) where
  pub process_tcp_payload-udp :
      (r : SocksLocalRouter) (i : PacketInfo)
      → (process_tcp_payload find_process_path r i).0.udp_endpoints ≡ r.udp_endpoints
  unfolding process_tcp_payload tcp_syn tcp_established open_tcp close_tcp
  process_tcp_payload-udp r i = ground (arith, tcp_from_proxy-udp r i)

  udp_lookup-IsIndexed :
      (r : SocksLocalRouter) (i : PacketInfo) (now : ℕ)
      → IsIndexed r.udp_endpoints
      → IsIndexed (udp_lookup find_process_path r i now).0.udp_endpoints
  unfolding udp_lookup
  udp_lookup-IsIndexed r i now h = elim (Bool-cases (udp_port_of find_process_path r i == 0)) [
    | inl e ↦ rw (e, udp_from_proxy-lem) h
    | inr e ↦ rw e (insert_flow-IsIndexed r.udp_endpoints (client_flow i) _ h)
  ]

  pub process_udp_payload-IsIndexed :
      (r : SocksLocalRouter) (i : PacketInfo) (now : ℕ)
      → IsIndexed r.udp_endpoints
      → IsIndexed (process_udp_payload find_process_path r i now).0.udp_endpoints
  unfolding process_udp_payload
  process_udp_payload-IsIndexed r i now h =
      elim (Option-cases (get flow_discrete (client_flow i) r.udp_endpoints.by_flow)) [
        | inl e ↦ rw (e, process_udp_payload) (udp_lookup-IsIndexed r i now h)
        | inr (v, e) ↦
            rw (e, process_udp_payload)
              (elim (Bool-cases (v.dst_port == i.dst_port)) [
                | inl same ↦ rw same (modify-IsIndexed r.udp_endpoints (client_flow i) _ h)
                | inr other ↦ rw other h
              ])
      ]

module _ (find_process_path : ℕ → Bool → SocketAddr → SocketAddr → Option Text) where
  pub step-IsIndexed :
      (r : SocksLocalRouter) (e : Event)
      → IsIndexed r.udp_endpoints
      → IsIndexed (step find_process_path r e).udp_endpoints
  unfolding step cleanup_stale_udp_endpoints
  step-IsIndexed r (tcp i at) h = rw (process_tcp_payload-udp (find_process_path at) r i) h
  step-IsIndexed r (udp i now) h = process_udp_payload-IsIndexed (find_process_path now) r i now h
  step-IsIndexed r (cleanup now) h = retain_active-IsIndexed r.udp_endpoints _ h

  -- Whatever packets and clean-ups the router handles, the peer index stays in agreement with the
  -- flows: it names the one flow of a peer, says "ambiguous" for several and nothing for none.
  pub run-IsIndexed :
      (r : SocksLocalRouter) (es : List Event)
      → IsIndexed r.udp_endpoints
      → IsIndexed (run find_process_path r es).udp_endpoints
  unfolding run
  run-IsIndexed r [] h = h
  run-IsIndexed r (e ∷ es) h = run-IsIndexed (step find_process_path r e) es (step-IsIndexed r e h)

-- What is left of a flow's entry at a time: it is dropped after a minute of silence.
abbrev pub kept : ℕ → Option UdpPortMapping → Option UdpPortMapping
kept now none = none
kept now (some e) = ite (dec_lt (now - e.last_active) 60000) (some e) none

-- A clean-up drops exactly the flows that have been idle for 60 seconds or longer. It leaves each
-- other flow as it was, and makes up none.
pub get-cleanup :
    (r : SocksLocalRouter) (k : UdpFlowKey) (now : ℕ)
    → IsIndexed r.udp_endpoints
    → get flow_discrete k (cleanup_stale_udp_endpoints r now).udp_endpoints.by_flow
      ≡ kept now (get flow_discrete k r.udp_endpoints.by_flow)
unfolding cleanup_stale_udp_endpoints retain_active rebuild_peer_index
get-cleanup r k now h =
    let keep : UdpPortMapping → Bool = λ e. ltb (now - e.last_active) udp_timeout in
    elim (Option-cases (get flow_discrete k r.udp_endpoints.by_flow)) [
      | inl e ↦ rw e (get-retain-none flow_discrete k keep r.udp_endpoints.by_flow e)
      | inr (v, e) ↦
          ground (arith, get-retain flow_discrete k keep r.udp_endpoints.by_flow v h.unique e)
    ]
