-- ===== src/Router/Flow/Peers.antt =====
-- The query of the UDP proxy against the flows alone: the destination of the one flow of the peer.
use proxifyre_rs.Prelude.{
  ℕ, ◌≡◌, refl, ite, true, Option, none, some, List, [], ◌∷◌, arith, if_pos, if_neg, ◌∙◌, Result,
  ok, err, length,
}
use proxifyre_rs.HashMap.{get, IsMap}
use proxifyre_rs.Net.{IpAddr, SocketAddr, ip, port, is_unspecified}
use proxifyre_rs.Router.Flow.{
  normalize_mapped_ipv6, query_udp, QueryError, original_destination_not_found,
  ambiguous_destination_mapping,
}
use proxifyre_rs.Router.Mappings.Index.{claimants, verdict, Absent, claimants-Absent, Absent-of_get}
use proxifyre_rs.Router.Mappings.Invariant.{IsIndexed}
use proxifyre_rs.Router.Mappings.{
  UdpFlowKey, UdpIndexKey, UdpPortMapping, UdpMappings, FlowMap, flow_discrete, index_discrete,
  index_key, keys,
}

-- The entries of the flows to one address from one port, whatever their source address.
unfoldable pub sharing : UdpIndexKey → FlowMap → List UdpPortMapping
sharing i [] = []
sharing i ((k, e) ∷ m) = ite (index_discrete (index_key k) i) (e ∷ sharing i m) (sharing i m)

-- What a query should answer: the destination, if there is one such flow.
abbrev pub answer : List UdpPortMapping → Result QueryError (IpAddr × ℕ)
answer [] = err original_destination_not_found
answer (e ∷ []) = ok (e.dst_ip, e.dst_port)
answer (_ ∷ _ ∷ _) = err ambiguous_destination_mapping

-- `query_peer` with the index's word given.
abbrev ask : FlowMap → Option (Option UdpFlowKey) → Result QueryError (IpAddr × ℕ)
ask m none = err original_destination_not_found
ask m (some none) = err ambiguous_destination_mapping
ask m (some (some k)) = elim (get flow_discrete k m) [
  | none ↦ err original_destination_not_found
  | some e ↦ ok (e.dst_ip, e.dst_port)
]

length-sharing :
    (i : UdpIndexKey) (m : FlowMap) → length (sharing i m) ≡ length (claimants i (keys m))
unfolding sharing claimants
length-sharing i [] = refl
length-sharing i ((k, e) ∷ m) = ground (arith, length-sharing i m)

ask-cons :
    (k : UdpFlowKey) (e : UdpPortMapping) (m : FlowMap) (ks : List UdpFlowKey)
    → Absent k ks
    → ask ((k, e) ∷ m) (verdict ks) ≡ ask m (verdict ks)
unfolding get
ask-cons k e m [] h = refl
ask-cons k e m (j ∷ []) h = ground arith
ask-cons k e m (j ∷ l ∷ ks) h = refl

ask-head :
    (k : UdpFlowKey) (e : UdpPortMapping) (m : FlowMap) (ks : List UdpFlowKey)
    (es : List UdpPortMapping)
    → length es ≡ length ks
    → ask ((k, e) ∷ m) (verdict (k ∷ ks)) ≡ answer (e ∷ es)
unfolding get
ask-head k e m [] [] h = ground arith
ask-head k e m (j ∷ ks) (f ∷ es) h = refl
ask-head k e m [] (f ∷ es) h = absurd (omega arith)
ask-head k e m (j ∷ ks) [] h = absurd (omega arith)

ask-answer :
    (i : UdpIndexKey) (m : FlowMap)
    → IsMap flow_discrete m
    → ask m (verdict (claimants i (keys m))) ≡ answer (sharing i m)
unfolding sharing claimants
ask-answer i [] h = refl
ask-answer i ((k, e) ∷ m) h = elim (index_discrete (index_key k) i) [
  | yes p ↦
      rw (if_pos _ p, if_pos _ p)
        (ask-head k e m (claimants i (keys m)) (sharing i m) (length-sharing i m))
  | no p ↦
      rw (if_neg _ p, if_neg _ p)
        (ask-cons k e m (claimants i (keys m))
            (claimants-Absent i k (keys m) (Absent-of_get k m h.0))
          ∙ ask-answer i m h.1)
]

-- The proxy's listener is bound to the unspecified address. A query through it is answered with the
-- destination of the flow to the peer's address from the peer's port, if there is exactly one;
-- it fails as unknown if there is none, and as ambiguous if several source addresses have one.
pub query_udp-answer :
    (u : UdpMappings) (peer local : SocketAddr)
    → IsIndexed u
    → is_unspecified (ip (normalize_mapped_ipv6 local)) ≡ true
    → query_udp u peer local
      ≡ answer (
          sharing
            (record {
              dst_ip = ip (normalize_mapped_ipv6 peer);
              src_port = port (normalize_mapped_ipv6 peer);
            })
            u.by_flow)
unfolding query_udp
query_udp-answer u peer local h q =
    let i : UdpIndexKey = record {
      dst_ip = ip (normalize_mapped_ipv6 peer);
      src_port = port (normalize_mapped_ipv6 peer);
    } in
    ground (arith, h.agrees i, ask-answer i u.by_flow h.unique)
