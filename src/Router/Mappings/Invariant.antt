-- ===== src/Router/Mappings/Invariant.antt =====
-- Every operation of `UdpMappings` keeps the peer index in agreement with the flows.
use proxifyre_rs.Prelude.{◌≡◌, refl, Bool, none, some, arith, inl, inr, Option-cases}
use proxifyre_rs.HashMap.{get, retain, contains_key, IsMap, insert-IsMap, retain-IsMap}
use proxifyre_rs.Router.Mappings.{
  UdpFlowKey, UdpIndexKey, UdpPortMapping, UdpMappings, new, flow_discrete, index_discrete,
  insert_flow, keys, rebuild_peer_index, retain_active,
}
use proxifyre_rs.Router.Mappings.Index.{
  claimants, verdict, get-insert_peer_index, get-index_keys-Distinct, Absent-of_get, keys-Distinct,
  keys-insert_new, keys-insert_old, claimants-append_one, verdict-append_one, claimants-Absent,
}

-- The peer index agrees with the flows.
pub record IsIndexed (u : UdpMappings) : Type 0 where
  pub unique : IsMap flow_discrete u.by_flow
  pub agrees :
      (i : UdpIndexKey) → get index_discrete i u.by_peer ≡ verdict (claimants i (keys u.by_flow))

pub new-IsIndexed : IsIndexed new
unfolding get claimants
new-IsIndexed = record { unique = tt; agrees = λ i. refl }

insert_old-IsIndexed :
    (u : UdpMappings) (k : UdpFlowKey) (v w : UdpPortMapping)
    → IsIndexed u
    → get flow_discrete k u.by_flow ≡ some w
    → IsIndexed (insert_flow u k v)
unfolding insert_flow contains_key
insert_old-IsIndexed u k v w h e =
    rw (e, insert_flow, contains_key)
      (record {
        unique = insert-IsMap flow_discrete k v u.by_flow h.unique;
        agrees = λ i. rw (keys-insert_old k v w u.by_flow e) (h.agrees i);
      })

insert_new-IsIndexed :
    (u : UdpMappings) (k : UdpFlowKey) (v : UdpPortMapping)
    → IsIndexed u
    → get flow_discrete k u.by_flow ≡ none
    → IsIndexed (insert_flow u k v)
unfolding insert_flow contains_key
insert_new-IsIndexed u k v h e =
    rw (e, insert_flow, contains_key)
      (record {
        unique = insert-IsMap flow_discrete k v u.by_flow h.unique;
        agrees = λ i.
            rw
              (
                keys-insert_new k v u.by_flow e,
                claimants-append_one i (keys u.by_flow) k,
                get-insert_peer_index i u.by_peer k,
              )
              (ground (
                arith,
                h.agrees i,
                verdict-append_one (claimants i (keys u.by_flow)) k
                    (claimants-Absent i k (keys u.by_flow) (Absent-of_get k u.by_flow e)),
              ));
      })

pub insert_flow-IsIndexed :
    (u : UdpMappings) (k : UdpFlowKey) (v : UdpPortMapping)
    → IsIndexed u
    → IsIndexed (insert_flow u k v)
insert_flow-IsIndexed u k v h = elim (Option-cases (get flow_discrete k u.by_flow)) [
  | inl e ↦ insert_new-IsIndexed u k v h e
  | inr (w, e) ↦ insert_old-IsIndexed u k v w h e
]

pub retain_active-IsIndexed :
    (u : UdpMappings) (keep : UdpPortMapping → Bool)
    → IsIndexed u
    → IsIndexed (retain_active u keep)
unfolding retain_active rebuild_peer_index
retain_active-IsIndexed u keep h =
    let m = retain flow_discrete keep u.by_flow in
    let unique = retain-IsMap flow_discrete keep u.by_flow h.unique in
    record {
      unique = unique;
      agrees = λ i. get-index_keys-Distinct i (keys m) (keys-Distinct m unique);
    }
