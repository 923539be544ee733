-- ===== src/Router/Mappings/Index.antt =====
-- The peer index against the flows: which flow answers for a peer.
use proxifyre_rs.Prelude.{◌≡◌, refl, ite, Option, none, some, List, [], ◌∷◌, ◌++◌, arith, ◌∙◌, ◌≢◌}
use proxifyre_rs.HashMap.{get, insert, IsMap, get-insert, get-modify}
use proxifyre_rs.Router.Mappings.{
  UdpFlowKey, UdpIndexKey, UdpPortMapping, FlowMap, PeerIndex, index_key, flow_discrete,
  index_discrete, entry_discrete, insert_peer_index, index_keys, keys, insert_flow, UdpMappings,
}

-- The flows of a peer, in the map's order.
unfoldable pub claimants : UdpIndexKey → List UdpFlowKey → List UdpFlowKey
claimants i [] = []
claimants i (k ∷ ks) = ite (index_discrete (index_key k) i) (k ∷ claimants i ks) (claimants i ks)

-- What the index says of a peer with these flows: nothing, the one flow, or "ambiguous".
abbrev pub verdict : List UdpFlowKey → Option (Option UdpFlowKey)
verdict [] = none
verdict (k ∷ []) = some (some k)
verdict (_ ∷ _ ∷ _) = some none

abbrev pub bump : UdpFlowKey → Option (Option UdpFlowKey) → Option (Option UdpFlowKey)
bump k none = some (some k)
bump k (some e) = some (ite (entry_discrete e (some k)) e none)

pub get-insert_peer_index :
    (i : UdpIndexKey) (p : PeerIndex) (k : UdpFlowKey)
    → get index_discrete i (insert_peer_index p k)
      ≡ ite
          (index_discrete (index_key k) i)
          (bump k (get index_discrete i p))
          (get index_discrete i p)
unfolding insert_peer_index
get-insert_peer_index i p k = grind (
  arith,
  get-modify index_discrete (index_key k) i (λ e. ite (entry_discrete e (some k)) e none) p,
  get-insert index_discrete (index_key k) i (some k) p,
)

pub bumps : Option (Option UdpFlowKey) → List UdpFlowKey → Option (Option UdpFlowKey)
bumps o [] = o
bumps o (k ∷ ks) = bumps (bump k o) ks

get-index_keys :
    (i : UdpIndexKey) (p : PeerIndex) (ks : List UdpFlowKey)
    → get index_discrete i (index_keys p ks) ≡ bumps (get index_discrete i p) (claimants i ks)
unfolding index_keys bumps claimants
get-index_keys i p [] = refl
get-index_keys i p (k ∷ ks) =
    ground (arith, get-index_keys i (insert_peer_index p k) ks, get-insert_peer_index i p k)

abbrev pub Absent : UdpFlowKey → List UdpFlowKey → Type 0
Absent k [] = Unit
Absent k (j ∷ ks) = (j ≢ k) × Absent k ks

-- No key twice.
abbrev pub Distinct : List UdpFlowKey → Type 0
Distinct [] = Unit
Distinct (k ∷ ks) = Absent k ks × Distinct ks

pub claimants-Absent :
    (i : UdpIndexKey) (k : UdpFlowKey) (ks : List UdpFlowKey)
    → Absent k ks
    → Absent k (claimants i ks)
unfolding claimants
claimants-Absent i k [] h = tt
claimants-Absent i k (j ∷ ks) h = ground (arith, claimants-Absent i k ks h.1)

claimants-Distinct :
    (i : UdpIndexKey) (ks : List UdpFlowKey) → Distinct ks → Distinct (claimants i ks)
unfolding claimants
claimants-Distinct i [] h = tt
claimants-Distinct i (j ∷ ks) h =
    ground (arith, claimants-Distinct i ks h.1, claimants-Absent i j ks h.0)

bumps-ambiguous : (ks : List UdpFlowKey) → bumps (some none) ks ≡ some none
unfolding bumps
bumps-ambiguous [] = refl
bumps-ambiguous (k ∷ ks) = ground (arith, bumps-ambiguous ks)

bumps-verdict : (ks : List UdpFlowKey) → Distinct ks → bumps none ks ≡ verdict ks
unfolding bumps
bumps-verdict [] h = refl
bumps-verdict (k ∷ []) h = refl
bumps-verdict (k ∷ j ∷ ks) h = ground (arith, bumps-ambiguous ks)

-- A rebuilt index is right whatever the order of the keys.
pub get-index_keys-Distinct :
    (i : UdpIndexKey) (ks : List UdpFlowKey)
    → Distinct ks
    → get index_discrete i (index_keys [] ks) ≡ verdict (claimants i ks)
unfolding get
get-index_keys-Distinct i ks h =
    get-index_keys i [] ks ∙ bumps-verdict (claimants i ks) (claimants-Distinct i ks h)

pub Absent-of_get :
    (k : UdpFlowKey) (m : FlowMap) → get flow_discrete k m ≡ none → Absent k (keys m)
unfolding get
Absent-of_get k [] h = tt
Absent-of_get k ((j, v) ∷ m) h = ground (arith, Absent-of_get k m)

pub keys-Distinct : (m : FlowMap) → IsMap flow_discrete m → Distinct (keys m)
keys-Distinct [] h = tt
keys-Distinct ((j, v) ∷ m) h = (Absent-of_get j m h.0, keys-Distinct m h.1)

pub keys-insert_new :
    (k : UdpFlowKey) (v : UdpPortMapping) (m : FlowMap)
    → get flow_discrete k m ≡ none
    → keys (insert flow_discrete k v m) ≡ keys m ++ k ∷ []
unfolding get insert
keys-insert_new k v [] h = refl
keys-insert_new k v ((j, w) ∷ m) h = ground (arith, keys-insert_new k v m)

pub keys-insert_old :
    (k : UdpFlowKey) (v w : UdpPortMapping) (m : FlowMap)
    → get flow_discrete k m ≡ some w
    → keys (insert flow_discrete k v m) ≡ keys m
unfolding get insert
keys-insert_old k v w [] h = ground arith
keys-insert_old k v w ((j, x) ∷ m) h = ground (arith, keys-insert_old k v w m)

pub claimants-append_one :
    (i : UdpIndexKey) (ks : List UdpFlowKey) (k : UdpFlowKey)
    → claimants i (ks ++ k ∷ [])
      ≡ ite (index_discrete (index_key k) i) (claimants i ks ++ k ∷ []) (claimants i ks)
unfolding claimants
claimants-append_one i [] k = refl
claimants-append_one i (j ∷ ks) k = ground (arith, claimants-append_one i ks k)

pub verdict-append_one :
    (ks : List UdpFlowKey) (k : UdpFlowKey)
    → Absent k ks
    → verdict (ks ++ k ∷ []) ≡ bump k (verdict ks)
verdict-append_one [] k h = refl
verdict-append_one (j ∷ []) k h = ground arith
verdict-append_one (j ∷ l ∷ ks) k h = ground arith

pub insert_flow-by_flow :
    (u : UdpMappings) (k : UdpFlowKey) (e : UdpPortMapping)
    → (insert_flow u k e).by_flow ≡ insert flow_discrete k e u.by_flow
unfolding insert_flow
insert_flow-by_flow u k e = ground arith
