-- ===== src/Router/Mappings.antt =====
-- router/flow.rs (the keys and the entries) and `UdpMappings` of router/mod.rs. Times are
-- milliseconds on one monotonic clock.
pub mod Index
pub mod Invariant
use proxifyre_rs.Prelude.{
  ℕ, ◌≡◌, refl, ite, Bool, true, false, Option, none, some, List, [], ◌∷◌, ◌++◌, map, ℕ_discrete,
  if◌then◌else◌,
}
use proxifyre_rs.HashMap.{get, insert, modify, retain, contains_key}
use proxifyre_rs.Net.{IpAddr, ip_discrete}

pub record UdpFlowKey : Type 0 where
  pub dst_ip : IpAddr
  pub src_ip : IpAddr
  pub src_port : ℕ

pub record UdpIndexKey : Type 0 where
  pub dst_ip : IpAddr
  pub src_port : ℕ

pub record TcpPortMapping : Type 0 where
  pub dst_ip : IpAddr
  pub dst_port : ℕ
  pub proxy_port : ℕ

pub record UdpPortMapping : Type 0 where
  pub dst_ip : IpAddr
  pub dst_port : ℕ
  pub proxy_port : ℕ
  pub last_active : ℕ

unfoldable pub flow_discrete : Discrete UdpFlowKey
flow_discrete = hlevel (ℕ_discrete, ip_discrete)

unfoldable pub index_discrete : Discrete UdpIndexKey
index_discrete = hlevel (ℕ_discrete, ip_discrete)

unfoldable pub entry_discrete : Discrete (Option UdpFlowKey)
entry_discrete = hlevel flow_discrete

abbrev pub PeerIndex : Type 0
PeerIndex = List (UdpIndexKey × Option UdpFlowKey)

abbrev pub FlowMap : Type 0
FlowMap = List (UdpFlowKey × UdpPortMapping)

pub record UdpMappings : Type 0 where
  pub by_flow : FlowMap
  pub by_peer : PeerIndex

abbrev pub new : UdpMappings
new = record { by_flow = []; by_peer = [] }

-- The key under which a flow is indexed.
abbrev pub index_key : UdpFlowKey → UdpIndexKey
index_key k = record { dst_ip = k.dst_ip; src_port = k.src_port }

-- The free function: the entry is dropped to `None` where another flow holds it.
unfoldable pub insert_peer_index : PeerIndex → UdpFlowKey → PeerIndex
insert_peer_index by_peer key = elim (get index_discrete (index_key key) by_peer) [
  | some _ ↦
      modify index_discrete (index_key key) (λ e. ite (entry_discrete e (some key)) e none) by_peer
  | none ↦ insert index_discrete (index_key key) (some key) by_peer
]

unfoldable pub insert_flow : UdpMappings → UdpFlowKey → UdpPortMapping → UdpMappings
insert_flow u key entry =
    let by_flow = insert flow_discrete key entry u.by_flow in
    if contains_key flow_discrete key u.by_flow
    then record u { by_flow = by_flow }
    else record { by_flow = by_flow; by_peer = insert_peer_index u.by_peer key }

-- The loop of `rebuild_peer_index` over the keys, in the map's order.
unfoldable pub index_keys : PeerIndex → List UdpFlowKey → PeerIndex
index_keys by_peer [] = by_peer
index_keys by_peer (k ∷ ks) = index_keys (insert_peer_index by_peer k) ks

abbrev pub keys : FlowMap → List UdpFlowKey
keys = map (λ e. e.0)

unfoldable pub rebuild_peer_index : UdpMappings → UdpMappings
rebuild_peer_index u = record u { by_peer = index_keys [] (keys u.by_flow) }

unfoldable pub retain_active : UdpMappings → (UdpPortMapping → Bool) → UdpMappings
retain_active u keep =
    rebuild_peer_index (record u { by_flow = retain flow_discrete keep u.by_flow })
