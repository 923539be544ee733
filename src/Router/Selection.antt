-- ===== src/Router/Selection.antt =====
-- The choice of an adapter in router/adapter.rs, `SocksLocalRouter::new`, `refresh_adapter_name` and
-- the callback of router/mod.rs. What the driver and the operating system tell is a parameter.
pub mod Best
use proxifyre_rs.HashMap.{get, insert}
use proxifyre_rs.Prelude.{
  ℕ, Bool, true, false, not, Option, none, some, List, [], ◌∷◌, Result, ok, err, Text,
  if◌then◌else◌, ◌==◌, bytes_eq, ℕ_discrete,
}
use proxifyre_rs.Router.Filters.{build_icmp_pass_filter}
use proxifyre_rs.Router.Mappings
use proxifyre_rs.Router.State.{SocksLocalRouter}

-- An adapter as `get_tcpip_bound_adapters_info` lists it.
pub record Adapter : Type 0 where
  pub name : Text
  pub hw_address : List ℕ
  pub handle : ℕ

-- The adapters (`none` of an error), `GetBestInterface` for a public address (`none` of an error),
-- the physical addresses and indexes of the connections, and `MacAddress::from_slice`.
pub record Machine : Type 0 where
  pub adapters : Option (List Adapter)
  pub best_interface : Option ℕ
  pub connections : List (List ℕ × ℕ)
  pub from_slice : List ℕ → Option (List ℕ)

pub data SelectError : Type 0 where
  driver_failed no_adapters adapter_not_found : SelectError

unfoldable pub mac_discrete : Discrete (List ℕ)
mac_discrete = hlevel ℕ_discrete

-- The loop that fills `mac_to_index`.
unfoldable pub fill : List (List ℕ × ℕ) → List (List ℕ × ℕ) → List (List ℕ × ℕ)
fill [] mac_to_index = mac_to_index
fill ((mac, index) ∷ infos) mac_to_index = fill infos (insert mac_discrete mac index mac_to_index)

-- The test of `position`.
unfoldable pub has_index : Machine → List (List ℕ × ℕ) → ℕ → Adapter → Bool
has_index m mac_to_index index a = elim (m.from_slice a.hw_address) [
  | none ↦ false
  | some mac ↦ elim (get mac_discrete mac mac_to_index) [
    | none ↦ false
    | some if_index ↦ if_index == index
  ]
]

unfoldable pub find_adapter : (Adapter → Bool) → List Adapter → Option Adapter
find_adapter p [] = none
find_adapter p (a ∷ adapters) = let rest = find_adapter p adapters in if p a then some a else rest

-- The adapter of the best interface, if there is one.
unfoldable pub best_adapter : Machine → List Adapter → Option Adapter
best_adapter m adapters = elim m.best_interface [
  | none ↦ none
  | some index ↦ find_adapter (has_index m (fill m.connections []) index) adapters
]

unfoldable pub select_best_adapter_name : Machine → Result SelectError Text
select_best_adapter_name m = elim m.adapters [
  | none ↦ err driver_failed
  | some [] ↦ err no_adapters
  | some (a ∷ adapters) ↦ elim (best_adapter m (a ∷ adapters)) [
    | some best ↦ ok best.name
    | none ↦ ok a.name
  ]
]

unfoldable pub find_adapter_handle : Machine → Text → Result SelectError ℕ
find_adapter_handle m adapter_name = elim m.adapters [
  | none ↦ err driver_failed
  | some adapters ↦ elim (find_adapter (λ a. bytes_eq a.name adapter_name) adapters) [
    | none ↦ err adapter_not_found
    | some a ↦ ok a.handle
  ]
]

-- The router with this adapter.
abbrev pub fresh_router : Text → SocksLocalRouter
fresh_router adapter_name = record {
  adapter_name = adapter_name;
  tcp_connections = [];
  udp_endpoints = Mappings.new;
  proxies = [];
  name_to_proxy = [];
  static_filters = build_icmp_pass_filter ∷ [];
  shutdown = false;
  restart = false;
  is_active = false;
  packet_task = false;
  notify_handle = none;
  notify_context = none;
  bytes_sent = 0;
  bytes_received = 0;
}

unfoldable pub new : Machine → Result SelectError SocksLocalRouter
new m = elim (select_best_adapter_name m) [
  | err e ↦ err e
  | ok adapter_name ↦ ok (fresh_router adapter_name)
]

-- Whether the name has changed.
unfoldable pub refresh_adapter_name :
    Machine → SocksLocalRouter → SocksLocalRouter × Result SelectError Bool
refresh_adapter_name m r = elim (select_best_adapter_name m) [
  | err e ↦ (r, err e)
  | ok new_name ↦
      if bytes_eq r.adapter_name new_name
      then (r, ok false)
      else (record r { adapter_name = new_name }, ok true)
]

unfoldable pub ip_interface_changed_callback : Machine → SocksLocalRouter → SocksLocalRouter
ip_interface_changed_callback m r =
    let (r', refreshed) = refresh_adapter_name m r in
    elim refreshed [ err e ↦ r' | ok false ↦ r' | ok true ↦ record r' { restart = true } ]
