-- ===== src/Proxy/Associations.antt =====
-- The UDP associations of proxy/transparent_proxy.rs: the map behind its lock, the handles of the
-- readers behind theirs, and the sections that run under a lock. A time is in milliseconds.
pub mod Worker
use proxifyre_rs.HashMap.{get, insert, remove, modify, retain}
use proxifyre_rs.Net.{IpAddr, SocketAddr, port}
use proxifyre_rs.Prelude.{
  ℕ, ◌-◌, Bool, true, false, Option, none, some, List, [], ◌∷◌, ◌++◌, length, ltb, leb, get_elem?,
  if◌then◌else◌,
}
use proxifyre_rs.Proxy.Readers.{
  UdpAssociationKey, Reader, key_discrete, reap_udp_reader_handles, finish,
}

abbrev pub udp_association_timeout : ℕ
udp_association_timeout = 120000

abbrev pub max_udp_associations : ℕ
max_udp_associations = 1024

-- An association is named by a number.
pub record UdpAssociationEntry : Type 0 where
  pub assoc : ℕ
  pub last_active : ℕ

abbrev pub Connections : Type 0
Connections = List (UdpAssociationKey × UdpAssociationEntry)

pub record UdpState : Type 0 where
  pub udp_connections : Connections
  pub udp_reader_handles : List Reader

abbrev pub local_key : IpAddr → SocketAddr → UdpAssociationKey
local_key dst_ip client_addr = record { dst_ip = dst_ip; client_port = port client_addr }

-- `if let Some(entry) = map.get_mut(&key) { entry.last_active = now }`
unfoldable pub touch : UdpAssociationKey → ℕ → Connections → Connections
touch key now m = modify key_discrete key (λ e. record e { last_active = now }) m

unfoldable pub cleanup_stale_udp_associations : ℕ → UdpState → UdpState
cleanup_stale_udp_associations now s = record s {
  udp_connections =
      retain key_discrete (λ e. ltb (now - e.last_active) udp_association_timeout)
        s.udp_connections;
}

unfoldable pub reap : UdpState → UdpState
reap s = record s { udp_reader_handles = reap_udp_reader_handles s.udp_reader_handles }

-- The association of the packet's key, where there is one.
unfoldable pub find_assoc : UdpAssociationKey → ℕ → UdpState → Option ℕ × UdpState
unfolding touch
find_assoc key now s = elim (get key_discrete key s.udp_connections) [
  | none ↦ (none, s)
  | some e ↦ (some e.assoc, record s { udp_connections = touch key now s.udp_connections })
]

unfoldable pub limit_reached : UdpState → Bool
limit_reached s = leb max_udp_associations (length s.udp_connections)

-- The handle of a reader that has just been spawned.
unfoldable pub spawn_udp_reader : UdpAssociationKey → ℕ → SocketAddr → UdpState → UdpState
spawn_udp_reader key assoc client_addr s = record s {
  udp_reader_handles =
      s.udp_reader_handles
      ++ record { local_key = key; assoc = assoc; client_addr = client_addr; is_finished = false }
        ∷ [];
}

-- A new association, unless the key has one by now. The association to send on is the first
-- component.
unfoldable pub attach : UdpAssociationKey → ℕ → SocketAddr → ℕ → UdpState → ℕ × UdpState
unfolding touch spawn_udp_reader
attach key assoc client_addr now s = elim (get key_discrete key s.udp_connections) [
  | some e ↦ (e.assoc, record s { udp_connections = touch key now s.udp_connections })
  | none ↦
      let spawned = spawn_udp_reader key assoc client_addr s in
      (
        assoc,
        record spawned {
          udp_connections =
              insert key_discrete key (record { assoc = assoc; last_active = now })
                s.udp_connections;
        },
      )
]

-- A reader has sent a reply to its client.
unfoldable pub reader_reply : Reader → ℕ → UdpState → UdpState
unfolding touch
reader_reply h now s = record s { udp_connections = touch h.local_key now s.udp_connections }

-- The reader at the position ends: it removes its key, whichever association that has.
unfoldable pub reader_end : ℕ → Reader → UdpState → UdpState
reader_end i h s = record {
  udp_connections = remove key_discrete h.local_key s.udp_connections;
  udp_reader_handles = finish i s.udp_reader_handles;
}
