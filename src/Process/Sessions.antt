-- ===== src/Process/Sessions.antt =====
-- The session cache of windows/process.rs. A table of the operating system is given by the time at
-- which it is asked for, `none` for an error; times are in milliseconds.
pub mod Fresh
use proxifyre_rs.HashMap.{get, insert}
use proxifyre_rs.Net.{Ipv4Addr, Ipv6Addr, unspecified_v4, unspecified_v6}
use proxifyre_rs.Prelude.{
  ℕ, ◌+◌, ◌-◌, ◌*◌, ◌/◌, ◌%◌, Bool, true, false, Option, none, some, List, [], ◌∷◌, ltb, ite, map,
  if◌then◌else◌, ℕ_discrete,
}

abbrev pub session_cache_max_age : ℕ
session_cache_max_age = 500

-- The keys of a connection and of a socket, for either kind of address.
pub record TcpKey (A : Type 0) : Type 0 where
  pub local : A
  pub remote : A
  pub local_port : ℕ
  pub remote_port : ℕ

pub record UdpKey (A : Type 0) : Type 0 where
  pub local : A
  pub local_port : ℕ

unfoldable pub v4_discrete : Discrete Ipv4Addr
v4_discrete = hlevel ℕ_discrete

unfoldable pub v6_discrete : Discrete Ipv6Addr
v6_discrete = hlevel ℕ_discrete

unfoldable pub tcp_key_discrete : {A : Type 0} → Discrete A → Discrete (TcpKey A)
tcp_key_discrete dec = hlevel (dec, ℕ_discrete)

unfoldable pub udp_key_discrete : {A : Type 0} → Discrete A → Discrete (UdpKey A)
udp_key_discrete dec = hlevel (dec, ℕ_discrete)

-- One table of `SessionCache` with the time of its last refresh.
pub record Table (K : Type 0) : Type 0 where
  pub pids : List (K × ℕ)
  pub last_refresh : Option ℕ

-- `Default`.
abbrev pub empty_table : {K : Type 0} → Table K
empty_table = record { pids = []; last_refresh = none }

unfoldable pub is_stale : Option ℕ → ℕ → Bool
is_stale none now = true
is_stale (some ts) now = ltb session_cache_max_age (now - ts)

module _ {K : Type 0} (dec : Discrete K) where
  unfoldable pub insert_rows : List (K × ℕ) → List (K × ℕ) → List (K × ℕ)
  insert_rows m [] = m
  insert_rows m ((k, pid) ∷ rows) = insert_rows (insert dec k pid m) rows

  -- The map is cleared first.
  unfoldable pub rebuild_map : List (K × ℕ) → List (K × ℕ) → List (K × ℕ)
  unfolding insert_rows
  rebuild_map m rows = insert_rows [] rows

  module _ (table : ℕ → Option (List (K × ℕ))) (lookup : List (K × ℕ) → Option ℕ) where
    -- The table is asked for at the first time, and stamped with the second.
    unfoldable pub refresh_cache : Table K → ℕ → ℕ → Option (Table K)
    unfolding rebuild_map
    refresh_cache c later stamped = elim (table later) [
      | none ↦ none
      | some rows ↦ some (record { pids = rebuild_map c.pids rows; last_refresh = some stamped })
    ]

    -- The table is asked for, and then the key.
    unfoldable pub lookup_fresh : Table K → ℕ → ℕ → Table K × Option ℕ
    unfolding refresh_cache
    lookup_fresh c later stamped = elim (refresh_cache c later stamped) [
      | none ↦ (c, none)
      | some c' ↦ (c', lookup c'.pids)
    ]

    -- The `find_pid_*_cached` functions, with the look-up of the key; `later` and `stamped`
    -- are the times of a refresh.
    unfoldable pub find_pid_cached : Table K → ℕ → ℕ → ℕ → Table K × Option ℕ
    unfolding lookup_fresh is_stale
    find_pid_cached c now later stamped =
        if is_stale c.last_refresh now
        then lookup_fresh c later stamped
        else elim (lookup c.pids) [ some pid ↦ (c, some pid) | none ↦ lookup_fresh c later stamped ]

unfoldable pub lookup_tcp : {A : Type 0} → Discrete A → TcpKey A → List (TcpKey A × ℕ) → Option ℕ
lookup_tcp dec key pids = get (tcp_key_discrete dec) key pids

-- A socket that is bound to every address stands under the unspecified one.
unfoldable pub lookup_udp :
    {A : Type 0} → Discrete A → A → UdpKey A → List (UdpKey A × ℕ) → Option ℕ
lookup_udp dec unspecified key pids = elim (get (udp_key_discrete dec) key pids) [
  | some pid ↦ some pid
  | none ↦
      ite (dec key.local unspecified) none
        (get (udp_key_discrete dec) (record key { local = unspecified }) pids)
]

-- `u16::from_be(x as u16)` on a machine that stores the low byte first.
unfoldable pub u16_from_be : ℕ → ℕ
u16_from_be x = x % 256 * 256 + x / 256 % 256

-- `Ipv4Addr::from(u32::from_be(x))` on such a machine: the low byte is the first octet.
unfoldable pub ipv4_from_be : ℕ → Ipv4Addr
ipv4_from_be x = record {
  a = x % 256;
  b = x / 256 % 256;
  c = x / 65536 % 256;
  d = x / 16777216 % 256;
}

-- Rows of the operating system, the fields that are read. The address is a number in an IPv4 table
-- and the octets in an IPv6 table.
pub record TcpRow (A : Type 0) : Type 0 where
  pub local_addr : A
  pub remote_addr : A
  pub local_port : ℕ
  pub remote_port : ℕ
  pub owning_pid : ℕ

pub record UdpRow (A : Type 0) : Type 0 where
  pub local_addr : A
  pub local_port : ℕ
  pub owning_pid : ℕ

unfoldable pub tcp_row : {R A : Type 0} → (R → A) → TcpRow R → TcpKey A × ℕ
unfolding u16_from_be
tcp_row address row = (
  record {
    local = address row.local_addr;
    remote = address row.remote_addr;
    local_port = u16_from_be row.local_port;
    remote_port = u16_from_be row.remote_port;
  },
  row.owning_pid,
)

unfoldable pub udp_row : {R A : Type 0} → (R → A) → UdpRow R → UdpKey A × ℕ
unfolding u16_from_be
udp_row address row = (
  record { local = address row.local_addr; local_port = u16_from_be row.local_port },
  row.owning_pid,
)
