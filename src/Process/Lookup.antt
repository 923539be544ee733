-- ===== src/Process/Lookup.antt =====
-- `WindowsProcessLookup` of windows/process.rs: from the addresses of a packet to the path of its
-- process. `now` is when staleness is tested, `later` when a table is asked for again, `stamped`
-- when it has come and `at` when the path is looked up.
use mathlib.Core.Option
use proxifyre_rs.Net.{Ipv4Addr, Ipv6Addr, SocketAddr, unspecified_v4, unspecified_v6}
use proxifyre_rs.Prelude.{
  ℕ, ◌≤◌, ap, ◌≡◌, ◌⊎◌, inl, inr, refl, Bool, true, false, Option, none, some, List, map, Text,
  Option-cases,
}
use proxifyre_rs.Process.Paths.{Cache, process_path, IsCache, Known, process_path-IsCache}
use proxifyre_rs.Process.Sessions.{
  TcpKey, UdpKey, TcpRow, UdpRow, Table, v4_discrete, v6_discrete, tcp_key_discrete,
  udp_key_discrete, find_pid_cached, lookup_tcp, lookup_udp, tcp_row, udp_row, ipv4_from_be,
}
use proxifyre_rs.Process.Owners.{
  V4Is, V6Is, TcpOf, UdpOf, Owned, Answers-Owned, lookup_tcp-TcpOf, lookup_tcp-none,
  lookup_udp-UdpOf, lookup_udp-none, ipv4_from_be-V4Is, V4Is-ipv4_from_be,
}
use proxifyre_rs.Process.Sessions.Fresh.{IsTable, Answers, find_pid_cached-Answers}

-- What the operating system answers at a time. The octets of an IPv6 address are in a list.
pub record Windows : Type 0 where
  pub tcp_table_v4 : ℕ → Option (List (TcpRow ℕ))
  pub tcp_table_v6 : ℕ → Option (List (TcpRow (List ℕ)))
  pub udp_table_v4 : ℕ → Option (List (UdpRow ℕ))
  pub udp_table_v6 : ℕ → Option (List (UdpRow (List ℕ)))
  pub query_process_path : ℕ → ℕ → Option Text

pub record SessionCache : Type 0 where
  pub tcp_v4 : Table (TcpKey Ipv4Addr)
  pub tcp_v6 : Table (TcpKey Ipv6Addr)
  pub udp_v4 : Table (UdpKey Ipv4Addr)
  pub udp_v6 : Table (UdpKey Ipv6Addr)

pub record WindowsProcessLookup : Type 0 where
  pub cache : Cache
  pub session_cache : SessionCache

abbrev pub ipv6_from : List ℕ → Ipv6Addr
ipv6_from octets = record { octets = octets }

from-V6Is : (octets : List ℕ) (a : Ipv6Addr) → ipv6_from octets ≡ a → V6Is octets a
from-V6Is octets a h = ap (λ a. a.octets) h

V6Is-from : (octets : List ℕ) (a : Ipv6Addr) → V6Is octets a → ipv6_from octets ≡ a
V6Is-from octets a h = ap ipv6_from h

module _ (os : Windows) where
  -- The tables with their rows as keys.
  abbrev pub tcp_v4_at : ℕ → Option (List (TcpKey Ipv4Addr × ℕ))
  tcp_v4_at t = Option.map (map (tcp_row ipv4_from_be)) (os.tcp_table_v4 t)

  abbrev pub tcp_v6_at : ℕ → Option (List (TcpKey Ipv6Addr × ℕ))
  tcp_v6_at t = Option.map (map (tcp_row ipv6_from)) (os.tcp_table_v6 t)

  abbrev pub udp_v4_at : ℕ → Option (List (UdpKey Ipv4Addr × ℕ))
  udp_v4_at t = Option.map (map (udp_row ipv4_from_be)) (os.udp_table_v4 t)

  abbrev pub udp_v6_at : ℕ → Option (List (UdpKey Ipv6Addr × ℕ))
  udp_v6_at t = Option.map (map (udp_row ipv6_from)) (os.udp_table_v6 t)

  abbrev tcp_key : {A : Type 0} → A → A → ℕ → ℕ → TcpKey A
  tcp_key local remote p q = record {
    local = local;
    remote = remote;
    local_port = p;
    remote_port = q;
  }

  abbrev udp_key : {A : Type 0} → A → ℕ → UdpKey A
  udp_key local p = record { local = local; local_port = p }

  unfoldable pub find_pid :
      Bool → SocketAddr → SocketAddr → ℕ → ℕ → ℕ → SessionCache → SessionCache × Option ℕ
  find_pid true (SocketAddr.v4 a p) dst now later stamped c =
      let (t, pid) =
        find_pid_cached (udp_key_discrete v4_discrete) udp_v4_at
          (lookup_udp v4_discrete unspecified_v4 (udp_key a p)) c.udp_v4 now later stamped in
      (record c { udp_v4 = t }, pid)
  find_pid true (SocketAddr.v6 a p _ _) dst now later stamped c =
      let (t, pid) =
        find_pid_cached (udp_key_discrete v6_discrete) udp_v6_at
          (lookup_udp v6_discrete unspecified_v6 (udp_key a p)) c.udp_v6 now later stamped in
      (record c { udp_v6 = t }, pid)
  find_pid false (SocketAddr.v4 a p) (SocketAddr.v4 b q) now later stamped c =
      let (t, pid) =
        find_pid_cached (tcp_key_discrete v4_discrete) tcp_v4_at
          (lookup_tcp v4_discrete (tcp_key a b p q)) c.tcp_v4 now later stamped in
      (record c { tcp_v4 = t }, pid)
  find_pid false (SocketAddr.v6 a p _ _) (SocketAddr.v6 b q _ _) now later stamped c =
      let (t, pid) =
        find_pid_cached (tcp_key_discrete v6_discrete) tcp_v6_at
          (lookup_tcp v6_discrete (tcp_key a b p q)) c.tcp_v6 now later stamped in
      (record c { tcp_v6 = t }, pid)
  find_pid false (SocketAddr.v4 a p) (SocketAddr.v6 b q _ _) now later stamped c = (c, none)
  find_pid false (SocketAddr.v6 a p _ _) (SocketAddr.v4 b q) now later stamped c = (c, none)

  unfoldable pub find_process_path_sync :
      Bool
      → SocketAddr
      → SocketAddr
      → ℕ
      → ℕ
      → ℕ
      → ℕ
      → WindowsProcessLookup
      → WindowsProcessLookup × Option Text
  unfolding find_pid
  find_process_path_sync is_udp src dst now later stamped at s =
      let (sessions, pid) = find_pid is_udp src dst now later stamped s.session_cache in
      let s' = record s { session_cache = sessions } in
      elim pid [
        | none ↦ (s', none)
        | some pid ↦
            let (cache, path) = process_path os.query_process_path pid at s.cache in
            (record s' { cache = cache }, path)
      ]

  abbrev pub IsSessions : SessionCache → Type 0
  IsSessions c =
      IsTable (tcp_key_discrete v4_discrete) tcp_v4_at c.tcp_v4
      × IsTable (tcp_key_discrete v6_discrete) tcp_v6_at c.tcp_v6
      × IsTable (udp_key_discrete v4_discrete) udp_v4_at c.udp_v4
      × IsTable (udp_key_discrete v6_discrete) udp_v6_at c.udp_v6

  abbrev pub IsLookup : WindowsProcessLookup → Type 0
  IsLookup s = IsSessions s.session_cache × IsCache os.query_process_path s.cache

  -- Whose socket it is, by the rows of the tables.
  abbrev pub Owns : Bool → SocketAddr → SocketAddr → ℕ → ℕ → Option ℕ → Type 0
  Owns true (SocketAddr.v4 a p) dst now later pid =
      Owned os.udp_table_v4 (UdpOf V4Is unspecified_v4 (udp_key a p)) (λ row. row.owning_pid) now
        later pid
  Owns true (SocketAddr.v6 a p _ _) dst now later pid =
      Owned os.udp_table_v6 (UdpOf V6Is unspecified_v6 (udp_key a p)) (λ row. row.owning_pid) now
        later pid
  Owns false (SocketAddr.v4 a p) (SocketAddr.v4 b q) now later pid =
      Owned os.tcp_table_v4 (TcpOf V4Is (tcp_key a b p q)) (λ row. row.owning_pid) now later pid
  Owns false (SocketAddr.v6 a p _ _) (SocketAddr.v6 b q _ _) now later pid =
      Owned os.tcp_table_v6 (TcpOf V6Is (tcp_key a b p q)) (λ row. row.owning_pid) now later pid
  Owns false (SocketAddr.v4 a p) (SocketAddr.v6 b q _ _) now later pid = pid ≡ none
  Owns false (SocketAddr.v6 a p _ _) (SocketAddr.v4 b q) now later pid = pid ≡ none

  udp_v4-Owned :
      (k : UdpKey Ipv4Addr) (now later : ℕ) (pid : Option ℕ)
      → Answers
          (udp_key_discrete v4_discrete)
          udp_v4_at
          (lookup_udp v4_discrete unspecified_v4 k)
          now
          later
          pid
      → Owned os.udp_table_v4 (UdpOf V4Is unspecified_v4 k) (λ row. row.owning_pid) now later pid
  udp_v4-Owned k now later pid =
      Answers-Owned (udp_key_discrete v4_discrete) os.udp_table_v4 (udp_row ipv4_from_be)
        (lookup_udp v4_discrete unspecified_v4 k) (UdpOf V4Is unspecified_v4 k)
        (λ row. row.owning_pid)
        (lookup_udp-UdpOf v4_discrete ipv4_from_be V4Is ipv4_from_be-V4Is V4Is-ipv4_from_be
          unspecified_v4 k)
        (lookup_udp-none v4_discrete ipv4_from_be V4Is ipv4_from_be-V4Is V4Is-ipv4_from_be
          unspecified_v4 k)
        now later pid

  udp_v6-Owned :
      (k : UdpKey Ipv6Addr) (now later : ℕ) (pid : Option ℕ)
      → Answers
          (udp_key_discrete v6_discrete)
          udp_v6_at
          (lookup_udp v6_discrete unspecified_v6 k)
          now
          later
          pid
      → Owned os.udp_table_v6 (UdpOf V6Is unspecified_v6 k) (λ row. row.owning_pid) now later pid
  udp_v6-Owned k now later pid =
      Answers-Owned (udp_key_discrete v6_discrete) os.udp_table_v6 (udp_row ipv6_from)
        (lookup_udp v6_discrete unspecified_v6 k) (UdpOf V6Is unspecified_v6 k)
        (λ row. row.owning_pid)
        (lookup_udp-UdpOf v6_discrete ipv6_from V6Is from-V6Is V6Is-from unspecified_v6 k)
        (lookup_udp-none v6_discrete ipv6_from V6Is from-V6Is V6Is-from unspecified_v6 k) now later
        pid

  tcp_v4-Owned :
      (k : TcpKey Ipv4Addr) (now later : ℕ) (pid : Option ℕ)
      → Answers (tcp_key_discrete v4_discrete) tcp_v4_at (lookup_tcp v4_discrete k) now later pid
      → Owned os.tcp_table_v4 (TcpOf V4Is k) (λ row. row.owning_pid) now later pid
  tcp_v4-Owned k now later pid =
      Answers-Owned (tcp_key_discrete v4_discrete) os.tcp_table_v4 (tcp_row ipv4_from_be)
        (lookup_tcp v4_discrete k) (TcpOf V4Is k) (λ row. row.owning_pid)
        (lookup_tcp-TcpOf v4_discrete ipv4_from_be V4Is ipv4_from_be-V4Is V4Is-ipv4_from_be k)
        (lookup_tcp-none v4_discrete ipv4_from_be V4Is ipv4_from_be-V4Is V4Is-ipv4_from_be k) now
        later pid

  tcp_v6-Owned :
      (k : TcpKey Ipv6Addr) (now later : ℕ) (pid : Option ℕ)
      → Answers (tcp_key_discrete v6_discrete) tcp_v6_at (lookup_tcp v6_discrete k) now later pid
      → Owned os.tcp_table_v6 (TcpOf V6Is k) (λ row. row.owning_pid) now later pid
  tcp_v6-Owned k now later pid =
      Answers-Owned (tcp_key_discrete v6_discrete) os.tcp_table_v6 (tcp_row ipv6_from)
        (lookup_tcp v6_discrete k) (TcpOf V6Is k) (λ row. row.owning_pid)
        (lookup_tcp-TcpOf v6_discrete ipv6_from V6Is from-V6Is V6Is-from k)
        (lookup_tcp-none v6_discrete ipv6_from V6Is from-V6Is V6Is-from k) now later pid

  find_pid-Owns :
      (is_udp : Bool) (src dst : SocketAddr) (now later stamped : ℕ) (c : SessionCache)
      → later ≤ stamped
      → IsSessions c
      → IsSessions ((find_pid is_udp src dst now later stamped c).0)
        × Owns is_udp src dst now later ((find_pid is_udp src dst now later stamped c).1)
  unfolding find_pid
  find_pid-Owns true (SocketAddr.v4 a p) dst now later stamped c le (t4, t6, u4, u6) =
      let (u, owns) =
        find_pid_cached-Answers (udp_key_discrete v4_discrete) udp_v4_at
          (lookup_udp v4_discrete unspecified_v4 (udp_key a p)) c.udp_v4 now later stamped le u4 in
      ((t4, t6, u, u6), udp_v4-Owned (udp_key a p) now later _ owns)
  find_pid-Owns true (SocketAddr.v6 a p _ _) dst now later stamped c le (t4, t6, u4, u6) =
      let (u, owns) =
        find_pid_cached-Answers (udp_key_discrete v6_discrete) udp_v6_at
          (lookup_udp v6_discrete unspecified_v6 (udp_key a p)) c.udp_v6 now later stamped le u6 in
      ((t4, t6, u4, u), udp_v6-Owned (udp_key a p) now later _ owns)
  find_pid-Owns false (SocketAddr.v4 a p) (SocketAddr.v4 b q) now later stamped c le
        (t4, t6, u4, u6) =
      let (t, owns) =
        find_pid_cached-Answers (tcp_key_discrete v4_discrete) tcp_v4_at
          (lookup_tcp v4_discrete (tcp_key a b p q)) c.tcp_v4 now later stamped le t4 in
      ((t, t6, u4, u6), tcp_v4-Owned (tcp_key a b p q) now later _ owns)
  find_pid-Owns false (SocketAddr.v6 a p _ _) (SocketAddr.v6 b q _ _) now later stamped c le
        (t4, t6, u4, u6) =
      let (t, owns) =
        find_pid_cached-Answers (tcp_key_discrete v6_discrete) tcp_v6_at
          (lookup_tcp v6_discrete (tcp_key a b p q)) c.tcp_v6 now later stamped le t6 in
      ((t4, t, u4, u6), tcp_v6-Owned (tcp_key a b p q) now later _ owns)
  find_pid-Owns false (SocketAddr.v4 a p) (SocketAddr.v6 b q _ _) now later stamped c le h =
      (h, refl)
  find_pid-Owns false (SocketAddr.v6 a p _ _) (SocketAddr.v4 b q) now later stamped c le h =
      (h, refl)

  -- What the look-up of a process promises of its answer.
  abbrev pub Explains : Bool → SocketAddr → SocketAddr → ℕ → ℕ → ℕ → Cache → Option Text → Type 0
  Explains is_udp src dst now later at cache path =
      ((path ≡ none) × Owns is_udp src dst now later none)
      ⊎ ((pid : ℕ) × Owns is_udp src dst now later (some pid)
          × Known os.query_process_path pid at cache path)

  -- From caches that keep it, each call keeps it: the path cache has at most 1024 paths, which the
  -- operating system has given, and every session table is one that it has given, not after its
  -- stamp. The answer is the path of a process with a row for the addresses (for UDP, of the local
  -- address or of every address) in a table of the operating system, which had come at most half a
  -- second before `now`, or is asked for at `later`; the path is given at `at`, or was given
  -- before and used in the last five minutes. There is no answer only where the table of `later` has
  -- no such row or is an error, where TCP addresses are of different kinds, or where the operating
  -- system gives no path.
  pub find_process_path_sync-Explains :
      (is_udp : Bool) (src dst : SocketAddr) (now later stamped at : ℕ) (s : WindowsProcessLookup)
      → later ≤ stamped
      → IsLookup s
      → IsLookup ((find_process_path_sync is_udp src dst now later stamped at s).0)
        × Explains is_udp src dst now later at s.cache
            ((find_process_path_sync is_udp src dst now later stamped at s).1)
  unfolding find_process_path_sync
  find_process_path_sync-Explains is_udp src dst now later stamped at s le (sessions, paths) =
      let (sessions', owns) =
        find_pid-Owns is_udp src dst now later stamped s.session_cache le sessions in
      elim (Option-cases ((find_pid is_udp src dst now later stamped s.session_cache).1)) [
        | inl e ↦ rw (e, find_process_path_sync) ((sessions', paths), inl (refl, rw e at owns))
        | inr (pid, e) ↦
            let (paths', known) = process_path-IsCache os.query_process_path pid at s.cache paths in
            rw (e, find_process_path_sync) ((sessions', paths'), inr (pid, rw e at owns, known))
      ]
