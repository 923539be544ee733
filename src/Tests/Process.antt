-- ===== src/Tests/Process.antt =====
-- The process of a socket, from tables that do not change.
use proxifyre_rs.Net.{SocketAddr}
use proxifyre_rs.Prelude.{◌+◌, ◌*◌, ◌≡◌, refl, none, some, [], ◌∷◌, codes, arith, true, ℕ_discrete}
use proxifyre_rs.HashMap.{get, insert}
use proxifyre_rs.Process.Lookup.{
  Windows, WindowsProcessLookup, IsLookup, Explains, find_process_path_sync, find_pid,
  find_process_path_sync-Explains,
}
use proxifyre_rs.Process.Paths.{process_path, query_and_store, shrink}
use proxifyre_rs.Process.Sessions.{
  empty_table, find_pid_cached, lookup_fresh, refresh_cache, rebuild_map, insert_rows, is_stale,
  lookup_udp, udp_row, ipv4_from_be, u16_from_be, udp_key_discrete, v4_discrete,
}

-- firefox is bound to port 53000 of every address: 53000 is 207 * 256 + 8.
abbrev windows : Windows
windows = record {
  tcp_table_v4 = λ t. none;
  tcp_table_v6 = λ t. none;
  udp_table_v4 =
      λ t. some (record { local_addr = 0; local_port = 8 * 256 + 207; owning_pid = 42 } ∷ []);
  udp_table_v6 = λ t. none;
  query_process_path = λ t pid. some (codes "firefox.exe");
}

abbrev start : WindowsProcessLookup
start = record {
  cache = [];
  session_cache = record {
    tcp_v4 = empty_table;
    tcp_v6 = empty_table;
    udp_v4 = empty_table;
    udp_v6 = empty_table;
  };
}

abbrev socket : SocketAddr
socket = SocketAddr.v4 (record { a = 192; b = 0; c = 2; d = 10 }) 53000

abbrev peer : SocketAddr
peer = SocketAddr.v4 (record { a = 203; b = 0; c = 113; d = 10 }) 53

find_process_path_sync-Explains_example :
    IsLookup windows ((find_process_path_sync windows true socket peer 10 10 12 20 start).0)
    × Explains windows true socket peer 10 10 20 start.cache
        ((find_process_path_sync windows true socket peer 10 10 12 20 start).1)
find_process_path_sync-Explains_example =
    find_process_path_sync-Explains windows true socket peer 10 10 12 20 start (omega arith)
      ((tt, tt, tt, tt), (tt, ground arith))

found :
    (find_process_path_sync windows true socket peer 10 10 12 20 start).1
    ≡ some (codes "firefox.exe")
unfolding find_process_path_sync find_pid find_pid_cached lookup_fresh refresh_cache rebuild_map
    insert_rows is_stale lookup_udp udp_row ipv4_from_be u16_from_be udp_key_discrete v4_discrete
    process_path query_and_store shrink get insert ℕ_discrete
found = refl
