-- ===== src/Tests/Wire/App.antt =====
-- A run of the whole program, and one that fails at a name of its second proxy.
use proxifyre_rs.App.Run.Ended.{Ends, run-Ended}
use proxifyre_rs.App.Run.Tasks.{AllEnded}
use proxifyre_rs.App.Run.{World, Activity, End, run}
use proxifyre_rs.App.{ServiceSettings}
use proxifyre_rs.Prelude.{ℕ, true, none, some, [], ◌∷◌, ok, codes}
use proxifyre_rs.Proxy.Listener.{Sockets}
use proxifyre_rs.Router.Selection.{Machine}
use proxifyre_rs.Tests.Fixture.{ipv4, lookups}
use proxifyre_rs.Tests.Wire.Packets.{sessions}
use proxifyre_rs.Tests.Wire.{wire}

abbrev machine : Machine
machine = record {
  adapters = some (record { name = codes "Ethernet"; hw_address = 1 ∷ []; handle = 7 } ∷ []);
  best_interface = none;
  connections = [];
  from_slice = some;
}

abbrev sockets : ℕ → Sockets (Unit {0})
sockets n = record {
  Socket = Unit {0};
  bind_dual_stack_tcp = λ port. ok tt;
  bind_dual_stack_udp = λ port. ok tt;
  local_port = λ socket. ok 10000;
  local_addrs = λ tcp udp. ok tt;
}

abbrev settings : ServiceSettings
settings = record { app_names = codes "firefox" ∷ []; endpoint = codes "127.0.0.1:1080" } ∷ []

abbrev world : World
world = record {
  logger_is_set = true;
  driver_opens = true;
  has_version = true;
  machine = machine;
  driver = record { sets = λ filters. true; resets = true };
  names = record { parse_ip = λ t. some (ipv4 127 0 0 1); to_socket_addrs = λ t. some [] };
  config_content = some (codes "settings");
  from_str = λ t. some settings;
  notified = some (1, 2);
  activities = Activity.packets sessions ∷ Activity.changed machine ∷ [];
  end = End.ctrl_c;
}

run-Ended_example :
    let o = run wire lookups sockets world [] in
    AllEnded o.effects × Ends sockets world [] o.host o.answer
run-Ended_example = run-Ended sockets world wire lookups []
