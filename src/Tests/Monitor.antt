-- ===== src/Tests/Monitor.antt =====
-- The log, the numbers of the status bar and the choice of an adapter.
use mathlib.Core.List.{reverse}
use proxifyre_rs.Logging.Last.{file_of, grown}
use proxifyre_rs.Logging.Shown.{is_shown, shown}
use proxifyre_rs.Logging.Start.{Platform, unset, open_log, init, emit_all}
use proxifyre_rs.Logging.{Level, Record, TuiLogger, line}
use proxifyre_rs.Prelude.{
  ℕ, ◌/◌, ◌≤◌, ◌≡◌, refl, true, false, none, some, List, [], ◌∷◌, ok, Text, length, map, take,
  codes, decimal, arith,
}
use proxifyre_rs.Router.Selection.Best.{IsBest, select_best_adapter_name-IsBest}
use proxifyre_rs.Router.Selection.{Adapter, Machine, select_best_adapter_name, find_adapter_handle}
use proxifyre_rs.Stats.Usage.{accounted, process_of}
use proxifyre_rs.Stats.{
  CpuSampler, Reading, get_process_time_100ns, filetime_to_u64, measure, sample,
}
use proxifyre_rs.Tests.Fixture.{router}
use proxifyre_rs.Tui.Bar.{Floats, log_items}
use proxifyre_rs.Tui.Drawn
use proxifyre_rs.Tui.Drawn.{View}
use proxifyre_rs.Tui.Newest.{log_items-emit_all}
use proxifyre_rs.Tui.Screen.Ended.{Left, run-Left}
use proxifyre_rs.Tui.Screen.{
  Terminal, KeyEventKind, KeyCode, Input, Round, Calls, Ending, run, run_loop, run_rounds, restore,
  quits,
}
use proxifyre_rs.Tui.{format_time, pad2}

abbrev records : List Record
records =
    record { timestamp = codes "12:00"; level = Level.info; args = codes "started" }
    ∷ record { timestamp = codes "12:00"; level = Level.debug; args = codes "packet" }
    ∷ record { timestamp = codes "12:01"; level = Level.error; args = codes "stopped" }
    ∷ []

-- A path is a number, and every level up to info passes.
abbrev files : Platform
files = record {
  PathBuf = ℕ;
  current_exe = some 1;
  file_name = λ p. some (codes "proxifyre.exe");
  parent = λ p. some 2;
  push = λ p name. 3;
  open_append = λ p. some (codes "before");
  set_logger = true;
  passes = λ max_level level. is_shown level;
}

log_items-emit_all_example :
    let (g, r) = init files [] unset in
    (logger : TuiLogger) × (r ≡ ok tt)
    × ((emit_all files g records).logger ≡ some logger)
    × (log_items 5 logger.logs ≡ take 5 (reverse (map line (shown records))))
    × (length logger.logs ≤ 50)
    × (logger.log_file ≡ grown (open_log files) (file_of (map line (shown records))))
log_items-emit_all_example = log_items-emit_all files records 5 refl (λ l. refl) (omega arith)

-- A debug record is dropped.
two_lines_shown : length (shown records) ≡ 2
unfolding shown is_shown
two_lines_shown = refl

-- Whole numbers in place of floating-point numbers.
abbrev floats : Floats
floats = record {
  F64 = ℕ;
  as_f64 = λ n. n;
  div = λ a b. a / b;
  round = λ n. n;
  as_secs = λ t. t / 1000;
  fixed = λ digits n. decimal n;
}

abbrev view : ℕ → ℕ → View ℕ
view time sent = record {
  router = record router { bytes_sent = sent };
  now = time;
  running_time = time / 1000;
  cpu_percent = 12;
  mem_bytes = 2048;
}

abbrev draws : List (View ℕ)
draws = view 0 0 ∷ view 4000 100 ∷ []

time_shown : format_time 93784 ≡ codes "26:03:04"
unfolding format_time pad2 decimal
time_shown = refl

abbrev cpu : CpuSampler
cpu = record { last_instant = 0; last_process_100ns = 5 }

abbrev readings : List Reading
readings =
    record {
      now = 1000;
      times = some (record { low = 4; high = 0 }, record { low = 4; high = 0 });
      available_parallelism = some 8;
    }
    ∷ record { now = 2000; times = none; available_parallelism = some 8 }
    ∷ record {
      now = 3000;
      times = some (record { low = 6; high = 0 }, record { low = 5; high = 0 });
      available_parallelism = none;
    }
    ∷ []

-- The failed sample is made up for by the next.
failed_sample_made_up : accounted cpu readings ≡ 6
unfolding accounted process_of sample measure get_process_time_100ns filetime_to_u64
failed_sample_made_up = refl

abbrev ethernet : Adapter
ethernet = record { name = codes "Ethernet"; hw_address = 1 ∷ []; handle = 7 }

abbrev wifi : Adapter
wifi = record { name = codes "Wi-Fi"; hw_address = 2 ∷ []; handle = 8 }

abbrev machine : Machine
machine = record {
  adapters = some (ethernet ∷ wifi ∷ []);
  best_interface = some 12;
  connections = (1 ∷ [], 11) ∷ (2 ∷ [], 12) ∷ [];
  from_slice = some;
}

select_best_adapter_name-IsBest_example :
    (name : Text) × (a : Adapter) × (handle : ℕ) × (select_best_adapter_name machine ≡ ok name)
    × IsBest machine (ethernet ∷ wifi ∷ []) a
    × (name ≡ a.name)
    × (find_adapter_handle machine name ≡ ok handle)
select_best_adapter_name-IsBest_example =
    select_best_adapter_name-IsBest machine ethernet (wifi ∷ []) refl

abbrev terminal_calls : Calls
terminal_calls = record {
  enable_raw_mode = true;
  enter_alternate_screen = true;
  create = true;
  clear = true;
  leave_alternate_screen = true;
  disable_raw_mode = true;
  show_cursor = true;
}

-- A key that is let go, and then Ctrl+C.
abbrev rounds : List Round
rounds =
    record { should_shutdown = false; draws = true; input = Input.nothing }
    ∷ record {
      should_shutdown = false;
      draws = true;
      input =
          Input.key
            (record { kind = KeyEventKind.release; code = KeyCode.char 113; control = false });
    }
    ∷ record {
      should_shutdown = false;
      draws = true;
      input =
          Input.key (record { kind = KeyEventKind.press; code = KeyCode.char 99; control = true });
    }
    ∷ []

abbrev terminal : Terminal
terminal = record { raw_mode = false; alternate_screen = false; cursor = false }

ctrl_c_ends :
    run terminal_calls rounds terminal ≡ ((record terminal { cursor = true }, Ending.done), true)
unfolding run run_loop run_rounds restore quits
ctrl_c_ends = refl

run-Left_example :
    let ((t', ending), requested) = run terminal_calls rounds terminal in
    Left rounds requested ending t'
run-Left_example =
    run-Left terminal_calls rounds terminal (refl, refl, refl, refl, refl, refl, refl)
