-- ===== src/Logging/Start.antt =====
-- `init` of logging.rs, and what reaches the logger of a call of one of the macros of the log crate.
-- The path of the program, the file system and the crate are a parameter; a file that is open for
-- appending is what it has. `flush` adds nothing to the file and is left out.
use proxifyre_rs.Logging.{Level, Record, TuiLogger, log}
use proxifyre_rs.Prelude.{
  ℕ, Bool, true, false, Option, none, some, List, [], ◌∷◌, Result, ok, err, Text, codes,
  if◌then◌else◌, unwrap_or,
}

-- What `init` calls: the parts of a path, the opening of a file, which fails or gives what the file
-- has, and `set_logger`, which refuses where the program has a logger already. `passes` is the test of
-- the crate's macros, of a filter and a level.
pub record Platform : Type 1 where
  pub PathBuf : Type 0
  pub current_exe : Option PathBuf
  pub file_name : PathBuf → Option Text
  pub parent : PathBuf → Option PathBuf
  pub push : PathBuf → Text → PathBuf
  pub open_append : PathBuf → Option (List ℕ)
  pub set_logger : Bool
  pub passes : Level → Level → Bool

-- `logger` is LOGGER; the crate starts without a logger, at the filter Off.
pub record Globals : Type 0 where
  pub logger : Option TuiLogger
  pub is_installed : Bool
  pub max_level : Option Level

abbrev pub unset : Globals
unset = record { logger = none; is_installed = false; max_level = none }

unfoldable pub get_executable_dir : (m : Platform) → Option m.PathBuf
get_executable_dir m = elim m.current_exe [
  | none ↦ none
  | some exe_path ↦ elim (m.file_name exe_path) [
    | some name ↦ some (unwrap_or exe_path (m.parent exe_path))
    | none ↦ some exe_path
  ]
]

unfoldable pub open_log : Platform → Option (List ℕ)
unfolding get_executable_dir
open_log m = elim (get_executable_dir m) [
  | none ↦ none
  | some exe_dir ↦ m.open_append (m.push exe_dir (codes "proxifyre.log"))
]

-- What `set_logger` answers, and the filter.
unfoldable pub install : Bool → Globals → Globals × Result (Unit {0}) (Unit {0})
install true g = (record g { is_installed = true; max_level = some Level.info }, ok tt)
install false g = (g, err tt)

unfoldable pub init : Platform → List Text → Globals → Globals × Result (Unit {0}) (Unit {0})
unfolding open_log install
init m logs g = elim g.logger [
  | some logger ↦ (g, ok tt)
  | none ↦
      let logger : TuiLogger = record { logs = logs; log_file = open_log m } in
      install m.set_logger (record g { logger = some logger })
]

-- A call of `error!`, `warn!`, `info!`, `debug!` or `trace!`.
unfoldable pub emit : Platform → Globals → Record → Globals
emit m g r = elim g.logger [
  | none ↦ g
  | some logger ↦
      if g.is_installed
      then elim g.max_level [
        | none ↦ g
        | some max_level ↦
            if m.passes max_level r.level then record g { logger = some (log logger r) } else g
      ]
      else g
]

unfoldable pub emit_all : Platform → Globals → List Record → Globals
emit_all m g [] = g
emit_all m g (r ∷ rs) = emit_all m (emit m g r) rs
