-- ===== src/Logging.antt =====
-- logging.rs: a line goes to the end of a list of at most 50 lines, and to the file if it is open. The
-- time stamp is a parameter; a failed write is ignored by the source and none here.
pub mod Last
pub mod Start
pub mod Shown
use proxifyre_rs.Prelude.{
  ℕ, ◌-◌, Option, none, some, List, [], ◌∷◌, ◌++◌, Text, length, drop, replicate, codes, as_bytes,
  if◌then◌else◌, ltb,
}

abbrev pub max_log_lines : ℕ
max_log_lines = 50

pub data Level : Type 0 where
  error warn info debug trace : Level

unfoldable pub level_name : Level → Text
level_name Level.error = codes "ERROR"
level_name Level.warn = codes "WARN"
level_name Level.info = codes "INFO"
level_name Level.debug = codes "DEBUG"
level_name Level.trace = codes "TRACE"

pub record Record : Type 0 where
  pub timestamp : Text
  pub level : Level
  pub args : Text

pub record TuiLogger : Type 0 where
  pub logs : List Text
  pub log_file : Option (List ℕ)

-- `{:>5}`.
abbrev pub right_align : Text → Text
right_align s = replicate (5 - length s) 32 ++ s

unfoldable pub line : Record → Text
unfolding level_name
line r =
    codes "["
    ++ r.timestamp
    ++ codes "] ["
    ++ right_align (level_name r.level)
    ++ codes "] "
    ++ r.args

unfoldable pub push_line : List Text → Text → List Text
push_line logs l =
    let logs' = logs ++ l ∷ [] in if ltb max_log_lines (length logs') then drop 1 logs' else logs'

abbrev pub newline : ℕ
newline = 10

unfoldable pub write_line : Option (List ℕ) → Text → Option (List ℕ)
write_line none l = none
write_line (some file) l = some (file ++ (as_bytes l ++ newline ∷ []))

unfoldable pub log : TuiLogger → Record → TuiLogger
log logger r = record {
  logs = push_line logger.logs (line r);
  log_file = write_line logger.log_file (line r);
}

unfoldable pub log_all : TuiLogger → List Record → TuiLogger
log_all logger [] = logger
log_all logger (r ∷ rs) = log_all (log logger r) rs
