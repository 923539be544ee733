-- ===== src/Logging/Shown.antt =====
-- What passes the filter of the log crate after `init` of logging.rs.
use proxifyre_rs.Logging.Start.{Platform, Globals, unset, open_log, install, init, emit, emit_all}
use proxifyre_rs.Logging.{Level, Record, TuiLogger, log, log_all}
use proxifyre_rs.Prelude.{
  ◌≡◌, refl, ap, ok, Text, Bool, true, false, some, List, [], ◌∷◌, Bool-cases, inl, inr,
  if◌then◌else◌,
}

-- The records of the levels that reach the log.
unfoldable pub is_shown : Level → Bool
is_shown Level.error = true
is_shown Level.warn = true
is_shown Level.info = true
is_shown Level.debug = false
is_shown Level.trace = false

unfoldable pub shown : List Record → List Record
shown [] = []
shown (r ∷ rs) = if is_shown r.level then r ∷ shown rs else shown rs

-- The globals after `init`.
abbrev pub ready : TuiLogger → Globals
ready logger = record { logger = some logger; is_installed = true; max_level = some Level.info }

pub emit_all-shown :
    (m : Platform) (rs : List Record) (logger : TuiLogger)
    → ((l : Level) → m.passes Level.info l ≡ is_shown l)
    → emit_all m (ready logger) rs ≡ ready (log_all logger (shown rs))
unfolding emit_all emit shown log_all
emit_all-shown m [] logger h = refl
emit_all-shown m (r ∷ rs) logger h = elim (Bool-cases (is_shown r.level)) [
  | inl e ↦ rw (h r.level, e, emit) (emit_all-shown m rs (log logger r) h)
  | inr e ↦ rw (h r.level, e, emit) (emit_all-shown m rs logger h)
]

pub init-ready :
    (m : Platform) (logs : List Text)
    → m.set_logger ≡ true
    → init m logs unset ≡ (ready (record { logs = logs; log_file = open_log m }), ok tt)
unfolding init install
init-ready m logs h =
    let logger : TuiLogger = record { logs = logs; log_file = open_log m } in
    ap (λ b. install b (record unset { logger = some logger })) h
