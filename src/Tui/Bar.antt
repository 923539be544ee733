-- ===== src/Tui/Bar.antt =====
-- What `draw_logs` and `draw_status_bar` of tui.rs write. Floating-point numbers and their text are a
-- parameter; layout, borders and colours are left to the crate.
use mathlib.Core.List.{reverse}
use proxifyre_rs.Prelude.{
  ℕ, ◌-◌, ◌*◌, Option, none, some, List, ◌++◌, Text, length, take, replicate, codes, decimal,
  if◌then◌else◌, ltb,
}
use proxifyre_rs.Tui.{Rates, format_time}

-- `f64`: conversions, quotients, `x.round().max(0.0) as u64`, a `Duration` in seconds, and the text with
-- this many digits after the point.
pub record Floats : Type 1 where
  pub F64 : Type 0
  pub as_f64 : ℕ → F64
  pub div : F64 → F64 → F64
  pub round : F64 → ℕ
  pub as_secs : ℕ → F64
  pub fixed : ℕ → F64 → Text

-- `{:>width}`.
abbrev align : ℕ → Text → Text
align width s = replicate (width - length s) 32 ++ s

-- The lines shown, the last first.
unfoldable pub log_items : ℕ → List Text → List Text
log_items height logs = take height (reverse logs)

module _ (f : Floats) where
  -- A size in units of `unit` bytes.
  abbrev in_unit : ℕ → ℕ → ℕ → Text → Text
  in_unit digits unit bytes name =
      f.fixed digits (f.div (f.as_f64 bytes) (f.as_f64 unit)) ++ (codes " " ++ name)

  unfoldable pub format_bytes : ℕ → Text
  format_bytes bytes =
      if ltb bytes 1024
      then decimal bytes ++ codes " B"
      else if ltb bytes (1024 * 1024)
      then in_unit 1 1024 bytes (codes "KB")
      else if ltb bytes (1024 * 1024 * 1024)
      then in_unit 1 (1024 * 1024) bytes (codes "MB")
      else in_unit 2 (1024 * 1024 * 1024) bytes (codes "GB")

  unfoldable pub format_rate : f.F64 → Text
  unfolding format_bytes
  format_rate bytes_per_sec = format_bytes (f.round bytes_per_sec) ++ codes "/s"

  -- The two numbers that the sampler returns.
  unfoldable pub traffic_rates : Option Rates → f.F64 × f.F64
  traffic_rates none = (f.as_f64 0, f.as_f64 0)
  traffic_rates (some r) = (
    f.div (f.as_f64 r.up_delta) (f.as_secs r.span),
    f.div (f.as_f64 r.down_delta) (f.as_secs r.span),
  )

  -- What the status bar shows.
  pub record Numbers : Type 0 where
    pub tcp_count : ℕ
    pub udp_count : ℕ
    pub bytes_sent : ℕ
    pub bytes_received : ℕ
    pub running_time : ℕ
    pub cpu_percent : f.F64
    pub mem_bytes : ℕ
    pub rates : Option Rates

  unfoldable pub status : Numbers → Text
  unfolding format_bytes format_rate traffic_rates
  status n =
      let (up_rate, down_rate) = traffic_rates n.rates in
      codes " TCP: "
      ++ align 5 (decimal n.tcp_count)
      ++ codes " | UDP: "
      ++ align 5 (decimal n.udp_count)
      ++ codes " | UP: "
      ++ align 8 (format_bytes n.bytes_sent)
      ++ codes " | DOWN: "
      ++ align 8 (format_bytes n.bytes_received)
      ++ codes " | UPS: "
      ++ align 9 (format_rate up_rate)
      ++ codes " | DNS: "
      ++ align 9 (format_rate down_rate)
      ++ codes " | TIME: "
      ++ align 8 (format_time n.running_time)
      ++ codes " | CPU: "
      ++ align 6 (align 5 (f.fixed 1 n.cpu_percent) ++ codes "%")
      ++ codes " | MEM: "
      ++ align 8 (format_bytes n.mem_bytes)
      ++ codes " "
