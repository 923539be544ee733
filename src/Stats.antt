-- ===== src/Stats.antt =====
-- windows/stats.rs: the usage of the processor between two samples. The times of the process (`none`
-- of an error), the size of its memory and the number of processors are parameters. A percentage is
-- left as the numbers that the source divides as floating-point numbers.
pub mod Usage
use proxifyre_rs.Prelude.{
  ℕ, ◌+◌, ◌*◌, ◌-◌, ◌/◌, ◌%◌, ◌^◌, Bool, Option, none, some, if◌then◌else◌, ltb, ◌==◌, unwrap_or,
}

pub record Filetime : Type 0 where
  pub low : ℕ
  pub high : ℕ

unfoldable pub filetime_to_u64 : Filetime → ℕ
filetime_to_u64 f = f.high * 2 ^ 32 + f.low

-- The time in the kernel and the time in user mode; the sum of two `u64` wraps around in a release
-- build.
unfoldable pub get_process_time_100ns : Option (Filetime × Filetime) → Option ℕ
get_process_time_100ns none = none
get_process_time_100ns (some (kernel, user)) =
    some ((filetime_to_u64 kernel + filetime_to_u64 user) % 2 ^ 64)

-- `last_instant` is in nanoseconds.
pub record CpuSampler : Type 0 where
  pub last_instant : ℕ
  pub last_process_100ns : ℕ

-- `delta_process / wall_100ns * 100 / cpu_count`.
pub record Ratio : Type 0 where
  pub delta_process : ℕ
  pub wall_100ns : ℕ
  pub cpu_count : ℕ

-- What a sample finds: the time, the times of the process, and the processors (`none` of an error).
pub record Reading : Type 0 where
  pub now : ℕ
  pub times : Option (Filetime × Filetime)
  pub available_parallelism : Option ℕ

-- `none` stands for 0.0.
unfoldable pub measure : CpuSampler → Reading → ℕ → CpuSampler × Option Ratio
measure c x process_time =
    let moved : CpuSampler = record { last_instant = x.now; last_process_100ns = process_time } in
    let wall_100ns = (x.now - c.last_instant) / 100 in
    if c.last_process_100ns == 0 then (moved, none) else if wall_100ns == 0 then (c, none) else (
      moved,
      some (record {
        delta_process = process_time - c.last_process_100ns;
        wall_100ns = wall_100ns;
        cpu_count = unwrap_or 1 x.available_parallelism;
      }),
    )

unfoldable pub sample : CpuSampler → Reading → CpuSampler × Option Ratio
sample c x = elim (get_process_time_100ns x.times) [
  | none ↦ (c, none)
  | some process_time ↦ measure c x process_time
]

-- `clamp(0.0, 100.0)` of the percentage, as a fraction.
unfoldable pub clamp : Option Ratio → ℕ × ℕ
clamp none = (0, 1)
clamp (some r) =
    if ltb (r.wall_100ns * r.cpu_count) r.delta_process
    then (100, 1)
    else (r.delta_process * 100, r.wall_100ns * r.cpu_count)

pub record StatsSnapshot : Type 0 where
  pub cpu_percent : ℕ × ℕ
  pub mem_bytes : ℕ

-- `WindowsSystemStats::sample`, with the size of the memory (`none` of an error).
unfoldable pub snapshot : CpuSampler → Reading → Option ℕ → CpuSampler × StatsSnapshot
snapshot c x memory =
    let (c', ratio) = sample c x in
    (c', record { cpu_percent = clamp ratio; mem_bytes = unwrap_or 0 memory })
