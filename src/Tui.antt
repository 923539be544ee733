-- ===== src/Tui.antt =====
-- tui.rs: the traffic sampler, the time shown in the status bar and the lines shown of the log. Times
-- are natural numbers of a unit that the sampler does not depend on; a rate is left as a difference
-- of bytes and a span of time, since the source divides them as floating-point numbers.
pub mod Span
pub mod Sampler
pub mod Clock
pub mod Screen
pub mod Bar
pub mod Newest
pub mod Drawn
use proxifyre_rs.Prelude.{
  ℕ, ◌-◌, ◌/◌, ◌%◌, ◌*◌, Bool, Option, none, some, List, [], ◌∷◌, ◌++◌, Text, length, take, codes,
  decimal, if◌then◌else◌, ltb, leb, ◌==◌,
}

pub record TrafficSample : Type 0 where
  pub timestamp : ℕ
  pub bytes_sent : ℕ
  pub bytes_received : ℕ

-- The two rates: differences of bytes sent and received, over a span of time.
pub record Rates : Type 0 where
  pub up_delta : ℕ
  pub down_delta : ℕ
  pub span : ℕ

-- The loop that pops the front while it is older than the window.
unfoldable pub pop_old : ℕ → ℕ → List TrafficSample → List TrafficSample
pop_old window now [] = []
pop_old window now (front ∷ samples) =
    let rest = pop_old window now samples in
    if ltb window (now - front.timestamp) then rest else front ∷ samples

unfoldable pub back : TrafficSample → List TrafficSample → TrafficSample
back x [] = x
back x (y ∷ ys) = back y ys

-- `none` stands for the rates (0.0, 0.0).
unfoldable pub rates : List TrafficSample → Option Rates
rates [] = none
rates (oldest ∷ []) = none
rates (oldest ∷ x ∷ samples) =
    let newest = back x samples in
    let span = newest.timestamp - oldest.timestamp in
    if span == 0
    then none
    else some (record {
      up_delta = newest.bytes_sent - oldest.bytes_sent;
      down_delta = newest.bytes_received - oldest.bytes_received;
      span = span;
    })

-- `TrafficSampler::sample`, with the new sample.
unfoldable pub sample : ℕ → List TrafficSample → TrafficSample → List TrafficSample × Option Rates
sample window samples x =
    let samples' = pop_old window x.timestamp (samples ++ x ∷ []) in (samples', rates samples')

-- The samples kept after these have been taken, from a sampler that keeps some.
unfoldable pub sample_all : ℕ → List TrafficSample → List TrafficSample → List TrafficSample
sample_all window samples [] = samples
sample_all window samples (x ∷ xs) = sample_all window (sample window samples x).0 xs

-- `{:02}`.
unfoldable pub pad2 : ℕ → Text
pad2 n = if ltb n 10 then 48 ∷ decimal n else decimal n

unfoldable pub format_time : ℕ → Text
format_time total_secs =
    let hours = total_secs / 3600 in
    let minutes = total_secs % 3600 / 60 in
    let seconds = total_secs % 60 in
    pad2 hours ++ (codes ":" ++ (pad2 minutes ++ (codes ":" ++ pad2 seconds)))
