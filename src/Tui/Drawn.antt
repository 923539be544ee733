-- ===== src/Tui/Drawn.antt =====
-- `draw_status_bar` of tui.rs from draw to draw, with the router's counters and the sampler. The time
-- stamps of the samples are the clock, and the running time and the statistics of a draw are given.
use proxifyre_rs.Prelude.{
  ℕ, Option, List, [], ◌∷◌, ◌++◌, Text, length, decimal, codes, replicate, ◌-◌,
}
use proxifyre_rs.Router.State.{
  SocksLocalRouter, get_tcp_connection_count, get_udp_connection_count, get_bytes_sent,
  get_bytes_received,
}
use proxifyre_rs.Tui.Bar.{Floats, Numbers, status, format_bytes, format_rate, traffic_rates}
use proxifyre_rs.Tui.{TrafficSample, Rates, sample, format_time}

-- What one draw finds. The statistics come from `last_stats`.
pub record View (F64 : Type 0) : Type 0 where
  pub router : SocksLocalRouter
  pub now : ℕ
  pub running_time : ℕ
  pub cpu_percent : F64
  pub mem_bytes : ℕ

module _ (f : Floats) (window : ℕ) where
  abbrev pub sample_of : View f.F64 → TrafficSample
  sample_of v = record {
    timestamp = v.now;
    bytes_sent = get_bytes_sent v.router;
    bytes_received = get_bytes_received v.router;
  }

  abbrev pub numbers : View f.F64 → Option Rates → Numbers f
  numbers v r = record {
    tcp_count = get_tcp_connection_count v.router;
    udp_count = get_udp_connection_count v.router;
    bytes_sent = get_bytes_sent v.router;
    bytes_received = get_bytes_received v.router;
    running_time = v.running_time;
    cpu_percent = v.cpu_percent;
    mem_bytes = v.mem_bytes;
    rates = r;
  }

  -- The columns of the status bar: a name, and a text that is right-aligned in a width.
  abbrev pub columns : List (Text × ℕ × Text) → Text
  columns [] = []
  columns ((name, width, text) ∷ []) =
      codes " "
      ++ (name ++ (codes ": " ++ (replicate (width - length text) 32 ++ text ++ codes " ")))
  columns ((name, width, text) ∷ c ∷ cs) =
      codes " "
      ++ (name
          ++ (codes ": "
              ++ (replicate (width - length text) 32 ++ text ++ (codes " |" ++ columns (c ∷ cs)))))

  -- The columns for a router, where the rates are these.
  abbrev pub shown : View f.F64 → Option Rates → List (Text × ℕ × Text)
  shown v r =
      let (up, down) = traffic_rates f r in
      (codes "TCP", 5, decimal (length v.router.tcp_connections))
      ∷ (codes "UDP", 5, decimal (length v.router.udp_endpoints.by_flow))
      ∷ (codes "UP", 8, format_bytes f v.router.bytes_sent)
      ∷ (codes "DOWN", 8, format_bytes f v.router.bytes_received)
      ∷ (codes "UPS", 9, format_rate f up)
      ∷ (codes "DNS", 9, format_rate f down)
      ∷ (codes "TIME", 8, format_time v.running_time)
      ∷ (
        codes "CPU",
        6,
        replicate (5 - length (f.fixed 1 v.cpu_percent)) 32 ++ f.fixed 1 v.cpu_percent ++ codes "%",
      )
      ∷ (codes "MEM", 8, format_bytes f v.mem_bytes)
      ∷ []

  -- The router's counters of bytes at a draw.
  abbrev pub counters : View f.F64 → TrafficSample
  counters v = record {
    timestamp = v.now;
    bytes_sent = v.router.bytes_sent;
    bytes_received = v.router.bytes_received;
  }

  -- The samples of the sampler, and the text.
  unfoldable pub draw_status_bar : List TrafficSample → View f.F64 → List TrafficSample × Text
  draw_status_bar samples v =
      let (samples', r) = sample window samples (sample_of v) in (samples', status f (numbers v r))

  unfoldable pub draw_all : List TrafficSample → List (View f.F64) → List TrafficSample
  draw_all samples [] = samples
  draw_all samples (v ∷ vs) = draw_all (draw_status_bar samples v).0 vs
