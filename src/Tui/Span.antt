-- ===== src/Tui/Span.antt =====
-- The rates of a list of samples.
use proxifyre_rs.Prelude.{
  ℕ, ◌-◌, ◌<◌, ◌≤◌, ◌≡◌, refl, sym, subst, Option, none, some, List, [], ◌∷◌, ◌++◌, arith,
  Bool-cases, inl, inr, ◌==◌, if◌then◌else◌,
}
use proxifyre_rs.Tui.{TrafficSample, Rates, back, rates}

back-append :
    (y : TrafficSample) (ys : List TrafficSample) (x : TrafficSample) → back y (ys ++ x ∷ []) ≡ x
unfolding back
back-append y [] x = refl
back-append y (z ∷ ys) x = back-append z ys x

-- The rates are those between the oldest sample that is kept and the newest; there are none just where
-- no time lies between these.
abbrev pub RatesOf : ℕ → List TrafficSample → TrafficSample → Option Rates → Type 0
RatesOf window kept x none =
    (oldest : TrafficSample) × (later : List TrafficSample) × (kept ≡ oldest ∷ later)
    × (x.timestamp - oldest.timestamp ≡ 0)
RatesOf window kept x (some q) =
    (oldest : TrafficSample) × (later : List TrafficSample) × (kept ≡ oldest ∷ later)
    × (q.up_delta ≡ x.bytes_sent - oldest.bytes_sent)
    × (q.down_delta ≡ x.bytes_received - oldest.bytes_received)
    × (q.span ≡ x.timestamp - oldest.timestamp)
    × (0 < q.span)
    × (q.span ≤ window)

rates_between : TrafficSample → TrafficSample → Option Rates
rates_between oldest newest =
    if (newest.timestamp - oldest.timestamp) == 0
    then none
    else some (record {
      up_delta = newest.bytes_sent - oldest.bytes_sent;
      down_delta = newest.bytes_received - oldest.bytes_received;
      span = newest.timestamp - oldest.timestamp;
    })

rates_between-RatesOf :
    (window : ℕ) (oldest x : TrafficSample) (later : List TrafficSample)
    → x.timestamp - oldest.timestamp ≤ window
    → RatesOf window (oldest ∷ later) x (rates_between oldest x)
unfolding rates_between
rates_between-RatesOf window oldest x later l =
    elim (Bool-cases ((x.timestamp - oldest.timestamp) == 0)) [
      | inl e ↦ rw (e, rates_between) (oldest, later, refl, ground arith)
      | inr e ↦ rw (e, rates_between) (oldest, later, refl, refl, refl, refl, ground arith, l)
    ]

pub rates-RatesOf :
    (window : ℕ) (early : List TrafficSample) (x : TrafficSample)
    → ((y : TrafficSample) (ys : List TrafficSample)
        → early ++ x ∷ [] ≡ y ∷ ys
        → x.timestamp - y.timestamp ≤ window)
    → RatesOf window (early ++ x ∷ []) x (rates (early ++ x ∷ []))
unfolding rates rates_between back
rates-RatesOf window [] x h = (x, [], refl, omega arith)
rates-RatesOf window (y ∷ []) x h = rates_between-RatesOf window y x (x ∷ []) (h y (x ∷ []) refl)
rates-RatesOf window (y ∷ z ∷ zs) x h =
    subst (λ n. RatesOf window (y ∷ z ∷ zs ++ x ∷ []) x (rates_between y n))
      (sym (back-append z zs x))
      (rates_between-RatesOf window y x (z ∷ zs ++ x ∷ []) (h y (z ∷ zs ++ x ∷ []) refl))
