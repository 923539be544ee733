-- ===== src/Tui/Clock.antt =====
-- The running time as it is shown.
use proxifyre_rs.Prelude.{
  ℕ, ◌+◌, ◌*◌, ◌/◌, ◌%◌, ◌<◌, ◌≡◌, true, not, Option, none, some, ◌∷◌, ◌++◌, Text, arith, ◌==◌,
}
use proxifyre_rs.Proxy.Endpoint.Port.{is_digit, all-decimal, parse_digits-decimal}
use proxifyre_rs.Proxy.Endpoint.Texts.{all, Without, all_mono, split_first-append}
use proxifyre_rs.Proxy.Endpoint.{colon, split_first, parse_digits}
use proxifyre_rs.Tui.{pad2, format_time}

-- The three numbers of a time: hours, minutes and seconds.
unfoldable pub read_fields : Text → Text → Text → Option (ℕ × ℕ × ℕ)
read_fields h m s = elim (parse_digits 0 h) [
  | none ↦ none
  | some hours ↦ elim (parse_digits 0 m) [
    | none ↦ none
    | some minutes ↦ elim (parse_digits 0 s) [
      | none ↦ none
      | some seconds ↦ some (hours, minutes, seconds)
    ]
  ]
]

unfoldable pub read_time : Text → Option (ℕ × ℕ × ℕ)
read_time t = elim (split_first colon t) [
  | none ↦ none
  | some (h, rest) ↦ elim (split_first colon rest) [ none ↦ none | some (m, s) ↦ read_fields h m s ]
]

pad2-digits : (n : ℕ) → all is_digit (pad2 n) ≡ true
unfolding pad2 all
pad2-digits n = ground (arith, all-decimal n)

pad2-Without : (n : ℕ) → Without colon (pad2 n)
pad2-Without n =
    all_mono is_digit (λ x. not (x == colon)) (pad2 n) (λ x e. ground arith) (pad2-digits n)

parse_digits-pad2 : (n : ℕ) → n < 65536 → parse_digits 0 (pad2 n) ≡ some n
unfolding pad2 parse_digits
parse_digits-pad2 n h = ground (arith, parse_digits-decimal n h)

read_time-shown :
    (h m s : ℕ)
    → h < 65536
    → m < 65536
    → s < 65536
    → read_time (pad2 h ++ colon ∷ (pad2 m ++ colon ∷ pad2 s)) ≡ some (h, m, s)
unfolding read_time read_fields
read_time-shown h m s bh bm bs = ground (
  arith,
  split_first-append colon (pad2 h) (pad2 m ++ colon ∷ pad2 s) (pad2-Without h),
  split_first-append colon (pad2 m) (pad2 s) (pad2-Without m),
  parse_digits-pad2 h bh,
  parse_digits-pad2 m bm,
  parse_digits-pad2 s bs,
)

-- The time that is shown for a number of seconds below 65536 hours is read back as hours, minutes
-- and seconds that make this number, with less than 60 minutes and less than 60 seconds.
pub read_time-format_time :
    (n : ℕ)
    → n < 65536 * 3600
    → (h : ℕ) × (m : ℕ) × (s : ℕ) × (read_time (format_time n) ≡ some (h, m, s))
      × (h * 3600 + m * 60 + s ≡ n)
      × (m < 60)
      × (s < 60)
unfolding format_time
read_time-format_time n b =
    let h = n / 3600 in
    let m = n % 3600 / 60 in
    let s = n % 60 in
    (
      h,
      m,
      s,
      read_time-shown h m s (omega arith) (omega arith) (omega arith),
      omega arith,
      omega arith,
      omega arith,
    )
