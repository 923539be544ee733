-- ===== src/Proxy/Endpoint/Port.antt =====
-- The decimal digits of a port, printed and parsed.
use proxifyre_rs.Prelude.{
  ℕ, zero, suc, ◌+◌, ◌*◌, ◌/◌, ◌%◌, ◌-◌, ◌<◌, ◌≤◌, ◌≡◌, refl, ap, ◌∙◌, Bool, true, false, ◌&&◌,
  some, [], ◌∷◌, ◌++◌, Text, arith, leb, decimal, decimal_fuel,
}
use proxifyre_rs.Proxy.Endpoint.Texts.{all, all-append}
use proxifyre_rs.Proxy.Endpoint.{parse_digits, parse_u16, is_empty}

abbrev pub is_digit : ℕ → Bool
is_digit c = leb 48 c && leb c 57

decimal_fuel-all : (f n : ℕ) → all is_digit (decimal_fuel f n) ≡ true
unfolding all
decimal_fuel-all zero n = refl
decimal_fuel-all (suc f) n = ground (
  arith,
  decimal_fuel-all f (n / 10),
  all-append is_digit (decimal_fuel f (n / 10)) ((48 + n % 10) ∷ []),
)

-- The digits of a number after those of another give the number that both write.
parse_digits-append :
    (acc : ℕ) (s : Text) (v d : ℕ)
    → parse_digits acc s ≡ some v
    → d < 10
    → 10 * v + d < 65536
    → parse_digits acc (s ++ (48 + d) ∷ []) ≡ some (10 * v + d)
unfolding parse_digits
parse_digits-append acc [] v d h l b = ground arith
parse_digits-append acc (c ∷ cs) v d h l b =
    ground (arith, parse_digits-append (10 * acc + (c - 48)) cs v d)

parse_digits-decimal_fuel :
    (f n : ℕ) → n < f → n < 65536 → parse_digits 0 (decimal_fuel f n) ≡ some n
unfolding parse_digits
parse_digits-decimal_fuel zero n h b = absurd (omega arith)
parse_digits-decimal_fuel (suc f) n h b =
    let small : n / 10 < 65536 = omega arith in
    let whole : 10 * (n / 10) + n % 10 ≡ n = omega arith in
    let long : 10 ≤ n → parse_digits 0 (decimal_fuel f (n / 10) ++ (48 + n % 10) ∷ []) ≡ some n =
      λ g.
        parse_digits-append 0 (decimal_fuel f (n / 10)) (n / 10) (n % 10)
          (parse_digits-decimal_fuel f (n / 10) (omega arith) small) (omega arith) (omega arith)
        ∙ ap some whole in
    ground (arith, long)

append-is_empty : (s : Text) (c : ℕ) → is_empty (s ++ c ∷ []) ≡ false
unfolding is_empty
append-is_empty [] c = refl
append-is_empty (d ∷ ds) c = refl

decimal-is_empty : (n : ℕ) → is_empty (decimal n) ≡ false
unfolding decimal is_empty
decimal-is_empty n = ground (arith, append-is_empty (decimal_fuel n (n / 10)) (48 + n % 10))

parse_u16-digits :
    (s : Text) → is_empty s ≡ false → all is_digit s ≡ true → parse_u16 s ≡ parse_digits 0 s
unfolding parse_u16 is_empty all
parse_u16-digits [] e h = absurd (ground arith)
parse_u16-digits (c ∷ []) e h = ground arith
parse_u16-digits (c ∷ d ∷ ds) e h = ground arith

pub all-decimal : (n : ℕ) → all is_digit (decimal n) ≡ true
unfolding decimal
all-decimal n = decimal_fuel-all (suc n) n

pub parse_digits-decimal : (n : ℕ) → n < 65536 → parse_digits 0 (decimal n) ≡ some n
unfolding decimal
parse_digits-decimal n h = parse_digits-decimal_fuel (suc n) n (omega arith) h

pub parse_u16-decimal : (n : ℕ) → n < 65536 → parse_u16 (decimal n) ≡ some n
unfolding decimal
parse_u16-decimal n h =
    parse_u16-digits (decimal n) (decimal-is_empty n) (all-decimal n) ∙ parse_digits-decimal n h

parse_digits_lt :
    (acc : ℕ) (s : Text) (v : ℕ) → acc < 65536 → parse_digits acc s ≡ some v → v < 65536
unfolding parse_digits
parse_digits_lt acc [] v b h = ground arith
parse_digits_lt acc (c ∷ cs) v b h = ground (arith, parse_digits_lt (10 * acc + (c - 48)) cs v)

pub parse_u16_lt : (s : Text) (v : ℕ) → parse_u16 s ≡ some v → v < 65536
unfolding parse_u16
parse_u16_lt [] v h = absurd (ground arith)
parse_u16_lt (c ∷ []) v h = ground (arith, parse_digits_lt 0 (c ∷ []) v (omega arith))
parse_u16_lt (c ∷ d ∷ ds) v h = ground (
  arith,
  parse_digits_lt 0 (d ∷ ds) v (omega arith),
  parse_digits_lt 0 (c ∷ d ∷ ds) v (omega arith),
)
