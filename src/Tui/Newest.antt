-- ===== src/Tui/Newest.antt =====
-- The log on the screen.
use mathlib.Core.List.{reverse, reverse-append}
use proxifyre_rs.Logging.Last.{file_of, grown, length-map, log_all-last}
use proxifyre_rs.Logging.Shown.{is_shown, shown, emit_all-shown, init-ready}
use proxifyre_rs.Logging.Start.{Platform, unset, open_log, init, emit_all}
use proxifyre_rs.Logging.{Level, Record, TuiLogger, line, log_all}
use proxifyre_rs.Prelude.{
  ℕ, zero, suc, ◌-◌, ◌≤◌, ◌≡◌, refl, sym, ap, ◌∙◌, some, List, [], ◌∷◌, ◌++◌, length, map, take,
  drop, true, ok, arith, length-append, length-drop, take-append-drop,
}
use proxifyre_rs.Tui.Bar.{log_items}

take-append : {A : Type 0} (n : ℕ) (xs ys : List A) → n ≤ length xs → take n (xs ++ ys) ≡ take n xs
take-append zero xs ys h = refl
take-append (suc n) [] ys h = absurd (omega arith)
take-append (suc n) (x ∷ xs) ys h = ap (◌∷◌ x) (take-append n xs ys (omega arith))

length-reverse : {A : Type 0} (xs : List A) → length (reverse xs) ≡ length xs
length-reverse [] = refl
length-reverse (x ∷ xs) =
    ap length (reverse-append (x ∷ []) xs)
    ∙ omega (arith, length-append (reverse xs) (x ∷ []), length-reverse xs)

-- What is dropped in front is not shown, where enough is left.
take-reverse-drop :
    {A : Type 0} (n k : ℕ) (xs : List A)
    → n ≤ length (drop k xs)
    → take n (reverse (drop k xs)) ≡ take n (reverse xs)
take-reverse-drop n k xs h =
    sym (
      take-append n (reverse (drop k xs)) (reverse (take k xs))
        (omega (arith, length-reverse (drop k xs))))
    ∙ ap (take n)
        (sym (reverse-append (take k xs) (drop k xs)) ∙ ap reverse (take-append-drop k xs))

shown_lines :
    {A : Type 0} (n k : ℕ) (xs : List A)
    → n ≤ 50
    → k ≡ length xs - 50
    → take n (reverse (drop k xs)) ≡ take n (reverse xs)
shown_lines n zero xs le e = refl
shown_lines n (suc k) xs le e =
    take-reverse-drop n (suc k) xs (omega (arith, length-drop (suc k) xs))

-- After `init`, where the program has no logger yet, and any number of calls of the macros, whose
-- test lets the levels error, warn and info pass the filter `init` sets, and no others: with room
-- for at most 50 lines the screen shows the last records of the levels error, warn and info that
-- fit there, the newest first; no more than 50 lines are kept; and the file has each of these
-- records, the older first and with a line break, after what it had, where it could be opened, and
-- there is none where it could not.
pub log_items-emit_all :
    (m : Platform) (rs : List Record) (height : ℕ)
    → m.set_logger ≡ true
    → ((l : Level) → m.passes Level.info l ≡ is_shown l)
    → height ≤ 50
    → let (g, r) = init m [] unset in
      (logger : TuiLogger) × (r ≡ ok tt)
      × ((emit_all m g rs).logger ≡ some logger)
      × (log_items height logger.logs ≡ take height (reverse (map line (shown rs))))
      × (length logger.logs ≤ 50)
      × (logger.log_file ≡ grown (open_log m) (file_of (map line (shown rs))))
unfolding log_items
log_items-emit_all m rs height h filter le =
    let first : TuiLogger = record { logs = []; log_file = open_log m } in
    let (kept, size, written) = log_all-last (shown rs) (open_log m) in
    let seen = shown rs in
    let count : length seen - 50 ≡ length (map line seen) - 50 =
      ap (λ n. n - 50) (sym (length-map seen)) in
    let made = init-ready m [] h in
    (
      log_all first seen,
      ap (λ x. x.1) made,
      ap (λ x. (emit_all m x.0 rs).logger) made
          ∙ ap (λ g. g.logger) (emit_all-shown m rs first filter),
      ap (λ ls. take height (reverse ls)) kept
          ∙ shown_lines height (length seen - 50) (map line seen) le count,
      size,
      written,
    )
