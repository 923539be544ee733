-- ===== src/Logging/Last.antt =====
-- The list holds the last lines, and the file all of them.
use proxifyre_rs.Logging.{Record, max_log_lines, line, newline, push_line, write_line, log, log_all}
use proxifyre_rs.Prelude.{
  ℕ, zero, suc, ◌+◌, ◌-◌, ◌≤◌, ◌≡◌, refl, sym, ap, ◌∙◌, Option, none, some, List, [], ◌∷◌, ◌++◌,
  Text, length, map, drop, as_bytes, arith, ltb, length-append, length-drop, append_assoc,
  append-nil, Bool-cases, inl, inr, ltb→lt, ◌<◌,
}

drop-append :
    {A : Type 0} (n : ℕ) (xs ys : List A) → n ≤ length xs → drop n (xs ++ ys) ≡ drop n xs ++ ys
drop-append zero xs ys h = refl
drop-append (suc n) [] ys h = absurd (omega arith)
drop-append (suc n) (x ∷ xs) ys h = drop-append n xs ys (omega arith)

drop_one : {A : Type 0} (n : ℕ) (xs : List A) → drop 1 (drop n xs) ≡ drop (suc n) xs
drop_one zero [] = refl
drop_one zero (x ∷ xs) = refl
drop_one (suc n) [] = refl
drop_one (suc n) (x ∷ xs) = drop_one n xs

-- The last lines of a list.
unfoldable pub last_lines : List Text → List Text
last_lines ls = drop (length ls - max_log_lines) ls

push_line-last :
    (seen : List Text) (l : Text) → push_line (last_lines seen) l ≡ last_lines (seen ++ l ∷ [])
unfolding push_line last_lines
push_line-last seen l =
    let k = length seen in
    let cut : drop (k - 50) (seen ++ l ∷ []) ≡ drop (k - 50) seen ++ l ∷ [] =
      drop-append (k - 50) seen (l ∷ []) (omega arith) in
    let size : length (drop (k - 50) seen ++ l ∷ []) ≡ (k - (k - 50)) + 1 =
      omega (arith, length-append (drop (k - 50) seen) (l ∷ []), length-drop (k - 50) seen) in
    let total : length (seen ++ l ∷ []) ≡ k + 1 = length-append seen (l ∷ []) in
    let ys = drop (k - 50) seen ++ l ∷ [] in
    elim (Bool-cases (ltb 50 (length ys))) [
      | inl e ↦
          let index : suc (k - 50) ≡ length (seen ++ l ∷ []) - 50 =
            omega (arith, size, total, ltb→lt 50 (length ys) e) in
          rw (e, push_line)
            (ap (drop 1) (sym cut)
              ∙ drop_one (k - 50) (seen ++ l ∷ [])
              ∙ ap (λ n. drop n (seen ++ l ∷ [])) index)
      | inr e ↦
          let short : k < 50 = ground (arith, size) in
          let index : k - 50 ≡ length (seen ++ l ∷ []) - 50 = omega (arith, total) in
          rw (e, push_line) (sym cut ∙ ap (λ n. drop n (seen ++ l ∷ [])) index)
    ]

-- The bytes of lines in the file.
unfoldable pub file_of : List Text → List ℕ
file_of [] = []
file_of (l ∷ ls) = (as_bytes l ++ newline ∷ []) ++ file_of ls

pub length-map : (rs : List Record) → length (map line rs) ≡ length rs
length-map [] = refl
length-map (r ∷ rs) = ap suc (length-map rs)

log_all-lines :
    (rs : List Record) (seen : List Text) (file : Option (List ℕ))
    → (log_all (record { logs = last_lines seen; log_file = file }) rs).logs
      ≡ last_lines (seen ++ map line rs)
unfolding log_all log
log_all-lines [] seen file = ap last_lines (sym (append-nil seen))
log_all-lines (r ∷ rs) seen file =
    let next = log_all-lines rs (seen ++ line r ∷ []) (write_line file (line r)) in
    ap (λ ls. (log_all (record { logs = ls; log_file = write_line file (line r) }) rs).logs)
      (push_line-last seen (line r))
    ∙ next
    ∙ ap last_lines (append_assoc seen (line r ∷ []) (map line rs))

-- A file that is open, with these bytes after what it has.
unfoldable pub grown : Option (List ℕ) → List ℕ → Option (List ℕ)
grown none bs = none
grown (some file) bs = some (file ++ bs)

log_all-file :
    (rs : List Record) (logs : List Text) (file : Option (List ℕ))
    → (log_all (record { logs = logs; log_file = file }) rs).log_file
      ≡ grown file (file_of (map line rs))
unfolding log_all log write_line file_of grown
log_all-file [] logs none = refl
log_all-file [] logs (some file) = ap some (sym (append-nil file))
log_all-file (r ∷ rs) logs none = log_all-file rs (push_line logs (line r)) none
log_all-file (r ∷ rs) logs (some file) =
    log_all-file rs (push_line logs (line r)) (some (file ++ (as_bytes (line r) ++ newline ∷ [])))
    ∙ ap some (append_assoc file (as_bytes (line r) ++ newline ∷ []) (file_of (map line rs)))

-- After any number of records, from an empty list, the list holds the last 50 lines in their order,
-- all of them if there are no more, and the file, where it is open, has each line with a line break
-- after what it had.
pub log_all-last :
    (rs : List Record) (file : Option (List ℕ))
    → let logger = log_all (record { logs = []; log_file = file }) rs in
      (logger.logs ≡ drop (length rs - 50) (map line rs))
      × (length logger.logs ≤ 50)
      × (logger.log_file ≡ grown file (file_of (map line rs)))
unfolding last_lines
log_all-last rs file =
    let kept = log_all-lines rs [] file in
    let size = length-map rs in
    let lines : (log_all (record { logs = []; log_file = file }) rs).logs
        ≡ drop (length rs - 50) (map line rs) =
      kept ∙ ap (λ n. drop (n - 50) (map line rs)) size in
    let bound = length-drop (length rs - 50) (map line rs) in
    (lines, rw lines (omega (arith, bound, size)), log_all-file rs [] file)
