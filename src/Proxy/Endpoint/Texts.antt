-- ===== src/Proxy/Endpoint/Texts.antt =====
-- Cutting a text at a character, and the characters of an address.
use proxifyre_rs.Prelude.{
  ℕ, ◌≡◌, refl, Bool, true, not, ◌&&◌, none, some, [], ◌∷◌, ◌++◌, Text, arith, ◌==◌,
}
use proxifyre_rs.Proxy.Endpoint.{
  split_first, split_last, trim_start, trim_end, is_whitespace, strip_close, close_bracket,
}

unfoldable pub all : (ℕ → Bool) → Text → Bool
all p [] = true
all p (c ∷ cs) = p c && all p cs

-- The text does not have the character.
abbrev pub Without : ℕ → Text → Type 0
Without c s = all (λ x. not (x == c)) s ≡ true

pub all_mono :
    (p q : ℕ → Bool) (s : Text)
    → ((c : ℕ) → p c ≡ true → q c ≡ true)
    → all p s ≡ true
    → all q s ≡ true
unfolding all
all_mono p q [] h e = refl
all_mono p q (c ∷ cs) h e = ground (arith, h c, all_mono p q cs h)

pub all-append :
    (p : ℕ → Bool) (s t : Text) → all p s ≡ true → all p t ≡ true → all p (s ++ t) ≡ true
unfolding all
all-append p [] t h k = k
all-append p (c ∷ cs) t h k = ground (arith, all-append p cs t)

pub split_first-append :
    (c : ℕ) (s t : Text) → Without c s → split_first c (s ++ c ∷ t) ≡ some (s, t)
unfolding split_first all
split_first-append c [] t h = ground arith
split_first-append c (x ∷ xs) t h = ground (arith, split_first-append c xs t)

pub split_last-none : (c : ℕ) (s : Text) → Without c s → split_last c s ≡ none
unfolding split_last all
split_last-none c [] h = refl
split_last-none c (x ∷ xs) h = ground (arith, split_last-none c xs)

pub split_last-append : (c : ℕ) (s t : Text) → Without c t → split_last c (s ++ c ∷ t) ≡ some (s, t)
unfolding split_last
split_last-append c [] t h = ground (arith, split_last-none c t h)
split_last-append c (x ∷ xs) t h = ground (arith, split_last-append c xs t h)

pub trim_end-lem : (s : Text) → all (λ c. not (is_whitespace c)) s ≡ true → trim_end s ≡ s
unfolding trim_end all
trim_end-lem [] h = refl
trim_end-lem (c ∷ cs) h = ground (arith, trim_end-lem cs)

pub trim_start-lem : (s : Text) → all (λ c. not (is_whitespace c)) s ≡ true → trim_start s ≡ s
unfolding trim_start all
trim_start-lem [] h = refl
trim_start-lem (c ∷ cs) h = ground arith

pub strip_close-append : (s : Text) → strip_close (s ++ close_bracket ∷ []) ≡ some s
unfolding strip_close
strip_close-append [] = refl
strip_close-append (c ∷ []) = ground arith
strip_close-append (c ∷ d ∷ ds) = ground (arith, strip_close-append (d ∷ ds))
