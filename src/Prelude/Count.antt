-- ===== src/Prelude/Count.antt =====
-- Counting in lists, and `Vec::swap_remove`.
use mathlib.Core.Bool.{Bool, true}
use mathlib.Core.List.{List, [], ◌∷◌, ◌++◌}
use mathlib.Core.Path.{◌≡◌, refl, ap}
use native.Mathlib.Omega.{arith}
use Prim.Native.Nat.{ℕ, zero, suc, ◌+◌, ◌≤◌}
use proxifyre_rs.Prelude.Lists.{length}
use proxifyre_rs.Prelude.Tests.{if◌then◌else◌}

module _ {ℓ} {A : Type ℓ} where
  unfoldable pub count : (A → Bool) → List A → ℕ
  count p [] = 0
  count p (x ∷ xs) = if p x then suc (count p xs) else count p xs

  -- The last element in front, then the others.
  unfoldable pub pull_last : List A → List A
  pull_last [] = []
  pull_last (x ∷ xs) = elim (pull_last xs) [ [] ↦ x ∷ [] | l ∷ front ↦ l ∷ x ∷ front ]

  -- The element at the position goes, and the last one takes its place.
  unfoldable pub swap_remove : ℕ → List A → List A
  swap_remove i [] = []
  swap_remove zero (x ∷ xs) = pull_last xs
  swap_remove (suc i) (x ∷ xs) = x ∷ swap_remove i xs

  pub length-pull_last : (xs : List A) → length (pull_last xs) ≡ length xs
  unfolding pull_last
  length-pull_last [] = refl
  length-pull_last (x ∷ xs) = ground (arith, length-pull_last xs)

  pub count-pull_last : (p : A → Bool) (xs : List A) → count p (pull_last xs) ≡ count p xs
  unfolding pull_last count
  count-pull_last p [] = refl
  count-pull_last p (x ∷ xs) = ground (arith, count-pull_last p xs)

  pub swap_remove-append :
      (xs : List A) (y : A) (ys : List A)
      → swap_remove (length xs) (xs ++ y ∷ ys) ≡ xs ++ pull_last ys
  unfolding swap_remove
  swap_remove-append [] y ys = refl
  swap_remove-append (x ∷ xs) y ys = ap (◌∷◌ x) (swap_remove-append xs y ys)

  pub count-append : (p : A → Bool) (xs ys : List A) → count p (xs ++ ys) ≡ count p xs + count p ys
  unfolding count
  count-append p [] ys = omega arith
  count-append p (x ∷ xs) ys = ground (arith, count-append p xs ys)

  pub count_mono :
      (p q : A → Bool) (xs : List A) → ((x : A) → p x ≡ true → q x ≡ true) → count p xs ≤ count q xs
  unfolding count
  count_mono p q [] h = omega arith
  count_mono p q (x ∷ xs) h = ground (arith, count_mono p q xs h, h x)
