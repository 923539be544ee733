-- ===== src/HashMap.antt =====
-- std::collections::HashMap as an association list in its iteration order, which the program
-- must not rely on. `insert` keeps the place of a key that is there.
pub mod Values
use mathlib.Core.Option
use proxifyre_rs.Prelude.{
  ◌+◌, ◌≤◌, ◌≡◌, refl, ite, Bool, true, false, Option, none, some, List, [], ◌∷◌, length, arith,
  if◌then◌else◌,
}

module _ {ℓ} {K V : Type ℓ} (dec : Discrete K) where
  unfoldable pub get : K → List (K × V) → Option V
  get k [] = none
  get k ((j, v) ∷ m) = ite (dec j k) (some v) (get k m)

  unfoldable pub insert : K → V → List (K × V) → List (K × V)
  insert k v [] = (k, v) ∷ []
  insert k v ((j, w) ∷ m) = ite (dec j k) ((k, v) ∷ m) ((j, w) ∷ insert k v m)

  unfoldable pub remove : K → List (K × V) → List (K × V)
  remove k [] = []
  remove k ((j, w) ∷ m) = ite (dec j k) m ((j, w) ∷ remove k m)

  -- `get_mut` and a write through the reference.
  unfoldable pub modify : K → (V → V) → List (K × V) → List (K × V)
  modify k f [] = []
  modify k f ((j, w) ∷ m) = ite (dec j k) ((j, f w) ∷ m) ((j, w) ∷ modify k f m)

  -- `retain(|_, v| keep(v))`.
  unfoldable pub retain : (V → Bool) → List (K × V) → List (K × V)
  retain keep [] = []
  retain keep ((j, w) ∷ m) = if keep w then (j, w) ∷ retain keep m else retain keep m

  unfoldable pub contains_key : K → List (K × V) → Bool
  contains_key k m = elim (get k m) [ none ↦ false | some v ↦ true ]

  -- `entry(k).or_insert(v)`.
  unfoldable pub or_insert : K → V → List (K × V) → List (K × V)
  unfolding get insert
  or_insert k v m = elim (get k m) [ none ↦ insert k v m | some w ↦ m ]

  -- One entry for each key, as in every real map.
  abbrev pub IsMap : List (K × V) → Type ℓ
  IsMap [] = Unit
  IsMap ((k, v) ∷ m) = (get k m ≡ none) × IsMap m

  pub get-insert :
      (k j : K) (v : V) (m : List (K × V)) → get j (insert k v m) ≡ ite (dec k j) (some v) (get j m)
  unfolding get insert
  get-insert k j v [] = refl
  get-insert k j v ((i, w) ∷ m) = ground (arith, get-insert k j v m)

  pub insert-IsMap : (k : K) (v : V) (m : List (K × V)) → IsMap m → IsMap (insert k v m)
  unfolding get insert
  insert-IsMap k v [] h = (refl, tt)
  insert-IsMap k v ((i, w) ∷ m) h = ground (arith, insert-IsMap k v m h.1, get-insert k i v m)

  pub get-remove :
      (k j : K) (m : List (K × V)) → IsMap m → get j (remove k m) ≡ ite (dec k j) none (get j m)
  unfolding get remove
  get-remove k j [] h = ground arith
  get-remove k j ((i, w) ∷ m) h = ground (arith, get-remove k j m h.1)

  pub remove-IsMap : (k : K) (m : List (K × V)) → IsMap m → IsMap (remove k m)
  unfolding get remove
  remove-IsMap k [] h = tt
  remove-IsMap k ((i, w) ∷ m) h = ground (arith, remove-IsMap k m h.1, get-remove k i m h.1)

  pub get-modify :
      (k j : K) (f : V → V) (m : List (K × V))
      → get j (modify k f m) ≡ ite (dec k j) (Option.map f (get j m)) (get j m)
  unfolding get modify
  get-modify k j f [] = ground arith
  get-modify k j f ((i, w) ∷ m) = ground (arith, get-modify k j f m)

  pub get-modify-none :
      (k j : K) (f : V → V) (m : List (K × V)) → get j m ≡ none → get j (modify k f m) ≡ none
  unfolding get modify
  get-modify-none k j f [] h = refl
  get-modify-none k j f ((i, w) ∷ m) h = ground (arith, get-modify-none k j f m)

  pub modify-IsMap : (k : K) (f : V → V) (m : List (K × V)) → IsMap m → IsMap (modify k f m)
  unfolding get modify
  modify-IsMap k f [] h = tt
  modify-IsMap k f ((i, w) ∷ m) h =
      ground (arith, modify-IsMap k f m h.1, get-modify-none k i f m h.0)

  pub get-retain-none :
      (k : K) (keep : V → Bool) (m : List (K × V)) → get k m ≡ none → get k (retain keep m) ≡ none
  unfolding get retain
  get-retain-none k keep [] h = refl
  get-retain-none k keep ((i, w) ∷ m) h = ground (arith, get-retain-none k keep m)

  pub get-retain :
      (k : K) (keep : V → Bool) (m : List (K × V)) (v : V)
      → IsMap m
      → get k m ≡ some v
      → get k (retain keep m) ≡ (if keep v then some v else none)
  unfolding get retain
  get-retain k keep [] v h e = ground arith
  get-retain k keep ((i, w) ∷ m) v h e =
      ground (arith, get-retain k keep m v h.1, get-retain-none k keep m)

  pub retain-IsMap : (keep : V → Bool) (m : List (K × V)) → IsMap m → IsMap (retain keep m)
  unfolding get retain
  retain-IsMap keep [] h = tt
  retain-IsMap keep ((i, w) ∷ m) h =
      ground (arith, retain-IsMap keep m h.1, get-retain-none i keep m h.0)

  pub length-insert : (k : K) (v : V) (m : List (K × V)) → length (insert k v m) ≤ length m + 1
  unfolding insert
  length-insert k v [] = omega arith
  length-insert k v ((i, w) ∷ m) = ground (arith, length-insert k v m)

  pub length-retain-le : (keep : V → Bool) (m : List (K × V)) → length (retain keep m) ≤ length m
  unfolding retain
  length-retain-le keep [] = omega arith
  length-retain-le keep ((i, w) ∷ m) = ground (arith, length-retain-le keep m)

  pub length-remove-le : (k : K) (m : List (K × V)) → length (remove k m) ≤ length m
  unfolding remove
  length-remove-le k [] = omega arith
  length-remove-le k ((i, w) ∷ m) = ground (arith, length-remove-le k m)

  pub length-modify : (k : K) (f : V → V) (m : List (K × V)) → length (modify k f m) ≡ length m
  unfolding modify
  length-modify k f [] = refl
  length-modify k f ((i, w) ∷ m) = ground (arith, length-modify k f m)

  pub get-or_insert :
      (k j : K) (v : V) (m : List (K × V))
      → get j (or_insert k v m) ≡ ite (dec k j) (some (Option.get_or (get j m) v)) (get j m)
  unfolding or_insert
  get-or_insert k j v m = ground (arith, get-insert k j v m)

  pub or_insert-IsMap : (k : K) (v : V) (m : List (K × V)) → IsMap m → IsMap (or_insert k v m)
  unfolding or_insert
  or_insert-IsMap k v m h = ground (arith, insert-IsMap k v m h)
