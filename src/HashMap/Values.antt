-- ===== src/HashMap/Values.antt =====
-- A predicate on every value of a map.
use proxifyre_rs.HashMap.{get, insert, or_insert, remove, modify, retain}
use proxifyre_rs.Prelude.{
  ◌≡◌, subst, Bool, some, List, [], ◌∷◌, arith, Bool-cases, inl, inr, Option-cases, if_pos, if_neg,
}

module _ {K V : Type 0} (P : V → Type 0) where
  abbrev pub AllValues : List (K × V) → Type 0
  AllValues [] = Unit
  AllValues ((k, v) ∷ m) = P v × AllValues m

module _ {K V : Type 0} (P : V → Type 0) (dec : Discrete K) where
  pub get-AllValues :
      (k : K) (m : List (K × V)) (v : V) → AllValues P m → get dec k m ≡ some v → P v
  unfolding get
  get-AllValues k [] v h e = absurd (ground arith)
  get-AllValues k ((j, w) ∷ m) v h e = elim (dec j k) [
    | yes q ↦ let same : w ≡ v = ground arith in subst P same h.0
    | no q ↦ get-AllValues k m v h.1 (ground arith)
  ]

  pub insert-AllValues :
      (k : K) (v : V) (m : List (K × V)) → P v → AllValues P m → AllValues P (insert dec k v m)
  unfolding insert
  insert-AllValues k v [] p h = (p, tt)
  insert-AllValues k v ((j, w) ∷ m) p h = elim (dec j k) [
    | yes q ↦ rw (if_pos _ q) (p, h.1)
    | no q ↦ rw (if_neg _ q) (h.0, insert-AllValues k v m p h.1)
  ]

  pub or_insert-AllValues :
      (k : K) (v : V) (m : List (K × V)) → P v → AllValues P m → AllValues P (or_insert dec k v m)
  unfolding or_insert
  or_insert-AllValues k v m p h = elim (Option-cases (get dec k m)) [
    | inl e ↦ rw (e, or_insert) (insert-AllValues k v m p h)
    | inr (w, e) ↦ rw (e, or_insert) h
  ]

  pub remove-AllValues : (k : K) (m : List (K × V)) → AllValues P m → AllValues P (remove dec k m)
  unfolding remove
  remove-AllValues k [] h = tt
  remove-AllValues k ((j, w) ∷ m) h = elim (dec j k) [
    | yes q ↦ rw (if_pos _ q) h.1
    | no q ↦ rw (if_neg _ q) (h.0, remove-AllValues k m h.1)
  ]

  pub modify-AllValues :
      (k : K) (f : V → V) (m : List (K × V))
      → ((v : V) → P v → P (f v))
      → AllValues P m
      → AllValues P (modify dec k f m)
  unfolding modify
  modify-AllValues k f [] keep h = tt
  modify-AllValues k f ((j, w) ∷ m) keep h = elim (dec j k) [
    | yes q ↦ rw (if_pos _ q) (keep w h.0, h.1)
    | no q ↦ rw (if_neg _ q) (h.0, modify-AllValues k f m keep h.1)
  ]

  pub retain-AllValues :
      (keep : V → Bool) (m : List (K × V)) → AllValues P m → AllValues P (retain dec keep m)
  unfolding retain
  retain-AllValues keep [] h = tt
  retain-AllValues keep ((j, w) ∷ m) h = elim (Bool-cases (keep w)) [
    | inl e ↦ rw e (h.0, retain-AllValues keep m h.1)
    | inr e ↦ rw e (retain-AllValues keep m h.1)
  ]
