-- ===== src/Router/Selection/Best.antt =====
-- Which adapter is chosen, and that it is there to be opened.
use proxifyre_rs.HashMap.{get, insert, get-insert}
use proxifyre_rs.Prelude.{
  or_else, ℕ, ◌≡◌, refl, ap, subst, ◌∙◌, ite, ◌⊎◌, inl, inr, Bool, true, false, Option, none, some,
  List, [], ◌∷◌, ◌++◌, ok, Text, arith, bytes_eq, bytes_eq_refl, Option-cases, Bool-cases,
}
use proxifyre_rs.Router.Selection.{
  Adapter, Machine, mac_discrete, fill, has_index, find_adapter, best_adapter,
  select_best_adapter_name, find_adapter_handle,
}

-- The index of the last connection with the physical address.
unfoldable pub last_index : List ℕ → List (List ℕ × ℕ) → Option ℕ
last_index mac [] = none
last_index mac ((other, index) ∷ infos) = elim (last_index mac infos) [
  | some i ↦ some i
  | none ↦ ite (mac_discrete other mac) (some index) none
]

get-fill :
    (mac : List ℕ) (infos acc : List (List ℕ × ℕ))
    → get mac_discrete mac (fill infos acc)
      ≡ or_else (last_index mac infos) (get mac_discrete mac acc)
unfolding fill last_index
get-fill mac [] acc = refl
get-fill mac ((other, index) ∷ infos) acc = ground (
  arith,
  get-fill mac infos (insert mac_discrete other index acc),
  get-insert mac_discrete other mac index acc,
)

-- The adapter has the address of a connection on the best interface.
abbrev pub OnBest : Machine → Adapter → Type 0
OnBest m a =
    (index : ℕ) × (mac : List ℕ) × (m.best_interface ≡ some index)
    × (m.from_slice a.hw_address ≡ some mac)
    × (last_index mac m.connections ≡ some index)

abbrev pub NoneOnBest : Machine → List Adapter → Type 0
NoneOnBest m [] = Unit {0}
NoneOnBest m (a ∷ adapters) = (¬ OnBest m a) × NoneOnBest m adapters

-- The first adapter on the best interface, or the first of all where none is.
abbrev pub IsBest : Machine → List Adapter → Adapter → Type 0
IsBest m adapters a =
    (before : List Adapter) × (after : List Adapter) × (adapters ≡ before ++ a ∷ after)
    × ((OnBest m a × NoneOnBest m before) ⊎ ((before ≡ []) × NoneOnBest m adapters))

has_index-OnBest :
    (m : Machine) (index : ℕ) (a : Adapter)
    → m.best_interface ≡ some index
    → has_index m (fill m.connections []) index a ≡ true
    → OnBest m a
unfolding has_index get
has_index-OnBest m index a b h = elim (Option-cases (m.from_slice a.hw_address)) [
  | inl e ↦ absurd (ground arith)
  | inr (mac, e) ↦ elim (Option-cases (last_index mac m.connections)) [
    | inl k ↦ absurd (ground (arith, get-fill mac m.connections []))
    | inr (i, k) ↦ (index, mac, b, e, ground (arith, get-fill mac m.connections []))
  ]
]

OnBest-has_index :
    (m : Machine) (index : ℕ) (a : Adapter)
    → m.best_interface ≡ some index
    → has_index m (fill m.connections []) index a ≡ false
    → ¬ OnBest m a
unfolding has_index get
OnBest-has_index m index a b h (i, mac, c, e, k) =
    absurd (ground (arith, get-fill mac m.connections []))

find_adapter-first :
    (m : Machine) (index : ℕ) (adapters : List Adapter) (a : Adapter)
    → m.best_interface ≡ some index
    → find_adapter (has_index m (fill m.connections []) index) adapters ≡ some a
    → (before : List Adapter) × (after : List Adapter) × (adapters ≡ before ++ a ∷ after)
      × OnBest m a
      × NoneOnBest m before
unfolding find_adapter
find_adapter-first m index [] a b h = absurd (ground arith)
find_adapter-first m index (x ∷ xs) a b h =
    elim (Bool-cases (has_index m (fill m.connections []) index x)) [
      | inl e ↦
          let same : x ≡ a = ground arith in
          (
            [],
            xs,
            ap (λ y. y ∷ xs) same,
            subst (OnBest m) same (has_index-OnBest m index x b e),
            tt,
          )
      | inr e ↦
          let later : find_adapter (has_index m (fill m.connections []) index) xs ≡ some a =
            ground arith in
          let (before, after, cut, on, off) = find_adapter-first m index xs a b later in
          (x ∷ before, after, ap (◌∷◌ x) cut, on, (OnBest-has_index m index x b e, off))
    ]

find_adapter-none :
    (m : Machine) (index : ℕ) (adapters : List Adapter)
    → m.best_interface ≡ some index
    → find_adapter (has_index m (fill m.connections []) index) adapters ≡ none
    → NoneOnBest m adapters
unfolding find_adapter
find_adapter-none m index [] b h = tt
find_adapter-none m index (x ∷ xs) b h =
    elim (Bool-cases (has_index m (fill m.connections []) index x)) [
      | inl e ↦ absurd (ground arith)
      | inr e ↦ (OnBest-has_index m index x b e, find_adapter-none m index xs b (ground arith))
    ]

none_on_best :
    (m : Machine) (adapters : List Adapter) → m.best_interface ≡ none → NoneOnBest m adapters
none_on_best m [] b = tt
none_on_best m (x ∷ xs) b = (λ (index, mac, c, e, k). absurd (ground arith), none_on_best m xs b)

find_adapter-there :
    (p : Adapter → Bool) (before after : List Adapter) (a : Adapter)
    → p a ≡ true
    → (found : Adapter) × (find_adapter p (before ++ a ∷ after) ≡ some found)
unfolding find_adapter
find_adapter-there p [] after a h = (a, ground arith)
find_adapter-there p (x ∷ xs) after a h =
    let (found, e) = find_adapter-there p xs after a h in
    elim (Bool-cases (p x)) [ inl k ↦ (x, ground arith) | inr k ↦ (found, ground arith) ]

chosen-IsBest :
    (m : Machine) (x : Adapter) (xs : List Adapter) (name : Text)
    → m.adapters ≡ some (x ∷ xs)
    → select_best_adapter_name m ≡ ok name
    → (a : Adapter) × IsBest m (x ∷ xs) a × (name ≡ a.name)
unfolding select_best_adapter_name best_adapter
chosen-IsBest m x xs name l h = elim (Option-cases m.best_interface) [
  | inl e ↦ (x, ([], xs, refl, inr (refl, none_on_best m (x ∷ xs) e)), ground arith)
  | inr (index, e) ↦
      elim (Option-cases (find_adapter (has_index m (fill m.connections []) index) (x ∷ xs))) [
        | inl k ↦
            (x, ([], xs, refl, inr (refl, find_adapter-none m index (x ∷ xs) e k)), ground arith)
        | inr (a, k) ↦
            let (before, after, cut, on, off) = find_adapter-first m index (x ∷ xs) a e k in
            (a, (before, after, cut, inl (on, off)), ground arith)
      ]
]

find_adapter_handle_found :
    (m : Machine) (adapters : List Adapter) (a : Adapter)
    → m.adapters ≡ some adapters
    → IsBest m adapters a
    → (handle : ℕ) × (find_adapter_handle m a.name ≡ ok handle)
unfolding find_adapter_handle
find_adapter_handle_found m adapters a l (before, after, cut, best) =
    let (found, e) =
      find_adapter-there (λ b. bytes_eq b.name a.name) before after a (bytes_eq_refl a.name) in
    let there : find_adapter (λ b. bytes_eq b.name a.name) adapters ≡ some found =
      ap (find_adapter (λ b. bytes_eq b.name a.name)) cut ∙ e in
    (found.handle, ground arith)

-- An adapter is chosen whenever the driver lists one. The name chosen is that of the first adapter
-- with the physical address of a connection (the last with that address) on the best interface, or
-- of the first of all, if there is none; and as long as the driver lists the same adapters, there is
-- an adapter of that name to be opened.
pub select_best_adapter_name-IsBest :
    (m : Machine) (x : Adapter) (xs : List Adapter)
    → m.adapters ≡ some (x ∷ xs)
    → (name : Text) × (a : Adapter) × (handle : ℕ) × (select_best_adapter_name m ≡ ok name)
      × IsBest m (x ∷ xs) a
      × (name ≡ a.name)
      × (find_adapter_handle m name ≡ ok handle)
unfolding select_best_adapter_name
select_best_adapter_name-IsBest m x xs l =
    let (name, chosen) : (name : Text) × (select_best_adapter_name m ≡ ok name) =
      elim (Option-cases (best_adapter m (x ∷ xs))) [
        | inl e ↦ (x.name, ground arith)
        | inr (a, e) ↦ (a.name, ground arith)
      ] in
    let (a, best, same) = chosen-IsBest m x xs name l chosen in
    let (handle, opened) = find_adapter_handle_found m (x ∷ xs) a l best in
    (name, a, handle, chosen, best, same, ap (find_adapter_handle m) same ∙ opened)
