-- ===== src/Tests/Layout.antt =====
-- Lists that hold a few cells in front of a payload, and writes to them that keep the length.
use proxifyre_rs.Prelude.{
  ℕ, ◌+◌, ◌≡◌, refl, sym, ap, ◌∙◌, true, Option, none, some, List, length, arith, Option-cases, inl,
  inr, ◌==◌, if◌then◌else◌,
}
use proxifyre_rs.Router.Wire.{Setter, Filler, PayloadSetter}

-- Cells in front of a payload.
pub record Layout (C : Type 0) : Type 0 where
  pub view : List ℕ → Option (C × List ℕ)
  pub build : C → List ℕ → List ℕ
  pub size : ℕ
  pub view-build : (c : C) (p : List ℕ) → view (build c p) ≡ some (c, p)
  pub build-view : (b : List ℕ) (c : C) (p : List ℕ) → view b ≡ some (c, p) → b ≡ build c p
  pub length-build : (c : C) (p : List ℕ) → length (build c p) ≡ size + length p

-- A payload is written if it is as long as the one that is there.
abbrev pub as_long : List ℕ → List ℕ → List ℕ
as_long x p = if length x == length p then x else p

pub length-as_long : (x p : List ℕ) → length (as_long x p) ≡ length p
length-as_long x p = ground arith

pub as_long_lem : (x p : List ℕ) → length x ≡ length p → as_long x p ≡ x
as_long_lem x p h = ground arith

module _ {C H : Type 0} (y : Layout C) (to : C → List ℕ → H) where
  abbrev pub read : List ℕ → Option H
  read b = elim (y.view b) [ none ↦ none | some (c, p) ↦ some (to c p) ]

  module _ {X : Type 0} (f : X → C → C) (g : X → List ℕ → List ℕ) where
    abbrev pub write : X → List ℕ → List ℕ
    write x b = elim (y.view b) [ none ↦ b | some (c, p) ↦ y.build (f x c) (g x p) ]

    pub read-write :
        (put : X → H → H)
        → (x : X) (b : List ℕ) (h : H)
        → ((c : C) (p : List ℕ) → y.view b ≡ some (c, p) → to (f x c) (g x p) ≡ put x (to c p))
        → read b ≡ some h
        → read (write x b) ≡ some (put x h)
    read-write put x b h e r = elim (Option-cases (y.view b)) [
      | inl k ↦ absurd (ground arith)
      | inr ((c, p), k) ↦
          let back = y.view-build (f x c) (g x p) in
          let same : to c p ≡ h = ground arith in
          let made : write x b ≡ y.build (f x c) (g x p) = rw (k, write) refl in
          rw made (rw (back, read) (ap some (e c p k ∙ ap (put x) same)))
    ]

    pub view-write :
        (x : X) (b : List ℕ) (h : H)
        → read b ≡ some h
        → (c : C) × (p : List ℕ) × (y.view (write x b) ≡ some (f x c, g x p))
    view-write x b h r = elim (Option-cases (y.view b)) [
      | inl k ↦ absurd (ground arith)
      | inr ((c, p), k) ↦
          let made : write x b ≡ y.build (f x c) (g x p) = rw (k, write) refl in
          (c, p, ap y.view made ∙ y.view-build (f x c) (g x p))
    ]

    pub length-write :
        (x : X) (b : List ℕ)
        → ((c : C) (p : List ℕ) → y.view b ≡ some (c, p) → length (g x p) ≡ length p)
        → length (write x b) ≡ length b
    length-write x b e = elim (Option-cases (y.view b)) [
      | inl k ↦ ap length (rw (k, write) refl)
      | inr ((c, p), k) ↦
          let made : write x b ≡ y.build (f x c) (g x p) = rw (k, write) refl in
          ap length made
          ∙ y.length-build (f x c) (g x p)
          ∙ ap (λ n. y.size + n) (e c p k)
          ∙ sym (ap length (y.build-view b c p k) ∙ y.length-build c p)
    ]

  abbrev pub setter :
      {X : Type 0} (put : X → H → H) (f : X → C → C)
      → ((x : X) (c : C) (p : List ℕ) → to (f x c) p ≡ put x (to c p))
      → Setter read put
  setter put f e = record {
    write = write f (λ x p. p);
    fits = λ x. true;
    read-write = λ x b h u r. read-write f (λ x p. p) put x b h (λ c p k. e x c p) r;
    length-write = λ x b. length-write f (λ x p. p) x b (λ c p k. refl);
  }

  abbrev pub filler :
      {X : Type 0} (f : X → C → C)
      → ((x : X) (c : C) (p : List ℕ) → to (f x c) p ≡ to c p)
      → Filler X read
  filler f e = record {
    write = write f (λ x p. p);
    read-write = λ x b h r. read-write f (λ x p. p) (λ x h. h) x b h (λ c p k. e x c p) r;
    length-write = λ x b. length-write f (λ x p. p) x b (λ c p k. refl);
  }

module _ {C H : Type 0} (y : Layout C) (to : C → List ℕ → H) (get : H → List ℕ)
    (put : List ℕ → H → H) (e : (c : C) (p : List ℕ) → get (to c p) ≡ p)
    (f : (x : List ℕ) (c : C) (p : List ℕ) → to c x ≡ put x (to c p)) where
  pub fits :
      (x b : List ℕ) (h : H) (c : C) (p : List ℕ)
      → length x ≡ length (get h)
      → read y to b ≡ some h
      → y.view b ≡ some (c, p)
      → to c (as_long x p) ≡ put x (to c p)
  fits x b h c p l r k =
      let same : to c p ≡ h = ground arith in
      let size : length x ≡ length p =
        l ∙ ap (λ h. length (get h)) (sym same) ∙ ap length (e c p) in
      ap (to c) (as_long_lem x p size) ∙ f x c p

  abbrev pub payload_setter : PayloadSetter (read y to) get put
  payload_setter = record {
    write = write y to (λ x c. c) as_long;
    read-write =
        λ x b h l r. read-write y to (λ x c. c) as_long put x b h (λ c p k. fits x b h c p l r k) r;
    length-write = λ x b. length-write y to (λ x c. c) as_long x b (λ c p k. length-as_long x p);
  }
