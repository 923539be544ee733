-- ===== src/Tui/Sampler.antt =====
-- The samples that the traffic sampler keeps.
use proxifyre_rs.Prelude.{
  ℕ, ◌-◌, ◌≤◌, ◌≡◌, refl, sym, ap, subst, ◌∙◌, List, [], ◌∷◌, ◌++◌, arith, if◌then◌else◌, leb,
  append-nil, append_assoc, Bool-cases, inl, inr,
}
use proxifyre_rs.Tui.Span.{RatesOf, rates-RatesOf}
use proxifyre_rs.Tui.{TrafficSample, pop_old, rates, sample, sample_all}

-- The samples within the window that ends at a time.
unfoldable pub recent : ℕ → ℕ → List TrafficSample → List TrafficSample
recent window now [] = []
recent window now (x ∷ xs) =
    if leb (now - x.timestamp) window then x ∷ recent window now xs else recent window now xs

-- The samples are in the order of time, from this time on.
abbrev pub From : ℕ → List TrafficSample → Type 0
From t [] = Unit {0}
From t (x ∷ xs) = (t ≤ x.timestamp) × From x.timestamp xs

-- The time of the last sample, or this one.
unfoldable pub last_time : ℕ → List TrafficSample → ℕ
last_time t [] = t
last_time t (x ∷ xs) = last_time x.timestamp xs

From-weaken : (s t : ℕ) (xs : List TrafficSample) → s ≤ t → From t xs → From s xs
From-weaken s t [] l h = tt
From-weaken s t (x ∷ xs) l h = (omega (arith, h.0), h.1)

recent-all :
    (window now t : ℕ) (xs : List TrafficSample)
    → now - t ≤ window
    → From t xs
    → recent window now xs ≡ xs
unfolding recent
recent-all window now t [] l h = refl
recent-all window now t (x ∷ xs) l h =
    ground (arith, h.0, recent-all window now x.timestamp xs (omega (arith, h.0)) h.1)

pop_old-recent :
    (window now t : ℕ) (xs : List TrafficSample)
    → From t xs
    → pop_old window now xs ≡ recent window now xs
unfolding pop_old recent
pop_old-recent window now t [] h = refl
pop_old-recent window now t (x ∷ xs) h =
    let all : now - x.timestamp ≤ window → recent window now xs ≡ xs =
      λ l. recent-all window now x.timestamp xs l h.1 in
    ground (arith, all, pop_old-recent window now x.timestamp xs h.1)

recent-append :
    (window now : ℕ) (xs ys : List TrafficSample)
    → recent window now (xs ++ ys) ≡ recent window now xs ++ recent window now ys
unfolding recent
recent-append window now [] ys = refl
recent-append window now (x ∷ xs) ys = ground (arith, recent-append window now xs ys)

recent-recent :
    (window last now : ℕ) (xs : List TrafficSample)
    → last ≤ now
    → recent window now (recent window last xs) ≡ recent window now xs
unfolding recent
recent-recent window last now [] l = refl
recent-recent window last now (x ∷ xs) l = ground (arith, recent-recent window last now xs l)

From-recent :
    (window now t : ℕ) (xs ys : List TrafficSample)
    → From t (xs ++ ys)
    → From t (recent window now xs ++ ys)
unfolding recent
From-recent window now t [] ys h = h
From-recent window now t (x ∷ xs) ys h =
    let rest = From-recent window now x.timestamp xs ys h.1 in
    elim (Bool-cases (leb (now - x.timestamp) window)) [
      | inl e ↦ rw (e, recent) (h.0, rest)
      | inr e ↦ rw (e, recent) (From-weaken t x.timestamp _ h.0 rest)
    ]

-- One sample more.
sample-recent :
    (window t last : ℕ) (seen : List TrafficSample) (x : TrafficSample)
    → From t (seen ++ x ∷ [])
    → last ≤ x.timestamp
    → (sample window (recent window last seen) x).0 ≡ recent window x.timestamp (seen ++ x ∷ [])
unfolding sample
sample-recent window t last seen x h l =
    pop_old-recent window x.timestamp t (recent window last seen ++ x ∷ [])
      (From-recent window last t seen (x ∷ []) h)
    ∙ recent-append window x.timestamp (recent window last seen) (x ∷ [])
    ∙ ap (λ ys. ys ++ recent window x.timestamp (x ∷ []))
        (recent-recent window last x.timestamp seen l)
    ∙ sym (recent-append window x.timestamp seen (x ∷ []))

From-init :
    (t : ℕ) (xs : List TrafficSample) (x : TrafficSample) (ys : List TrafficSample)
    → From t (xs ++ x ∷ ys)
    → From t (xs ++ x ∷ [])
From-init t [] x ys h = (h.0, tt)
From-init t (y ∷ xs) x ys h = (h.0, From-init y.timestamp xs x ys h.1)

-- As many samples as one likes.
sample_all-recent :
    (window t last : ℕ) (seen xs : List TrafficSample)
    → From t (seen ++ xs)
    → From last xs
    → sample_all window (recent window last seen) xs
      ≡ recent window (last_time last xs) (seen ++ xs)
unfolding sample_all last_time
sample_all-recent window t last seen [] h k = ap (recent window last) (sym (append-nil seen))
sample_all-recent window t last seen (x ∷ xs) h k =
    let split : seen ++ x ∷ xs ≡ (seen ++ x ∷ []) ++ xs = sym (append_assoc seen (x ∷ []) xs) in
    let one = sample-recent window t last seen x (From-init t seen x xs h) k.0 in
    ap (λ ys. sample_all window ys xs) one
    ∙ sample_all-recent window t x.timestamp (seen ++ x ∷ []) xs (subst (From t) split h) k.1
    ∙ ap (recent window (last_time x.timestamp xs)) (sym split)

recent-head :
    (window now : ℕ) (xs ys : List TrafficSample) (y : TrafficSample)
    → recent window now xs ≡ y ∷ ys
    → now - y.timestamp ≤ window
unfolding recent
recent-head window now [] ys y h = absurd (ground arith)
recent-head window now (x ∷ xs) ys y h = ground (arith, recent-head window now xs ys y)

From-parts :
    (t : ℕ) (xs : List TrafficSample) (x : TrafficSample)
    → From t (xs ++ x ∷ [])
    → From t xs × (last_time t xs ≤ x.timestamp)
unfolding last_time
From-parts t [] x h = (tt, h.0)
From-parts t (y ∷ ys) x h =
    let (ordered, l) = From-parts y.timestamp ys x h.1 in ((h.0, ordered), l)

-- When samples are taken in the order of time, the sampler keeps just those of all samples taken that
-- are within the window before the last one, which is kept; and the rates that are returned with it
-- are those between the oldest sample kept and the last one, over a span that is not 0 and not above
-- the window; they are zero just where no time lies between the two.
pub sample-kept :
    (window : ℕ) (xs : List TrafficSample) (x : TrafficSample)
    → From 0 (xs ++ x ∷ [])
    → let (kept, r) = sample window (sample_all window [] xs) x in
      (kept ≡ recent window x.timestamp (xs ++ x ∷ []))
      × (kept ≡ recent window x.timestamp xs ++ x ∷ [])
      × RatesOf window kept x r
unfolding sample recent
sample-kept window xs x h =
    let (ordered, l) = From-parts 0 xs x h in
    let now = x.timestamp in
    let early = recent window now xs in
    let so_far : sample_all window [] xs ≡ recent window (last_time 0 xs) xs =
      sample_all-recent window 0 0 [] xs ordered ordered in
    let all : pop_old window now (sample_all window [] xs ++ x ∷ [])
        ≡ recent window now (xs ++ x ∷ []) =
      ap (λ s. pop_old window now (s ++ x ∷ [])) so_far
      ∙ sample-recent window 0 (last_time 0 xs) xs x h l in
    let newest : recent window now (x ∷ []) ≡ x ∷ [] = ground arith in
    let cut : recent window now (xs ++ x ∷ []) ≡ early ++ x ∷ [] =
      recent-append window now xs (x ∷ []) ∙ ap (◌++◌ early) newest in
    (
      all,
      all ∙ cut,
      subst (λ k. RatesOf window k x (rates k)) (sym (all ∙ cut))
          (rates-RatesOf window early x
            (λ y ys e. recent-head window now (xs ++ x ∷ []) ys y (cut ∙ e))),
    )
