-- ===== src/Stats/Usage.antt =====
-- The time of the process that samples account for.
use proxifyre_rs.Prelude.{
  ℕ, ◌+◌, ◌≤◌, ◌<◌, ◌≡◌, refl, Option, none, some, List, [], ◌∷◌, arith, Option-cases, inl, inr,
}
use proxifyre_rs.Stats.{CpuSampler, Ratio, Reading, get_process_time_100ns, measure, sample}

-- The sampler after these readings, and the time of the process in all ratios returned.
unfoldable pub sample_all : CpuSampler → List Reading → CpuSampler
sample_all c [] = c
sample_all c (x ∷ xs) = sample_all (sample c x).0 xs

unfoldable pub process_of : Option Ratio → ℕ
process_of none = 0
process_of (some r) = r.delta_process

unfoldable pub accounted : CpuSampler → List Reading → ℕ
accounted c [] = 0
accounted c (x ∷ xs) = process_of (sample c x).1 + accounted (sample c x).0 xs

-- The times of the process never fall, from this one on.
abbrev pub Rising : ℕ → List Reading → Type 0
Rising t [] = Unit {0}
Rising t (x ∷ xs) = elim (get_process_time_100ns x.times) [
  | none ↦ Rising t xs
  | some u ↦ (t ≤ u) × Rising u xs
]

Rising-weaken : (s t : ℕ) (xs : List Reading) → s ≤ t → Rising t xs → Rising s xs
Rising-weaken s t [] l h = tt
Rising-weaken s t (x ∷ xs) l h = elim (Option-cases (get_process_time_100ns x.times)) [
  | inl e ↦ rw (e, Rising) (Rising-weaken s t xs l (rw (e, Rising) at h))
  | inr (u, e) ↦
      let k : (t ≤ u) × Rising u xs = rw (e, Rising) at h in
      rw (e, Rising) (omega (arith, k.0), k.1)
]

sample_failed :
    (c : CpuSampler) (x : Reading) → get_process_time_100ns x.times ≡ none → sample c x ≡ (c, none)
unfolding sample
sample_failed c x e = rw (e, sample) refl

sample-accounted :
    (c : CpuSampler) (x : Reading) (u : ℕ)
    → get_process_time_100ns x.times ≡ some u
    → 0 < c.last_process_100ns
    → c.last_process_100ns ≤ u
    → let (c', ratio) = sample c x in
      (process_of ratio + c.last_process_100ns ≡ c'.last_process_100ns)
      × (c'.last_process_100ns ≤ u)
unfolding sample measure process_of
sample-accounted c x u e l h = ground arith

-- Once the sampler has a time of the process that is not 0, and as long as these times do not fall,
-- the ratios of any number of samples account for the time between the first and the last that the
-- sampler keeps, none of it twice and none of it left out, whichever samples fail or are too close.
pub accounted-sample_all :
    (c : CpuSampler) (xs : List Reading)
    → 0 < c.last_process_100ns
    → Rising c.last_process_100ns xs
    → accounted c xs + c.last_process_100ns ≡ (sample_all c xs).last_process_100ns
unfolding accounted sample_all process_of
accounted-sample_all c [] l h = omega arith
accounted-sample_all c (x ∷ xs) l h = elim (Option-cases (get_process_time_100ns x.times)) [
  | inl e ↦
      let same = sample_failed c x e in
      let rest = accounted-sample_all c xs l (rw (e, Rising) at h) in
      rw (same, accounted, sample_all) (omega (arith, rest))
  | inr (u, e) ↦
      let k : (c.last_process_100ns ≤ u) × Rising u xs = rw (e, Rising) at h in
      let c' = (sample c x).0 in
      let (sum, below) = sample-accounted c x u e l k.0 in
      let rest : accounted c' xs + c'.last_process_100ns ≡ (sample_all c' xs).last_process_100ns =
        accounted-sample_all c' xs (omega (arith, sum))
          (Rising-weaken c'.last_process_100ns u xs below k.1) in
      omega (arith, rest, sum)
]
