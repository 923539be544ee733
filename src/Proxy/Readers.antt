-- ===== src/Proxy/Readers.antt =====
-- The reader tasks of UDP associations in proxy/transparent_proxy.rs, by their join handles.
use proxifyre_rs.Prelude.{
  ℕ, ◌≤◌, ◌≡◌, ◌+◌, refl, ap, ◌∙◌, Option, unwrap_or, Bool-cases, inl, inr, Bool, true, false, List,
  [], ◌∷◌, ◌++◌, length, not, ◌&&◌, none, some, if◌then◌else◌, arith, length-append, get_elem?,
  zero, suc, count, pull_last, swap_remove, swap_remove-append, length-pull_last, count-pull_last,
  count-append, append_assoc, ℕ_discrete,
}
use proxifyre_rs.Net.{IpAddr, SocketAddr, ip_discrete}

pub record UdpAssociationKey : Type 0 where
  pub dst_ip : IpAddr
  pub client_port : ℕ

unfoldable pub key_discrete : Discrete UdpAssociationKey
key_discrete = hlevel (ℕ_discrete, ip_discrete)

-- A reader task: what it has captured (an association is named by a number), and whether it has
-- ended.
pub record Reader : Type 0 where
  pub local_key : UdpAssociationKey
  pub assoc : ℕ
  pub client_addr : SocketAddr
  pub is_finished : Bool

-- The loop of `reap_udp_reader_handles`, `none` where it would go on after so many rounds.
unfoldable pub reap_loop : ℕ → List Reader → ℕ → Option (List Reader)
reap_loop zero handles idx = elim (get_elem? handles idx) [ none ↦ some handles | some _ ↦ none ]
reap_loop (suc rounds) handles idx = elim (get_elem? handles idx) [
  | none ↦ some handles
  | some handle ↦
      if handle.is_finished
      then reap_loop rounds (swap_remove idx handles) idx
      else reap_loop rounds handles (idx + 1)
]

-- As many rounds as there are handles are enough (`reap_udp_reader_handles-ends`).
unfoldable pub reap_udp_reader_handles : List Reader → List Reader
unfolding reap_loop
reap_udp_reader_handles handles = unwrap_or handles (reap_loop (length handles) handles 0)

get_elem?_middle :
    (seen rest : List Reader) (x : Reader) → get_elem? (seen ++ x ∷ rest) (length seen) ≡ some x
get_elem?_middle [] rest x = refl
get_elem?_middle (y ∷ seen) rest x = get_elem?_middle seen rest x

-- One round, at a handle `x` after those that have been seen.
reap_round :
    (rounds : ℕ) (seen rest : List Reader) (x : Reader)
    → reap_loop (suc rounds) (seen ++ x ∷ rest) (length seen) ≡ (
        if x.is_finished
        then reap_loop rounds (seen ++ pull_last rest) (length seen)
        else reap_loop rounds (seen ++ x ∷ [] ++ rest) (length (seen ++ x ∷ [])))
unfolding reap_loop
reap_round rounds seen rest x =
    rw (get_elem?_middle seen rest x, reap_loop)
      (rw
        (
          swap_remove-append seen x rest,
          append_assoc seen (x ∷ []) rest,
          length-append seen (x ∷ []),
        )
        refl)

get_elem?_end : (seen : List Reader) → get_elem? (seen ++ []) (length seen) ≡ none
get_elem?_end [] = refl
get_elem?_end (x ∷ seen) = get_elem?_end seen

-- The loop ends with a list that has the handles seen, and the running ones of the rest.
abbrev Reaped : (Reader → Bool) → List Reader → List Reader → Option (List Reader) → Type 0
Reaped p seen rest o =
    (handles : List Reader) × (o ≡ some handles)
    × (count p handles ≡ count p seen + count (λ h. p h && not h.is_finished) rest)

reap_loop-Reaped :
    (p : Reader → Bool) (rounds : ℕ) (seen rest : List Reader)
    → length rest ≡ rounds
    → Reaped p seen rest (reap_loop rounds (seen ++ rest) (length seen))
unfolding reap_loop count
reap_loop-Reaped p zero seen [] h =
    rw (get_elem?_end seen, reap_loop) (seen ++ [], refl, omega (arith, count-append p seen []))
reap_loop-Reaped p zero seen (x ∷ rest) h = absurd (ground arith)
reap_loop-Reaped p (suc rounds) seen [] h = absurd (ground arith)
reap_loop-Reaped p (suc rounds) seen (x ∷ rest) h = elim (Bool-cases x.is_finished) [
  | inl e ↦
      let (hs, ended, counted) =
        reap_loop-Reaped p rounds seen (pull_last rest) (length-pull_last rest ∙ omega arith) in
      let one : reap_loop (suc rounds) (seen ++ x ∷ rest) (length seen) ≡ some hs =
        reap_round rounds seen rest x ∙ simp (e) ended in
      (hs, one, ground (arith, counted, count-pull_last (λ h. p h && not h.is_finished) rest))
  | inr e ↦
      let (hs, ended, counted) = reap_loop-Reaped p rounds (seen ++ x ∷ []) rest (omega arith) in
      let one : reap_loop (suc rounds) (seen ++ x ∷ rest) (length seen) ≡ some hs =
        reap_round rounds seen rest x ∙ simp (e) ended in
      (hs, one, ground (arith, counted, count-append p seen (x ∷ [])))
]

-- With as many rounds as there are handles, the loop of the reaping ends: it comes to a position past
-- the last handle. It keeps each handle of a running reader as often as it is there and no other:
-- whatever test counts the handles, after it the count is that of the running ones before it.
pub reap_udp_reader_handles-ends :
    (p : Reader → Bool) (handles : List Reader)
    → (reap_loop (length handles) handles 0 ≡ some (reap_udp_reader_handles handles))
      × (count p (reap_udp_reader_handles handles) ≡ count (λ h. p h && not h.is_finished) handles)
unfolding reap_udp_reader_handles count
reap_udp_reader_handles-ends p handles =
    let (hs, ended, counted) = reap_loop-Reaped p (length handles) [] handles refl in
    let same : reap_udp_reader_handles handles ≡ hs = ap (unwrap_or handles) ended in
    rw same (ended, counted ∙ omega arith)

pub count-reap_udp_reader_handles :
    (p : Reader → Bool) (handles : List Reader)
    → count p (reap_udp_reader_handles handles) ≡ count (λ h. p h && not h.is_finished) handles
count-reap_udp_reader_handles p handles = (reap_udp_reader_handles-ends p handles).1

-- The reader at a position ends.
unfoldable pub finish : ℕ → List Reader → List Reader
finish i [] = []
finish zero (h ∷ handles) = record h { is_finished = true } ∷ handles
finish (suc i) (h ∷ handles) = h ∷ finish i handles

-- A count that the ending reader does not enter does not fall.
pub count-finish :
    (p : Reader → Bool) (i : ℕ) (handles : List Reader) (h : Reader)
    → get_elem? handles i ≡ some h
    → p h ≡ false
    → count p handles ≤ count p (finish i handles)
unfolding finish count
count-finish p i [] h e uncounted = ground arith
count-finish p zero (x ∷ handles) h e uncounted = ground arith
count-finish p (suc i) (x ∷ handles) h e uncounted =
    ground (arith, count-finish p i handles h e uncounted)
