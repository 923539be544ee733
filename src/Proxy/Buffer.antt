-- ===== src/Proxy/Buffer.antt =====
-- Reading a byte slice the way the source does: an index or a range outside of it panics.
use proxifyre_rs.Prelude.{
  ℕ, ◌+◌, ◌-◌, ◌≤◌, ◌<◌, ◌≡◌, refl, ap, ◌∙◌, ◌&&◌, none, some, List, ◌∷◌, ◌++◌, Result, ok, err,
  ◌>>=◌, length, take, drop, get_elem?, get_elem?-append, get_elem?_total, arith, leb,
  if◌then◌else◌, length-append, take-append_length, drop-append_length,
}

-- How a call ends that returns no value: with an error, or by a panic of the thread.
pub data Failure (E : Type 0) : Type 0 where
  io : E → Failure E
  panic : Failure E

module _ {E : Type 0} where
  unfoldable pub index : List ℕ → ℕ → Result (Failure E) ℕ
  index buf i = elim (get_elem? buf i) [ none ↦ err panic | some b ↦ ok b ]

  -- `&buf[start..end]`
  unfoldable pub slice : List ℕ → ℕ → ℕ → Result (Failure E) (List ℕ)
  slice buf start end =
      if leb start end && leb end (length buf)
      then ok (take (end - start) (drop start buf))
      else err panic

  -- `buf.copy_within(start..end, 0)`
  unfoldable pub copy_within : List ℕ → ℕ → ℕ → Result (Failure E) (List ℕ)
  copy_within buf start end = do moved ← slice buf start end; ok (moved ++ drop (end - start) buf)

  pub index_total : (buf : List ℕ) (i : ℕ) → i < length buf → (b : ℕ) × (index buf i ≡ ok b)
  unfolding index
  index_total buf i h = ((get_elem?_total buf i h).0, rw ((get_elem?_total buf i h).1, index) refl)

  pub index-append :
      (pre : List ℕ) (b : ℕ) (post : List ℕ) (i : ℕ)
      → i ≡ length pre
      → index (pre ++ b ∷ post) i ≡ ok b
  unfolding index
  index-append pre b post i h =
      let e : get_elem? (pre ++ b ∷ post) i ≡ some b =
        ap (get_elem? (pre ++ b ∷ post)) (h ∙ omega arith) ∙ get_elem?-append pre (b ∷ post) 0 in
      rw (e, index) refl

  pub slice-append :
      (pre mid post : List ℕ) (start end : ℕ)
      → start ≡ length pre
      → end ≡ length pre + length mid
      → slice (pre ++ (mid ++ post)) start end ≡ ok mid
  unfolding slice
  slice-append pre mid post start end hs he =
      let dropped : drop start (pre ++ (mid ++ post)) ≡ mid ++ post =
        ap (λ n. drop n (pre ++ (mid ++ post))) hs ∙ drop-append_length pre (mid ++ post) in
      let width : end - start ≡ length mid = omega arith in
      let taken : take (end - start) (drop start (pre ++ (mid ++ post))) ≡ mid =
        ap (take (end - start)) dropped
        ∙ ap (λ n. take n (mid ++ post)) width
        ∙ take-append_length mid post in
      ground (arith, taken, length-append pre (mid ++ post), length-append mid post)

  pub slice_total :
      (buf : List ℕ) (start end : ℕ)
      → start ≤ end
      → end ≤ length buf
      → slice buf start end ≡ ok (take (end - start) (drop start buf))
  unfolding slice
  slice_total buf start end h k = ground arith
