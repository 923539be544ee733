-- ===== src/Proxy/Stream.antt =====
-- Dialogues over a `TcpStream`: an action is `write_all`s and `read_exact`s in an order that may
-- depend on what was read, and ends with a value or with an error that the program makes up.
-- `talk` is what an action does where the peer's bytes are known.
pub mod Conn
use proxifyre_rs.Prelude.{
  ℕ, ◌≡◌, refl, Bool-cases, inl, inr, ap, ◌∙◌, List, [], ◌∷◌, ◌++◌, length, take, drop, leb, true,
  false, length-append, take-append_length, drop-append_length, arith, if◌then◌else◌,
}

pub data Action (X A : Type 0) : Type 0 where
  pure : A → Action X A
  fail : X → Action X A
  write : List ℕ → Action X A → Action X A
  read : ℕ → (List ℕ → Action X A) → Action X A

infixl 5 ◌>>=◌ ◌>>◌
abbrev pub ◌>>=◌ : {X A B : Type 0} → Action X A → (A → Action X B) → Action X B
pure a >>= f = f a
fail x >>= f = fail x
write bytes m >>= f = write bytes (m >>= f)
read n k >>= f = read n (λ bytes. k bytes >>= f)

abbrev pub ◌>>◌ : {X B : Type 0} → Action X (Unit {0}) → Action X B → Action X B
m >> k = m >>= λ _. k

abbrev pub write_all : {X : Type 0} → List ℕ → Action X (Unit {0})
write_all bytes = write bytes (pure tt)

abbrev pub read_exact : {X : Type 0} → ℕ → Action X (List ℕ)
read_exact n = read n pure

-- How a dialogue ends: with a value and what is left to read, with an error of the program, or
-- because the peer closed the stream too early.
pub data Ending (X A : Type 0) : Type 0 where
  finished : A → List ℕ → Ending X A
  failed : X → Ending X A
  unexpected_eof : Ending X A

-- What has been sent at the end, and the ending, from what the peer sends and what was sent before.
unfoldable pub talk : {X A : Type 0} → Action X A → List ℕ → List ℕ → List ℕ × Ending X A
talk (pure a) input sent = (sent, finished a input)
talk (fail x) input sent = (sent, failed x)
talk (write bytes m) input sent = talk m input (sent ++ bytes)
talk (read n k) input sent = elim (leb n (length input)) [
  | true ↦ talk (k (take n input)) (drop n input) sent
  | false ↦ (sent, unexpected_eof)
]

-- Reading bytes that are there.
pub talk-read :
    {X A : Type 0} (n : ℕ) (k : List ℕ → Action X A) (bytes rest sent : List ℕ)
    → n ≡ length bytes
    → talk (read n k) (bytes ++ rest) sent ≡ talk (k bytes) rest sent
unfolding talk
talk-read n k bytes rest sent len =
    let enough : leb n (length (bytes ++ rest)) ≡ true = ground (arith, length-append bytes rest) in
    let taken : take n (bytes ++ rest) ≡ bytes =
      ap (λ j. take j (bytes ++ rest)) len ∙ take-append_length bytes rest in
    let left : drop n (bytes ++ rest) ≡ rest =
      ap (λ j. drop j (bytes ++ rest)) len ∙ drop-append_length bytes rest in
    rw (enough, talk, taken, left) refl

-- A dialogue of two parts, where the first one succeeds.
pub talk->>= :
    {X A B : Type 0} (m : Action X A) (f : A → Action X B) (input sent : List ℕ) {a : A}
    {rest out : List ℕ}
    → talk m input sent ≡ (out, finished a rest)
    → talk (m >>= f) input sent ≡ talk (f a) rest out
unfolding talk
talk->>= (pure b) f input sent h = cc
talk->>= (fail x) f input sent h = cc
talk->>= (write bytes m) f input sent h = talk->>= m f input (sent ++ bytes) h
talk->>= (read n k) f input sent h = elim (Bool-cases (leb n (length input))) [
  | inl e ↦ rw (e, talk) (talk->>= (k (take n input)) f (drop n input) sent (rw (e, talk) at h))
  | inr e ↦ let h' = rw (e, talk) at h in cc
]

-- A dialogue whose first part fails.
pub talk->>=-failed :
    {X A B : Type 0} (m : Action X A) (f : A → Action X B) (input sent : List ℕ) {x : X}
    {out : List ℕ}
    → talk m input sent ≡ (out, failed x)
    → talk (m >>= f) input sent ≡ (out, failed x)
unfolding talk
talk->>=-failed (pure b) f input sent h = cc
talk->>=-failed (fail y) f input sent h = cc
talk->>=-failed (write bytes m) f input sent h = talk->>=-failed m f input (sent ++ bytes) h
talk->>=-failed (read n k) f input sent h = elim (Bool-cases (leb n (length input))) [
  | inl e ↦
      rw (e, talk) (talk->>=-failed (k (take n input)) f (drop n input) sent (rw (e, talk) at h))
  | inr e ↦ let h' = rw (e, talk) at h in cc
]
