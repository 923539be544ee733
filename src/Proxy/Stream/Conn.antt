-- ===== src/Proxy/Stream/Conn.antt =====
-- The `TcpStream` of the tokio crate behind an interface, and the actions run on it. `incoming` is
-- what the peer sends on this run and has not been read yet; `sent` is what has been written. The
-- laws are the documented ones, for a connection on which writes succeed.
use proxifyre_rs.Prelude.{
  ℕ, ◌≤◌, ◌<◌, ◌≡◌, refl, ap, sym, subst, ◌∙◌, inl, inr, List, ◌++◌, Result, ok, err, length, take,
  drop, leb, Bool-cases, arith,
}
use proxifyre_rs.Proxy.Stream.{
  Action, pure, fail, write, read, Ending, finished, failed, unexpected_eof, talk,
}

pub record TcpStream (E : Type 0) : Type 1 where
  pub Conn : Type 0
  pub incoming : Conn → List ℕ
  pub sent : Conn → List ℕ
  pub write_all : List ℕ → Conn → Result E Conn
  pub read_exact : ℕ → Conn → Result E (List ℕ × Conn)
  pub write_all_lem :
      (bytes : List ℕ) (c : Conn)
      → (c' : Conn) × (write_all bytes c ≡ ok c')
        × (sent c' ≡ sent c ++ bytes)
        × (incoming c' ≡ incoming c)
  pub read_exact_lem :
      (n : ℕ) (c : Conn)
      → n ≤ length (incoming c)
      → (c' : Conn) × (read_exact n c ≡ ok (take n (incoming c), c'))
        × (sent c' ≡ sent c)
        × (incoming c' ≡ drop n (incoming c))
  pub read_exact_eof :
      (n : ℕ) (c : Conn) → length (incoming c) < n → (e : E) × (read_exact n c ≡ err e)

-- An error is the stream's, or one that the program makes up.
pub data ActionError (E X : Type 0) : Type 0 where
  stream : E → ActionError E X
  other : X → ActionError E X

module _ {E X : Type 0} (s : TcpStream E) where
  open s use {
    Conn, incoming, sent, write_all, read_exact, write_all_lem, read_exact_lem, read_exact_eof,
  }

  unfoldable pub exec : {A : Type 0} → Action X A → Conn → Result (ActionError E X) (A × Conn)
  exec (pure a) c = ok (a, c)
  exec (fail x) c = err (other x)
  exec (write bytes m) c = elim (write_all bytes c) [ err e ↦ err (stream e) | ok c' ↦ exec m c' ]
  exec (read n k) c = elim (read_exact n c) [
    | err e ↦ err (stream e)
    | ok (bytes, c') ↦ exec (k bytes) c'
  ]

  -- The connection after a run, against a dialogue.
  abbrev pub Follows :
      {A : Type 0} → Result (ActionError E X) (A × Conn) → List ℕ × Ending X A → Type 0
  Follows r (out, finished a rest) =
      (c : Conn) × (r ≡ ok (a, c)) × (sent c ≡ out) × (incoming c ≡ rest)
  Follows r (out, failed x) = r ≡ err (other x)
  Follows r (out, unexpected_eof) = (e : E) × (r ≡ err (stream e))

  follows :
      {A : Type 0} (m : Action X A) (c : Conn) (input out : List ℕ)
      → incoming c ≡ input
      → sent c ≡ out
      → Follows (exec m c) (talk m input out)
  unfolding exec talk
  follows (pure a) c input out i o = (c, refl, o, i)
  follows (fail x) c input out i o = refl
  follows (write bytes m) c input out i o =
      let (c', e, s', i') = write_all_lem bytes c in
      rw (e, exec) (follows m c' input (out ++ bytes) (i' ∙ i) (s' ∙ ap (λ t. t ++ bytes) o))
  follows (read n k) c input out i o = elim (Bool-cases (leb n (length input))) [
    | inl enough ↦
        let (c', e, s', i') = read_exact_lem n c (ground (arith, ap length i)) in
        rw (e, exec, enough, talk)
          (subst (λ bytes. Follows (exec (k bytes) c') (talk (k (take n input)) (drop n input) out))
            (sym (ap (take n) i))
            (follows (k (take n input)) c' (drop n input) out (i' ∙ ap (drop n) i) (s' ∙ o)))
    | inr short ↦
        let (x, e) = read_exact_eof n c (ground (arith, ap length i)) in
        rw (e, exec, short, talk) (x, refl)
  ]

  -- Run on a connection, an action does what the dialogue with the peer's bytes says: the same
  -- value, the same bytes sent and the same bytes left to read; the same error of the program; or an
  -- error of the stream where the peer has sent too little.
  pub exec-Follows :
      {A : Type 0} (m : Action X A) (c : Conn) → Follows (exec m c) (talk m (incoming c) (sent c))
  exec-Follows m c = follows m c (incoming c) (sent c) refl refl
