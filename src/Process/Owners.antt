-- ===== src/Process/Owners.antt =====
-- The rows of a table of the operating system that belong to a socket, written out without the maps and
-- the conversions of windows/process.rs.
use mathlib.Core.Option
use proxifyre_rs.HashMap.{get, insert, get-insert}
use proxifyre_rs.Net.{Ipv4Addr, Ipv6Addr}
use proxifyre_rs.Prelude.{
  ℕ, ◌+◌, ◌-◌, ◌≤◌, ◌*◌, ◌/◌, ◌%◌, ◌≡◌, refl, sym, ap, subst, ◌∙◌, ◌⊎◌, inl, inr, Option, none,
  some, List, [], ◌∷◌, map, arith, Option-cases,
}
use proxifyre_rs.Process.Sessions.Fresh.{Answers}
use proxifyre_rs.Process.Sessions.{
  TcpKey, UdpKey, TcpRow, UdpRow, insert_rows, lookup_tcp, lookup_udp, tcp_row, udp_row,
  u16_from_be, ipv4_from_be, tcp_key_discrete, udp_key_discrete,
}

-- One of the rows is such.
abbrev pub AnyOf : {R : Type 0} → (R → Type 0) → List R → Type 0
AnyOf P [] = ⊥
AnyOf P (x ∷ xs) = P x ⊎ AnyOf P xs

pub AnyOf-map :
    {R : Type 0} {P Q : R → Type 0} (xs : List R) → ((x : R) → P x → Q x) → AnyOf P xs → AnyOf Q xs
AnyOf-map [] f h = h
AnyOf-map (x ∷ xs) f (inl p) = inl (f x p)
AnyOf-map (x ∷ xs) f (inr h) = inr (AnyOf-map xs f h)

-- A port as the table has it: the high byte is the low one of the number.
abbrev pub PortIs : ℕ → ℕ → Type 0
PortIs x p = x % 256 * 256 + x / 256 % 256 ≡ p

-- The octets of an IPv4 address, the first in the low byte.
abbrev pub V4Is : ℕ → Ipv4Addr → Type 0
V4Is x a =
    (x % 256 ≡ a.a) × (x / 256 % 256 ≡ a.b) × (x / 65536 % 256 ≡ a.c) × (x / 16777216 % 256 ≡ a.d)

abbrev pub V6Is : List ℕ → Ipv6Addr → Type 0
V6Is octets a = octets ≡ a.octets

abbrev pub TcpOf : {R A : Type 0} → (R → A → Type 0) → TcpKey A → TcpRow R → Type 0
TcpOf Is k row =
    Is row.local_addr k.local
    × Is row.remote_addr k.remote
    × PortIs row.local_port k.local_port
    × PortIs row.remote_port k.remote_port

-- A socket that is bound to the address, or to every address.
abbrev pub UdpOf : {R A : Type 0} → (R → A → Type 0) → A → UdpKey A → UdpRow R → Type 0
UdpOf Is unspecified k row =
    (Is row.local_addr k.local ⊎ Is row.local_addr unspecified) × PortIs row.local_port k.local_port

module _ {K R : Type 0} (dec : Discrete K) (f : R → K × ℕ) where
  pub get-insert_rows :
      (k : K) (raw : List R) (m : List (K × ℕ)) (pid : ℕ)
      → get dec k (insert_rows dec m (map f raw)) ≡ some pid
      → (get dec k m ≡ some pid) ⊎ AnyOf (λ row. ((f row).0 ≡ k) × ((f row).1 ≡ pid)) raw
  unfolding insert_rows
  get-insert_rows k [] m pid h = inl h
  get-insert_rows k (row ∷ raw) m pid h =
      elim (get-insert_rows k raw (insert dec (f row).0 (f row).1 m) pid h) [
        | inr there ↦ inr (inr there)
        | inl here ↦
            let put = get-insert dec (f row).0 k (f row).1 m in
            elim (dec (f row).0 k) [
              | yes q ↦ inr (inl (q, ground (arith, put)))
              | no q ↦ inl (ground (arith, put))
            ]
      ]

  pub get-insert_rows-none :
      (k : K) (raw : List R) (m : List (K × ℕ))
      → get dec k (insert_rows dec m (map f raw)) ≡ none
      → (get dec k m ≡ none) × ¬ AnyOf (λ row. (f row).0 ≡ k) raw
  unfolding insert_rows
  get-insert_rows-none k [] m h = (h, λ a. a)
  get-insert_rows-none k (row ∷ raw) m h =
      let (before, rest) = get-insert_rows-none k raw (insert dec (f row).0 (f row).1 m) h in
      let put = get-insert dec (f row).0 k (f row).1 m in
      (
        ground (arith, put),
        λ a. elim a [ inl q ↦ absurd (ground (arith, put)) | inr there ↦ rest there ],
      )

-- The two ways from rows to keys.
module _ {R A : Type 0} (dec : Discrete A) (address : R → A) (Is : R → A → Type 0)
    (is : (x : R) (a : A) → address x ≡ a → Is x a)
    (si : (x : R) (a : A) → Is x a → address x ≡ a) where
  tcp_row-TcpOf : (k : TcpKey A) (row : TcpRow R) → (tcp_row address row).0 ≡ k → TcpOf Is k row
  unfolding tcp_row u16_from_be
  tcp_row-TcpOf k row h = (
    is row.local_addr k.local (ap (λ k. k.local) h),
    is row.remote_addr k.remote (ap (λ k. k.remote) h),
    ap (λ k. k.local_port) h,
    ap (λ k. k.remote_port) h,
  )

  TcpOf-tcp_row : (k : TcpKey A) (row : TcpRow R) → TcpOf Is k row → (tcp_row address row).0 ≡ k
  unfolding tcp_row u16_from_be
  TcpOf-tcp_row k row (l, r, p, q) =
      let l' = si row.local_addr k.local l in let r' = si row.remote_addr k.remote r in cc

  -- A process that is found has a row with the addresses.
  pub lookup_tcp-TcpOf :
      (k : TcpKey A) (raw : List (TcpRow R)) (pid : ℕ)
      → lookup_tcp dec k (insert_rows (tcp_key_discrete dec) [] (map (tcp_row address) raw))
        ≡ some pid
      → AnyOf (λ row. TcpOf Is k row × (row.owning_pid ≡ pid)) raw
  unfolding lookup_tcp tcp_row get
  lookup_tcp-TcpOf k raw pid h =
      elim (get-insert_rows (tcp_key_discrete dec) (tcp_row address) k raw [] pid h) [
        | inl e ↦ absurd (ground arith)
        | inr a ↦ AnyOf-map raw (λ row o. (tcp_row-TcpOf k row o.0, o.1)) a
      ]

  pub lookup_tcp-none :
      (k : TcpKey A) (raw : List (TcpRow R))
      → lookup_tcp dec k (insert_rows (tcp_key_discrete dec) [] (map (tcp_row address) raw)) ≡ none
      → ¬ AnyOf (TcpOf Is k) raw
  unfolding lookup_tcp
  lookup_tcp-none k raw h a =
      (get-insert_rows-none (tcp_key_discrete dec) (tcp_row address) k raw [] h).1
        (AnyOf-map raw (λ row o. TcpOf-tcp_row k row o) a)

  module _ (unspecified : A) where
    abbrev IsSameRow : UdpKey A → UdpRow R → Type 0
    IsSameRow k row = Is row.local_addr k.local × PortIs row.local_port k.local_port

    abbrev wildcard : UdpKey A → UdpKey A
    wildcard k = record k { local = unspecified }

    udp_row-IsSameRow :
        (k : UdpKey A) (row : UdpRow R) → (udp_row address row).0 ≡ k → IsSameRow k row
    unfolding udp_row u16_from_be
    udp_row-IsSameRow k row h =
        (is row.local_addr k.local (ap (λ k. k.local) h), ap (λ k. k.local_port) h)

    IsSameRow-udp_row :
        (k : UdpKey A) (row : UdpRow R) → IsSameRow k row → (udp_row address row).0 ≡ k
    unfolding udp_row u16_from_be
    IsSameRow-udp_row k row (l, p) = let l' = si row.local_addr k.local l in cc

    abbrev pub table_of : List (UdpRow R) → List (UdpKey A × ℕ)
    table_of raw = insert_rows (udp_key_discrete dec) [] (map (udp_row address) raw)

    get-IsSameRow :
        (k : UdpKey A) (raw : List (UdpRow R)) (pid : ℕ)
        → get (udp_key_discrete dec) k (table_of raw) ≡ some pid
        → AnyOf (λ row. IsSameRow k row × (row.owning_pid ≡ pid)) raw
    unfolding udp_row get
    get-IsSameRow k raw pid h =
        elim (get-insert_rows (udp_key_discrete dec) (udp_row address) k raw [] pid h) [
          | inl e ↦ absurd (ground arith)
          | inr a ↦ AnyOf-map raw (λ row o. (udp_row-IsSameRow k row o.0, o.1)) a
        ]

    get-none :
        (k : UdpKey A) (raw : List (UdpRow R))
        → get (udp_key_discrete dec) k (table_of raw) ≡ none
        → ¬ AnyOf (IsSameRow k) raw
    get-none k raw h a =
        (get-insert_rows-none (udp_key_discrete dec) (udp_row address) k raw [] h).1
          (AnyOf-map raw (λ row o. IsSameRow-udp_row k row o) a)

    AnyOf-or :
        (k : UdpKey A) (raw : List (UdpRow R))
        → AnyOf (UdpOf Is unspecified k) raw
        → AnyOf (IsSameRow k) raw ⊎ AnyOf (IsSameRow (wildcard k)) raw
    AnyOf-or k [] a = absurd a
    AnyOf-or k (row ∷ raw) (inl (inl l, p)) = inl (inl (l, p))
    AnyOf-or k (row ∷ raw) (inl (inr l, p)) = inr (inl (l, p))
    AnyOf-or k (row ∷ raw) (inr a) = elim (AnyOf-or k raw a) [
      | inl h ↦ inl (inr h)
      | inr h ↦ inr (inr h)
    ]

    pub lookup_udp-UdpOf :
        (k : UdpKey A) (raw : List (UdpRow R)) (pid : ℕ)
        → lookup_udp dec unspecified k (table_of raw) ≡ some pid
        → AnyOf (λ row. UdpOf Is unspecified k row × (row.owning_pid ≡ pid)) raw
    unfolding lookup_udp
    lookup_udp-UdpOf k raw pid h =
        elim (Option-cases (get (udp_key_discrete dec) k (table_of raw))) [
          | inr (found, e) ↦
              AnyOf-map raw (λ row o. ((inl o.0.0, o.0.1), o.1))
                (get-IsSameRow k raw pid (ground arith))
          | inl e ↦ elim (dec k.local unspecified) [
            | yes q ↦ absurd (ground arith)
            | no q ↦
                AnyOf-map raw (λ row o. ((inr o.0.0, o.0.1), o.1))
                  (get-IsSameRow (wildcard k) raw pid (ground arith))
          ]
        ]

    pub lookup_udp-none :
        (k : UdpKey A) (raw : List (UdpRow R))
        → lookup_udp dec unspecified k (table_of raw) ≡ none
        → ¬ AnyOf (UdpOf Is unspecified k) raw
    unfolding lookup_udp
    lookup_udp-none k raw h a = elim (Option-cases (get (udp_key_discrete dec) k (table_of raw))) [
      | inr (found, e) ↦ absurd (ground arith)
      | inl e ↦ elim (dec k.local unspecified) [
        | yes q ↦ get-none k raw e (
            AnyOf-map raw
              (λ row o. elim o.0 [
                | inl l ↦ (l, o.1)
                | inr l ↦ (subst (Is row.local_addr) (sym q) l, o.1)
              ])
              a)
        | no q ↦ elim (AnyOf-or k raw a) [
          | inl here ↦ get-none k raw e here
          | inr every ↦ get-none (wildcard k) raw (ground arith) every
        ]
      ]
    ]

pub ipv4_from_be-V4Is : (x : ℕ) (a : Ipv4Addr) → ipv4_from_be x ≡ a → V4Is x a
unfolding ipv4_from_be
ipv4_from_be-V4Is x a h = (ap (λ a. a.a) h, ap (λ a. a.b) h, ap (λ a. a.c) h, ap (λ a. a.d) h)

pub V4Is-ipv4_from_be : (x : ℕ) (a : Ipv4Addr) → V4Is x a → ipv4_from_be x ≡ a
unfolding ipv4_from_be
V4Is-ipv4_from_be x a (p, q, r, s) = cc

-- What the process of a socket is, by the rows of a table as the operating system gives them: it has a
-- row for the socket in a table that had come at most half a second before `now`, or is asked for at
-- `later`; and where there is none, that table of `later` has no such row or cannot be had.
abbrev pub Owned :
    {R : Type 0} → (ℕ → Option (List R)) → (R → Type 0) → (R → ℕ) → ℕ → ℕ → Option ℕ → Type 0
Owned {R} raw Sock pid_of now later (some pid) =
    (t : ℕ) × (ts : ℕ) × (rows : List R) × (raw t ≡ some rows)
    × AnyOf (λ row. Sock row × (pid_of row ≡ pid)) rows
    × (t ≤ ts)
    × ((now - ts ≤ 500) ⊎ (t ≡ later))
Owned {R} raw Sock pid_of now later none =
    (raw later ≡ none) ⊎ ((rows : List R) × (raw later ≡ some rows) × ¬ AnyOf Sock rows)

pub map-some :
    {A B : Type 0} (f : A → B) (o : Option A) (b : B)
    → Option.map f o ≡ some b
    → (a : A) × (o ≡ some a) × (f a ≡ b)
map-some f none b h = absurd (ground arith)
map-some f (some a) b h = (a, refl, ground arith)

pub map-none : {A B : Type 0} (f : A → B) (o : Option A) → Option.map f o ≡ none → o ≡ none
map-none f none h = refl
map-none f (some a) h = absurd (ground arith)

module _ {K R : Type 0} (dec : Discrete K) (raw : ℕ → Option (List R)) (f : R → K × ℕ)
    (lookup : List (K × ℕ) → Option ℕ) (Sock : R → Type 0) (pid_of : R → ℕ)
    (found : (rows : List R) (pid : ℕ)
      → lookup (insert_rows dec [] (map f rows)) ≡ some pid
      → AnyOf (λ row. Sock row × (pid_of row ≡ pid)) rows)
    (absent : (rows : List R)
      → lookup (insert_rows dec [] (map f rows)) ≡ none
      → ¬ AnyOf Sock rows) where
  pub Answers-Owned :
      (now later : ℕ) (answer : Option ℕ)
      → Answers dec (λ t. Option.map (map f) (raw t)) lookup now later answer
      → Owned raw Sock pid_of now later answer
  Answers-Owned now later (some pid) (t, ts, keys, asked, has, le, age) =
      let (rows, e, same) = map-some (map f) (raw t) keys asked in
      let hit = ap (λ ks. lookup (insert_rows dec [] ks)) same ∙ has in
      (t, ts, rows, e, found rows pid hit, le, age)
  Answers-Owned now later none (inl e) = inl (map-none (map f) (raw later) e)
  Answers-Owned now later none (inr (keys, asked, has)) =
      let (rows, e, same) = map-some (map f) (raw later) keys asked in
      inr (rows, e, absent rows (ap (λ ks. lookup (insert_rows dec [] ks)) same ∙ has))
