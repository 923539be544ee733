-- ===== src/Proxy/Session/Accepts.antt =====
-- The handshakes that proxy/socks5.rs takes for accepted, and its two requests after them.
use proxifyre_rs.Prelude.{
  ℕ, ◌≤◌, ◌<◌, ◌≡◌, refl, ap, ◌∙◌, true, Option, none, some, List, [], ◌∷◌, ◌++◌, length, arith,
  as_bytes, Bool-cases, inl, inr, ◌==◌, ltb, ◌≢◌, ◌⊎◌, ◌||◌, not,
}
use proxifyre_rs.Net.{SocketAddr, IsAddr, unspecified_v4}
use proxifyre_rs.Proxy.Codec.RoundTrip.{on_wire}
use proxifyre_rs.Proxy.Codec.{Resolver, maybe_map_ipv4_to_ipv6_mapped}
use proxifyre_rs.Proxy.Dialer.{Socks5Auth, Socks5Dialer}
use proxifyre_rs.Proxy.Session.{
  SocksError, username_password_auth_failed, connect, udp_associate, handshake, other_method,
  username_password_auth, connect_tcp, associate_udp, send_request,
}
use proxifyre_rs.Proxy.Protocol.{
  offered, credentials, granted, connect_request, associate_request, relay_of,
  normalize_udp_relay_lem,
}
use proxifyre_rs.Proxy.Session.Dialogue.{
  handshake_plain, handshake_login, send_connect-granted, send_associate-granted,
}
use proxifyre_rs.Proxy.Stream.{Ending, finished, failed, unexpected_eof, talk, talk->>=}

-- The handshakes that succeed: the server's bytes, and the client's. RFC 1928 has a 5 as the first byte of
-- the server; the client does not look at it where the server asks for credentials.
pub data Accepts : Option Socks5Auth → List ℕ → List ℕ → Type 0 where
  plain : {auth : Option Socks5Auth} → Accepts auth (5 ∷ 0 ∷ []) (offered auth)
  login :
      {auth : Socks5Auth} {v : ℕ}
      → length (as_bytes auth.username) ≤ 255
      → length (as_bytes auth.password) ≤ 255
      → Accepts (some auth) (v ∷ 2 ∷ 1 ∷ 0 ∷ []) (offered (some auth) ++ credentials auth)

handshake-Accepts :
    {auth : Option Socks5Auth} {server client : List ℕ} (rest : List ℕ)
    → Accepts auth server client
    → talk (handshake auth) (server ++ rest) [] ≡ (client, finished tt rest)
handshake-Accepts {auth = auth} rest plain = handshake_plain auth rest []
handshake-Accepts {auth = some auth} rest (login {v = v} hu hp) =
    handshake_login auth v rest [] hu hp

module _ (r : Resolver) (d : Socks5Dialer) where
  -- With a server that accepts the handshake and grants the request, a connection succeeds: what has
  -- been sent is the handshake and, byte for byte as RFC 1928 has it, a CONNECT for the destination,
  -- which is IPv4-mapped (::ffff:a.b.c.d) towards an IPv6 server; and every byte after the reply is
  -- left for the application.
  pub connect_tcp-Accepts :
      (dst bound : SocketAddr) (rest : List ℕ) {server client : List ℕ}
      → Accepts d.auth server client
      → IsAddr bound
      → talk (connect_tcp r d dst) (server ++ (granted bound ++ rest)) []
        ≡ (client ++ connect_request d.prefer_ipv4_mapped_ipv6 dst, finished tt rest)
  unfolding connect_tcp talk
  connect_tcp-Accepts dst bound rest {server = server} {client = client} accepts is_addr =
      let target = maybe_map_ipv4_to_ipv6_mapped dst d.prefer_ipv4_mapped_ipv6 in
      let input = granted bound ++ rest in
      talk->>= (handshake d.auth) _ (server ++ input) [] (handshake-Accepts input accepts)
      ∙ talk->>= (send_request r connect target) _ input client
          (send_connect-granted r dst bound d.prefer_ipv4_mapped_ipv6 rest client is_addr)

  -- With such a server an association succeeds: after the handshake a UDP ASSOCIATE for 0.0.0.0:0 has
  -- been sent, byte for byte as RFC 1928 has it, and the relay is the address of the reply, after the proxy's own host has replaced an
  -- unspecified one.
  pub associate_udp-Accepts :
      (bound : SocketAddr) (rest : List ℕ) {server client : List ℕ}
      → Accepts d.auth server client
      → IsAddr bound
      → talk (associate_udp r d) (server ++ (granted bound ++ rest)) []
        ≡ (client ++ associate_request, finished (relay_of (on_wire bound) d.proxy_addr) rest)
  unfolding associate_udp talk
  associate_udp-Accepts bound rest {server = server} {client = client} accepts is_addr =
      let target = SocketAddr.v4 unspecified_v4 0 in
      let input = granted bound ++ rest in
      talk->>= (handshake d.auth) _ (server ++ input) [] (handshake-Accepts input accepts)
      ∙ talk->>= (send_request r udp_associate target) _ input client
          (send_associate-granted r bound rest client is_addr)
      ∙ ap (λ relay. (client ++ associate_request, finished relay rest))
          (normalize_udp_relay_lem (on_wire bound) d.proxy_addr)

-- What a handshake on these bytes of the server ends with.
abbrev pub Explained : Option Socks5Auth → List ℕ → List ℕ → Ending SocksError (Unit {0}) → Type 0
Explained auth input out (finished _ rest) =
    (server : List ℕ) × (input ≡ server ++ rest) × Accepts auth server out
Explained auth input out (failed _) = Unit {0}
Explained auth input out unexpected_eof = length input < 4

-- The server's answer to the credentials.
login_answer :
    (auth : Socks5Auth) (v x y : ℕ) (rest : List ℕ)
    → length (as_bytes auth.username) ≤ 255
    → length (as_bytes auth.password) ≤ 255
    → (x ≡ 1) ⊎ (x ≢ 1)
    → (y ≡ 0) ⊎ (y ≢ 0)
    → talk (username_password_auth auth) (x ∷ y ∷ rest) (offered (some auth))
        ≡ (offered (some auth) ++ credentials auth, failed username_password_auth_failed)
      ⊎ (x ≡ 1)
        × (y ≡ 0)
        × (talk (username_password_auth auth) (x ∷ y ∷ rest) (offered (some auth))
            ≡ (offered (some auth) ++ credentials auth, finished tt rest))
unfolding username_password_auth talk
login_answer auth v x y rest hu hp (inl hx) (inl hy) = inr (hx, hy, ground arith)
login_answer auth v x y rest hu hp (inl hx) (inr hy) = inl (ground arith)
login_answer auth v x y rest hu hp (inr hx) hy = inl (ground arith)

login_cut :
    (auth : Socks5Auth) (input : List ℕ)
    → length (as_bytes auth.username) ≤ 255
    → length (as_bytes auth.password) ≤ 255
    → length input < 2
    → talk (username_password_auth auth) input (offered (some auth))
      ≡ (offered (some auth) ++ credentials auth, unexpected_eof)
unfolding username_password_auth talk
login_cut auth input hu hp h = ground arith

login_short :
    (auth : Socks5Auth) (v : ℕ) (input : List ℕ)
    → length (as_bytes auth.username) ≤ 255
    → length (as_bytes auth.password) ≤ 255
    → Explained
        (some auth)
        (v ∷ 2 ∷ input)
        ((talk (username_password_auth auth) input (offered (some auth))).0)
        ((talk (username_password_auth auth) input (offered (some auth))).1)
login_short auth v [] hu hp = rw (login_cut auth [] hu hp (ground arith)) (ground arith)
login_short auth v (x ∷ []) hu hp = rw (login_cut auth (x ∷ []) hu hp (ground arith)) (ground arith)
login_short auth v (x ∷ y ∷ rest) hu hp =
    elim (login_answer auth v x y rest hu hp (ground arith) (ground arith)) [
      | inl e ↦ rw e tt
      | inr (hx, hy, e) ↦ rw (e, hx, hy) (v ∷ 2 ∷ 1 ∷ 0 ∷ [], refl, login hu hp)
    ]

username_password_auth-Explained :
    (auth : Socks5Auth) (v : ℕ) (input : List ℕ)
    → Explained
        (some auth)
        (v ∷ 2 ∷ input)
        ((talk (username_password_auth auth) input (offered (some auth))).0)
        ((talk (username_password_auth auth) input (offered (some auth))).1)
unfolding username_password_auth talk
username_password_auth-Explained auth v input =
    let lu = length (as_bytes auth.username) in
    let lp = length (as_bytes auth.password) in
    elim (Bool-cases (ltb 255 lu || ltb 255 lp)) [
      | inl long ↦ rw (long, talk) tt
      | inr short ↦ login_short auth v input (ground arith) (ground arith)
    ]

other_two :
    (auth : Option Socks5Auth) (x : ℕ) (rest : List ℕ)
    → Explained auth
        (x ∷ 2 ∷ rest)
        ((talk (other_method auth (x ∷ 2 ∷ [])) rest (offered auth)).0)
        ((talk (other_method auth (x ∷ 2 ∷ [])) rest (offered auth)).1)
unfolding other_method talk
other_two none x rest = tt
other_two (some a) x rest = username_password_auth-Explained a x rest

other_method-Explained :
    (auth : Option Socks5Auth) (x y : ℕ) (rest : List ℕ)
    → Explained auth
        (x ∷ y ∷ rest)
        ((talk (other_method auth (x ∷ y ∷ [])) rest (offered auth)).0)
        ((talk (other_method auth (x ∷ y ∷ [])) rest (offered auth)).1)
unfolding other_method talk
other_method-Explained auth x y rest = elim (Bool-cases (y == 2)) [
  | inl two ↦ let y_eq : y ≡ 2 = ground arith in rw y_eq (other_two auth x rest)
  | inr not_two ↦ elim (Bool-cases (y == 255)) [
    | inl e ↦ rw (not_two, e, talk) tt
    | inr e ↦ rw (not_two, e, talk) tt
  ]
]

handshake_cut :
    (auth : Option Socks5Auth) (input : List ℕ)
    → length input < 2
    → talk (handshake auth) input [] ≡ (offered auth, unexpected_eof)
unfolding handshake talk
handshake_cut auth input h = ground arith

handshake_answer :
    (auth : Option Socks5Auth) (x y : ℕ) (rest : List ℕ)
    → (not (x == 5) || not (y == 0)) ≡ true
    → talk (handshake auth) (x ∷ y ∷ rest) []
      ≡ talk (other_method auth (x ∷ y ∷ [])) rest (offered auth)
unfolding handshake talk
handshake_answer auth x y rest h = ground arith

handshake-succeeds :
    (auth : Option Socks5Auth) (input : List ℕ)
    → Explained auth input ((talk (handshake auth) input []).0) ((talk (handshake auth) input []).1)
handshake-succeeds auth [] = rw (handshake_cut auth [] (ground arith)) (ground arith)
handshake-succeeds auth (x ∷ []) = rw (handshake_cut auth (x ∷ []) (ground arith)) (ground arith)
handshake-succeeds auth (x ∷ y ∷ rest) = elim (Bool-cases (not (x == 5) || not (y == 0))) [
  | inl other ↦ rw (handshake_answer auth x y rest other) (other_method-Explained auth x y rest)
  | inr chosen ↦
      let x_eq : x ≡ 5 = ground arith in
      let y_eq : y ≡ 0 = ground arith in
      rw (x_eq, y_eq, handshake_plain auth rest []) (5 ∷ 0 ∷ [], refl, plain)
]

-- On any bytes of the server, a handshake that succeeds has read just these: 5 and 0; or any byte, 2,
-- 1 and 0, where there are credentials, of at most 255 bytes each. It has sent version 5 with the
-- methods, and then, in the second case, the credentials; with these bytes of the server it
-- always succeeds. One that waits for more has been sent fewer than four bytes.
pub handshake-Explained :
    (auth : Option Socks5Auth) (input : List ℕ)
    → Explained auth input ((talk (handshake auth) input []).0) ((talk (handshake auth) input []).1)
      × ((server client rest : List ℕ)
          → input ≡ server ++ rest
          → Accepts auth server client
          → talk (handshake auth) input [] ≡ (client, finished tt rest))
handshake-Explained auth input = (
  handshake-succeeds auth input,
  λ server client rest e accepts.
      ap (λ bytes. talk (handshake auth) bytes []) e ∙ handshake-Accepts rest accepts,
)
