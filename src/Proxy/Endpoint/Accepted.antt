-- ===== src/Proxy/Endpoint/Accepted.antt =====
-- What is known of a dialer that the parser has made.
use proxifyre_rs.Net.{SocketAddr, socket_addr, port, port-socket_addr, is_ipv6}
use proxifyre_rs.Prelude.{
  ℕ, ◌<◌, ◌≡◌, subst, true, false, Option, none, some, [], ◌∷◌, Text, ◌⊎◌, refl, codes, bytes_eq,
  bytes_eq→≡, ok, arith, Option-cases, Bool-cases, inl, inr, bind_ok, fail_if, unwrap_or,
}
use proxifyre_rs.Proxy.Dialer.{Socks5Auth, Socks5Dialer}
use proxifyre_rs.Proxy.Endpoint.Port.{parse_u16_lt}
use proxifyre_rs.Proxy.Endpoint.{
  missing_host, Names, at_sign, split_scheme, split_last, trim, is_empty, strip_brackets,
  parse_credentials, split_host_port, resolve, parse_u16, parse_port, parse_server, parse_rest,
  parse_socks5_endpoint, new, is_scheme,
}

-- Credentials have both parts.
abbrev pub HasParts : Option Socks5Auth → Type 0
HasParts none = Unit {0}
HasParts (some auth) = (is_empty auth.username ≡ false) × (is_empty auth.password ≡ false)

-- A port that a connection can be made to.
abbrev pub IsPort : ℕ → Type 0
IsPort p = (0 < p) × (p < 65536)

parse_port-IsPort : (s : Text) (p : ℕ) → parse_port s ≡ ok p → IsPort p
unfolding parse_port
parse_port-IsPort s p h = elim (Option-cases (parse_u16 s)) [
  | inl e ↦ absurd (ground arith)
  | inr (v, e) ↦ ground (arith, parse_u16_lt s v e)
]

parse_credentials-HasParts :
    (s : Text) (auth : Option Socks5Auth) → parse_credentials s ≡ ok auth → HasParts auth
unfolding parse_credentials
parse_credentials-HasParts s none h = tt
parse_credentials-HasParts s (some auth) h = ground arith

-- The text before "://", where there is one, is no scheme but "", "socks5" and "socks5h".
abbrev pub HasScheme : Option (Text × Text) → Type 0
HasScheme none = Unit {0}
HasScheme (some (scheme, rest)) =
    (scheme ≡ []) ⊎ (scheme ≡ codes "socks5") ⊎ (scheme ≡ codes "socks5h")

is_scheme-HasScheme :
    (scheme rest : Text) → is_scheme scheme ≡ true → HasScheme (some (scheme, rest))
unfolding is_scheme is_empty
is_scheme-HasScheme [] rest h = inl refl
is_scheme-HasScheme (c ∷ cs) rest h = elim (Bool-cases (bytes_eq (c ∷ cs) (codes "socks5"))) [
  | inl e ↦ inr (inl (bytes_eq→≡ (c ∷ cs) (codes "socks5") e))
  | inr e ↦ inr (inr (bytes_eq→≡ (c ∷ cs) (codes "socks5h") (ground arith)))
]

module _ (n : Names) where
  parse_server-IsPort :
      (s : Text) (addr : SocketAddr) → parse_server n s ≡ ok addr → IsPort (port addr)
  unfolding parse_server
  parse_server-IsPort s addr h =
      let ((host, port_str), cut, h1) = bind_ok (split_host_port s) _ addr h in
      let (u, full, h2) = bind_ok (fail_if (is_empty (trim host)) missing_host) _ addr h1 in
      let (a, found, h3) = bind_ok (resolve n (strip_brackets (trim host)) port_str) _ addr h2 in
      let (p, is_port, h4) = bind_ok (parse_port port_str) _ addr h3 in
      let good : IsPort p = parse_port-IsPort port_str p is_port in
      let same : socket_addr a p ≡ addr = ground arith in
      subst (λ s. IsPort (port s)) same (rw (port-socket_addr a p) good)

  -- What a parsed endpoint satisfies.
  abbrev Good : SocketAddr × Option Socks5Auth → Type 0
  Good o = IsPort (port o.0) × HasParts o.1

  parse_rest-Good : (s : Text) (o : SocketAddr × Option Socks5Auth) → parse_rest n s ≡ ok o → Good o
  unfolding parse_rest
  parse_rest-Good s o h =
      let (auth_part, host_part) = unwrap_or ([], s) (split_last at_sign s) in
      let (auth, credentials, h1) = bind_ok (parse_credentials auth_part) _ o h in
      let (addr, server, h2) = bind_ok (parse_server n host_part) _ o h1 in
      let good : Good (addr, auth) = (
        parse_server-IsPort host_part addr server,
        parse_credentials-HasParts auth_part auth credentials,
      ) in
      let same : (addr, auth) ≡ o = ground arith in subst Good same good

  parse_socks5_endpoint-Good :
      (s : Text) (o : SocketAddr × Option Socks5Auth)
      → parse_socks5_endpoint n s ≡ ok o
      → Good o × HasScheme (split_scheme s)
  unfolding parse_socks5_endpoint
  parse_socks5_endpoint-Good s o h = elim (Option-cases (split_scheme s)) [
    | inl e ↦ (parse_rest-Good s o (ground arith), rw e tt)
    | inr ((scheme, rest), e) ↦ elim (Bool-cases (is_scheme scheme)) [
      | inl k ↦ (parse_rest-Good rest o (ground arith), rw e (is_scheme-HasScheme scheme rest k))
      | inr k ↦ absurd (ground arith)
    ]
  ]

  -- A dialer that is made of an endpoint connects to a port between 1 and 65535, has either no
  -- credentials or some with both parts, and maps IPv4 destinations just where the server has an IPv6
  -- address; the scheme of the endpoint, where it has one, is empty, "socks5" or "socks5h".
  pub new-IsDialer :
      (endpoint : Text) (dialer : Socks5Dialer)
      → new n endpoint ≡ ok dialer
      → (0 < port dialer.proxy_addr)
        × (port dialer.proxy_addr < 65536)
        × HasParts dialer.auth
        × (dialer.prefer_ipv4_mapped_ipv6 ≡ is_ipv6 dialer.proxy_addr)
        × HasScheme (split_scheme endpoint)
  unfolding new
  new-IsDialer endpoint dialer h =
      let ((addr, auth), parsed, h1) = bind_ok (parse_socks5_endpoint n endpoint) _ dialer h in
      let (((l, u), parts), scheme) = parse_socks5_endpoint-Good endpoint (addr, auth) parsed in
      ground arith
