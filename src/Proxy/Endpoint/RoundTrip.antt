-- ===== src/Proxy/Endpoint/RoundTrip.antt =====
-- An endpoint that is written out is read back.
use proxifyre_rs.Net.{IpAddr, socket_addr, is_ipv6}
use proxifyre_rs.Prelude.{
  ℕ, ◌<◌, ◌≡◌, refl, ap, ◌∙◌, Bool, true, false, not, Option, none, some, [], ◌∷◌, ◌++◌, Text,
  starts_with, ok, arith, ◌==◌, decimal, append_assoc,
}
use proxifyre_rs.Proxy.Dialer.{Socks5Auth}
use proxifyre_rs.Proxy.Endpoint.Port.{parse_u16-decimal}
use proxifyre_rs.Proxy.Endpoint.Shown.{
  Display, is_ip_char, show_host, show_server, show_with_auth, IsAuth, show_endpoint, not_in,
  decimal-Without, show_host-Without, trim-show_host, show_host-is_empty, strip_brackets-show_host,
}
use proxifyre_rs.Proxy.Endpoint.Texts.{
  all, Without, all-append, split_first-append, split_last-none, split_last-append,
}
use proxifyre_rs.Proxy.Endpoint.{
  Names, colon, at_sign, open_bracket, close_bracket, split_scheme, is_empty, strip_brackets,
  parse_credentials, port_after, split_host_port, resolve, parse_port, parse_server, parse_rest,
  parse_socks5_endpoint, new, is_scheme, split_first,
}

module _ {n : Names} (d : Display n) where
  first_not_bracket :
      (s t : Text)
      → all is_ip_char s ≡ true
      → is_empty s ≡ false
      → starts_with (s ++ t) (open_bracket ∷ []) ≡ false
  unfolding all is_ip_char is_empty
  first_not_bracket [] t h e = absurd (ground arith)
  first_not_bracket (c ∷ cs) t h e = ground arith

  split_host_port-show_server :
      (a : IpAddr) (p : ℕ)
      → d.knows a ≡ true
      → split_host_port (show_server d a p) ≡ ok (show_host d a, decimal p)
  unfolding split_host_port show_server show_host port_after is_ip_char all
  split_host_port-show_server (IpAddr.v4 a) p known =
      let s = d.show (IpAddr.v4 a) in
      let plain =
        first_not_bracket s (colon ∷ decimal p) (d.show-is_ip_char (IpAddr.v4 a) known)
          (d.show-is_empty (IpAddr.v4 a) known) in
      let cut = split_last-append colon s (decimal p) (decimal-Without d colon p refl) in
      rw (plain, split_host_port, cut) refl
  split_host_port-show_server (IpAddr.v6 a) p known =
      let s = d.show (IpAddr.v6 a) in
      let input : show_server d (IpAddr.v6 a) p
          ≡ open_bracket ∷ s ++ close_bracket ∷ colon ∷ decimal p =
        ap (◌∷◌ open_bracket) (append_assoc s (close_bracket ∷ []) (colon ∷ decimal p)) in
      let within = not_in d close_bracket s refl (d.show-is_ip_char (IpAddr.v6 a) known) in
      let cut : split_first close_bracket (open_bracket ∷ s ++ close_bracket ∷ colon ∷ decimal p)
          ≡ some (open_bracket ∷ s, colon ∷ decimal p) =
        split_first-append close_bracket (open_bracket ∷ s) (colon ∷ decimal p) within in
      ap split_host_port input ∙ rw (split_host_port, cut) refl

  resolve-show_host :
      (a : IpAddr) (port_str : Text)
      → d.knows a ≡ true
      → resolve n (strip_brackets (show_host d a)) port_str ≡ ok a
  unfolding resolve
  resolve-show_host a port_str known =
      ap (λ h. resolve n h port_str) (strip_brackets-show_host d a known)
      ∙ rw (d.parse_ip-show a known, resolve) refl

  parse_port-decimal : (p : ℕ) → 0 < p → p < 65536 → parse_port (decimal p) ≡ ok p
  unfolding parse_port
  parse_port-decimal p l h = ground (arith, parse_u16-decimal p h)

  parse_server-show_server :
      (a : IpAddr) (p : ℕ)
      → d.knows a ≡ true
      → 0 < p
      → p < 65536
      → parse_server n (show_server d a p) ≡ ok (socket_addr a p)
  unfolding parse_server
  parse_server-show_server a p known l h =
      rw
        (
          split_host_port-show_server a p known,
          trim-show_host d a known,
          show_host-is_empty d a known,
          resolve-show_host a (decimal p) known,
          parse_port-decimal p l h,
        )
        refl

  parse_credentials-IsAuth :
      (auth : Socks5Auth)
      → IsAuth (some auth)
      → parse_credentials (auth.username ++ colon ∷ auth.password) ≡ ok (some auth)
  unfolding parse_credentials is_empty
  parse_credentials-IsAuth auth (u, p, c) =
      ground (arith, split_first-append colon auth.username auth.password c)

  show_server-Without :
      (a : IpAddr) (p : ℕ) → d.knows a ≡ true → Without at_sign (show_server d a p)
  unfolding show_server is_ip_char all
  show_server-Without a p known =
      all-append (λ x. not (x == at_sign)) (show_host d a) (colon ∷ decimal p)
        (show_host-Without d a at_sign known refl refl refl)
        (ground (arith, decimal-Without d at_sign p refl))

  parse_rest-shown :
      (auth : Option Socks5Auth) (a : IpAddr) (p : ℕ)
      → d.knows a ≡ true
      → IsAuth auth
      → 0 < p
      → p < 65536
      → parse_rest n (show_with_auth auth (show_server d a p)) ≡ ok (socket_addr a p, auth)
  unfolding parse_rest show_with_auth parse_credentials is_empty
  parse_rest-shown none a p known i l h =
      rw
        (
          split_last-none at_sign (show_server d a p) (show_server-Without a p known),
          parse_server-show_server a p known l h,
        )
        refl
  parse_rest-shown (some auth) a p known i l h =
      let s = show_server d a p in
      rw
        (
          split_last-append at_sign (auth.username ++ colon ∷ auth.password) s
              (show_server-Without a p known),
          parse_credentials-IsAuth auth i,
          parse_server-show_server a p known l h,
        )
        refl

  -- An endpoint that is written with the scheme "socks5" or "socks5h", credentials that are not empty
  -- and of which the user name has no colon, or none, an IP address that is shown as the
  -- parser of addresses reads it (an IPv6 address in brackets) and
  -- a port that is not 0 gives the dialer with that address, port and credentials, which maps IPv4
  -- destinations just where the server has an IPv6 address.
  pub new-show_endpoint :
      (scheme : Bool) (auth : Option Socks5Auth) (a : IpAddr) (p : ℕ)
      → d.knows a ≡ true
      → IsAuth auth
      → 0 < p
      → p < 65536
      → let addr = socket_addr a p in
        new n (show_endpoint d scheme auth a p)
        ≡ ok (record { proxy_addr = addr; auth = auth; prefer_ipv4_mapped_ipv6 = is_ipv6 addr })
  unfolding new parse_socks5_endpoint show_endpoint split_scheme is_scheme is_empty
  new-show_endpoint true auth a p known i l h = rw (parse_rest-shown auth a p known i l h) refl
  new-show_endpoint false auth a p known i l h = rw (parse_rest-shown auth a p known i l h) refl
