-- ===== src/Proxy/Endpoint/Shown.antt =====
-- How an endpoint is written out, and what is read of a host that is.
use proxifyre_rs.Net.{IpAddr}
use proxifyre_rs.Prelude.{
  ℕ, ◌≡◌, refl, ap, ◌∙◌, Bool, true, false, not, ◌||◌, ◌&&◌, Option, none, some, [], ◌∷◌, ◌++◌,
  Text, codes, arith, leb, ◌==◌, if◌then◌else◌, decimal,
}
use proxifyre_rs.Proxy.Dialer.{Socks5Auth}
use proxifyre_rs.Proxy.Endpoint.Port.{is_digit, all-decimal}
use proxifyre_rs.Proxy.Endpoint.Texts.{
  all, Without, all_mono, all-append, trim_end-lem, trim_start-lem, strip_close-append,
}
use proxifyre_rs.Proxy.Endpoint.{
  Names, colon, at_sign, open_bracket, close_bracket, is_whitespace, trim, trim_end, is_empty,
  strip_brackets,
}

-- The characters of an IP address: digits, the letters a to f, dots and colons.
unfoldable pub is_ip_char : ℕ → Bool
is_ip_char c = is_digit c || (leb 97 c && leb c 102) || c == 46 || c == colon

-- `Display` of the addresses of a set, which the parser reads back.
pub record Display (n : Names) : Type 0 where
  pub show : IpAddr → Text
  pub knows : IpAddr → Bool
  pub parse_ip-show : (a : IpAddr) → knows a ≡ true → n.parse_ip (show a) ≡ some a
  pub show-is_ip_char : (a : IpAddr) → knows a ≡ true → all is_ip_char (show a) ≡ true
  pub show-is_empty : (a : IpAddr) → knows a ≡ true → is_empty (show a) ≡ false

unfoldable pub show_with_auth : Option Socks5Auth → Text → Text
show_with_auth none s = s
show_with_auth (some auth) s = (auth.username ++ colon ∷ auth.password) ++ at_sign ∷ s

-- Credentials that the parser takes: neither part is empty, and a colon ends the user name.
abbrev pub IsAuth : Option Socks5Auth → Type 0
IsAuth none = Unit {0}
IsAuth (some auth) =
    (is_empty auth.username ≡ false)
    × (is_empty auth.password ≡ false)
    × Without colon auth.username

module _ {n : Names} (d : Display n) where
  -- An IPv6 address is written in brackets.
  unfoldable pub show_host : IpAddr → Text
  show_host (IpAddr.v4 a) = d.show (IpAddr.v4 a)
  show_host (IpAddr.v6 a) = open_bracket ∷ d.show (IpAddr.v6 a) ++ close_bracket ∷ []

  unfoldable pub show_server : IpAddr → ℕ → Text
  show_server a p = show_host a ++ colon ∷ decimal p

  unfoldable pub show_endpoint : Bool → Option Socks5Auth → IpAddr → ℕ → Text
  unfolding show_with_auth
  show_endpoint h auth a p =
      (if h then codes "socks5h" else codes "socks5")
      ++ codes "://"
      ++ show_with_auth auth (show_server a p)

  pub not_in : (c : ℕ) (s : Text) → is_ip_char c ≡ false → all is_ip_char s ≡ true → Without c s
  unfolding is_ip_char
  not_in c s h k = all_mono is_ip_char (λ x. not (x == c)) s (λ x e. ground arith) k

  not_white : (s : Text) → all is_ip_char s ≡ true → all (λ c. not (is_whitespace c)) s ≡ true
  unfolding is_ip_char is_whitespace
  not_white s k = all_mono is_ip_char (λ c. not (is_whitespace c)) s (λ c e. ground arith) k

  pub decimal-Without : (c p : ℕ) → is_digit c ≡ false → Without c (decimal p)
  decimal-Without c p h =
      all_mono is_digit (λ x. not (x == c)) (decimal p) (λ x e. ground arith) (all-decimal p)

  -- What is known of the text of a host.
  pub show_host-Without :
      (a : IpAddr) (c : ℕ)
      → d.knows a ≡ true
      → is_ip_char c ≡ false
      → (c == open_bracket) ≡ false
      → (c == close_bracket) ≡ false
      → Without c (show_host a)
  unfolding show_host all
  show_host-Without (IpAddr.v4 a) c known h o e =
      not_in c (d.show (IpAddr.v4 a)) h (d.show-is_ip_char (IpAddr.v4 a) known)
  show_host-Without (IpAddr.v6 a) c known h o e =
      let inner = not_in c (d.show (IpAddr.v6 a)) h (d.show-is_ip_char (IpAddr.v6 a) known) in
      ground
        (arith, all-append (λ x. not (x == c)) (d.show (IpAddr.v6 a)) (close_bracket ∷ []) inner)

  show_host-not_white :
      (a : IpAddr) → d.knows a ≡ true → all (λ c. not (is_whitespace c)) (show_host a) ≡ true
  unfolding show_host all is_whitespace
  show_host-not_white (IpAddr.v4 a) known =
      not_white (d.show (IpAddr.v4 a)) (d.show-is_ip_char (IpAddr.v4 a) known)
  show_host-not_white (IpAddr.v6 a) known =
      let inner = not_white (d.show (IpAddr.v6 a)) (d.show-is_ip_char (IpAddr.v6 a) known) in
      all-append (λ c. not (is_whitespace c)) (d.show (IpAddr.v6 a)) (close_bracket ∷ []) inner refl

  pub trim-show_host : (a : IpAddr) → d.knows a ≡ true → trim (show_host a) ≡ show_host a
  trim-show_host a known =
      let black = show_host-not_white a known in
      ap trim_end (trim_start-lem (show_host a) black) ∙ trim_end-lem (show_host a) black

  pub show_host-is_empty : (a : IpAddr) → d.knows a ≡ true → is_empty (show_host a) ≡ false
  unfolding show_host is_empty
  show_host-is_empty (IpAddr.v4 a) known = d.show-is_empty (IpAddr.v4 a) known
  show_host-is_empty (IpAddr.v6 a) known = refl

  no_bracket : (s : Text) → all is_ip_char s ≡ true → is_empty s ≡ false → strip_brackets s ≡ s
  unfolding strip_brackets all is_ip_char is_empty
  no_bracket [] h e = refl
  no_bracket (c ∷ cs) h e = ground arith

  pub strip_brackets-show_host :
      (a : IpAddr) → d.knows a ≡ true → strip_brackets (show_host a) ≡ d.show a
  unfolding strip_brackets show_host
  strip_brackets-show_host (IpAddr.v4 a) known =
      no_bracket (d.show (IpAddr.v4 a)) (d.show-is_ip_char (IpAddr.v4 a) known)
        (d.show-is_empty (IpAddr.v4 a) known)
  strip_brackets-show_host (IpAddr.v6 a) known =
      ground (arith, strip_close-append (d.show (IpAddr.v6 a)))
