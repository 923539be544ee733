-- ===== src/Proxy/Endpoint.antt =====
-- The parser of the endpoint of a SOCKS5 server in proxy/socks5.rs, and `Socks5Dialer::new`. Text is
-- a list of code points; the slices around a character are what the source cuts at the position that
-- it has found. The parser of an address and the resolver of a name are parameters.
pub mod Texts
pub mod Port
pub mod Accepted
pub mod Shown
pub mod RoundTrip
use proxifyre_rs.Net.{IpAddr, SocketAddr, socket_addr, ip, is_ipv6}
use proxifyre_rs.Prelude.{
  ℕ, zero, suc, ◌+◌, ◌*◌, ◌-◌, Bool, true, false, not, ◌&&◌, ◌||◌, Option, none, some, List, [],
  ◌∷◌, ◌++◌, Result, ok, err, Text, codes, starts_with, drop, length, if◌then◌else◌, ltb, leb, ◌==◌,
  bytes_eq, ◌>>=◌, unwrap_or, ok_or, fail_if, ◌>>◌,
}
use proxifyre_rs.Proxy.Dialer.{Socks5Auth, Socks5Dialer}

pub data EndpointError : Type 0 where
  unsupported_scheme invalid_credentials missing_host resolver_failed unresolved : EndpointError
  invalid_port invalid_ipv6_host missing_port_separator : EndpointError

-- `str::parse` into an `IpAddr`, and `to_socket_addrs` (`none` of an error).
pub record Names : Type 0 where
  pub parse_ip : Text → Option IpAddr
  pub to_socket_addrs : Text → Option (List SocketAddr)

abbrev pub colon : ℕ
colon = 58

abbrev pub at_sign : ℕ
at_sign = 64

abbrev pub open_bracket : ℕ
open_bracket = 91

abbrev pub close_bracket : ℕ
close_bracket = 93

-- What stands before and after the first place of the character: `find`.
unfoldable pub split_first : ℕ → Text → Option (Text × Text)
split_first c [] = none
split_first c (x ∷ xs) =
    let rest = split_first c xs in
    if x == c
    then some ([], xs)
    else elim rest [ none ↦ none | some (before, after) ↦ some (x ∷ before, after) ]

-- The same of the last place: `rfind`.
unfoldable pub split_last : ℕ → Text → Option (Text × Text)
split_last c [] = none
split_last c (x ∷ xs) = elim (split_last c xs) [
  | some (before, after) ↦ some (x ∷ before, after)
  | none ↦ if x == c then some ([], xs) else none
]

-- The same of the first place of "://".
unfoldable pub split_scheme : Text → Option (Text × Text)
split_scheme [] = none
split_scheme (x ∷ xs) =
    let rest = split_scheme xs in
    if starts_with (x ∷ xs) (codes "://")
    then some ([], drop 2 xs)
    else elim rest [ none ↦ none | some (before, after) ↦ some (x ∷ before, after) ]

-- `char::is_whitespace`.
unfoldable pub is_whitespace : ℕ → Bool
is_whitespace c =
    (leb 9 c && leb c 13)
    || c == 32
    || c == 0x85
    || c == 0xA0
    || c == 0x1680
    || (leb 0x2000 c && leb c 0x200A)
    || c == 0x2028
    || c == 0x2029
    || c == 0x202F
    || c == 0x205F
    || c == 0x3000

unfoldable pub trim_start : Text → Text
trim_start [] = []
trim_start (c ∷ cs) = if is_whitespace c then trim_start cs else c ∷ cs

unfoldable pub trim_end : Text → Text
trim_end [] = []
trim_end (c ∷ cs) = elim (trim_end cs) [
  | [] ↦ if is_whitespace c then [] else c ∷ []
  | d ∷ ds ↦ c ∷ d ∷ ds
]

abbrev pub trim : Text → Text
trim s = trim_end (trim_start s)

unfoldable pub is_empty : Text → Bool
is_empty [] = true
is_empty (c ∷ cs) = false

-- The text without its last character, if that is a closing bracket.
unfoldable pub strip_close : Text → Option Text
strip_close [] = none
strip_close (c ∷ []) = if c == close_bracket then some [] else none
strip_close (c ∷ d ∷ ds) = elim (strip_close (d ∷ ds)) [ none ↦ none | some cs ↦ some (c ∷ cs) ]

-- A host in brackets without them.
unfoldable pub strip_brackets : Text → Text
strip_brackets [] = []
strip_brackets (c ∷ cs) =
    if c == open_bracket then elim (strip_close cs) [ none ↦ c ∷ cs | some host ↦ host ] else c ∷ cs

-- The value of decimal digits that follow those of `acc`, below 2 ^ 16.
unfoldable pub parse_digits : ℕ → Text → Option ℕ
parse_digits acc [] = some acc
parse_digits acc (c ∷ cs) =
    let rest = parse_digits (10 * acc + (c - 48)) cs in
    if leb 48 c && leb c 57 && ltb (10 * acc + (c - 48)) 65536 then rest else none

-- `str::parse` into a `u16`, which takes a plus sign in front.
unfoldable pub parse_u16 : Text → Option ℕ
parse_u16 [] = none
parse_u16 (c ∷ []) = if c == 43 then none else parse_digits 0 (c ∷ [])
parse_u16 (c ∷ d ∷ ds) = if c == 43 then parse_digits 0 (d ∷ ds) else parse_digits 0 (c ∷ d ∷ ds)

unfoldable pub is_scheme : Text → Bool
is_scheme scheme =
    is_empty scheme || bytes_eq scheme (codes "socks5") || bytes_eq scheme (codes "socks5h")

-- The user name and the password, either side of the first colon.
unfoldable pub parse_credentials : Text → Result EndpointError (Option Socks5Auth)
parse_credentials auth_part =
    let (username, password) = unwrap_or (auth_part, []) (split_first colon auth_part) in
    if is_empty auth_part
    then ok none
    else if is_empty username || is_empty password
    then err invalid_credentials
    else ok (some (record { username = username; password = password }))

-- The part after the bracket.
unfoldable pub port_after : Text → Text → Result EndpointError (Text × Text)
port_after host [] = err missing_port_separator
port_after host (c ∷ cs) = if c == colon then ok (host, cs) else err missing_port_separator

unfoldable pub split_host_port : Text → Result EndpointError (Text × Text)
split_host_port input =
    if starts_with input (open_bracket ∷ [])
    then elim (split_first close_bracket input) [
      | none ↦ err invalid_ipv6_host
      | some (before, after) ↦ port_after (before ++ close_bracket ∷ []) after
    ]
    else elim (split_last colon input) [
      | none ↦ err missing_port_separator
      | some (host, port) ↦ ok (host, port)
    ]

-- The address that the host stands for, or the first that its name is resolved to.
unfoldable pub resolve : Names → Text → Text → Result EndpointError IpAddr
resolve n host port_str = elim (n.parse_ip host) [
  | some a ↦ ok a
  | none ↦ elim (n.to_socket_addrs (host ++ colon ∷ port_str)) [
    | none ↦ err resolver_failed
    | some [] ↦ err unresolved
    | some (a ∷ addrs) ↦ ok (ip a)
  ]
]

unfoldable pub parse_port : Text → Result EndpointError ℕ
parse_port port_str = elim (parse_u16 port_str) [
  | none ↦ err invalid_port
  | some port ↦ if port == 0 then err invalid_port else ok port
]

-- What is read of the part after the credentials.
unfoldable pub parse_server : Names → Text → Result EndpointError SocketAddr
parse_server n host_part = do
  (host, port_str) ← split_host_port host_part
  _ ← fail_if (is_empty (trim host)) missing_host
  a ← resolve n (strip_brackets (trim host)) port_str
  port ← parse_port port_str
  ok (socket_addr a port)

unfoldable pub parse_rest : Names → Text → Result EndpointError (SocketAddr × Option Socks5Auth)
parse_rest n rest = do
  let (auth_part, host_part) = unwrap_or ([], rest) (split_last at_sign rest)
  auth ← parse_credentials auth_part
  addr ← parse_server n host_part
  ok (addr, auth)

unfoldable pub parse_socks5_endpoint :
    Names → Text → Result EndpointError (SocketAddr × Option Socks5Auth)
parse_socks5_endpoint n endpoint = elim (split_scheme endpoint) [
  | none ↦ parse_rest n endpoint
  | some (scheme, rest) ↦ if is_scheme scheme then parse_rest n rest else err unsupported_scheme
]

unfoldable pub new : Names → Text → Result EndpointError Socks5Dialer
new n endpoint = do
  (proxy_addr, auth) ← parse_socks5_endpoint n endpoint
  ok (record { proxy_addr = proxy_addr; auth = auth; prefer_ipv4_mapped_ipv6 = is_ipv6 proxy_addr })
