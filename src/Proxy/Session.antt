-- ===== src/Proxy/Session.antt =====
-- The dialogue of proxy/socks5.rs with the SOCKS5 server, once the TCP connection stands.
pub mod Dialogue
pub mod Accepts
use proxifyre_rs.Prelude.{
  ℕ, ◌+◌, ◌%◌, Bool, true, false, not, ◌||◌, Option, none, some, List, [], ◌∷◌, ◌++◌, Text,
  if◌then◌else◌, ltb, ◌==◌, length, from_be_bytes, as_bytes, get_or,
}
use proxifyre_rs.Net.{Ipv4Addr, Ipv6Addr, IpAddr, SocketAddr, socket_addr, unspecified_v4}
use proxifyre_rs.Proxy.Codec.{
  Resolver, encode_addr, first, maybe_map_ipv4_to_ipv6_mapped, normalize_udp_relay,
}
use proxifyre_rs.Proxy.Dialer.{Socks5Auth, Socks5Dialer}
use proxifyre_rs.Proxy.Stream.{Action, pure, fail, ◌>>=◌, ◌>>◌, write_all, read_exact}

pub data SocksError : Type 0 where
  auth_required auth_methods_rejected : SocksError
  auth_failed : List ℕ → SocksError
  credentials_too_long username_password_auth_failed : SocksError
  invalid_response_version request_failed unsupported_address_type : ℕ → SocksError
  lookup_failed failed_to_resolve_host : SocksError

pub data Command : Type 0 where
  connect udp_associate : Command

unfoldable pub as_byte : Command → ℕ
as_byte connect = 1
as_byte udp_associate = 3

abbrev pub Io : Type 0 → Type 0
Io A = Action SocksError A

-- `resp[i]` of an array that `read_exact` has filled.
abbrev pub at : List ℕ → ℕ → ℕ
at resp i = get_or resp i 0

abbrev pub fail_if : Bool → SocksError → Io (Unit {0})
fail_if true e = fail e
fail_if false e = pure tt

abbrev pub ok_or : {A : Type 0} → Option A → SocksError → Io A
ok_or none e = fail e
ok_or (some a) e = pure a

unfoldable pub username_password_auth : Socks5Auth → Io (Unit {0})
username_password_auth auth = do
  let username = as_bytes auth.username
  let password = as_bytes auth.password
  fail_if (ltb 255 (length username) || ltb 255 (length password)) credentials_too_long
  write_all (1 ∷ length username % 256 ∷ (username ++ length password % 256 ∷ password))
  resp ← read_exact 2
  fail_if (not (at resp 0 == 1) || not (at resp 1 == 0)) username_password_auth_failed

-- The methods that the client offers.
abbrev pub greeting : Option Socks5Auth → List ℕ
greeting none = 5 ∷ 1 ∷ 0 ∷ []
greeting (some auth) = 5 ∷ 2 ∷ 0 ∷ 2 ∷ []

-- The server has not chosen "no authentication".
unfoldable pub other_method : Option Socks5Auth → List ℕ → Io (Unit {0})
other_method auth resp =
    if at resp 1 == 2
    then (do a ← ok_or auth auth_required; username_password_auth a)
    else if at resp 1 == 255
    then fail auth_methods_rejected
    else fail (auth_failed resp)

unfoldable pub handshake : Option Socks5Auth → Io (Unit {0})
handshake auth = do
  write_all (greeting auth)
  resp ← read_exact 2
  if not (at resp 0 == 5) || not (at resp 1 == 0) then other_method auth resp else pure tt

unfoldable pub read_port : Io ℕ
read_port = do port_bytes ← read_exact 2; pure (from_be_bytes (at port_bytes 0) (at port_bytes 1))

unfoldable pub read_v4 : Io SocketAddr
read_v4 = do
  addr ← read_exact 4
  port ← read_port
  pure (
      socket_addr
        (IpAddr.v4 (record { a = at addr 0; b = at addr 1; c = at addr 2; d = at addr 3 })) port)

unfoldable pub read_v6 : Io SocketAddr
read_v6 = do
  addr ← read_exact 16
  port ← read_port
  pure (socket_addr (IpAddr.v6 (record { octets = addr })) port)

module _ (r : Resolver) where
  unfoldable pub read_name : Io SocketAddr
  read_name = do
    len ← read_exact 1
    host ← read_exact (at len 0)
    port ← read_port
    resolved ← ok_or (r.lookup_host (r.from_utf8_lossy host) port) lookup_failed
    ok_or (first resolved) failed_to_resolve_host

  unfoldable pub read_addr_with_atyp : ℕ → Io SocketAddr
  read_addr_with_atyp atyp =
      if atyp == 1
      then read_v4
      else if atyp == 4
      then read_v6
      else if atyp == 3
      then read_name
      else fail (unsupported_address_type atyp)

  unfoldable pub read_reply : Io SocketAddr
  read_reply = do
    header ← read_exact 4
    fail_if (not (at header 0 == 5)) (invalid_response_version (at header 0))
    fail_if (not (at header 1 == 0)) (request_failed (at header 1))
    read_addr_with_atyp (at header 3)

  unfoldable pub send_request : Command → SocketAddr → Io SocketAddr
  send_request cmd dst = do write_all (encode_addr (5 ∷ as_byte cmd ∷ 0 ∷ []) dst); read_reply

  -- The stream is the result in the source; here it is what the dialogue leaves.
  unfoldable pub connect_tcp : Socks5Dialer → SocketAddr → Io (Unit {0})
  connect_tcp d dst = do
    handshake d.auth
    _ ← send_request connect (maybe_map_ipv4_to_ipv6_mapped dst d.prefer_ipv4_mapped_ipv6)
    pure tt

  -- The address that the UDP socket is then connected to.
  unfoldable pub associate_udp : Socks5Dialer → Io SocketAddr
  associate_udp d = do
    handshake d.auth
    relay ← send_request udp_associate (socket_addr (IpAddr.v4 unspecified_v4) 0)
    pure (normalize_udp_relay relay d.proxy_addr)
