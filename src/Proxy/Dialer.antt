-- ===== src/Proxy/Dialer.antt =====
-- proxy/socks5.rs: the data of `Socks5Dialer`.
use proxifyre_rs.Prelude.{Bool, Option, Text}
use proxifyre_rs.Net.{SocketAddr}

pub record Socks5Auth : Type 0 where
  pub username : Text
  pub password : Text

pub record Socks5Dialer : Type 0 where
  pub proxy_addr : SocketAddr
  pub auth : Option Socks5Auth
  pub prefer_ipv4_mapped_ipv6 : Bool
