-- ===== src/Tests/Endpoint.antt =====
-- Endpoints, written and parsed.
use proxifyre_rs.App.Configured.{owner, configure-IsConfigured}
use proxifyre_rs.App.{ServiceSettings, configure, associate_all}
use proxifyre_rs.HashMap.{get}
use proxifyre_rs.Router.Lifecycle.{
  Driver, Host, text_discrete, add_socks5_proxy, apply_static_filters, set_table,
  associate_process_name_to_proxy,
}
use proxifyre_rs.Router.Filters.{build_proxy_pass_filters, build_proxy_pass_filters_common}
use proxifyre_rs.Router.Selection.{fresh_router}
use proxifyre_rs.Net.{IpAddr, socket_addr, port, is_ipv6}
use proxifyre_rs.Prelude.{
  or_else, ◌<◌, ◌≡◌, refl, Bool, true, false, none, some, [], ◌∷◌, map, Text, codes, ok, arith,
  decimal, bytes_eq, if◌then◌else◌,
}
use proxifyre_rs.Proxy.Dialer.{Socks5Auth, Socks5Dialer}
use proxifyre_rs.Proxy.Endpoint.Accepted.{HasParts, HasScheme, new-IsDialer}
use proxifyre_rs.Proxy.Endpoint.RoundTrip.{new-show_endpoint}
use proxifyre_rs.Proxy.Endpoint.Shown.{
  Display, show_endpoint, is_ip_char, show_host, show_server, show_with_auth,
}
use proxifyre_rs.Proxy.Endpoint.Texts.{all}
use proxifyre_rs.Proxy.Endpoint.{
  Names, new, split_scheme, is_empty, parse_socks5_endpoint, is_scheme, parse_rest, split_last,
  parse_credentials, split_first, parse_server, split_host_port, trim_start, trim_end,
  is_whitespace, strip_brackets, resolve, parse_port, parse_u16, parse_digits,
}
use proxifyre_rs.Tests.Fixture.{ipv4}

abbrev loopback : IpAddr
loopback = ipv4 127 0 0 1

is_loopback : IpAddr → Bool
is_loopback (IpAddr.v4 a) = bytes_eq (a.a ∷ a.b ∷ a.c ∷ a.d ∷ []) (127 ∷ 0 ∷ 0 ∷ 1 ∷ [])
is_loopback (IpAddr.v6 a) = false

-- A system that knows one address.
abbrev names : Names
names = record {
  parse_ip = λ t. if bytes_eq t (codes "127.0.0.1") then some loopback else none;
  to_socket_addrs = λ t. some [];
}

only_loopback : (a : IpAddr) → is_loopback a ≡ true → some loopback ≡ some a
unfolding is_loopback
only_loopback (IpAddr.v4 a) h = ground arith
only_loopback (IpAddr.v6 a) h = absurd (ground arith)

abbrev display : Display names
unfolding all is_ip_char is_empty
display = record {
  show = λ a. codes "127.0.0.1";
  knows = is_loopback;
  parse_ip-show = only_loopback;
  show-is_ip_char = λ a h. refl;
  show-is_empty = λ a h. refl;
}

abbrev credentials : Socks5Auth
credentials = record { username = codes "user"; password = codes "p@ss:word" }

abbrev endpoint : Text
endpoint = codes "socks5h://user:p@ss:word@127.0.0.1:1080"

abbrev dialer : Socks5Dialer
dialer = record {
  proxy_addr = socket_addr loopback 1080;
  auth = some credentials;
  prefer_ipv4_mapped_ipv6 = false;
}

endpoint_shown : show_endpoint display true (some credentials) loopback 1080 ≡ endpoint
unfolding show_endpoint show_host show_server show_with_auth decimal display
endpoint_shown = refl

new-show_endpoint_example :
    new names (show_endpoint display true (some credentials) loopback 1080) ≡ ok dialer
unfolding is_loopback is_empty all display
new-show_endpoint_example =
    new-show_endpoint display true (some credentials) loopback 1080 refl (refl, refl, refl)
      (omega arith) (omega arith)

endpoint_parsed : new names endpoint ≡ ok dialer
unfolding new parse_socks5_endpoint split_scheme is_scheme parse_rest split_last parse_credentials
    split_first is_empty parse_server split_host_port trim_start trim_end is_whitespace
    strip_brackets resolve parse_port parse_u16 parse_digits
endpoint_parsed = refl

new-IsDialer_example :
    (0 < port dialer.proxy_addr)
    × (port dialer.proxy_addr < 65536)
    × HasParts dialer.auth
    × (dialer.prefer_ipv4_mapped_ipv6 ≡ is_ipv6 dialer.proxy_addr)
    × HasScheme (split_scheme endpoint)
new-IsDialer_example = new-IsDialer names endpoint dialer endpoint_parsed

abbrev settings : ServiceSettings
settings = record { app_names = codes "firefox" ∷ codes "steam" ∷ []; endpoint = endpoint } ∷ []

abbrev driver : Driver
driver = record { sets = λ filters. true; resets = true }

abbrev fresh : Host
fresh = record { router = fresh_router (codes "Ethernet"); installed = [] }

abbrev configured : Host
unfolding configure
configured = (configure driver names settings fresh).0

settings_taken : configure driver names settings fresh ≡ (configured, ok tt)
unfolding configured configure associate_all add_socks5_proxy apply_static_filters set_table
    associate_process_name_to_proxy build_proxy_pass_filters build_proxy_pass_filters_common
    parse_socks5_endpoint new split_scheme is_scheme parse_rest split_last parse_credentials
    split_first is_empty parse_server split_host_port trim_start trim_end is_whitespace
    strip_brackets resolve parse_port parse_u16 parse_digits
settings_taken = refl

configure-IsConfigured_example :
    (get text_discrete (codes "steam") configured.router.name_to_proxy
      ≡ or_else (owner (codes "steam") 0 settings) none)
    × (map (λ p. ok p.socks5) configured.router.proxies ≡ map (λ s. new names s.endpoint) settings)
unfolding get
configure-IsConfigured_example =
    configure-IsConfigured driver names settings fresh configured (codes "steam") settings_taken
