-- ===== src/Router/Choice.antt =====
-- Which processes are proxied: the choice of a proxy in router/flow.rs.
use proxifyre_rs.Prelude.{
  ℕ, zero, suc, ◌≡◌, refl, true, false, Option, none, some, List, [], ◌∷◌, Text, contains, length,
  get_elem?, get_elem?_total, arith, Bool-cases, Option-cases, inl, inr,
}
use proxifyre_rs.Proxy.Listener.{TransparentProxy}
use proxifyre_rs.Router.Lifecycle.Invariant.{IsRouter, AllValid}
use proxifyre_rs.Router.State.{SocksLocalRouter, find_proxy, get_proxy_port_tcp, get_proxy_port_udp}

-- No associated name occurs in the path.
abbrev pub AllAbsent : Text → List (Text × ℕ) → Type 0
AllAbsent path [] = Unit
AllAbsent path ((name, proxy_id) ∷ names) = (contains path name ≡ false) × AllAbsent path names

-- A proxy is chosen for a name that occurs in the path, and none where no name does.
abbrev pub Chosen :
    Text → List TransparentProxy → List (Text × ℕ) → Option TransparentProxy → Type 0
Chosen path proxies names none = AllAbsent path names
Chosen path proxies names (some proxy) =
    (i : ℕ) × (name : Text) × (proxy_id : ℕ) × (get_elem? names i ≡ some (name, proxy_id))
    × (contains path name ≡ true)
    × (get_elem? proxies proxy_id ≡ some proxy)

Chosen-later :
    (path : Text) (proxies : List TransparentProxy) (names : List (Text × ℕ)) (name : Text)
    (proxy_id : ℕ) (found : Option TransparentProxy)
    → contains path name ≡ false
    → Chosen path proxies names found
    → Chosen path proxies ((name, proxy_id) ∷ names) found
Chosen-later path proxies names name proxy_id none absent h = (absent, h)
Chosen-later path proxies names name proxy_id (some p) absent (i, n, j, at_i, here, proxy) =
    (suc i, n, j, at_i, here, proxy)

find_proxy-Chosen :
    (path : Text) (proxies : List TransparentProxy) (names : List (Text × ℕ))
    → AllValid names (length proxies)
    → Chosen path proxies names (find_proxy path proxies names)
unfolding find_proxy
find_proxy-Chosen path proxies [] valid = tt
find_proxy-Chosen path proxies ((name, proxy_id) ∷ names) valid =
    elim (Bool-cases (contains path name)) [
      | inl here ↦
          let (proxy, e) = get_elem?_total proxies proxy_id valid.0 in
          rw (here, e) (zero, name, proxy_id, refl, here, e)
      | inr absent ↦ rw absent (
          Chosen-later path proxies names name proxy_id (find_proxy path proxies names) absent
            (find_proxy-Chosen path proxies names valid.1))
    ]

-- A port of the chosen proxy, 0 where there is none.
abbrev pub port_of : Option TransparentProxy → (TransparentProxy → ℕ) → ℕ
port_of none f = 0
port_of (some proxy) f = f proxy

ports_lem :
    (r : SocksLocalRouter) (path : Text)
    → let found = find_proxy path r.proxies r.name_to_proxy in
      (get_proxy_port_tcp r path false ≡ port_of found (λ p. p.tcp_port_v4))
      × (get_proxy_port_tcp r path true ≡ port_of found (λ p. p.tcp_port_v6))
      × (get_proxy_port_udp r path false ≡ port_of found (λ p. p.udp_port_v4))
      × (get_proxy_port_udp r path true ≡ port_of found (λ p. p.udp_port_v6))
unfolding get_proxy_port_tcp get_proxy_port_udp
ports_lem r path = elim (Option-cases (find_proxy path r.proxies r.name_to_proxy)) [
  | inl e ↦ ground arith
  | inr (proxy, e) ↦ ground arith
]

-- In a router that keeps its invariant, one choice explains the four ports that a process path gets:
-- a proxy with a name that occurs in the path, and they are its ports for TCP and UDP, IPv4 and IPv6;
-- or none, where no name occurs in the path, and they are 0.
pub get_proxy_port-Chosen :
    (r : SocksLocalRouter) (path : Text)
    → IsRouter r
    → (found : Option TransparentProxy) × Chosen path r.proxies r.name_to_proxy found
      × (get_proxy_port_tcp r path false ≡ port_of found (λ p. p.tcp_port_v4))
      × (get_proxy_port_tcp r path true ≡ port_of found (λ p. p.tcp_port_v6))
      × (get_proxy_port_udp r path false ≡ port_of found (λ p. p.udp_port_v4))
      × (get_proxy_port_udp r path true ≡ port_of found (λ p. p.udp_port_v6))
get_proxy_port-Chosen r path i =
    let (t4, t6, u4, u6) = ports_lem r path in
    (
      find_proxy path r.proxies r.name_to_proxy,
      find_proxy-Chosen path r.proxies r.name_to_proxy i.0,
      t4,
      t6,
      u4,
      u6,
    )
