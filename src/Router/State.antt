-- ===== src/Router/State.antt =====
-- `SocksLocalRouter` of router/mod.rs: its state, and the choice of a proxy in router/flow.rs.
use proxifyre_rs.Prelude.{
  ℕ, Bool, false, ◌||◌, Option, none, some, List, [], ◌∷◌, get_elem?, Text, contains, length,
  if◌then◌else◌, ◌==◌, ℕ_discrete,
}
use proxifyre_rs.Net.{IpAddr, ip_discrete}
use proxifyre_rs.Proxy.Listener.{TransparentProxy}
use proxifyre_rs.Router.Filters.{StaticFilter}
use proxifyre_rs.Router.Mappings.{TcpPortMapping, UdpMappings}

-- (destination, source, source port)
pub record TcpKey : Type 0 where
  pub dst_ip : IpAddr
  pub src_ip : IpAddr
  pub src_port : ℕ

unfoldable pub tcp_discrete : Discrete TcpKey
tcp_discrete = hlevel (ℕ_discrete, ip_discrete)

pub record SocksLocalRouter : Type 0 where
  pub adapter_name : Text
  pub tcp_connections : List (TcpKey × TcpPortMapping)
  pub udp_endpoints : UdpMappings
  pub proxies : List TransparentProxy
  pub name_to_proxy : List (Text × ℕ)
  pub static_filters : List StaticFilter
  pub shutdown : Bool
  pub restart : Bool
  pub is_active : Bool
  pub packet_task : Bool
  pub notify_handle : Option ℕ
  pub notify_context : Option ℕ
  pub bytes_sent : ℕ
  pub bytes_received : ℕ

-- The loop of `get_proxy_port_tcp` and `get_proxy_port_udp` over the names, in the map's order.
unfoldable pub find_proxy : Text → List TransparentProxy → List (Text × ℕ) → Option TransparentProxy
find_proxy path proxies [] = none
find_proxy path proxies ((name, proxy_id) ∷ names) =
    let rest = find_proxy path proxies names in
    if contains path name
    then elim (get_elem? proxies proxy_id) [ some proxy ↦ some proxy | none ↦ rest ]
    else rest

unfoldable pub get_proxy_port_tcp : SocksLocalRouter → Text → Bool → ℕ
get_proxy_port_tcp r process_path is_v6 = elim (find_proxy process_path r.proxies r.name_to_proxy) [
  | none ↦ 0
  | some proxy ↦ if is_v6 then proxy.tcp_port_v6 else proxy.tcp_port_v4
]

unfoldable pub get_proxy_port_udp : SocksLocalRouter → Text → Bool → ℕ
get_proxy_port_udp r process_path is_v6 = elim (find_proxy process_path r.proxies r.name_to_proxy) [
  | none ↦ 0
  | some proxy ↦ if is_v6 then proxy.udp_port_v6 else proxy.udp_port_v4
]

any_tcp_port : ℕ → List TransparentProxy → Bool
any_tcp_port port [] = false
any_tcp_port port (proxy ∷ proxies) =
    proxy.tcp_port_v4 == port || proxy.tcp_port_v6 == port || any_tcp_port port proxies

any_udp_port : ℕ → List TransparentProxy → Bool
any_udp_port port [] = false
any_udp_port port (proxy ∷ proxies) =
    proxy.udp_port_v4 == port || proxy.udp_port_v6 == port || any_udp_port port proxies

unfoldable pub is_tcp_proxy_port : SocksLocalRouter → ℕ → Bool
unfolding any_tcp_port
is_tcp_proxy_port r port = any_tcp_port port r.proxies

unfoldable pub is_udp_proxy_port : SocksLocalRouter → ℕ → Bool
unfolding any_udp_port
is_udp_proxy_port r port = any_udp_port port r.proxies

abbrev pub get_tcp_connection_count : SocksLocalRouter → ℕ
get_tcp_connection_count r = length r.tcp_connections

abbrev pub get_udp_connection_count : SocksLocalRouter → ℕ
get_udp_connection_count r = length r.udp_endpoints.by_flow

abbrev pub get_bytes_sent : SocksLocalRouter → ℕ
get_bytes_sent r = r.bytes_sent

abbrev pub get_bytes_received : SocksLocalRouter → ℕ
get_bytes_received r = r.bytes_received
