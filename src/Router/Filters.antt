-- ===== src/Router/Filters.antt =====
-- router/filters.rs: the static filters. A filter is the arguments that the source hands to the
-- constructors of the ndisapi crate; what the driver does with it is the crate's.
use proxifyre_rs.Prelude.{
  ℕ, Bool, true, false, Option, none, some, List, [], ◌∷◌, replicate, if◌then◌else◌,
}
use proxifyre_rs.Net.{Ipv4Addr, Ipv6Addr, octets_v4}

pub data Direction : Type 0 where
  on_send on_receive on_both : Direction

-- `IpSubnetV4` and `IpSubnetV6`: the octets of the address and of the mask, in network order.
pub data DestAddress : Type 0 where
  ip_subnet_v4 : List ℕ → List ℕ → DestAddress
  ip_subnet_v6 : List ℕ → List ℕ → DestAddress

pub data NetworkLayer : Type 0 where
  ipv4 ipv6 : NetworkLayer

pub record PortRange : Type 0 where
  pub start : ℕ
  pub end : ℕ

pub data PortFlag : Type 0 where
  src_port dest_port : PortFlag

pub record TcpUdpFilter : Type 0 where
  pub flag : PortFlag
  pub src_range : PortRange
  pub dest_range : PortRange

-- `dest` is set with the flag `DEST_ADDRESS`, and `transport` with `TRANSPORT_LAYER_VALID`. The
-- action is always FILTER_PACKET_PASS and the adapter 0, for all adapters.
pub record StaticFilter : Type 0 where
  pub direction : Direction
  pub network : NetworkLayer
  pub protocol : ℕ
  pub dest : Option DestAddress
  pub transport : Option TcpUdpFilter

abbrev pub ipproto_icmp : ℕ
ipproto_icmp = 1

abbrev pub ipproto_tcp : ℕ
ipproto_tcp = 6

abbrev pub ipproto_udp : ℕ
ipproto_udp = 17

abbrev pub any_port : PortRange
any_port = record { start = 0; end = 0 }

unfoldable pub build_icmp_pass_filter : StaticFilter
build_icmp_pass_filter = record {
  direction = on_both;
  network = ipv4;
  protocol = ipproto_icmp;
  dest = none;
  transport = none;
}

unfoldable pub ipv4_subnet_filter : Ipv4Addr → Ipv4Addr → DestAddress
ipv4_subnet_filter ip mask = ip_subnet_v4 (octets_v4 ip) (octets_v4 mask)

unfoldable pub ipv6_subnet_filter : Ipv6Addr → Ipv6Addr → DestAddress
ipv6_subnet_filter ip mask = ip_subnet_v6 ip.octets mask.octets

-- The ranges and the flag, which the two builders compute alike.
port_match : Bool → ℕ → TcpUdpFilter
port_match match_src_port port =
    let port_range : PortRange = record { start = port; end = port } in
    if match_src_port
    then record { flag = src_port; src_range = port_range; dest_range = any_port }
    else record { flag = dest_port; src_range = any_port; dest_range = port_range }

unfoldable pub build_proxy_pass_filter : Direction → DestAddress → ℕ → Bool → ℕ → StaticFilter
unfolding port_match
build_proxy_pass_filter direction dest protocol match_src_port port = record {
  direction = direction;
  network = ipv4;
  protocol = protocol;
  dest = some dest;
  transport = some (port_match match_src_port port);
}

unfoldable pub build_proxy_pass_filter_v6 : Direction → DestAddress → ℕ → Bool → ℕ → StaticFilter
unfolding port_match
build_proxy_pass_filter_v6 direction dest protocol match_src_port port = record {
  direction = direction;
  network = ipv6;
  protocol = protocol;
  dest = some dest;
  transport = some (port_match match_src_port port);
}

unfoldable pub build_proxy_pass_filters_common :
    DestAddress → ℕ → (Direction → DestAddress → ℕ → Bool → ℕ → StaticFilter) → List StaticFilter
build_proxy_pass_filters_common dest port build =
    build on_send dest ipproto_tcp false port
    ∷ build on_receive dest ipproto_tcp true port
    ∷ build on_send dest ipproto_udp false port
    ∷ build on_receive dest ipproto_udp true port
    ∷ []

unfoldable pub build_proxy_pass_filters : Ipv4Addr → ℕ → List StaticFilter
unfolding build_proxy_pass_filters_common build_proxy_pass_filter ipv4_subnet_filter
build_proxy_pass_filters ip port =
    build_proxy_pass_filters_common
      (ipv4_subnet_filter ip (record { a = 255; b = 255; c = 255; d = 255 })) port
      build_proxy_pass_filter

unfoldable pub build_proxy_pass_filters_v6 : Ipv6Addr → ℕ → List StaticFilter
unfolding build_proxy_pass_filters_common build_proxy_pass_filter_v6 ipv6_subnet_filter
build_proxy_pass_filters_v6 ip port =
    build_proxy_pass_filters_common (ipv6_subnet_filter ip (record { octets = replicate 16 255 }))
      port build_proxy_pass_filter_v6
