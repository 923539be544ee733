-- ===== src/Router/PacketInfo.antt =====
-- router/packet.rs: what is read from a packet, and what is to be written to it.
use proxifyre_rs.Prelude.{ℕ, Bool, true, false}
use proxifyre_rs.Net.{IpAddr, SocketAddr, socket_addr}

pub data ProxyDirection : Type 0 where
  to_proxy from_proxy : ProxyDirection

pub data PortRewrite : Type 0 where
  to_proxy : ℕ → PortRewrite
  from_proxy : ℕ → PortRewrite

pub data PacketKind : Type 0 where
  tcp_v4 tcp_v6 udp_v4 udp_v6 : PacketKind

unfoldable pub is_v6 : PacketKind → Bool
is_v6 tcp_v4 = false
is_v6 tcp_v6 = true
is_v6 udp_v4 = false
is_v6 udp_v6 = true

pub record PacketInfo : Type 0 where
  pub kind : PacketKind
  pub src_ip : IpAddr
  pub dst_ip : IpAddr
  pub src_port : ℕ
  pub dst_port : ℕ
  pub syn : Bool
  pub ack : Bool
  pub rst : Bool
  pub fin : Bool

-- `SocketAddr::new(info.src_ip, info.src_port)` and the same of the destination.
abbrev pub src : PacketInfo → SocketAddr
src i = socket_addr i.src_ip i.src_port

abbrev pub dst : PacketInfo → SocketAddr
dst i = socket_addr i.dst_ip i.dst_port
