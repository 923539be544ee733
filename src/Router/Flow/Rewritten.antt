-- ===== src/Router/Flow/Rewritten.antt =====
-- What a packet looks like after `apply_rewrite` of router/packet.rs: the two addresses are
-- exchanged, and one port is replaced.
use proxifyre_rs.Router.PacketInfo.{PacketInfo, PortRewrite}

unfoldable pub rewritten : PortRewrite → PacketInfo → PacketInfo
rewritten (PortRewrite.to_proxy port) i = record i {
  src_ip = i.dst_ip;
  dst_ip = i.src_ip;
  dst_port = port;
}
rewritten (PortRewrite.from_proxy port) i = record i {
  src_ip = i.dst_ip;
  dst_ip = i.src_ip;
  src_port = port;
}
