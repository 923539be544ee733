-- ===== src/Tests/Wire.antt =====
-- A wire format that keeps the laws of Router/Wire: IPv4 only, with small checksums, and UDP with the
-- header of TCP.
mod Packets
mod Relay
mod App
mod Datagrams
mod Replies
use proxifyre_rs.Net.{Ipv4Addr, Ipv6Addr, IpAddr}
use proxifyre_rs.Prelude.{
  ℕ, ◌+◌, ◌≡◌, refl, ap, Bool, true, false, Option, none, some, List, [], ◌∷◌, length, arith, ◌==◌,
  if◌then◌else◌,
}
use proxifyre_rs.Router.Wire.{
  EtherType, Protocol, Frame, IpHeader, Segment, Setter, IpLayer, Transport, Wire,
}
use proxifyre_rs.Tests.Cells.{
  EthernetCells, IpCells, TcpCells, view_ip, view_tcp, layout_ethernet, layout_ip, layout_tcp,
}
use proxifyre_rs.Tests.Layout.{read, write, view-write, setter, filler, payload_setter}

ethertype_of : ℕ → EtherType
ethertype_of n = if n == 0 then EtherType.ipv4 else EtherType.other

protocol_of : ℕ → Protocol
protocol_of n = if n == 6 then Protocol.tcp else if n == 17 then Protocol.udp else Protocol.other

frame : EthernetCells → List ℕ → Frame
frame c p = record {
  src_addr = c.src;
  dst_addr = c.dst;
  ethertype = ethertype_of c.ethertype;
  payload = p;
}

header : IpCells → List ℕ → IpHeader Ipv4Addr
header c p = record {
  src_addr = c.src_addr;
  dst_addr = c.dst_addr;
  next_header = protocol_of c.protocol;
  payload = p;
}

segment : TcpCells → List ℕ → Segment
segment c p = record {
  src_port = c.src_port;
  dst_port = c.dst_port;
  syn = c.syn == 1;
  ack = c.ack == 1;
  rst = c.rst == 1;
  fin = c.fin == 1;
  payload = p;
}

weight : IpAddr → ℕ
weight (IpAddr.v4 a) = a.a + a.b + a.c + a.d
weight (IpAddr.v6 a) = 0

-- The checksum of a segment: both addresses and both ports.
sum_of : IpAddr × IpAddr → TcpCells → ℕ
unfolding weight
sum_of a c = weight a.0 + weight a.1 + c.src_port + c.dst_port

verify_tcp : IpAddr → IpAddr → List ℕ → Bool
unfolding sum_of view_tcp
verify_tcp a b s = elim (view_tcp s) [ none ↦ false | some (c, p) ↦ c.checksum == sum_of (a, b) c ]

verify_ip : List ℕ → Bool
unfolding view_ip
verify_ip b = elim (view_ip b) [
  | none ↦ false
  | some (c, p) ↦ c.checksum == weight (IpAddr.v4 c.src_addr)
]

eq_refl : (n : ℕ) → (n == n) ≡ true
eq_refl n = ground arith

fill_tcp : IpAddr × IpAddr → TcpCells → TcpCells
unfolding sum_of
fill_tcp a c = record c { checksum = sum_of a c }

verify_tcp-fill :
    (a : IpAddr × IpAddr) (b : List ℕ) (s : Segment)
    → read layout_tcp segment b ≡ some s
    → verify_tcp a.0 a.1 (write layout_tcp segment fill_tcp (λ x p. p) a b) ≡ true
unfolding verify_tcp fill_tcp sum_of layout_tcp
verify_tcp-fill a b s r =
    let (c, p, e) = view-write layout_tcp segment fill_tcp (λ x p. p) a b s r in
    rw (e, verify_tcp) (eq_refl (sum_of a c))

fill_ip : Unit {0} → IpCells → IpCells
unfolding weight
fill_ip u c = record c { checksum = weight (IpAddr.v4 c.src_addr) }

verify_ip-fill :
    (b : List ℕ) (h : IpHeader Ipv4Addr)
    → read layout_ip header b ≡ some h
    → verify_ip (write layout_ip header fill_ip (λ x p. p) tt b) ≡ true
unfolding verify_ip fill_ip weight layout_ip
verify_ip-fill b h r =
    let (c, p, e) = view-write layout_ip header fill_ip (λ x p. p) tt b h r in
    rw (e, verify_ip) (eq_refl (weight (IpAddr.v4 c.src_addr)))

abbrev tcp : Transport
unfolding segment fill_tcp layout_tcp
tcp = record {
  read = read layout_tcp segment;
  set_src_port = setter layout_tcp segment _ (λ x c. record c { src_port = x }) (λ x c p. refl);
  set_dst_port = setter layout_tcp segment _ (λ x c. record c { dst_port = x }) (λ x c p. refl);
  fits_port = λ p h. (refl, refl);
  fill_checksum = filler layout_tcp segment fill_tcp (λ x c p. refl);
  verify_checksum = verify_tcp;
  verify-fill = verify_tcp-fill;
}

-- A layer that reads nothing.
abbrev absent : {H X : Type 0} {put : X → H → H} → Setter (λ b. none) put
absent = record {
  fits = λ x. true;
  write = λ x b. b;
  read-write = λ x b h u r. absurd (ground arith);
  length-write = λ x b. refl;
}

abbrev no_ipv6 : IpLayer Ipv6Addr
no_ipv6 = record {
  read = λ b. none;
  set_src_addr = absent;
  set_dst_addr = absent;
  fits_addr = λ b h r. (refl, refl);
  set_payload = record {
    write = λ x b. b;
    read-write = λ x b h l r. absurd (ground arith);
    length-write = λ x b. refl;
  };
}

abbrev ipv4 : IpLayer Ipv4Addr
unfolding header
ipv4 = record {
  read = read layout_ip header;
  set_src_addr = setter layout_ip header _ (λ x c. record c { src_addr = x }) (λ x c p. refl);
  set_dst_addr = setter layout_ip header _ (λ x c. record c { dst_addr = x }) (λ x c p. refl);
  fits_addr = λ b h r. (refl, refl);
  set_payload = payload_setter layout_ip header _ _ (λ c p. refl) (λ x c p. refl);
}

abbrev wire : Wire
unfolding frame fill_ip header layout_ethernet layout_ip
wire = record {
  ethernet = read layout_ethernet frame;
  set_src_addr = setter layout_ethernet frame _ (λ x c. record c { src = x }) (λ x c p. refl);
  set_dst_addr = setter layout_ethernet frame _ (λ x c. record c { dst = x }) (λ x c p. refl);
  fits_addr = λ b h r. (refl, refl);
  set_payload = payload_setter layout_ethernet frame _ _ (λ c p. refl) (λ x c p. refl);
  ipv4 = ipv4;
  ipv6 = no_ipv6;
  fill_checksum = filler layout_ip header fill_ip (λ x c p. refl);
  verify_checksum = verify_ip;
  verify-fill = verify_ip-fill;
  tcp = tcp;
  udp = tcp;
}

-- The bytes of `syn_packet`, with the MAC addresses 1 and 2.
abbrev syn_bytes : List ℕ
syn_bytes =
    2 ∷ 1 ∷ 0 ∷ 192 ∷ 0 ∷ 2 ∷ 10 ∷ 203 ∷ 0 ∷ 113 ∷ 10 ∷ 6 ∷ 0 ∷ 53000 ∷ 443 ∷ 1 ∷ 0 ∷ 0 ∷ 0 ∷ 0 ∷ []
