-- ===== src/Tests/Cells.antt =====
-- The cells of the headers of a small wire format.
use proxifyre_rs.Net.{Ipv4Addr}
use proxifyre_rs.Prelude.{ℕ, ◌≡◌, refl, Option, none, some, List, [], ◌∷◌, arith}
use proxifyre_rs.Tests.Layout.{Layout}

pub record EthernetCells : Type 0 where
  pub dst : ℕ
  pub src : ℕ
  pub ethertype : ℕ

pub record IpCells : Type 0 where
  pub src_addr : Ipv4Addr
  pub dst_addr : Ipv4Addr
  pub protocol : ℕ
  pub checksum : ℕ

pub record TcpCells : Type 0 where
  pub src_port : ℕ
  pub dst_port : ℕ
  pub syn : ℕ
  pub ack : ℕ
  pub rst : ℕ
  pub fin : ℕ
  pub checksum : ℕ

unfoldable pub view_ethernet : List ℕ → Option (EthernetCells × List ℕ)
view_ethernet (d ∷ s ∷ t ∷ p) = some (record { dst = d; src = s; ethertype = t }, p)
view_ethernet _ = none

unfoldable pub build_ethernet : EthernetCells → List ℕ → List ℕ
build_ethernet c p = c.dst ∷ c.src ∷ c.ethertype ∷ p

pub build-view_ethernet :
    (b : List ℕ) (c : EthernetCells) (p : List ℕ)
    → view_ethernet b ≡ some (c, p)
    → b ≡ build_ethernet c p
unfolding view_ethernet build_ethernet
build-view_ethernet ([]) cells q k = absurd (ground arith)
build-view_ethernet (d ∷ []) cells q k = absurd (ground arith)
build-view_ethernet (d ∷ s ∷ []) cells q k = absurd (ground arith)
build-view_ethernet (d ∷ s ∷ t ∷ p) cells q k = ground arith

unfoldable pub layout_ethernet : Layout EthernetCells
unfolding view_ethernet build_ethernet
layout_ethernet = record {
  view = view_ethernet;
  build = build_ethernet;
  size = 3;
  view-build = λ c p. refl;
  build-view = build-view_ethernet;
  length-build = λ c p. omega arith;
}

unfoldable pub view_ip : List ℕ → Option (IpCells × List ℕ)
view_ip (a ∷ b ∷ c ∷ d ∷ e ∷ f ∷ g ∷ h ∷ i ∷ j ∷ p) = some (
  record {
    src_addr = record { a = a; b = b; c = c; d = d };
    dst_addr = record { a = e; b = f; c = g; d = h };
    protocol = i;
    checksum = j;
  },
  p,
)
view_ip _ = none

unfoldable pub build_ip : IpCells → List ℕ → List ℕ
build_ip c p =
    c.src_addr.a ∷ c.src_addr.b ∷ c.src_addr.c ∷ c.src_addr.d ∷ c.dst_addr.a ∷ c.dst_addr.b
    ∷ c.dst_addr.c ∷ c.dst_addr.d ∷ c.protocol ∷ c.checksum ∷ p

pub build-view_ip :
    (b : List ℕ) (c : IpCells) (p : List ℕ) → view_ip b ≡ some (c, p) → b ≡ build_ip c p
unfolding view_ip build_ip
build-view_ip ([]) cells q k = absurd (ground arith)
build-view_ip (a ∷ []) cells q k = absurd (ground arith)
build-view_ip (a ∷ b ∷ []) cells q k = absurd (ground arith)
build-view_ip (a ∷ b ∷ c ∷ []) cells q k = absurd (ground arith)
build-view_ip (a ∷ b ∷ c ∷ d ∷ []) cells q k = absurd (ground arith)
build-view_ip (a ∷ b ∷ c ∷ d ∷ e ∷ []) cells q k = absurd (ground arith)
build-view_ip (a ∷ b ∷ c ∷ d ∷ e ∷ f ∷ []) cells q k = absurd (ground arith)
build-view_ip (a ∷ b ∷ c ∷ d ∷ e ∷ f ∷ g ∷ []) cells q k = absurd (ground arith)
build-view_ip (a ∷ b ∷ c ∷ d ∷ e ∷ f ∷ g ∷ h ∷ []) cells q k = absurd (ground arith)
build-view_ip (a ∷ b ∷ c ∷ d ∷ e ∷ f ∷ g ∷ h ∷ i ∷ []) cells q k = absurd (ground arith)
build-view_ip (a ∷ b ∷ c ∷ d ∷ e ∷ f ∷ g ∷ h ∷ i ∷ j ∷ p) cells q k = ground arith

unfoldable pub layout_ip : Layout IpCells
unfolding view_ip build_ip
layout_ip = record {
  view = view_ip;
  build = build_ip;
  size = 10;
  view-build = λ c p. refl;
  build-view = build-view_ip;
  length-build = λ c p. omega arith;
}

unfoldable pub view_tcp : List ℕ → Option (TcpCells × List ℕ)
view_tcp (a ∷ b ∷ c ∷ d ∷ e ∷ f ∷ g ∷ p) =
    some
      (record { src_port = a; dst_port = b; syn = c; ack = d; rst = e; fin = f; checksum = g }, p)
view_tcp _ = none

unfoldable pub build_tcp : TcpCells → List ℕ → List ℕ
build_tcp c p = c.src_port ∷ c.dst_port ∷ c.syn ∷ c.ack ∷ c.rst ∷ c.fin ∷ c.checksum ∷ p

pub build-view_tcp :
    (b : List ℕ) (c : TcpCells) (p : List ℕ) → view_tcp b ≡ some (c, p) → b ≡ build_tcp c p
unfolding view_tcp build_tcp
build-view_tcp ([]) cells q k = absurd (ground arith)
build-view_tcp (a ∷ []) cells q k = absurd (ground arith)
build-view_tcp (a ∷ b ∷ []) cells q k = absurd (ground arith)
build-view_tcp (a ∷ b ∷ c ∷ []) cells q k = absurd (ground arith)
build-view_tcp (a ∷ b ∷ c ∷ d ∷ []) cells q k = absurd (ground arith)
build-view_tcp (a ∷ b ∷ c ∷ d ∷ e ∷ []) cells q k = absurd (ground arith)
build-view_tcp (a ∷ b ∷ c ∷ d ∷ e ∷ f ∷ []) cells q k = absurd (ground arith)
build-view_tcp (a ∷ b ∷ c ∷ d ∷ e ∷ f ∷ g ∷ p) cells q k = ground arith

unfoldable pub layout_tcp : Layout TcpCells
unfolding view_tcp build_tcp
layout_tcp = record {
  view = view_tcp;
  build = build_tcp;
  size = 7;
  view-build = λ c p. refl;
  build-view = build-view_tcp;
  length-build = λ c p. omega arith;
}
