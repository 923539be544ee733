-- ===== src/Router/Wire.antt =====
-- The `wire` module of the smoltcp crate, as router/packet.rs uses it. A view of a packet reads
-- bytes (`none` of `new_checked` is its error), and a setter writes through to them. The laws are
-- what the crate documents: a setter changes its own field of the view and no length, with a value
-- that fits the field: a port of 16 bits, or an address that was read from the other field.
use proxifyre_rs.Net.{Ipv4Addr, Ipv6Addr, IpAddr}
use proxifyre_rs.Prelude.{ℕ, ◌<◌, ◌≡◌, Bool, true, Option, some, List, length}

pub data EtherType : Type 0 where
  ipv4 ipv6 other : EtherType

pub data Protocol : Type 0 where
  tcp udp other : Protocol

-- An `EthernetAddress` as a number.
pub record Frame : Type 0 where
  pub src_addr : ℕ
  pub dst_addr : ℕ
  pub ethertype : EtherType
  pub payload : List ℕ

pub record IpHeader (A : Type 0) : Type 0 where
  pub src_addr : A
  pub dst_addr : A
  pub next_header : Protocol
  pub payload : List ℕ

-- A TCP segment or a UDP datagram, of its header what is used and the data after it; what the
-- flags of the latter are is left open.
pub record Segment : Type 0 where
  pub src_port : ℕ
  pub dst_port : ℕ
  pub syn : Bool
  pub ack : Bool
  pub rst : Bool
  pub fin : Bool
  pub payload : List ℕ

-- A value that fits its field can be read again.
pub record Setter {H X : Type 0} (read : List ℕ → Option H) (put : X → H → H) : Type 0 where
  pub fits : X → Bool
  pub write : X → List ℕ → List ℕ
  pub read-write :
      (x : X) (b : List ℕ) (h : H)
      → fits x ≡ true
      → read b ≡ some h
      → read (write x b) ≡ some (put x h)
  pub length-write : (x : X) (b : List ℕ) → length (write x b) ≡ length b

-- The computation of a checksum, which no field of the view shows.
pub record Filler {H : Type 0} (X : Type 0) (read : List ℕ → Option H) : Type 0 where
  pub write : X → List ℕ → List ℕ
  pub read-write : (x : X) (b : List ℕ) (h : H) → read b ≡ some h → read (write x b) ≡ some h
  pub length-write : (x : X) (b : List ℕ) → length (write x b) ≡ length b

-- Writes through `payload_mut`, which keep the length.
pub record PayloadSetter {H : Type 0} (read : List ℕ → Option H) (get : H → List ℕ)
    (put : List ℕ → H → H) : Type 0 where
  pub write : List ℕ → List ℕ → List ℕ
  pub read-write :
      (x b : List ℕ) (h : H)
      → length x ≡ length (get h)
      → read b ≡ some h
      → read (write x b) ≡ some (put x h)
  pub length-write : (x b : List ℕ) → length (write x b) ≡ length b

pub record IpLayer (A : Type 0) : Type 0 where
  pub read : List ℕ → Option (IpHeader A)
  pub set_src_addr : Setter read (λ a h. record h { src_addr = a })
  pub set_dst_addr : Setter read (λ a h. record h { dst_addr = a })
  pub fits_addr :
      (b : List ℕ) (h : IpHeader A)
      → read b ≡ some h
      → (set_src_addr.fits h.dst_addr ≡ true) × (set_dst_addr.fits h.src_addr ≡ true)
  pub set_payload : PayloadSetter read (λ h. h.payload) (λ p h. record h { payload = p })

-- `fill_checksum` takes the two addresses of the packet, and `verify_checksum` tests with them.
pub record Transport : Type 0 where
  pub read : List ℕ → Option Segment
  pub set_src_port : Setter read (λ p s. record s { src_port = p })
  pub set_dst_port : Setter read (λ p s. record s { dst_port = p })
  pub fits_port : (p : ℕ) → p < 65536 → (set_src_port.fits p ≡ true) × (set_dst_port.fits p ≡ true)
  pub fill_checksum : Filler (IpAddr × IpAddr) read
  pub verify_checksum : IpAddr → IpAddr → List ℕ → Bool
  pub verify-fill :
      (a : IpAddr × IpAddr) (b : List ℕ) (s : Segment)
      → read b ≡ some s
      → verify_checksum a.0 a.1 (fill_checksum.write a b) ≡ true

pub record Wire : Type 0 where
  pub ethernet : List ℕ → Option Frame
  pub set_src_addr : Setter ethernet (λ a f. record f { src_addr = a })
  pub set_dst_addr : Setter ethernet (λ a f. record f { dst_addr = a })
  pub fits_addr :
      (b : List ℕ) (f : Frame)
      → ethernet b ≡ some f
      → (set_src_addr.fits f.dst_addr ≡ true) × (set_dst_addr.fits f.src_addr ≡ true)
  pub set_payload : PayloadSetter ethernet (λ f. f.payload) (λ p f. record f { payload = p })
  pub ipv4 : IpLayer Ipv4Addr
  pub ipv6 : IpLayer Ipv6Addr
  pub fill_checksum : Filler (Unit {0}) ipv4.read
  pub verify_checksum : List ℕ → Bool
  pub verify-fill :
      (b : List ℕ) (h : IpHeader Ipv4Addr)
      → ipv4.read b ≡ some h
      → verify_checksum (fill_checksum.write tt b) ≡ true
  pub tcp : Transport
  pub udp : Transport
