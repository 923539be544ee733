-- ===== src/Proxy/Codec/RoundTrip.antt =====
-- What the program sends to the relay, read back by what it receives with.
use proxifyre_rs.Prelude.{
  ℕ, ◌+◌, ◌-◌, ◌≡◌, refl, ap, sym, ◌∙◌, List, [], ◌∷◌, ◌++◌, ok, arith, length, drop, to_be_bytes,
  from_be_bytes, length-append, drop-append_length, append_assoc, from_be_bytes-to_be_bytes, ◌/◌,
  ◌%◌,
}
use proxifyre_rs.Net.{Ipv4Addr, Ipv6Addr, SocketAddr, socket_addr, ip, port, IsAddr}
use proxifyre_rs.Proxy.Buffer.{index, slice, copy_within, index-append, slice-append}
use proxifyre_rs.Proxy.Codec.{
  Resolver, DatagramError, encode_addr, build_udp_request, parse_v4, parse_v6, parse_udp_response,
  recv_datagram,
}

-- The length of the header before the payload.
abbrev pub header_length : SocketAddr → ℕ
header_length (SocketAddr.v4 a p) = 10
header_length (SocketAddr.v6 a p flow scope) = 22

-- A reader of the wire sees no flow information and no scope.
abbrev pub on_wire : SocketAddr → SocketAddr
on_wire s = socket_addr (ip s) (port s)

parse_v6-append :
    (octets payload : List ℕ) (hi lo : ℕ)
    → length octets ≡ 16
    → parse_v6 ((0 ∷ 0 ∷ 0 ∷ 4 ∷ []) ++ (octets ++ (hi ∷ lo ∷ payload)))
      ≡ ok (22, SocketAddr.v6 (record { octets = octets }) (from_be_bytes hi lo) 0 0)
unfolding parse_v6
parse_v6-append octets payload hi lo h =
    let header : List ℕ = 0 ∷ 0 ∷ 0 ∷ 4 ∷ [] in
    ground (
      arith,
      slice-append {E = DatagramError} header octets (hi ∷ lo ∷ payload) 4 20,
      index-append {E = DatagramError} (header ++ octets) hi (lo ∷ payload) 20,
      index-append {E = DatagramError} (header ++ octets ++ hi ∷ []) lo payload 21,
      append_assoc octets (hi ∷ []) (lo ∷ payload),
      length-append octets (hi ∷ []),
      length-append octets (hi ∷ lo ∷ payload),
    )

copy_within-append :
    (head payload rest : List ℕ) (start end : ℕ)
    → start ≡ length head
    → end ≡ length head + length payload
    → copy_within {E = DatagramError} (head ++ payload ++ rest) start end
      ≡ ok (payload ++ drop (length payload) (head ++ payload ++ rest))
unfolding copy_within
copy_within-append head payload rest start end hs he =
    let buf = head ++ payload ++ rest in
    let width : end - start ≡ length payload = omega arith in
    let moved : slice {E = DatagramError} buf start end ≡ ok payload =
      ap (λ b. slice b start end) (append_assoc head payload rest)
      ∙ slice-append head payload rest start end hs he in
    rw (moved, width) refl

module _ (r : Resolver) where
  parse_request_v4 :
      (a : Ipv4Addr) (p : ℕ) (buf payload : List ℕ)
      → parse_udp_response r (build_udp_request buf (SocketAddr.v4 a p) payload)
        ≡ ok (10, SocketAddr.v4 a p)
  unfolding parse_udp_response parse_v4 build_udp_request index
  parse_request_v4 a p buf payload = ground (arith, from_be_bytes-to_be_bytes p)

  parse_request_v6 :
      (a : Ipv6Addr) (p f s : ℕ) (buf payload : List ℕ)
      → length a.octets ≡ 16
      → parse_udp_response r (build_udp_request buf (SocketAddr.v6 a p f s) payload)
        ≡ ok (22, SocketAddr.v6 a p 0 0)
  unfolding parse_udp_response build_udp_request index
  parse_request_v6 a p f s buf payload h = ground (
    arith,
    parse_v6-append a.octets payload (p / 256) (p % 256) h,
    from_be_bytes-to_be_bytes p,
    append_assoc a.octets (to_be_bytes p) payload,
  )

  -- A request that the program builds is read by its own parser: the offset is the length of the
  -- header, the address is the destination (a V6 destination without flow information and scope),
  -- and what follows the header is the payload. What was in the send buffer does not matter.
  pub parse_udp_response-build_udp_request :
      (dst : SocketAddr) (buf payload : List ℕ)
      → IsAddr dst
      → (parse_udp_response r (build_udp_request buf dst payload)
          ≡ ok (header_length dst, on_wire dst))
        × (drop (header_length dst) (build_udp_request buf dst payload) ≡ payload)
  unfolding build_udp_request
  parse_udp_response-build_udp_request (SocketAddr.v4 a p) buf payload h =
      (parse_request_v4 a p buf payload, refl)
  parse_udp_response-build_udp_request (SocketAddr.v6 a p f s) buf payload h = (
    parse_request_v6 a p f s buf payload h.0.1,
    ap (λ n. drop n (a.octets ++ to_be_bytes p ++ payload)) {x = 18}
          (omega (arith, length-append a.octets (to_be_bytes p)))
        ∙ drop-append_length (a.octets ++ to_be_bytes p) payload,
  )

  header :
      (dst : SocketAddr) (buf payload : List ℕ)
      → IsAddr dst
      → (head : List ℕ) × (build_udp_request buf dst payload ≡ head ++ payload)
        × (length head ≡ header_length dst)
  unfolding build_udp_request
  header (SocketAddr.v4 a p) buf payload h =
      (encode_addr (0 ∷ 0 ∷ 0 ∷ []) (SocketAddr.v4 a p), refl, refl)
  header (SocketAddr.v6 a p f s) buf payload h = (
    encode_addr (0 ∷ 0 ∷ 0 ∷ []) (SocketAddr.v6 a p f s),
    refl,
    omega (arith, length-append a.octets (to_be_bytes p)),
  )

  recv_of_parse :
      (head payload received : List ℕ) {offset : ℕ} {addr : SocketAddr}
      → parse_udp_response r (head ++ payload) ≡ ok (offset, addr)
      → offset ≡ length head
      → recv_datagram r received (head ++ payload)
        ≡ ok (
          length payload,
          addr,
          payload
              ++ drop
                  (length payload)
                  (head ++ payload ++ drop (length (head ++ payload)) received),
        )
  unfolding recv_datagram
  recv_of_parse head payload received {offset} parsed h =
      let n = length (head ++ payload) in
      let total : n ≡ length head + length payload = length-append head payload in
      let left : n - offset ≡ length payload = omega arith in
      rw (parsed, copy_within-append head payload (drop n received) offset n h total, left) refl

  -- A datagram that the relay sends back in the same form is received with the payload at the front
  -- of the buffer, its length, and the address in its header; nothing panics.
  pub recv_datagram-build_udp_request :
      (dst : SocketAddr) (buf received payload : List ℕ)
      → IsAddr dst
      → let packet = build_udp_request buf dst payload in
        recv_datagram r received packet
        ≡ ok (
          length payload,
          on_wire dst,
          payload ++ drop (length payload) (packet ++ drop (length packet) received),
        )
  recv_datagram-build_udp_request dst buf received payload h =
      let (head, built, len) = header dst buf payload h in
      let parsed = (parse_udp_response-build_udp_request dst buf payload h).0 in
      rw built (recv_of_parse head payload received (rw built at parsed) (sym len))
