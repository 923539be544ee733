-- ===== src/Proxy/Codec/NoPanic.antt =====
-- No datagram makes the parser read outside of it, whatever the relay sends.
use proxifyre_rs.Prelude.{
  ℕ, ◌+◌, ◌≤◌, ◌≢◌, List, ◌++◌, ok, err, Result-cases, inl, inr, arith, length, drop, length-append,
}
use proxifyre_rs.Net.{SocketAddr}
use proxifyre_rs.Proxy.Buffer.{io, panic, copy_within, index_total, slice_total}
use proxifyre_rs.Proxy.Codec.{
  Resolver, DatagramError, Parsed, parse_v4, parse_v6, parse_domain, parse_domain_tail,
  parse_udp_response, recv_datagram,
}

-- A result that is no panic, with an offset inside the datagram.
abbrev pub Within : ℕ → Parsed (ℕ × SocketAddr) → Type 0
Within n (ok (offset, addr)) = offset ≤ n
Within n (err (io e)) = Unit
Within n (err panic) = ⊥

parse_v4-Within : (buf : List ℕ) → Within (length buf) (parse_v4 buf)
unfolding parse_v4
parse_v4-Within buf = ground (
  arith,
  index_total {E = DatagramError} buf 4,
  index_total {E = DatagramError} buf 5,
  index_total {E = DatagramError} buf 6,
  index_total {E = DatagramError} buf 7,
  index_total {E = DatagramError} buf 8,
  index_total {E = DatagramError} buf 9,
)

parse_v6-Within : (buf : List ℕ) → Within (length buf) (parse_v6 buf)
unfolding parse_v6
parse_v6-Within buf = ground (
  arith,
  slice_total {E = DatagramError} buf 4 20,
  index_total {E = DatagramError} buf 20,
  index_total {E = DatagramError} buf 21,
)

module _ (r : Resolver) where
  parse_domain_tail-Within :
      (buf : List ℕ) (len : ℕ) → 5 ≤ length buf → Within (length buf) (parse_domain_tail r buf len)
  unfolding parse_domain_tail
  parse_domain_tail-Within buf len h = ground (
    arith,
    slice_total {E = DatagramError} buf 5 (5 + len),
    index_total {E = DatagramError} buf (5 + len),
    index_total {E = DatagramError} buf (5 + len + 1),
  )

  parse_domain-Within : (buf : List ℕ) → Within (length buf) (parse_domain r buf)
  unfolding parse_domain
  parse_domain-Within buf =
      grind (arith, index_total {E = DatagramError} buf 4, parse_domain_tail-Within buf)

  -- For every sequence of bytes, the parser returns an error of its own or an offset that lies in
  -- the datagram: none of its reads is out of bounds.
  pub parse_udp_response-Within : (buf : List ℕ) → Within (length buf) (parse_udp_response r buf)
  unfolding parse_udp_response
  parse_udp_response-Within buf = ground (
    arith,
    index_total {E = DatagramError} buf 0,
    index_total {E = DatagramError} buf 1,
    index_total {E = DatagramError} buf 2,
    index_total {E = DatagramError} buf 3,
    parse_v4-Within buf,
    parse_v6-Within buf,
    parse_domain-Within buf,
  )

  -- A datagram that fits the buffer is received without a panic.
  pub recv_datagram-ne-panic :
      (buf packet : List ℕ) → length packet ≤ length buf → recv_datagram r buf packet ≢ err panic
  unfolding recv_datagram copy_within
  recv_datagram-ne-panic buf packet h q =
      let filled = packet ++ drop (length packet) buf in
      let size = length-append packet (drop (length packet) buf) in
      elim (Result-cases (parse_udp_response r packet)) [
        | inl (e, p) ↦ ground (arith, p, q, parse_udp_response-Within packet)
        | inr (a, p) ↦ ground (
          arith,
          p,
          q,
          size,
          parse_udp_response-Within packet,
          slice_total {E = DatagramError} filled a.0 (length packet),
        )
      ]
