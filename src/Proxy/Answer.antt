-- ===== src/Proxy/Answer.antt =====
-- What a reader of proxy/transparent_proxy.rs does with a datagram of the relay, in `spawn_udp_reader`.
use proxifyre_rs.Net.{SocketAddr}
use proxifyre_rs.Prelude.{ℕ, List, ok, err, take, ◌==◌, if◌then◌else◌}
use proxifyre_rs.Proxy.Codec.{Resolver, DatagramError, recv_datagram}
use proxifyre_rs.Proxy.Buffer.{Failure}

-- An empty payload is skipped, any other sent to the client by the listener; the reader ends after
-- what is no datagram with an address.
pub data Answer : Type 0 where
  skipped : Answer
  sent : List ℕ → SocketAddr → Answer
  destroyed : Failure DatagramError → Answer

unfoldable pub answer_of : Resolver → List ℕ → List ℕ → SocketAddr → Answer
answer_of names buf packet client_addr = elim (recv_datagram names buf packet) [
  | err e ↦ destroyed e
  | ok (payload_len, addr, buf') ↦
      if payload_len == 0 then skipped else sent (take payload_len buf') client_addr
]
