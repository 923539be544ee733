-- ===== src/Proxy/Associations/Worker.antt =====
-- The worker and the readers of proxy/transparent_proxy.rs as a transition system: `udp_worker_loop`
-- and `handle_udp_packet` give up the locks between two steps, and the readers run there.
pub mod Bound
pub mod Served
pub mod Path
use proxifyre_rs.Net.{IpAddr, SocketAddr}
use proxifyre_rs.Prelude.{
  ℕ, ◌≡◌, Bool, true, false, Option, none, some, List, [], ◌∷◌, ◌++◌, get_elem?, if◌then◌else◌,
}
use proxifyre_rs.Proxy.Associations.{
  UdpState, local_key, cleanup_stale_udp_associations, reap, find_assoc, limit_reached, attach,
  reader_reply, reader_end,
}
use proxifyre_rs.Proxy.Readers.{UdpAssociationKey, Reader}

-- The packet that is being handled.
pub record Job : Type 0 where
  pub client_addr : SocketAddr
  pub dst_ip : IpAddr
  pub dst_port : ℕ
  pub packet : List ℕ

-- Where the worker stands: between two packets, or in `handle_udp_packet` after no association was
-- found, after the cleanup, after the reaping, while `udp_associate` runs, or about to send.
pub data Phase : Type 0 where
  idle : Phase
  not_found cleaned reaped associating : Job → Phase
  sending : Job → ℕ → Phase

pub record System : Type 0 where
  pub phase : Phase
  pub state : UdpState

abbrev pub at : Phase → UdpState → System
at p s = record { phase = p; state = s }

abbrev pub job_key : Job → UdpAssociationKey
job_key j = local_key j.dst_ip j.client_addr

-- The look-up of a packet whose destination is known.
unfoldable pub receive : Job → ℕ → UdpState → System
unfolding find_assoc
receive j now s =
    let (found, s') = find_assoc (job_key j) now s in
    elim found [ none ↦ at (not_found j) s' | some assoc ↦ at (sending j assoc) s' ]

-- The packet is dropped where the limit is reached.
unfoldable pub check_limit : Job → UdpState → System
unfolding limit_reached
check_limit j s = if limit_reached s then at idle s else at (associating j) s

-- `udp_associate` has returned.
unfoldable pub associated : Job → Option ℕ → ℕ → UdpState → System
unfolding attach
associated j none now s = at idle s
associated j (some assoc) now s =
    let (used, s') = attach (job_key j) assoc j.client_addr now s in at (sending j used) s'

pub data Step : System → System → Type 0 where
  tick :
      (now : ℕ) (s : UdpState) → Step (at idle s) (at idle (cleanup_stale_udp_associations now s))
  packet : (j : Job) (now : ℕ) (s : UdpState) → Step (at idle s) (receive j now s)
  clean :
      (j : Job) (now : ℕ) (s : UdpState)
      → Step (at (not_found j) s) (at (cleaned j) (cleanup_stale_udp_associations now s))
  reap_handles : (j : Job) (s : UdpState) → Step (at (cleaned j) s) (at (reaped j) (reap s))
  limit : (j : Job) (s : UdpState) → Step (at (reaped j) s) (check_limit j s)
  associate :
      (j : Job) (result : Option ℕ) (now : ℕ) (s : UdpState)
      → Step (at (associating j) s) (associated j result now s)
  sent : (j : Job) (assoc : ℕ) (s : UdpState) → Step (at (sending j assoc) s) (at idle s)
  reply :
      (p : Phase) (i : ℕ) (h : Reader) (now : ℕ) (s : UdpState)
      → get_elem? s.udp_reader_handles i ≡ some h
      → h.is_finished ≡ false
      → Step (at p s) (at p (reader_reply h now s))
  end_reader :
      (p : Phase) (i : ℕ) (h : Reader) (s : UdpState)
      → get_elem? s.udp_reader_handles i ≡ some h
      → h.is_finished ≡ false
      → Step (at p s) (at p (reader_end i h s))

pub data Steps (a : System) : System → Type 0 where
  done : Steps a a
  more : {b c : System} → Steps a b → Step b c → Steps a c

abbrev pub initial : System
initial = at idle (record { udp_connections = []; udp_reader_handles = [] })
