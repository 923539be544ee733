-- ===== src/Proxy/Listener.antt =====
-- The state of `TransparentProxy` in proxy/transparent_proxy.rs that its starting and stopping
-- touch. Sockets are the operating system's: binding one and asking for its port are parameters.
-- A spawned task is named by the loop that it runs.
use proxifyre_rs.Prelude.{ℕ, Bool, true, false, List, [], ◌∷◌, ◌++◌, Result, ok, err}
use proxifyre_rs.Proxy.Dialer.{Socks5Dialer}

pub data Task : Type 0 where
  accept_tcp_connections udp_worker_loop accept_udp_connections : Task

pub record TransparentProxy : Type 0 where
  pub port : ℕ
  pub socks5 : Socks5Dialer
  pub tcp_port_v4 : ℕ
  pub tcp_port_v6 : ℕ
  pub udp_port_v4 : ℕ
  pub udp_port_v6 : ℕ
  pub shutdown : Bool
  pub handles : List Task

unfoldable pub new : ℕ → Socks5Dialer → TransparentProxy
new local_proxy_port socks5 = record {
  port = local_proxy_port;
  socks5 = socks5;
  tcp_port_v4 = 0;
  tcp_port_v6 = 0;
  udp_port_v4 = 0;
  udp_port_v6 = 0;
  shutdown = false;
  handles = [];
}

-- What the operating system offers. `local_addrs` are the two addresses that the line of the log asks
-- for again.
pub record Sockets (E : Type 0) : Type 1 where
  pub Socket : Type 0
  pub bind_dual_stack_tcp : ℕ → Result E Socket
  pub bind_dual_stack_udp : ℕ → Result E Socket
  pub local_port : Socket → Result E ℕ
  pub local_addrs : Socket → Socket → Result E (Unit {0})

module _ {E : Type 0} (os : Sockets E) where
  open os use {Socket, bind_dual_stack_tcp, bind_dual_stack_udp, local_port, local_addrs}

  -- The ports have been written when the addresses are asked for again.
  spawn : Socket → Socket → TransparentProxy → TransparentProxy × Result E (Unit {0})
  spawn tcp_listener udp_listener p = elim (local_addrs tcp_listener udp_listener) [
    | err e ↦ (p, err e)
    | ok _ ↦ (
      record p {
        handles =
            p.handles ++ accept_tcp_connections ∷ udp_worker_loop ∷ accept_udp_connections ∷ [];
      },
      ok tt,
    )
  ]

  bind_udp : Socket → TransparentProxy → TransparentProxy × Result E (Unit {0})
  unfolding spawn
  bind_udp tcp_listener p = elim (bind_dual_stack_udp p.port) [
    | err e ↦ (p, err e)
    | ok udp_listener ↦ elim (local_port udp_listener) [
      | err e ↦ (p, err e)
      | ok udp_port ↦
          spawn tcp_listener udp_listener
            (record p { udp_port_v4 = udp_port; udp_port_v6 = udp_port })
    ]
  ]

  -- The TCP ports stay written where the UDP bind fails, and all of them where the line of the log fails.
  unfoldable pub start : TransparentProxy → TransparentProxy × Result E (Unit {0})
  unfolding bind_udp
  start p = elim (bind_dual_stack_tcp p.port) [
    | err e ↦ (p, err e)
    | ok tcp_listener ↦ elim (local_port tcp_listener) [
      | err e ↦ (p, err e)
      | ok tcp_port ↦
          bind_udp tcp_listener (record p { tcp_port_v4 = tcp_port; tcp_port_v6 = tcp_port })
    ]
  ]

unfoldable pub stop : TransparentProxy → TransparentProxy
stop p = record p { shutdown = true; handles = [] }
