-- ===== src/Router/Flow/Answers.antt =====
-- What the router answers, and what it keeps of ports.
use proxifyre_rs.HashMap.Values.{
  get-AllValues, insert-AllValues, or_insert-AllValues, remove-AllValues, modify-AllValues,
  retain-AllValues,
}
use proxifyre_rs.HashMap.{get}
use proxifyre_rs.Net.{SocketAddr}
use proxifyre_rs.Prelude.{
  ℕ, ◌<◌, sym, subst, Bool, true, false, not, ◌&&◌, ◌||◌, Option, none, some, List, [], ◌∷◌, Text,
  Bool-cases, Option-cases, inl, inr, ◌==◌, if◌then◌else◌,
}
use proxifyre_rs.Router.Flow.{
  client_key, reply_key, client_flow, reply_flow, close_tcp, open_tcp, tcp_from_proxy, tcp_port_of,
  udp_port_of, tcp_syn, tcp_established, process_tcp_payload, udp_from_proxy, udp_lookup,
  process_udp_payload, cleanup_stale_udp_endpoints, Event, tcp, udp, cleanup, step, run,
}
use proxifyre_rs.Router.Mappings.{flow_discrete, retain_active, rebuild_peer_index}
use proxifyre_rs.Router.PacketInfo.{PacketInfo, PortRewrite}
use proxifyre_rs.Router.State.{
  SocksLocalRouter, TcpKey, tcp_discrete, is_tcp_proxy_port, is_udp_proxy_port,
}
use proxifyre_rs.Router.Flow.Ranges.{
  InRanges, TcpFits, UdpFits, PortsFit, EventFits, AllEventsFit, tcp_port_of-lt, udp_port_of-lt,
}
use proxifyre_rs.Router.Mappings.Index.{insert_flow-by_flow}

close_tcp-PortsFit :
    (r : SocksLocalRouter) (key : TcpKey) (i : PacketInfo)
    → PortsFit r
    → PortsFit (close_tcp r key i)
unfolding close_tcp
close_tcp-PortsFit r key i (ps, ts, us) = elim (Bool-cases (i.rst || i.fin)) [
  | inl e ↦
      rw (e, close_tcp) (ps, remove-AllValues TcpFits tcp_discrete key r.tcp_connections ts, us)
  | inr e ↦ rw (e, close_tcp) (ps, ts, us)
]

open_tcp-PortsFit :
    (r : SocksLocalRouter) (i : PacketInfo) (p : ℕ)
    → PortsFit r
    → i.dst_port < 65536
    → p < 65536
    → PortsFit (open_tcp r i p)
unfolding open_tcp
open_tcp-PortsFit r i p (ps, ts, us) d q =
    (ps, or_insert-AllValues TcpFits tcp_discrete (client_key i) _ r.tcp_connections (d, q) ts, us)

-- A step's state and the rewrite that it answers with.
abbrev pub Answered : SocksLocalRouter × Option PortRewrite → Type 0
Answered (r, o) = PortsFit r × InRanges o

tcp_from_proxy-Answered :
    (r : SocksLocalRouter) (i : PacketInfo) → PortsFit r → Answered (tcp_from_proxy r i)
unfolding tcp_from_proxy
tcp_from_proxy-Answered r i (ps, ts, us) = elim (Bool-cases (is_tcp_proxy_port r i.src_port)) [
  | inr e ↦ rw (e, tcp_from_proxy) ((ps, ts, us), tt)
  | inl e ↦ elim (Option-cases (get tcp_discrete (reply_key i) r.tcp_connections)) [
    | inl n ↦ rw (e, n, tcp_from_proxy) ((ps, ts, us), tt)
    | inr (entry, n) ↦
        rw (e, n, tcp_from_proxy)
          (
            close_tcp-PortsFit r (reply_key i) i (ps, ts, us),
            (get-AllValues TcpFits tcp_discrete (reply_key i) r.tcp_connections entry ts n).0,
          )
  ]
]

udp_from_proxy-Answered :
    (r : SocksLocalRouter) (i : PacketInfo) → PortsFit r → Answered (udp_from_proxy r i)
unfolding udp_from_proxy
udp_from_proxy-Answered r i (ps, ts, us) = elim (Bool-cases (is_udp_proxy_port r i.src_port)) [
  | inr e ↦ rw (e, udp_from_proxy) ((ps, ts, us), tt)
  | inl e ↦ elim (Option-cases (get flow_discrete (reply_flow i) r.udp_endpoints.by_flow)) [
    | inl n ↦ rw (e, n, udp_from_proxy) ((ps, ts, us), tt)
    | inr (entry, n) ↦
        rw (e, n, udp_from_proxy)
          (
            (ps, ts, us),
            (get-AllValues UdpFits flow_discrete (reply_flow i) r.udp_endpoints.by_flow entry us
                n).0,
          )
  ]
]

-- The end of `process_tcp_payload`.
abbrev then_proxy :
    PacketInfo → SocksLocalRouter × Option PortRewrite → SocksLocalRouter × Option PortRewrite
then_proxy i o = elim o.1 [ some w ↦ (o.0, some w) | none ↦ tcp_from_proxy o.0 i ]

then_proxy-Answered :
    (i : PacketInfo) (o : SocksLocalRouter × Option PortRewrite)
    → Answered o
    → Answered (then_proxy i o)
then_proxy-Answered i (r, none) a = tcp_from_proxy-Answered r i a.0
then_proxy-Answered i (r, some w) a = a

module _ (find_process_path : Bool → SocketAddr → SocketAddr → Option Text) where
  tcp_syn-Answered :
      (r : SocksLocalRouter) (i : PacketInfo)
      → PortsFit r
      → i.dst_port < 65536
      → Answered (tcp_syn find_process_path r i)
  unfolding tcp_syn
  tcp_syn-Answered r i h d =
      let port = tcp_port_of find_process_path r i in
      let lt = tcp_port_of-lt find_process_path r i h.0 in
      elim (Bool-cases (port == 0)) [
        | inl e ↦ rw (e, tcp_syn) (h, tt)
        | inr e ↦ rw (e, tcp_syn) (open_tcp-PortsFit r i port h d lt, lt)
      ]

  tcp_established-Answered :
      (r : SocksLocalRouter) (i : PacketInfo)
      → PortsFit r
      → Answered (tcp_established find_process_path r i)
  unfolding tcp_established
  tcp_established-Answered r i (ps, ts, us) =
      elim (Option-cases (get tcp_discrete (client_key i) r.tcp_connections)) [
        | inl n ↦ rw (n, tcp_established) ((ps, ts, us), tt)
        | inr (entry, n) ↦
            rw (n, tcp_established)
              (
                close_tcp-PortsFit r (client_key i) i (ps, ts, us),
                (get-AllValues TcpFits tcp_discrete (client_key i) r.tcp_connections entry ts n).1,
              )
      ]

  pub process_tcp_payload-Answered :
      (r : SocksLocalRouter) (i : PacketInfo)
      → PortsFit r
      → i.dst_port < 65536
      → Answered (process_tcp_payload find_process_path r i)
  unfolding process_tcp_payload
  process_tcp_payload-Answered r i h d =
      let o = λ (b : Bool).
        if b then tcp_syn find_process_path r i else tcp_established find_process_path r i in
      elim (Bool-cases (i.syn && not i.ack)) [
        | inl e ↦
            subst (λ b. Answered (then_proxy i (o b))) (sym e)
              (then_proxy-Answered i (o true) (tcp_syn-Answered r i h d))
        | inr e ↦
            subst (λ b. Answered (then_proxy i (o b))) (sym e)
              (then_proxy-Answered i (o false) (tcp_established-Answered r i h))
      ]

  udp_lookup-Answered :
      (r : SocksLocalRouter) (i : PacketInfo) (now : ℕ)
      → PortsFit r
      → i.dst_port < 65536
      → Answered (udp_lookup find_process_path r i now)
  unfolding udp_lookup
  udp_lookup-Answered r i now (ps, ts, us) d =
      let port = udp_port_of find_process_path r i in
      let lt = udp_port_of-lt find_process_path r i ps in
      elim (Bool-cases (port == 0)) [
        | inl e ↦ rw (e, udp_lookup) (udp_from_proxy-Answered r i (ps, ts, us))
        | inr e ↦
            rw (e, udp_lookup)
              (
                (
                  ps,
                  ts,
                  rw (insert_flow-by_flow r.udp_endpoints (client_flow i) _) (
                      insert-AllValues UdpFits flow_discrete (client_flow i) _
                        r.udp_endpoints.by_flow (d, lt) us),
                ),
                lt,
              )
      ]

  pub process_udp_payload-Answered :
      (r : SocksLocalRouter) (i : PacketInfo) (now : ℕ)
      → PortsFit r
      → i.dst_port < 65536
      → Answered (process_udp_payload find_process_path r i now)
  unfolding process_udp_payload
  process_udp_payload-Answered r i now (ps, ts, us) d =
      elim (Option-cases (get flow_discrete (client_flow i) r.udp_endpoints.by_flow)) [
        | inl n ↦ rw (n, process_udp_payload) (udp_lookup-Answered r i now (ps, ts, us) d)
        | inr (entry, n) ↦ elim (Bool-cases (entry.dst_port == i.dst_port)) [
          | inr e ↦ rw (n, process_udp_payload) (rw e ((ps, ts, us), tt))
          | inl e ↦
              rw (n, process_udp_payload)
                (rw e (
                  (
                    ps,
                    ts,
                    modify-AllValues UdpFits flow_discrete (client_flow i) _ r.udp_endpoints.by_flow
                        (λ v p. p) us,
                  ),
                  (get-AllValues UdpFits flow_discrete (client_flow i) r.udp_endpoints.by_flow entry
                      us n).1,
                ))
        ]
      ]

module _ (find_process_path : ℕ → Bool → SocketAddr → SocketAddr → Option Text) where
  step-PortsFit :
      (r : SocksLocalRouter) (e : Event)
      → PortsFit r
      → EventFits e
      → PortsFit (step find_process_path r e)
  unfolding step cleanup_stale_udp_endpoints retain_active rebuild_peer_index
  step-PortsFit r (tcp i at) h d = (process_tcp_payload-Answered (find_process_path at) r i h d).0
  step-PortsFit r (udp i now) h d =
      (process_udp_payload-Answered (find_process_path now) r i now h d).0
  step-PortsFit r (cleanup now) (ps, ts, us) d =
      (ps, ts, retain-AllValues UdpFits flow_discrete _ r.udp_endpoints.by_flow us)

  -- Whatever packets and clean-ups the router handles, from proxies and tables with ports of 16 bits
  -- and packets to ports of 16 bits, the tables keep to such ports.
  pub run-PortsFit :
      (r : SocksLocalRouter) (es : List Event)
      → PortsFit r
      → AllEventsFit es
      → PortsFit (run find_process_path r es)
  unfolding run
  run-PortsFit r [] h d = h
  run-PortsFit r (e ∷ es) h d =
      run-PortsFit (step find_process_path r e) es (step-PortsFit r e h d.0) d.1
