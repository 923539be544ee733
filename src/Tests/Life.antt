-- ===== src/Tests/Life.antt =====
-- A router from its start to its end, and the choice of its proxy.
use proxifyre_rs.Prelude.{
  ℕ, ◌≡◌, refl, true, false, Option, none, some, List, [], ◌∷◌, ok, err, codes, arith, length,
  replicate, ◌++◌, if◌then◌else◌, ◌==◌,
}
use proxifyre_rs.Proxy.Listener
use proxifyre_rs.Proxy.Listener.{TransparentProxy, Sockets, new}
use proxifyre_rs.Router.Choice.{Chosen, port_of, get_proxy_port-Chosen}
use proxifyre_rs.Router.Filters.{build_icmp_pass_filter}
use proxifyre_rs.Router.Lifecycle.{
  Host, Driver, already_stopped, too_many_filters, Call, add, associate, start_with, stop_it, calls,
  start, stop, close, add_socks5_proxy, with_proxy, apply_static_filters, set_table, socket_failed,
}
use proxifyre_rs.Router.Lifecycle.Invariant.{IsRouter, calls-IsRouter}
use proxifyre_rs.Router.Lifecycle.Failed.{AllRun, all_started, started, failed_start_runs_on}
use proxifyre_rs.Router.Lifecycle.Limit.{one_proxy_too_many}
use proxifyre_rs.Router.Lifecycle.Stopped.{start_after_stop}
use proxifyre_rs.Router.State.{SocksLocalRouter, get_proxy_port_tcp, get_proxy_port_udp}
use proxifyre_rs.Tests.Fixture.{proxy, router}

-- Every bind succeeds, on port 10000.
abbrev sockets : ℕ → Sockets (Unit {0})
sockets n = record {
  Socket = Unit {0};
  bind_dual_stack_tcp = λ port. ok tt;
  bind_dual_stack_udp = λ port. ok tt;
  local_port = λ socket. ok 10000;
  local_addrs = λ tcp udp. ok tt;
}

abbrev driver : Driver
driver = record { sets = λ filters. true; resets = true }

abbrev fresh : Host
fresh = record {
  router = record router {
    proxies = [];
    name_to_proxy = [];
    static_filters = build_icmp_pass_filter ∷ [];
    is_active = false;
    packet_task = false;
  };
  installed = [];
}

abbrev script : List Call
script =
    add (some proxy.socks5)
    ∷ associate (codes "firefox") 0
    ∷ associate (codes "steam") 1
    ∷ start_with (some (1, 2))
    ∷ stop_it
    ∷ start_with none
    ∷ []

calls-IsRouter_example : IsRouter ((calls sockets driver script fresh).router)
calls-IsRouter_example = calls-IsRouter sockets driver script fresh (tt, refl, refl, tt)

abbrev active : Host
active = record { router = router; installed = [] }

start_after_stop_example :
    start sockets driver none (calls sockets driver script (stop active).0)
    ≡ (calls sockets driver script (stop active).0, err already_stopped)
start_after_stop_example = start_after_stop sockets driver none script active refl

-- 63 proxies with their filters.
abbrev full : Host
full = record fresh {
  router = record fresh.router {
    proxies = replicate 63 proxy;
    static_filters = replicate 253 build_icmp_pass_filter;
  };
}

one_proxy_too_many_example :
    (add_socks5_proxy driver (some proxy.socks5) full ≡ (
      with_proxy proxy.socks5 full,
      err (too_many_filters (length (with_proxy proxy.socks5 full).router.static_filters)),
    ))
    × ((start sockets driver none (with_proxy proxy.socks5 full)).1
        ≡ err (too_many_filters (length (with_proxy proxy.socks5 full).router.static_filters)))
one_proxy_too_many_example =
    one_proxy_too_many sockets driver proxy.socks5 none full (tt, refl, refl, tt) (ground arith)
      refl refl

abbrev one_proxy : SocksLocalRouter
one_proxy = record router {
  static_filters =
      build_icmp_pass_filter ∷ build_icmp_pass_filter ∷ build_icmp_pass_filter
      ∷ build_icmp_pass_filter ∷ build_icmp_pass_filter ∷ [];
}

get_proxy_port-Chosen_example :
    (found : Option TransparentProxy) × Chosen
      (codes "c:/firefox.exe")
      one_proxy.proxies
      one_proxy.name_to_proxy
      found
    × (get_proxy_port_tcp one_proxy (codes "c:/firefox.exe") false
        ≡ port_of found (λ p. p.tcp_port_v4))
    × (get_proxy_port_tcp one_proxy (codes "c:/firefox.exe") true
        ≡ port_of found (λ p. p.tcp_port_v6))
    × (get_proxy_port_udp one_proxy (codes "c:/firefox.exe") false
        ≡ port_of found (λ p. p.udp_port_v4))
    × (get_proxy_port_udp one_proxy (codes "c:/firefox.exe") true
        ≡ port_of found (λ p. p.udp_port_v6))
get_proxy_port-Chosen_example =
    get_proxy_port-Chosen one_proxy (codes "c:/firefox.exe") ((ground arith, tt), refl, refl, tt)

-- The third socket cannot be bound.
abbrev short_of_sockets : ℕ → Sockets (Unit {0})
short_of_sockets n =
    if n == 2
    then record {
      Socket = Unit {0};
      bind_dual_stack_tcp = λ port. err tt;
      bind_dual_stack_udp = λ port. err tt;
      local_port = λ socket. err tt;
      local_addrs = λ tcp udp. err tt;
    }
    else sockets n

-- Three proxies with their filters.
abbrev three : Host
three = record fresh {
  router = record fresh.router {
    proxies = new 0 proxy.socks5 ∷ new 0 proxy.socks5 ∷ new 0 proxy.socks5 ∷ [];
    static_filters = replicate 13 build_icmp_pass_filter;
  };
}

failed_start_runs_on_example :
    let (h', answer) = start short_of_sockets driver none three in
    (answer ≡ err socket_failed)
    × (h'.router.proxies
        ≡ all_started short_of_sockets 0 (new 0 proxy.socks5 ∷ new 0 proxy.socks5 ∷ [])
          ++ (started short_of_sockets 2 (new 0 proxy.socks5) ∷ []))
    × AllRun (all_started short_of_sockets 0 (new 0 proxy.socks5 ∷ new 0 proxy.socks5 ∷ []))
    × (h'.installed ≡ three.router.static_filters)
    × (stop h' ≡ (h', err already_stopped))
    × (close driver h' ≡ (h', err already_stopped))
unfolding apply_static_filters set_table Listener.start Listener.new
failed_start_runs_on_example =
    failed_start_runs_on short_of_sockets driver none three
      (new 0 proxy.socks5 ∷ new 0 proxy.socks5 ∷ []) [] (new 0 proxy.socks5) tt refl refl refl refl
      (refl, (refl, tt)) refl
