-- ===== src/Router/Lifecycle.antt =====
-- The life of a router in router/mod.rs. The endpoint parser, the driver, the sockets and the
-- notifications of the operating system are parameters; `installed` is the driver's filter table.
pub mod Parts
pub mod Invariant
pub mod Stopped
pub mod Limit
pub mod Failed
pub mod Active
use proxifyre_rs.HashMap.{insert}
use proxifyre_rs.Net.{Ipv4Addr, Ipv6Addr, IpAddr, SocketAddr, ip, port}
use proxifyre_rs.Prelude.{
  ℕ, suc, ◌+◌, ◌-◌, Bool, true, false, Option, none, some, List, [], ◌∷◌, ◌++◌, Result, ok, err,
  Text, length, map, leb, ltb, if◌then◌else◌, ℕ_discrete,
}
use proxifyre_rs.Proxy.Dialer.{Socks5Dialer}
use proxifyre_rs.Proxy.Listener.{TransparentProxy, Sockets}
use proxifyre_rs.Proxy.Listener
use proxifyre_rs.Router.Filters.{
  StaticFilter, build_proxy_pass_filters, build_proxy_pass_filters_v6,
}
use proxifyre_rs.Router.State.{SocksLocalRouter}

abbrev pub max_static_filters : ℕ
max_static_filters = 256

unfoldable pub text_discrete : Discrete Text
text_discrete = hlevel ℕ_discrete

pub data LifeError : Type 0 where
  invalid_endpoint proxy_out_of_range already_stopped already_active : LifeError
  driver_failed socket_failed : LifeError
  too_many_filters : ℕ → LifeError

-- The driver: whether it can be opened and takes a table, or a reset.
pub record Driver : Type 0 where
  pub sets : List StaticFilter → Bool
  pub resets : Bool

pub record Host : Type 0 where
  pub router : SocksLocalRouter
  pub installed : List StaticFilter

-- The filters that let the packets to and from the SOCKS5 server pass.
abbrev pub pass_filters : IpAddr → ℕ → List StaticFilter
pass_filters (IpAddr.v4 a) p = build_proxy_pass_filters a p
pass_filters (IpAddr.v6 a) p = build_proxy_pass_filters_v6 a p

abbrev pub Outcome : Type 0 → Type 0
Outcome A = Host × Result LifeError A

unfoldable pub reset_static_filters : Driver → Host → Outcome (Unit {0})
reset_static_filters d h =
    if d.resets then (record h { installed = [] }, ok tt) else (h, err driver_failed)

-- The table with these filters goes to the driver.
unfoldable pub set_table : Driver → Host → List StaticFilter → Outcome (Unit {0})
unfolding reset_static_filters
set_table d h [] = reset_static_filters d h
set_table d h (f ∷ fs) =
    if ltb max_static_filters (length (f ∷ fs))
    then (h, err (too_many_filters (length (f ∷ fs))))
    else if d.sets (f ∷ fs)
    then (record h { installed = f ∷ fs }, ok tt)
    else (h, err driver_failed)

unfoldable pub apply_static_filters : Driver → Host → Outcome (Unit {0})
unfolding set_table
apply_static_filters d h = set_table d h h.router.static_filters

-- The state after the filters and the proxy have been pushed.
abbrev pub with_proxy : Socks5Dialer → Host → Host
with_proxy dialer h = record h {
  router = record h.router {
    static_filters =
        h.router.static_filters ++ pass_filters (ip dialer.proxy_addr) (port dialer.proxy_addr);
    proxies = h.router.proxies ++ Listener.new 0 dialer ∷ [];
  };
}

-- `dialer` is what the parser makes of the endpoint.
unfoldable pub add_socks5_proxy : Driver → Option Socks5Dialer → Host → Outcome ℕ
unfolding apply_static_filters
add_socks5_proxy d none h = (h, err invalid_endpoint)
add_socks5_proxy d (some dialer) h =
    let (h', applied) = apply_static_filters d (with_proxy dialer h) in
    elim applied [ err e ↦ (h', err e) | ok _ ↦ (h', ok (length h'.router.proxies - 1)) ]

unfoldable pub associate_process_name_to_proxy : Text → ℕ → Host → Outcome (Unit {0})
associate_process_name_to_proxy name proxy_id h =
    if leb (length h.router.proxies) proxy_id then (h, err proxy_out_of_range) else (
      record h {
        router = record h.router {
          name_to_proxy = insert text_discrete name proxy_id h.router.name_to_proxy;
        };
      },
      ok tt,
    )

-- `notified` is the handle and the context of `NotifyIpInterfaceChange`, `none` of an error.
unfoldable pub register_interface_change_notifications :
    Option (ℕ × ℕ) → SocksLocalRouter → SocksLocalRouter
register_interface_change_notifications notified r = elim r.notify_handle [
  | some _ ↦ r
  | none ↦ elim notified [
    | none ↦ r
    | some (handle, context) ↦ record r {
      notify_handle = some handle;
      notify_context = some context;
    }
  ]
]

unfoldable pub cancel_interface_change_notifications : SocksLocalRouter → SocksLocalRouter
cancel_interface_change_notifications r = record r { notify_handle = none; notify_context = none }

abbrev with_router : (SocksLocalRouter → SocksLocalRouter) → Host → Host
with_router f h = record h { router = f h.router }

module _ {E : Type 0} (os : ℕ → Sockets E) where
  -- Proxies are started one after the other, up to the first that fails. `os n` is what the operating
  -- system offers while the proxy number `n` is started.
  unfoldable pub start_proxies :
      ℕ → List TransparentProxy → List TransparentProxy × Result E (Unit {0})
  start_proxies n [] = ([], ok tt)
  start_proxies n (p ∷ ps) =
      let (p', started) = Listener.start (os n) p in
      let (ps', others) = start_proxies (suc n) ps in
      elim started [ err e ↦ (p' ∷ ps, err e) | ok _ ↦ (p' ∷ ps', others) ]

  -- The proxies, once the filters are in place.
  unfoldable pub start_tasks : Option (ℕ × ℕ) → Host → Outcome (Unit {0})
  unfolding start_proxies register_interface_change_notifications
  start_tasks notified h =
      let (proxies, started) = start_proxies 0 h.router.proxies in
      elim started [
        | err e ↦ (
          with_router (λ r. record r { proxies = proxies; is_active = false }) h,
          err socket_failed,
        )
        | ok _ ↦ (
          with_router
              (λ r.
                register_interface_change_notifications notified
                  (record r { proxies = proxies; packet_task = true }))
              h,
          ok tt,
        )
      ]

  -- The rest of `start` once `is_active` has been set.
  unfoldable pub activate : Driver → Option (ℕ × ℕ) → Host → Outcome (Unit {0})
  unfolding start_tasks apply_static_filters
  activate d notified h =
      let (h', applied) = apply_static_filters d h in
      elim applied [
        | err e ↦ (with_router (λ r. record r { is_active = false }) h', err e)
        | ok _ ↦ start_tasks notified h'
      ]

  unfoldable pub start : Driver → Option (ℕ × ℕ) → Host → Outcome (Unit {0})
  unfolding activate
  start d notified h =
      if h.router.shutdown
      then (h, err already_stopped)
      else if h.router.is_active
      then (h, err already_active)
      else activate d notified (with_router (λ r. record r { is_active = true }) h)

-- The state that `stop` leaves behind.
abbrev pub stopped : SocksLocalRouter → SocksLocalRouter
stopped r = record (cancel_interface_change_notifications r) {
  is_active = false;
  shutdown = true;
  restart = false;
  packet_task = false;
  proxies = map Listener.stop r.proxies;
}

unfoldable pub stop : Host → Outcome (Unit {0})
stop h = if h.router.is_active then (with_router stopped h, ok tt) else (h, err already_stopped)

unfoldable pub close : Driver → Host → Outcome (Unit {0})
unfolding stop reset_static_filters
close d h =
    let (h', stopped) = stop h in
    elim stopped [ err e ↦ (h', err e) | ok _ ↦ reset_static_filters d h' ]

-- The calls on a router, by whoever holds it.
pub data Call : Type 0 where
  add : Option Socks5Dialer → Call
  associate : Text → ℕ → Call
  start_with : Option (ℕ × ℕ) → Call
  stop_it close_it : Call

module _ {E : Type 0} (os : ℕ → Sockets E) (d : Driver) where
  unfoldable pub call : Call → Host → Host
  unfolding add_socks5_proxy associate_process_name_to_proxy start stop close
  call (add dialer) h = (add_socks5_proxy d dialer h).0
  call (associate name proxy_id) h = (associate_process_name_to_proxy name proxy_id h).0
  call (start_with notified) h = (start os d notified h).0
  call stop_it h = (stop h).0
  call close_it h = (close d h).0

  unfoldable pub calls : List Call → Host → Host
  unfolding call
  calls [] h = h
  calls (c ∷ cs) h = calls cs (call c h)
