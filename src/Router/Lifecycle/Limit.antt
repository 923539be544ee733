-- ===== src/Router/Lifecycle/Limit.antt =====
-- More proxies than the driver has filters for.
use proxifyre_rs.Net.{ip, port}
use proxifyre_rs.Prelude.{
  ℕ, ◌≤◌, ◌<◌, ◌≡◌, refl, ap, ◌∙◌, true, false, Option, some, List, [], ◌∷◌, err, arith, length,
  length-append,
}
use proxifyre_rs.Proxy.Dialer.{Socks5Dialer}
use proxifyre_rs.Proxy.Listener.{Sockets}
use proxifyre_rs.Router.Filters.{StaticFilter}
use proxifyre_rs.Router.Lifecycle.Invariant.{IsRouter}
use proxifyre_rs.Router.Lifecycle.Parts.{length-pass_filters}
use proxifyre_rs.Router.Lifecycle.{
  Host, Driver, too_many_filters, with_proxy, add_socks5_proxy, apply_static_filters, set_table,
  start, activate, pass_filters,
}

set_table_long :
    (d : Driver) (h : Host) (fs : List StaticFilter)
    → 256 < length fs
    → set_table d h fs ≡ (h, err (too_many_filters (length fs)))
unfolding set_table
set_table_long d h [] long = ground arith
set_table_long d h (f ∷ fs) long = ground arith

apply_long :
    (d : Driver) (h : Host)
    → 256 < length h.router.static_filters
    → apply_static_filters d h ≡ (h, err (too_many_filters (length h.router.static_filters)))
unfolding apply_static_filters
apply_long d h long = set_table_long d h h.router.static_filters long

module _ {E : Type 0} (os : ℕ → Sockets E) (d : Driver) where
  activate_long :
      (notified : Option (ℕ × ℕ)) (h : Host)
      → 256 < length h.router.static_filters
      → (activate os d notified h).1 ≡ err (too_many_filters (length h.router.static_filters))
  unfolding activate
  activate_long notified h long = rw (apply_long d h long, activate) refl

  start_long :
      (notified : Option (ℕ × ℕ)) (h : Host)
      → h.router.shutdown ≡ false
      → h.router.is_active ≡ false
      → 256 < length h.router.static_filters
      → (start os d notified h).1 ≡ err (too_many_filters (length h.router.static_filters))
  unfolding start
  start_long notified h up inactive long =
      let h' : Host = record h { router = record h.router { is_active = true } } in
      let to : start os d notified h ≡ activate os d notified h' = ground arith in
      ap (λ r. r.1) to ∙ activate_long notified h' long

  -- With 63 proxies or more the next one is refused, as there would be too many filters. The refused
  -- proxy and its filters stay in the router all the same, and a router that is not yet active can
  -- then not be started: that fails with the same error.
  pub one_proxy_too_many :
      (dialer : Socks5Dialer) (notified : Option (ℕ × ℕ)) (h : Host)
      → IsRouter h.router
      → 63 ≤ length h.router.proxies
      → h.router.shutdown ≡ false
      → h.router.is_active ≡ false
      → (add_socks5_proxy d (some dialer) h ≡ (
        with_proxy dialer h,
        err (too_many_filters (length (with_proxy dialer h).router.static_filters)),
      ))
        × ((start os d notified (with_proxy dialer h)).1
            ≡ err (too_many_filters (length (with_proxy dialer h).router.static_filters)))
  unfolding add_socks5_proxy
  one_proxy_too_many dialer notified h i many up inactive =
      let long : 256 < length (with_proxy dialer h).router.static_filters = omega (
        arith,
        i.1,
        length-append h.router.static_filters
            (pass_filters (ip dialer.proxy_addr) (port dialer.proxy_addr)),
        length-pass_filters (ip dialer.proxy_addr) (port dialer.proxy_addr),
      ) in
      (
        rw (apply_long d (with_proxy dialer h) long, add_socks5_proxy)
            (ap
              (λ r.
                (r.0, err (too_many_filters (length (with_proxy dialer h).router.static_filters))))
              (apply_long d (with_proxy dialer h) long)),
        start_long notified (with_proxy dialer h) up inactive long,
      )
