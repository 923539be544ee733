-- ===== src/Router/Lifecycle/Parts.antt =====
-- What the parts of the calls on a router keep, and what they leave in the driver.

use proxifyre_rs.Net.{IpAddr}
use proxifyre_rs.Prelude.{
  ℕ, suc, ◌≡◌, refl, List, [], ◌∷◌, ok, length, map, arith, Result-cases, inl, inr,
}
use proxifyre_rs.Proxy.Listener.{TransparentProxy, Sockets}
use proxifyre_rs.Proxy.Listener
use proxifyre_rs.Router.Filters.{
  StaticFilter, build_proxy_pass_filters, build_proxy_pass_filters_v6,
  build_proxy_pass_filters_common,
}
use proxifyre_rs.Router.Lifecycle.{
  Host, Driver, pass_filters, apply_static_filters, set_table, reset_static_filters, start_proxies,
}

pub length-pass_filters : (a : IpAddr) (p : ℕ) → length (pass_filters a p) ≡ 4
unfolding build_proxy_pass_filters build_proxy_pass_filters_v6 build_proxy_pass_filters_common
length-pass_filters (IpAddr.v4 a) p = refl
length-pass_filters (IpAddr.v6 a) p = refl

pub length-map : {A B : Type 0} (f : A → B) (xs : List A) → length (map f xs) ≡ length xs
length-map f [] = refl
length-map f (x ∷ xs) = omega (arith, length-map f xs)

pub reset_static_filters-router :
    (d : Driver) (h : Host) → (reset_static_filters d h).0.router ≡ h.router
unfolding reset_static_filters
reset_static_filters-router d h = ground arith

set_table-router :
    (d : Driver) (h : Host) (fs : List StaticFilter) → (set_table d h fs).0.router ≡ h.router
unfolding set_table
set_table-router d h [] = reset_static_filters-router d h
set_table-router d h (f ∷ fs) = ground arith

pub apply_static_filters-router :
    (d : Driver) (h : Host) → (apply_static_filters d h).0.router ≡ h.router
unfolding apply_static_filters
apply_static_filters-router d h = set_table-router d h h.router.static_filters

pub length-start_proxies :
    {E : Type 0} (os : ℕ → Sockets E) (n : ℕ) (ps : List TransparentProxy)
    → length ((start_proxies os n ps).0) ≡ length ps
unfolding start_proxies
length-start_proxies os n [] = refl
length-start_proxies os n (p ∷ ps) = elim (Result-cases ((Listener.start (os n) p).1)) [
  | inl (e, failed) ↦ rw (failed, start_proxies) refl
  | inr (u, started) ↦
      rw (started, start_proxies) (omega (arith, length-start_proxies os (suc n) ps))
]

-- What a table that the driver has taken leaves there.
set_table-installed :
    (d : Driver) (h : Host) (fs : List StaticFilter)
    → (set_table d h fs).1 ≡ ok tt
    → (set_table d h fs).0.installed ≡ fs
unfolding set_table reset_static_filters
set_table-installed d h [] e = ground arith
set_table-installed d h (f ∷ fs) e = ground arith

pub taken :
    (d : Driver) (h : Host)
    → (apply_static_filters d h).1 ≡ ok tt
    → (apply_static_filters d h).0.installed ≡ h.router.static_filters
unfolding apply_static_filters
taken d h e = set_table-installed d h h.router.static_filters e
