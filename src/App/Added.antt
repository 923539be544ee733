-- ===== src/App/Added.antt =====
-- A proxy that is added to the router, and a name that is associated with one.

use proxifyre_rs.HashMap.{get, insert, get-insert}
use proxifyre_rs.Prelude.{
  ℕ, ◌-◌, ◌≡◌, refl, sym, ap, subst, ◌∙◌, ite, Option, none, some, List, [], ◌∷◌, ok, Text, length,
  arith, leb, Bool-cases, Result-cases, inl, inr, length-append,
}
use proxifyre_rs.Proxy.Dialer.{Socks5Dialer}
use proxifyre_rs.Proxy.Listener.{TransparentProxy}
use proxifyre_rs.Proxy.Listener
use proxifyre_rs.Router.Lifecycle.{
  Driver, Host, text_discrete, with_proxy, add_socks5_proxy, apply_static_filters, set_table,
  reset_static_filters, associate_process_name_to_proxy,
}
use proxifyre_rs.Router.Filters.{StaticFilter}

set_table-router :
    (d : Driver) (h : Host) (fs : List StaticFilter) → (set_table d h fs).0.router ≡ h.router
unfolding set_table reset_static_filters
set_table-router d h [] = ground arith
set_table-router d h (f ∷ fs) = ground arith

apply-router : (d : Driver) (h : Host) → (apply_static_filters d h).0.router ≡ h.router
unfolding apply_static_filters
apply-router d h = set_table-router d h h.router.static_filters

-- A proxy that has been added is the last one, and has the number of those before it.
pub add-proxies :
    (d : Driver) (dialer : Option Socks5Dialer) (h h' : Host) (proxy_id : ℕ)
    → add_socks5_proxy d dialer h ≡ (h', ok proxy_id)
    → (new_dialer : Socks5Dialer) × (dialer ≡ some new_dialer)
      × (h'.router ≡ (with_proxy new_dialer h).router)
      × (proxy_id ≡ length h.router.proxies)
unfolding add_socks5_proxy
add-proxies d none h h' proxy_id e = absurd (ground arith)
add-proxies d (some dialer) h h' proxy_id e =
    let same = apply-router d (with_proxy dialer h) in
    let size = length-append h.router.proxies (Listener.new 0 dialer ∷ []) in
    elim (Result-cases (apply_static_filters d (with_proxy dialer h)).1) [
      | inl (x, k) ↦ absurd (ground arith)
      | inr (u, k) ↦
          let h1 = (apply_static_filters d (with_proxy dialer h)).0 in
          let state : h1 ≡ h' = ground arith in
          let number : length h1.router.proxies - 1 ≡ proxy_id = ground arith in
          let grown = ap (λ r. length r.proxies) same in
          (dialer, refl, sym (ap (λ x. x.router) state) ∙ same, omega (arith, number, grown, size))
    ]

pub associate-get :
    (proxy_id : ℕ) (app : Text) (h h' : Host) (name : Text)
    → associate_process_name_to_proxy app proxy_id h ≡ (h', ok tt)
    → (get text_discrete name h'.router.name_to_proxy
        ≡ ite
            (text_discrete app name)
            (some proxy_id)
            (get text_discrete name h.router.name_to_proxy))
      × (h'.router.proxies ≡ h.router.proxies)
unfolding associate_process_name_to_proxy
associate-get proxy_id app h h' name e =
    let found = get-insert text_discrete app name proxy_id h.router.name_to_proxy in
    elim (Bool-cases (leb (length h.router.proxies) proxy_id)) [
      | inl k ↦ absurd (ground arith)
      | inr k ↦
          let h1 : Host = record h {
            router = record h.router {
              name_to_proxy = insert text_discrete app proxy_id h.router.name_to_proxy;
            };
          } in
          let to : h1 ≡ h' = ground arith in
          subst
            (λ x.
              (get text_discrete name x.router.name_to_proxy
                ≡ ite (text_discrete app name) (some proxy_id)
                    (get text_discrete name h.router.name_to_proxy))
              × (x.router.proxies ≡ h.router.proxies))
            to (found, refl)
    ]
