-- ===== src/Router/Lifecycle/Invariant.antt =====
-- What every call of the life of a router keeps.
use proxifyre_rs.HashMap.{insert}
use proxifyre_rs.Net.{ip, port}
use proxifyre_rs.Prelude.{
  ℕ, ◌+◌, ◌*◌, ◌≤◌, ◌<◌, ◌≡◌, refl, true, false, ◌&&◌, Option, none, some, List, [], ◌∷◌, ◌++◌,
  Text, length, arith, Bool-cases, Option-cases, Result-cases, inl, inr, leb, length-append,
}
use proxifyre_rs.Proxy.Dialer.{Socks5Dialer}
use proxifyre_rs.Proxy.Listener.{TransparentProxy, Sockets}
use proxifyre_rs.Proxy.Listener
use proxifyre_rs.Router.Lifecycle.Parts.{
  apply_static_filters-router, reset_static_filters-router, length-pass_filters, length-map,
  length-start_proxies,
}
use proxifyre_rs.Router.Lifecycle.{
  Host, Driver, text_discrete, pass_filters, with_proxy, add_socks5_proxy,
  associate_process_name_to_proxy, apply_static_filters, Call, add, associate, start_with, stop_it,
  close_it, call, calls, start, start_tasks, activate, start_proxies, stop, stopped, close,
  register_interface_change_notifications, cancel_interface_change_notifications,
}
use proxifyre_rs.Router.State.{SocksLocalRouter}

-- Every name has a proxy.
abbrev pub AllValid : List (Text × ℕ) → ℕ → Type 0
AllValid [] n = Unit
AllValid ((name, proxy_id) ∷ names) n = (proxy_id < n) × AllValid names n

-- The handle and the context of the notifications are there together.
abbrev pub Paired : Option ℕ → Option ℕ → Type 0
Paired none none = Unit
Paired (some handle) (some context) = Unit
Paired none (some context) = ⊥
Paired (some handle) none = ⊥

abbrev pub IsRouter : SocksLocalRouter → Type 0
IsRouter r =
    AllValid r.name_to_proxy (length r.proxies)
    × (length r.static_filters ≡ 1 + 4 * length r.proxies)
    × ((r.is_active && r.shutdown) ≡ false)
    × Paired r.notify_handle r.notify_context

AllValid-mono : (names : List (Text × ℕ)) (n m : ℕ) → n ≤ m → AllValid names n → AllValid names m
AllValid-mono [] n m le h = tt
AllValid-mono ((name, proxy_id) ∷ names) n m le h = (omega arith, AllValid-mono names n m le h.1)

insert-AllValid :
    (name : Text) (proxy_id n : ℕ) (names : List (Text × ℕ))
    → proxy_id < n
    → AllValid names n
    → AllValid (insert text_discrete name proxy_id names) n
unfolding insert
insert-AllValid name proxy_id n [] lt h = (lt, tt)
insert-AllValid name proxy_id n ((other, id) ∷ names) lt h =
    ground (arith, insert-AllValid name proxy_id n names lt h.1)

with_proxy-IsRouter :
    (dialer : Socks5Dialer) (h : Host) → IsRouter h.router → IsRouter ((with_proxy dialer h).router)
with_proxy-IsRouter dialer h (valid, filters, idle, paired) =
    let r = h.router in
    let grown : length (r.proxies ++ Listener.new 0 dialer ∷ []) ≡ length r.proxies + 1 =
      length-append r.proxies (Listener.new 0 dialer ∷ []) in
    (
      AllValid-mono r.name_to_proxy (length r.proxies) _ (omega arith) valid,
      omega (
        arith,
        length-append r.static_filters
            (pass_filters (ip dialer.proxy_addr) (port dialer.proxy_addr)),
        length-pass_filters (ip dialer.proxy_addr) (port dialer.proxy_addr),
      ),
      idle,
      paired,
    )

add-IsRouter :
    (d : Driver) (dialer : Option Socks5Dialer) (h : Host)
    → IsRouter h.router
    → IsRouter ((add_socks5_proxy d dialer h).0.router)
unfolding add_socks5_proxy
add-IsRouter d none h i = i
add-IsRouter d (some dialer) h i =
    let kept : IsRouter ((apply_static_filters d (with_proxy dialer h)).0.router) =
      rw (apply_static_filters-router d (with_proxy dialer h)) (with_proxy-IsRouter dialer h i) in
    elim (Result-cases ((apply_static_filters d (with_proxy dialer h)).1)) [
      | inl (e, failed) ↦ rw (failed, add_socks5_proxy) kept
      | inr (u, applied) ↦ rw (applied, add_socks5_proxy) kept
    ]

associate-IsRouter :
    (name : Text) (proxy_id : ℕ) (h : Host)
    → IsRouter h.router
    → IsRouter ((associate_process_name_to_proxy name proxy_id h).0.router)
unfolding associate_process_name_to_proxy
associate-IsRouter name proxy_id h (valid, filters, idle, paired) =
    elim (Bool-cases (leb (length h.router.proxies) proxy_id)) [
      | inl out ↦ rw (out, associate_process_name_to_proxy) (valid, filters, idle, paired)
      | inr known ↦
          rw (known, associate_process_name_to_proxy)
            (
              insert-AllValid name proxy_id (length h.router.proxies) h.router.name_to_proxy
                  (ground arith) valid,
              filters,
              idle,
              paired,
            )
    ]

stopped-IsRouter : (r : SocksLocalRouter) → IsRouter r → IsRouter (stopped r)
unfolding cancel_interface_change_notifications
stopped-IsRouter r (valid, filters, idle, paired) =
    rw (length-map Listener.stop r.proxies) (valid, filters, refl, tt)

stop-IsRouter : (h : Host) → IsRouter h.router → IsRouter ((stop h).0.router)
unfolding stop
stop-IsRouter h i = elim (Bool-cases h.router.is_active) [
  | inl active ↦
      let to : (stop h).0.router ≡ stopped h.router = ground arith in
      rw to (stopped-IsRouter h.router i)
  | inr inactive ↦ let to : (stop h).0.router ≡ h.router = ground arith in rw to i
]

close-IsRouter : (d : Driver) (h : Host) → IsRouter h.router → IsRouter ((close d h).0.router)
unfolding close
close-IsRouter d h i =
    let s = stop-IsRouter h i in
    elim (Result-cases ((stop h).1)) [
      | inl (e, failed) ↦ rw (failed, close) s
      | inr (u, done) ↦ rw (done, close, reset_static_filters-router d (stop h).0) s
    ]

register-IsRouter :
    (notified : Option (ℕ × ℕ)) (r : SocksLocalRouter)
    → IsRouter r
    → IsRouter (register_interface_change_notifications notified r)
unfolding register_interface_change_notifications
register-IsRouter none r i =
    let to : register_interface_change_notifications none r ≡ r = ground arith in rw to i
register-IsRouter (some (handle, context)) r i = elim (Option-cases r.notify_handle) [
  | inl free ↦
      let to : register_interface_change_notifications (some (handle, context)) r
          ≡ record r { notify_handle = some handle; notify_context = some context } =
        ground arith in
      rw to (i.0, i.1, i.2, tt)
  | inr (taken, e) ↦
      let to : register_interface_change_notifications (some (handle, context)) r ≡ r =
        ground arith in
      rw to i
]

module _ {E : Type 0} (os : ℕ → Sockets E) (d : Driver) where
  start_tasks-IsRouter :
      (notified : Option (ℕ × ℕ)) (h : Host)
      → IsRouter h.router
      → IsRouter ((start_tasks os notified h).0.router)
  unfolding start_tasks
  start_tasks-IsRouter notified h (valid, filters, idle, paired) =
      let ps = (start_proxies os 0 h.router.proxies).0 in
      let same : length ps ≡ length h.router.proxies = length-start_proxies os 0 h.router.proxies in
      let begun : IsRouter (record h.router { proxies = ps; is_active = false }) =
        rw same (valid, filters, refl, paired) in
      let running : IsRouter (record h.router { proxies = ps; packet_task = true }) =
        rw same (valid, filters, idle, paired) in
      elim (Result-cases ((start_proxies os 0 h.router.proxies).1)) [
        | inl (e, failed) ↦ rw (failed, start_tasks) begun
        | inr (u, started) ↦
            rw (started, start_tasks)
              (register-IsRouter notified (record h.router { proxies = ps; packet_task = true })
                running)
      ]

  activate-IsRouter :
      (notified : Option (ℕ × ℕ)) (h : Host)
      → IsRouter h.router
      → IsRouter ((activate os d notified h).0.router)
  unfolding activate
  activate-IsRouter notified h i =
      let kept : IsRouter ((apply_static_filters d h).0.router) =
        rw (apply_static_filters-router d h) i in
      elim (Result-cases ((apply_static_filters d h).1)) [
        | inl (e, failed) ↦ rw (failed, activate) (kept.0, kept.1, refl, kept.3)
        | inr (u, applied) ↦
            rw (applied, activate) (start_tasks-IsRouter notified (apply_static_filters d h).0 kept)
      ]

  start-IsRouter :
      (notified : Option (ℕ × ℕ)) (h : Host)
      → IsRouter h.router
      → IsRouter ((start os d notified h).0.router)
  unfolding start
  start-IsRouter notified h i = elim (Bool-cases h.router.shutdown) [
    | inl down ↦ let to : (start os d notified h).0 ≡ h = ground arith in rw to i
    | inr up ↦ elim (Bool-cases h.router.is_active) [
      | inl active ↦ let to : (start os d notified h).0 ≡ h = ground arith in rw to i
      | inr inactive ↦
          let h' : Host = record h { router = record h.router { is_active = true } } in
          let to : start os d notified h ≡ activate os d notified h' = ground arith in
          rw to (activate-IsRouter notified h' (i.0, i.1, up, i.3))
    ]
  ]

  call-IsRouter : (c : Call) (h : Host) → IsRouter h.router → IsRouter ((call os d c h).router)
  unfolding call
  call-IsRouter (add dialer) h i = add-IsRouter d dialer h i
  call-IsRouter (associate name proxy_id) h i = associate-IsRouter name proxy_id h i
  call-IsRouter (start_with notified) h i = start-IsRouter notified h i
  call-IsRouter stop_it h i = stop-IsRouter h i
  call-IsRouter close_it h i = close-IsRouter d h i

  -- Whatever is called, from a router that keeps it, failed calls included: every name is associated
  -- with a proxy that exists, there are four filters for each proxy besides the first, a router that
  -- has been stopped is not active, and the handle of the notifications is there exactly when their
  -- context is.
  pub calls-IsRouter :
      (cs : List Call) (h : Host) → IsRouter h.router → IsRouter ((calls os d cs h).router)
  unfolding calls
  calls-IsRouter [] h i = i
  calls-IsRouter (c ∷ cs) h i = calls-IsRouter cs (call os d c h) (call-IsRouter c h i)
