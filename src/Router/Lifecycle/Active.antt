-- ===== src/Router/Lifecycle/Active.antt =====
-- A router that has been started is active, and a router that is active can be closed.
use proxifyre_rs.Prelude.{
  ℕ, ◌≡◌, refl, sym, ap, subst, true, false, Option, none, List, [], ◌∷◌, Result, ok, err, map,
  arith, Bool-cases, inl, inr, ◌⊎◌,
}
use proxifyre_rs.Proxy.Listener.{Sockets, TransparentProxy}
use proxifyre_rs.Proxy.Listener
use proxifyre_rs.Router.Lifecycle.Parts.{apply_static_filters-router}
use proxifyre_rs.Router.Lifecycle.{
  Host, Driver, LifeError, driver_failed, register_interface_change_notifications,
  apply_static_filters, reset_static_filters, start_proxies, start_tasks, activate, start, stop,
  stopped, close, cancel_interface_change_notifications,
}
use proxifyre_rs.Router.State.{SocksLocalRouter}

-- No listener or worker of the proxies is left.
abbrev pub AllDown : List TransparentProxy → Type 0
AllDown [] = Unit
AllDown (p ∷ ps) = (p.shutdown ≡ true) × (p.handles ≡ []) × AllDown ps

abbrev pub IsClosed : SocksLocalRouter → Type 0
IsClosed r =
    (r.is_active ≡ false)
    × (r.shutdown ≡ true)
    × (r.packet_task ≡ false)
    × (r.notify_handle ≡ none)
    × AllDown r.proxies

map-stop-AllDown : (ps : List TransparentProxy) → AllDown (map Listener.stop ps)
unfolding Listener.stop
map-stop-AllDown [] = tt
map-stop-AllDown (p ∷ ps) = (refl, refl, map-stop-AllDown ps)

register-active :
    (notified : Option (ℕ × ℕ)) (r : SocksLocalRouter)
    → (register_interface_change_notifications notified r).is_active ≡ r.is_active
unfolding register_interface_change_notifications
register-active notified r = ground arith

module _ {E : Type 0} (os : ℕ → Sockets E) (d : Driver) (notified : Option (ℕ × ℕ)) where
  start_tasks-active :
      (h : Host)
      → (start_tasks os notified h).1 ≡ ok tt
      → (start_tasks os notified h).0.router.is_active ≡ h.router.is_active
  unfolding start_tasks
  start_tasks-active h e =
      let r = record h.router {
        proxies = (start_proxies os 0 h.router.proxies).0;
        packet_task = true;
      } in
      ground (arith, register-active notified r)

  activate-active :
      (h : Host)
      → (activate os d notified h).1 ≡ ok tt
      → (activate os d notified h).0.router.is_active ≡ h.router.is_active
  unfolding activate
  activate-active h e = ground (
    arith,
    start_tasks-active (apply_static_filters d h).0,
    ap (λ r. r.is_active) (apply_static_filters-router d h),
  )

  pub start-active :
      (h : Host)
      → (start os d notified h).1 ≡ ok tt
      → (start os d notified h).0.router.is_active ≡ true
  unfolding start
  start-active h e =
      ground (arith, activate-active (record h { router = record h.router { is_active = true } }))

cancel-none :
    (r : SocksLocalRouter) → (cancel_interface_change_notifications r).notify_handle ≡ none
unfolding cancel_interface_change_notifications
cancel-none r = ground arith

-- Closing an active router.
pub close_active :
    (d : Driver) (h : Host)
    → h.router.is_active ≡ true
    → (IsClosed (close d h).0.router)
      × ((((close d h).1 ≡ ok tt) × ((close d h).0.installed ≡ []))
          ⊎ (((close d h).1 ≡ err driver_failed) × (d.resets ≡ false)))
unfolding close stop reset_static_filters
close_active d h active =
    let down : IsClosed (stopped h.router) =
      (refl, refl, refl, cancel-none h.router, map-stop-AllDown h.router.proxies) in
    let P : Host × Result LifeError (Unit {0}) → Type 0 = λ o.
      IsClosed o.0.router
      × (((o.1 ≡ ok tt) × (o.0.installed ≡ []))
          ⊎ ((o.1 ≡ err driver_failed) × (d.resets ≡ false))) in
    elim (Bool-cases d.resets) [
      | inl e ↦
          let to : close d h ≡ (record { router = stopped h.router; installed = [] }, ok tt) =
            ground arith in
          subst P (sym to) (down, inl (refl, refl))
      | inr e ↦
          let to : close d h ≡ (record h { router = stopped h.router }, err driver_failed) =
            ground arith in
          subst P (sym to) (down, inr (refl, e))
    ]
