-- ===== src/Router/Lifecycle/Stopped.antt =====
-- A router that has been stopped.
use proxifyre_rs.Prelude.{
  ℕ, ◌≡◌, ap, ◌∙◌, true, Option, none, some, List, [], ◌∷◌, err, arith, Result-cases, inl, inr,
  Text,
}
use proxifyre_rs.Proxy.Dialer.{Socks5Dialer}
use proxifyre_rs.Proxy.Listener.{Sockets}
use proxifyre_rs.Router.Lifecycle.Parts.{apply_static_filters-router, reset_static_filters-router}
use proxifyre_rs.Router.Lifecycle.{
  Host, Driver, already_stopped, with_proxy, add_socks5_proxy, associate_process_name_to_proxy,
  apply_static_filters, start, stop, close, Call, add, associate, start_with, stop_it, close_it,
  call, calls,
}

abbrev pub IsDown : Host → Type 0
IsDown h = h.router.shutdown ≡ true

add-IsDown :
    (d : Driver) (dialer : Option Socks5Dialer) (h : Host)
    → IsDown h
    → IsDown ((add_socks5_proxy d dialer h).0)
unfolding add_socks5_proxy
add-IsDown d none h down = down
add-IsDown d (some dialer) h down =
    let kept : IsDown ((apply_static_filters d (with_proxy dialer h)).0) =
      ap (λ r. r.shutdown) (apply_static_filters-router d (with_proxy dialer h)) ∙ down in
    elim (Result-cases ((apply_static_filters d (with_proxy dialer h)).1)) [
      | inl (e, failed) ↦ rw (failed, add_socks5_proxy) kept
      | inr (u, applied) ↦ rw (applied, add_socks5_proxy) kept
    ]

associate-IsDown :
    (name : Text) (proxy_id : ℕ) (h : Host)
    → IsDown h
    → IsDown ((associate_process_name_to_proxy name proxy_id h).0)
unfolding associate_process_name_to_proxy
associate-IsDown name proxy_id h down = ground arith

stop-IsDown : (h : Host) → IsDown h → IsDown ((stop h).0)
unfolding stop
stop-IsDown h down = ground arith

close-IsDown : (d : Driver) (h : Host) → IsDown h → IsDown ((close d h).0)
unfolding close
close-IsDown d h down =
    let s = stop-IsDown h down in
    elim (Result-cases ((stop h).1)) [
      | inl (e, failed) ↦ rw (failed, close) s
      | inr (u, done) ↦
          rw (done, close) (ap (λ r. r.shutdown) (reset_static_filters-router d (stop h).0) ∙ s)
    ]

module _ {E : Type 0} (os : ℕ → Sockets E) (d : Driver) where
  start-IsDown :
      (notified : Option (ℕ × ℕ)) (h : Host)
      → IsDown h
      → start os d notified h ≡ (h, err already_stopped)
  unfolding start
  start-IsDown notified h down = ground arith

  call-IsDown : (c : Call) (h : Host) → IsDown h → IsDown (call os d c h)
  unfolding call
  call-IsDown (add dialer) h down = add-IsDown d dialer h down
  call-IsDown (associate name proxy_id) h down = associate-IsDown name proxy_id h down
  call-IsDown (start_with notified) h down =
      ap (λ r. r.0.router.shutdown) (start-IsDown notified h down) ∙ down
  call-IsDown stop_it h down = stop-IsDown h down
  call-IsDown close_it h down = close-IsDown d h down

  calls-IsDown : (cs : List Call) (h : Host) → IsDown h → IsDown (calls os d cs h)
  unfolding calls
  calls-IsDown [] h down = down
  calls-IsDown (c ∷ cs) h down = calls-IsDown cs (call os d c h) (call-IsDown c h down)

  -- A router that has been active and was stopped never starts again, whatever is called in between:
  -- `start` fails and changes nothing.
  pub start_after_stop :
      (notified : Option (ℕ × ℕ)) (cs : List Call) (h : Host)
      → h.router.is_active ≡ true
      → start os d notified (calls os d cs (stop h).0)
        ≡ (calls os d cs (stop h).0, err already_stopped)
  unfolding stop
  start_after_stop notified cs h active =
      start-IsDown notified (calls os d cs (stop h).0) (calls-IsDown cs (stop h).0 (ground arith))
