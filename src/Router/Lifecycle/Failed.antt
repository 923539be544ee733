-- ===== src/Router/Lifecycle/Failed.antt =====
-- A start in which one of the proxies fails.
use proxifyre_rs.Prelude.{
  ℕ, ◌≡◌, refl, ap, ◌∙◌, sym, true, false, Option, List, [], ◌∷◌, ◌++◌, ok, err, arith, length, suc,
  ◌+◌, subst,
}
use proxifyre_rs.Proxy.Listener.{
  Sockets, Task, TransparentProxy, accept_tcp_connections, accept_udp_connections, udp_worker_loop,
}
use proxifyre_rs.Proxy.Listener
use proxifyre_rs.Router.Lifecycle.Parts.{apply_static_filters-router, taken}
use proxifyre_rs.Router.Lifecycle.{
  Host, Driver, already_stopped, socket_failed, apply_static_filters, start_proxies, start_tasks,
  activate, start, stop, close,
}

-- The listeners and the worker of the proxy have been spawned and not been stopped.
abbrev pub Runs : TransparentProxy → Type 0
Runs p =
    (before : List Task) × (p.handles
      ≡ before ++ (accept_tcp_connections ∷ udp_worker_loop ∷ accept_udp_connections ∷ []))

abbrev pub AllRun : List TransparentProxy → Type 0
AllRun [] = Unit
AllRun (p ∷ ps) = Runs p × AllRun ps

inactive_refuses :
    (d : Driver) (h : Host)
    → h.router.is_active ≡ false
    → (stop h ≡ (h, err already_stopped)) × (close d h ≡ (h, err already_stopped))
unfolding stop close
inactive_refuses d h e = ground arith

module _ {E : Type 0} (os : ℕ → Sockets E) where
  abbrev pub started : ℕ → TransparentProxy → TransparentProxy
  started n p = (Listener.start (os n) p).0

  -- The proxies after each has been started, the first of them as number `n`.
  abbrev pub all_started : ℕ → List TransparentProxy → List TransparentProxy
  all_started n [] = []
  all_started n (p ∷ ps) = started n p ∷ all_started (suc n) ps

  -- Each of the proxies starts.
  abbrev pub AllStart : ℕ → List TransparentProxy → Type 0
  AllStart n [] = Unit
  AllStart n (p ∷ ps) = ((Listener.start (os n) p).1 ≡ ok tt) × AllStart (suc n) ps

  start-Runs :
      (n : ℕ) (p : TransparentProxy) → (Listener.start (os n) p).1 ≡ ok tt → Runs (started n p)
  unfolding Listener.start
  start-Runs n p e = (p.handles, ground arith)

  AllStart-AllRun : (n : ℕ) (ps : List TransparentProxy) → AllStart n ps → AllRun (all_started n ps)
  AllStart-AllRun n [] s = tt
  AllStart-AllRun n (p ∷ ps) s = (start-Runs n p s.0, AllStart-AllRun (suc n) ps s.1)

  -- The proxies are started up to the first that fails.
  start_proxies_failed :
      (n : ℕ) (ps qs : List TransparentProxy) (p : TransparentProxy) (e : E)
      → AllStart n ps
      → (Listener.start (os (n + length ps)) p).1 ≡ err e
      → start_proxies os n (ps ++ (p ∷ qs))
        ≡ (all_started n ps ++ (started (n + length ps) p ∷ qs), err e)
  unfolding start_proxies
  start_proxies_failed n [] qs p e s f =
      let same : n + 0 ≡ n = omega arith in
      rw same (
        let f' = subst (λ m. (Listener.start (os m) p).1 ≡ err e) same f in
        rw (f', start_proxies) refl)
  start_proxies_failed n (x ∷ ps) qs p e s f =
      let same : n + suc (length ps) ≡ suc n + length ps = omega arith in
      let f' = subst (λ m. (Listener.start (os m) p).1 ≡ err e) same f in
      let rest = start_proxies_failed (suc n) ps qs p e s.1 f' in
      rw same (rw (s.0, start_proxies) (ap (λ o. (started n x ∷ o.0, o.1)) rest))

  all_proxies_failed :
      (ps qs : List TransparentProxy) (p : TransparentProxy) (e : E)
      → AllStart 0 ps
      → (Listener.start (os (length ps)) p).1 ≡ err e
      → start_proxies os 0 (ps ++ (p ∷ qs))
        ≡ (all_started 0 ps ++ (started (length ps) p ∷ qs), err e)
  all_proxies_failed ps qs p e s f =
      let same : 0 + length ps ≡ length ps = omega arith in
      let f' = subst (λ m. (Listener.start (os m) p).1 ≡ err e) (sym same) f in
      subst
        (λ m. start_proxies os 0 (ps ++ (p ∷ qs)) ≡ (all_started 0 ps ++ (started m p ∷ qs), err e))
        same (start_proxies_failed 0 ps qs p e s f')

  -- The state that the failed start leaves.
  abbrev pub left_by : Host → List TransparentProxy → Host
  left_by h proxies = record {
    router = record h.router { proxies = proxies; is_active = false };
    installed = h.router.static_filters;
  }

  start_tasks_failed :
      (notified : Option (ℕ × ℕ)) (h : Host) (proxies : List TransparentProxy) (e : E)
      → start_proxies os 0 h.router.proxies ≡ (proxies, err e)
      → h.installed ≡ h.router.static_filters
      → start_tasks os notified h ≡ (left_by h proxies, err socket_failed)
  unfolding start_tasks
  start_tasks_failed notified h proxies e f same = ground arith

  activate_failed :
      (d : Driver) (notified : Option (ℕ × ℕ)) (h : Host) (proxies : List TransparentProxy) (e : E)
      → (apply_static_filters d h).1 ≡ ok tt
      → start_proxies os 0 h.router.proxies ≡ (proxies, err e)
      → activate os d notified h ≡ (left_by h proxies, err socket_failed)
  unfolding activate
  activate_failed d notified h proxies e applied f =
      let h' = (apply_static_filters d h).0 in
      let same : h'.router ≡ h.router = apply_static_filters-router d h in
      let table : h'.installed ≡ h'.router.static_filters =
        taken d h applied ∙ sym (ap (λ r. r.static_filters) same) in
      rw (applied, activate)
        (start_tasks_failed notified h' proxies e (ap (λ r. start_proxies os 0 r.proxies) same ∙ f)
            table
          ∙ ap
              (λ r. (
                record {
                  router = record r { proxies = proxies; is_active = false };
                  installed = r.static_filters;
                },
                err socket_failed,
              ))
              same)

  -- One of the proxies cannot be started, though the driver has taken the table, and those before it
  -- could. The start fails, and leaves the router inactive: but the proxies before that one run, and
  -- the filters are in the driver. Neither `stop` nor `close` then takes them down: they fail and
  -- change nothing.
  pub failed_start_runs_on :
      (d : Driver) (notified : Option (ℕ × ℕ)) (h : Host) (ps qs : List TransparentProxy)
      (p : TransparentProxy) (e : E)
      → h.router.shutdown ≡ false
      → h.router.is_active ≡ false
      → (apply_static_filters d (record h { router = record h.router { is_active = true } })).1
        ≡ ok tt
      → h.router.proxies ≡ ps ++ (p ∷ qs)
      → AllStart 0 ps
      → (Listener.start (os (length ps)) p).1 ≡ err e
      → let (h', answer) = start os d notified h in
        (answer ≡ err socket_failed)
        × (h'.router.proxies ≡ all_started 0 ps ++ (started (length ps) p ∷ qs))
        × AllRun (all_started 0 ps)
        × (h'.installed ≡ h.router.static_filters)
        × (stop h' ≡ (h', err already_stopped))
        × (close d h' ≡ (h', err already_stopped))
  unfolding start
  failed_start_runs_on d notified h ps qs p e up inactive applied same starts fails =
      let h1 : Host = record h { router = record h.router { is_active = true } } in
      let to : start os d notified h ≡ activate os d notified h1 = ground arith in
      let proxies = all_started 0 ps ++ (started (length ps) p ∷ qs) in
      let failed : start os d notified h ≡ (left_by h1 proxies, err socket_failed) =
        to
        ∙ activate_failed d notified h1 proxies e applied
            (ap (start_proxies os 0) same ∙ all_proxies_failed ps qs p e starts fails) in
      let h' = (start os d notified h).0 in
      let (no_stop, no_close) = inactive_refuses d h' (ap (λ o. o.0.router.is_active) failed) in
      (
        ap (λ o. o.1) failed,
        ap (λ o. o.0.router.proxies) failed,
        AllStart-AllRun 0 ps starts,
        ap (λ o. o.0.installed) failed,
        no_stop,
        no_close,
      )
