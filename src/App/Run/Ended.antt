-- ===== src/App/Run/Ended.antt =====
-- What a run of the program leaves behind, on each of its paths.
use proxifyre_rs.App.Run.{
  AppError, router_failed, no_logger, no_driver, no_router, Activity, packets, changed, Effect,
  logged, World, Outcome, map_err, act, meanwhile, start_result, wind_down, serve, run,
  started_line,
}
use proxifyre_rs.App.Run.Tasks.{no_tasks, AllEnded, wind_down_calls}
use proxifyre_rs.App.{start_service, configure, ServiceSettings}
use proxifyre_rs.Net.{SocketAddr}
use proxifyre_rs.Prelude.{
  ℕ, ◌≡◌, refl, sym, ap, ◌∙◌, subst, Bool, true, false, Option, none, some, List, [], ◌∷◌, ◌⊎◌, inl,
  inr, Result, ok, err, Text, codes, arith, Bool-cases, Result-cases, Option-cases,
}
use proxifyre_rs.Proxy.Listener.{Sockets}
use proxifyre_rs.Router.Adapter.Events.{forget}
use proxifyre_rs.Router.Adapter.Loop.{session_events, run_packet_loop-run}
use proxifyre_rs.Router.Filters.{StaticFilter}
use proxifyre_rs.Router.Flow.Kept.{run-choice}
use proxifyre_rs.Router.Lifecycle.{driver_failed, Host}
use proxifyre_rs.Router.Lifecycle.Active.{IsClosed, start-active, close_active}
use proxifyre_rs.Router.Selection.{Machine, ip_interface_changed_callback, refresh_adapter_name}
use proxifyre_rs.Router.Selection
use proxifyre_rs.Router.State.{SocksLocalRouter}
use proxifyre_rs.Router.Wire.{Wire}

callback-active :
    (m : Machine) (r : SocksLocalRouter)
    → (ip_interface_changed_callback m r).is_active ≡ r.is_active
unfolding ip_interface_changed_callback refresh_adapter_name
callback-active m r = ground arith

module _ (w : Wire) (find_process_path : ℕ → Bool → SocketAddr → SocketAddr → Option Text) where
  act-active :
      (a : Activity) (r : SocksLocalRouter) → (act w find_process_path a r).is_active ≡ r.is_active
  unfolding act forget
  act-active (packets ss) r =
      ap (λ s. s.is_active) (run_packet_loop-run w find_process_path r ss)
      ∙ (run-choice find_process_path (forget r) (session_events w ss)).2
  act-active (changed m) r = callback-active m r

  meanwhile-active :
      (activities : List Activity) (r : SocksLocalRouter)
      → (meanwhile w find_process_path activities r).is_active ≡ r.is_active
  unfolding meanwhile
  meanwhile-active [] r = refl
  meanwhile-active (a ∷ later) r =
      meanwhile-active later (act w find_process_path a r) ∙ act-active a r

module _ {E : Type 0} (os : ℕ → Sockets E) (x : World) where
  start_service-active :
      (settings : ServiceSettings) (h : Host)
      → (start_service os x.driver x.notified x.names settings h).1 ≡ ok tt
      → (start_service os x.driver x.notified x.names settings h).0.router.is_active ≡ true
  unfolding start_service
  start_service-active settings h e =
      ground (arith, start-active os x.driver x.notified (configure x.driver x.names settings h).0)

  start_result-active :
      (h : Host) → (start_result os x h).1 ≡ ok tt → (start_result os x h).0.router.is_active ≡ true
  unfolding start_result
  start_result-active h e = elim (Option-cases x.config_content) [
    | inl n ↦ absurd (ground arith)
    | inr (content, n) ↦ elim (Option-cases (x.from_str content)) [
      | inl g ↦ absurd (ground arith)
      | inr (settings, g) ↦ ground (arith, start_service-active settings h)
    ]
  ]

  -- The start has failed with this error, and the router and the driver's table are as it left them.
  abbrev pub Abandoned : List StaticFilter → Host → AppError → Type 0
  Abandoned installed h e =
      (r : SocksLocalRouter) × (Selection.new x.machine ≡ ok r)
      × (start_result os x (record { router = r; installed = installed }) ≡ (h, err e))

  -- What a run leaves of the router and of the driver's table.
  abbrev pub Ends : List StaticFilter → Option Host → Result AppError (Unit {0}) → Type 0
  Ends installed none (ok a) = ⊥
  Ends installed none (err e) = Unit
  Ends installed (some h) (ok a) = IsClosed h.router × (h.installed ≡ [])
  Ends installed (some h) (err e) =
      Abandoned installed h e
      ⊎ (IsClosed h.router × (e ≡ router_failed driver_failed) × (x.driver.resets ≡ false))

  module _ (w : Wire) (find_process_path : ℕ → Bool → SocketAddr → SocketAddr → Option Text) where
    wind_down-AllEnded : (h : Host) → AllEnded (wind_down w find_process_path os x h).effects
    unfolding wind_down
    wind_down-AllEnded h = wind_down_calls x.end started_line

    wind_down-Ends :
        (installed : List StaticFilter) (h : Host)
        → h.router.is_active ≡ true
        → let o = wind_down w find_process_path os x h in Ends installed o.host o.answer
    unfolding wind_down
    wind_down-Ends installed h active =
        let h' : Host = record h { router = meanwhile w find_process_path x.activities h.router } in
        let still = meanwhile-active w find_process_path x.activities h.router ∙ active in
        let (closed, answered) = close_active x.driver h' still in
        elim answered [
          | inl (e, reset) ↦ rw (e, map_err) (closed, reset)
          | inr (e, fails) ↦ rw (e, map_err) (inr (closed, refl, fails))
        ]

    serve-Ended :
        (installed : List StaticFilter) (r : SocksLocalRouter)
        → Selection.new x.machine ≡ ok r
        → let o = serve w find_process_path os x (record { router = r; installed = installed }) in
          AllEnded o.effects × Ends installed o.host o.answer
    unfolding serve
    serve-Ended installed r made =
        let h : Host = record { router = r; installed = installed } in
        elim (Result-cases (start_result os x h).1) [
          | inl (e, failed) ↦
              rw (failed, serve)
                (
                  (record { tui = false; stats = false; shutdown = true }, refl, refl, refl),
                  inl (r, made, ap (λ a. ((start_result os x h).0, a)) failed),
                )
          | inr (u, started) ↦
              let h' = (start_result os x h).0 in
              rw (started, serve)
                (wind_down-AllEnded h', wind_down-Ends installed h' (start_result-active h started))
        ]

    -- A run that has failed before a router is made, with these calls.
    abbrev failed : List Effect → AppError → Outcome
    failed effects e = record { host = none; effects = effects; answer = err e }

    -- Where there is a driver, the run is that of the router that is made.
    abbrev made_run : List StaticFilter → Outcome
    made_run installed = elim (Selection.new x.machine) [
      | err e ↦ failed (logged (codes "Starting...") ∷ []) (no_router e)
      | ok router ↦
          serve w find_process_path os x (record { router = router; installed = installed })
    ]

    abbrev Fine : List StaticFilter → Outcome → Type 0
    Fine installed o = AllEnded o.effects × Ends installed o.host o.answer

    made_run-Ended : (installed : List StaticFilter) → Fine installed (made_run installed)
    made_run-Ended installed = elim (Result-cases (Selection.new x.machine)) [
      | inl (e, none_made) ↦ rw (none_made, made_run) ((no_tasks, refl, refl, refl), tt)
      | inr (r, made) ↦ rw (made, made_run) (serve-Ended installed r made)
    ]

    run_cases :
        (installed : List StaticFilter)
        → (run w find_process_path os x installed ≡ failed [] no_logger)
          ⊎ (run w find_process_path os x installed
              ≡ failed (logged (codes "Starting...") ∷ []) no_driver)
          ⊎ (run w find_process_path os x installed ≡ made_run installed)
    unfolding run
    run_cases installed = elim (Bool-cases x.logger_is_set) [
      | inr l ↦ inl (ground arith)
      | inl l ↦ elim (Bool-cases x.driver_opens) [
        | inr d ↦ inr (inl (ground arith))
        | inl d ↦ elim (Bool-cases x.has_version) [
          | inr v ↦ inr (inl (ground arith))
          | inl v ↦ inr (inr (ground arith))
        ]
      ]
    ]

    -- Whatever the operating system, the driver and the settings answer, and whatever packets and
    -- changes of the network come meanwhile: the statistics task and the user interface, once spawned,
    -- are waited for after they have been told to end. A run that succeeds leaves a router that is
    -- closed, with no packet task, no notifications, no listener and no worker, and an empty filter
    -- table. One that fails with a router has been
    -- closed too, and the driver has refused to reset the table; or its start has failed, and then
    -- nothing that the start has done to the router and to the table is taken back.
    pub run-Ended :
        (installed : List StaticFilter)
        → let o = run w find_process_path os x installed in
          AllEnded o.effects × Ends installed o.host o.answer
    run-Ended installed = elim (run_cases installed) [
      | inl to ↦ subst (Fine installed) (sym to) ((no_tasks, refl, refl, refl), tt)
      | inr (inl to) ↦ subst (Fine installed) (sym to) ((no_tasks, refl, refl, refl), tt)
      | inr (inr to) ↦ subst (Fine installed) (sym to) (made_run-Ended installed)
    ]
