-- ===== src/App/Run.antt =====
-- `run` of app.rs: the start of the program, its end on each path, and the calls in between. What the
-- operating system, the driver, the file and its parser answer is a parameter.
pub mod Tasks
pub mod Ended
use proxifyre_rs.App.{ServiceSettings, start_service}
use proxifyre_rs.Net.{SocketAddr}
use proxifyre_rs.Prelude.{
  ℕ, Bool, true, false, Option, none, some, List, [], ◌∷◌, ◌++◌, Result, ok, err, Text, codes,
  if◌then◌else◌,
}
use proxifyre_rs.Proxy.Endpoint.{Names}
use proxifyre_rs.Proxy.Listener.{Sockets}
use proxifyre_rs.Router.Adapter.Loop.{Session, run_packet_loop}
use proxifyre_rs.Router.Filters.{StaticFilter}
use proxifyre_rs.Router.Lifecycle.{LifeError, Driver, Host, close}
use proxifyre_rs.Router.Selection.{Machine, SelectError, ip_interface_changed_callback}
use proxifyre_rs.Router.Selection
use proxifyre_rs.Router.State.{SocksLocalRouter}
use proxifyre_rs.Router.Wire.{Wire}

pub data AppError : Type 0 where
  no_logger no_driver no_config bad_config : AppError
  no_router : SelectError → AppError
  router_failed : LifeError → AppError

-- What `select!` sees first.
pub data End : Type 0 where
  ctrl_c tui_done : End

-- What other tasks do while `run` waits: the packet loop and the notifications.
pub data Activity : Type 0 where
  packets : List Session → Activity
  changed : Machine → Activity

-- The calls on other tasks and on the log, in their order.
pub data Effect : Type 0 where
  logged : Text → Effect
  stats_spawned tui_spawned shutdown_requested tui_joined stats_awaited log_flushed : Effect

pub record World : Type 0 where
  pub logger_is_set : Bool
  pub driver_opens : Bool
  pub has_version : Bool
  pub machine : Machine
  pub driver : Driver
  pub names : Names
  pub config_content : Option Text
  pub from_str : Text → Option ServiceSettings
  pub notified : Option (ℕ × ℕ)
  pub activities : List Activity
  pub end : End

-- The router that was made, with the driver's table; the calls; and what `run` returns.
pub record Outcome : Type 0 where
  pub host : Option Host
  pub effects : List Effect
  pub answer : Result AppError (Unit {0})

abbrev map_err : {A : Type 0} → Result LifeError A → Result AppError A
map_err (ok a) = ok a
map_err (err e) = err (router_failed e)

abbrev pub spawned : List Effect
spawned = logged (codes "Starting...") ∷ stats_spawned ∷ tui_spawned ∷ []

-- The flag, and waiting for both tasks.
abbrev pub awaited : List Effect
awaited = shutdown_requested ∷ tui_joined ∷ stats_awaited ∷ []

abbrev pub at_end : End → List Effect
at_end ctrl_c = logged (codes "Shutting down...") ∷ shutdown_requested ∷ []
at_end tui_done = []

abbrev pub started_line : Text
started_line = codes "SOCKS5 local router started. Press Ctrl+C to stop."

module _ {E : Type 0} (os : ℕ → Sockets E) (x : World) where
  -- The inner block, `start_result`.
  unfoldable pub start_result : Host → Host × Result AppError (Unit {0})
  start_result h = elim x.config_content [
    | none ↦ (h, err no_config)
    | some config_content ↦ elim (x.from_str config_content) [
      | none ↦ (h, err bad_config)
      | some settings ↦
          let (h', started) = start_service os x.driver x.notified x.names settings h in
          (h', map_err started)
    ]
  ]

module _ (w : Wire) (find_process_path : ℕ → Bool → SocketAddr → SocketAddr → Option Text) where
  unfoldable pub act : Activity → SocksLocalRouter → SocksLocalRouter
  act (packets ss) r = (run_packet_loop w find_process_path r ss).0
  act (changed m) r = ip_interface_changed_callback m r

  unfoldable pub meanwhile : List Activity → SocksLocalRouter → SocksLocalRouter
  unfolding act
  meanwhile [] r = r
  meanwhile (a ∷ later) r = meanwhile later (act a r)

  module _ {E : Type 0} (os : ℕ → Sockets E) (x : World) where
    -- The end of a run in which the router was started.
    unfoldable pub wind_down : Host → Outcome
    unfolding meanwhile
    wind_down h =
        let h' : Host = record h { router = meanwhile x.activities h.router } in
        let (h'', closed) = close x.driver h' in
        record {
          host = some h'';
          effects =
              spawned ++ (logged started_line ∷ at_end x.end ++ (awaited ++ log_flushed ∷ []));
          answer = map_err closed;
        }

    -- The tasks have been spawned.
    unfoldable pub serve : Host → Outcome
    unfolding start_result wind_down
    serve h =
        let (h', started) = start_result os x h in
        elim started [
          | err e ↦ record { host = some h'; effects = spawned ++ awaited; answer = err e }
          | ok _ ↦ wind_down h'
        ]

    -- `installed` is the driver's table before the run.
    unfoldable pub run : List StaticFilter → Outcome
    unfolding serve
    run installed =
        let starting = logged (codes "Starting...") ∷ [] in
        let failed = λ (effects : List Effect) (e : AppError).
          let o : Outcome = record { host = none; effects = effects; answer = err e } in o in
        if x.logger_is_set
        then (if x.driver_opens
            then (if x.has_version
                then (elim (Selection.new x.machine) [
                  | err e ↦ failed starting (no_router e)
                  | ok router ↦ serve (record { router = router; installed = installed })
                ])
                else failed starting no_driver)
            else failed starting no_driver)
        else failed [] no_logger
