-- ===== src/App/Run/Tasks.antt =====
-- The tasks of app.rs over the calls of a run.
use proxifyre_rs.App.Run.{
  End, Effect, logged, stats_spawned, tui_spawned, shutdown_requested, tui_joined, stats_awaited,
  log_flushed, spawned, awaited, at_end,
}
use proxifyre_rs.Prelude.{
  ◌≡◌, refl, Bool, true, false, Option, none, some, List, [], ◌∷◌, ◌++◌, if◌then◌else◌, Text,
}

-- The tasks that run, and the flag that ends them.
pub record Tasks : Type 0 where
  pub tui : Bool
  pub stats : Bool
  pub shutdown : Bool

abbrev pub no_tasks : Tasks
no_tasks = record { tui = false; stats = false; shutdown = false }

-- The tasks after these calls; `none` where one is waited for that has not been told to end.
abbrev pub replay : List Effect → Tasks → Option Tasks
replay [] t = some t
replay (logged line ∷ es) t = replay es t
replay (stats_spawned ∷ es) t = replay es (record t { stats = true })
replay (tui_spawned ∷ es) t = replay es (record t { tui = true })
replay (shutdown_requested ∷ es) t = replay es (record t { shutdown = true })
replay (tui_joined ∷ es) t =
    let rest = replay es (record t { tui = false }) in if t.shutdown then rest else none
replay (stats_awaited ∷ es) t =
    let rest = replay es (record t { stats = false }) in if t.shutdown then rest else none
replay (log_flushed ∷ es) t = replay es t

-- No task is waited for that does not end, and none is left.
abbrev pub AllEnded : List Effect → Type 0
AllEnded es = (t : Tasks) × (replay es no_tasks ≡ some t) × (t.tui ≡ false) × (t.stats ≡ false)

-- The calls at the end of a run.
pub wind_down_calls :
    (e : End) (line : Text)
    → AllEnded (spawned ++ (logged line ∷ at_end e ++ (awaited ++ log_flushed ∷ [])))
wind_down_calls End.ctrl_c line =
    (record { tui = false; stats = false; shutdown = true }, refl, refl, refl)
wind_down_calls End.tui_done line =
    (record { tui = false; stats = false; shutdown = true }, refl, refl, refl)
