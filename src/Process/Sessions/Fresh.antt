-- ===== src/Process/Sessions/Fresh.antt =====
-- How old an answer of the session cache may be.
use proxifyre_rs.Prelude.{
  ℕ, ◌-◌, ◌≤◌, ◌≡◌, refl, sym, ap, ◌∙◌, false, Option, none, some, List, [], ◌⊎◌, inl, inr,
  Bool-cases, Option-cases, arith,
}
use proxifyre_rs.Process.Sessions.{
  Table, is_stale, insert_rows, rebuild_map, refresh_cache, lookup_fresh, find_pid_cached,
}

module _ {K : Type 0} (dec : Discrete K) (table : ℕ → Option (List (K × ℕ))) where
  -- The table holds what the operating system has answered, not after the time of its stamp.
  abbrev pub IsSnapshot : List (K × ℕ) → Option ℕ → Type 0
  IsSnapshot pids none = Unit
  IsSnapshot pids (some ts) =
      (t : ℕ) × (rows : List (K × ℕ)) × (table t ≡ some rows)
      × (t ≤ ts)
      × (pids ≡ insert_rows dec [] rows)

  abbrev pub IsTable : Table K → Type 0
  IsTable c = IsSnapshot c.pids c.last_refresh

  module _ (lookup : List (K × ℕ) → Option ℕ) where
    -- The answer is that of a table of the operating system, which had come at a time at most half a
    -- second before `now`, or is asked for at `later`; no answer means that the table of `later` has none, or is an error.
    abbrev pub Answers : ℕ → ℕ → Option ℕ → Type 0
    Answers now later (some pid) =
        (t : ℕ) × (ts : ℕ) × (rows : List (K × ℕ)) × (table t ≡ some rows)
        × (lookup (insert_rows dec [] rows) ≡ some pid)
        × (t ≤ ts)
        × ((now - ts ≤ 500) ⊎ (t ≡ later))
    Answers now later none =
        (table later ≡ none)
        ⊎ ((rows : List (K × ℕ)) × (table later ≡ some rows)
            × (lookup (insert_rows dec [] rows) ≡ none))

    lookup_fresh-Answers :
        (c : Table K) (now later stamped : ℕ)
        → later ≤ stamped
        → IsTable c
        → IsTable ((lookup_fresh dec table lookup c later stamped).0)
          × Answers now later ((lookup_fresh dec table lookup c later stamped).1)
    unfolding lookup_fresh refresh_cache rebuild_map
    lookup_fresh-Answers c now later stamped le h = elim (Option-cases (table later)) [
      | inl e ↦ rw (e, lookup_fresh) (h, inl e)
      | inr (rows, e) ↦ elim (Option-cases (lookup (insert_rows dec [] rows))) [
        | inl absent ↦
            rw (e, lookup_fresh, absent) ((later, rows, e, le, refl), inr (rows, e, absent))
        | inr (pid, found) ↦
            rw (e, lookup_fresh, found)
              ((later, rows, e, le, refl), (later, stamped, rows, e, found, le, inr refl))
      ]
    ]

    snapshot_age :
        (pids : List (K × ℕ)) (ts : Option ℕ) (now later : ℕ) (pid : ℕ)
        → IsSnapshot pids ts
        → is_stale ts now ≡ false
        → lookup pids ≡ some pid
        → Answers now later (some pid)
    unfolding is_stale
    snapshot_age pids none now later pid h fresh found = ground arith
    snapshot_age pids (some ts) now later pid (t, rows, e, le, same) fresh found =
        (t, ts, rows, e, ap lookup (sym same) ∙ found, le, inl (ground arith))

    -- An answer of the cache is that of a table of the operating system which was asked for at most half
    -- a second ago, or just now; no answer means that the present table has none or cannot be had. The
    -- cache holds again a table as it was at the time that it says.
    pub find_pid_cached-Answers :
        (c : Table K) (now later stamped : ℕ)
        → later ≤ stamped
        → IsTable c
        → IsTable ((find_pid_cached dec table lookup c now later stamped).0)
          × Answers now later ((find_pid_cached dec table lookup c now later stamped).1)
    unfolding find_pid_cached
    find_pid_cached-Answers c now later stamped le h =
        let fresh = lookup_fresh-Answers c now later stamped le h in
        elim (Bool-cases (is_stale c.last_refresh now)) [
          | inl stale ↦ rw (stale, find_pid_cached) fresh
          | inr recent ↦ elim (Option-cases (lookup c.pids)) [
            | inl absent ↦ rw (recent, find_pid_cached, absent) fresh
            | inr (pid, found) ↦
                rw (recent, find_pid_cached, found)
                  (h, snapshot_age c.pids c.last_refresh now later pid h recent found)
          ]
        ]
