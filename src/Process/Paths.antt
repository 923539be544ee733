-- ===== src/Process/Paths.antt =====
-- The cache of process paths in windows/process.rs. `query` is `query_process_path`, which asks the
-- operating system, by the time at which it is called; `none` is its error.
use proxifyre_rs.HashMap.{get, insert, remove, modify, retain, length-modify, length-remove-le}
use proxifyre_rs.Prelude.{
  ℕ, ◌-◌, ◌≤◌, ◌≡◌, refl, ◌⊎◌, ap, ◌∙◌, Bool, Option, none, some, List, [], ◌∷◌, Text, length, leb,
  ltb, if◌then◌else◌, ℕ_discrete, arith, Bool-cases, Option-cases, inl, inr,
}

abbrev pub process_cache_ttl : ℕ
process_cache_ttl = 300000

abbrev pub process_cache_max : ℕ
process_cache_max = 1024

pub record CachedProcess : Type 0 where
  pub path : Text
  pub last_seen : ℕ

abbrev pub Cache : Type 0
Cache = List (ℕ × CachedProcess)

abbrev pub is_recent : ℕ → CachedProcess → Bool
is_recent now e = leb (now - e.last_seen) process_cache_ttl

-- The cache is cut to what is recent when it is too large, and cleared when that does not help.
unfoldable pub shrink : ℕ → Cache → Cache
shrink now cache =
    let kept = retain ℕ_discrete (is_recent now) cache in
    if ltb process_cache_max (length cache)
    then (if ltb process_cache_max (length kept) then [] else kept)
    else cache

module _ (query : ℕ → ℕ → Option Text) where
  unfoldable pub query_and_store : ℕ → ℕ → Cache → Cache × Option Text
  unfolding shrink
  query_and_store pid now cache = elim (query now pid) [
    | none ↦ (cache, none)
    | some path ↦ (
      shrink now (insert ℕ_discrete pid (record { path = path; last_seen = now }) cache),
      some path,
    )
  ]

  -- The part of `find_process_path_sync` after the process is known.
  unfoldable pub process_path : ℕ → ℕ → Cache → Cache × Option Text
  unfolding query_and_store
  process_path pid now cache = elim (get ℕ_discrete pid cache) [
    | none ↦ query_and_store pid now cache
    | some e ↦
        if is_recent now e
        then (modify ℕ_discrete pid (λ x. record x { last_seen = now }) cache, some e.path)
        else query_and_store pid now (remove ℕ_discrete pid cache)
  ]

  -- Every path in the cache is one that the operating system has given for this process.
  abbrev pub AllQueried : Cache → Type 0
  AllQueried [] = Unit
  AllQueried ((pid, e) ∷ cache) = ((t : ℕ) × (query t pid ≡ some e.path)) × AllQueried cache

  abbrev pub IsCache : Cache → Type 0
  IsCache cache = AllQueried cache × (length cache ≤ 1024)

  -- An answer is a path that the operating system gives now; or has given earlier, and it was used in
  -- the last five minutes. No answer is an error of the operating system now.
  abbrev pub Known : ℕ → ℕ → Cache → Option Text → Type 0
  Known pid now cache none = query now pid ≡ none
  Known pid now cache (some path) =
      (query now pid ≡ some path)
      ⊎ ((e : CachedProcess) × (get ℕ_discrete pid cache ≡ some e)
          × (e.path ≡ path)
          × (now - e.last_seen ≤ 300000)
          × ((t : ℕ) × (query t pid ≡ some path)))

  get-AllQueried :
      (pid : ℕ) (cache : Cache) (e : CachedProcess)
      → AllQueried cache
      → get ℕ_discrete pid cache ≡ some e
      → (t : ℕ) × (query t pid ≡ some e.path)
  unfolding get
  get-AllQueried pid [] e h found = ground arith
  get-AllQueried pid ((i, w) ∷ cache) e h found = elim (ℕ_discrete i pid) [
    | yes same ↦
        let here : some w ≡ some e = ground arith in
        (h.0.0, rw same at h.0.1 ∙ ap some (ground arith))
    | no other ↦ get-AllQueried pid cache e h.1 (ground arith)
  ]

  modify-AllQueried :
      (pid now : ℕ) (cache : Cache)
      → AllQueried cache
      → AllQueried (modify ℕ_discrete pid (λ x. record x { last_seen = now }) cache)
  unfolding modify
  modify-AllQueried pid now [] h = tt
  modify-AllQueried pid now ((i, w) ∷ cache) h = ground (arith, modify-AllQueried pid now cache h.1)

  remove-AllQueried :
      (pid : ℕ) (cache : Cache) → AllQueried cache → AllQueried (remove ℕ_discrete pid cache)
  unfolding remove
  remove-AllQueried pid [] h = tt
  remove-AllQueried pid ((i, w) ∷ cache) h = ground (arith, remove-AllQueried pid cache h.1)

  retain-AllQueried :
      (keep : CachedProcess → Bool) (cache : Cache)
      → AllQueried cache
      → AllQueried (retain ℕ_discrete keep cache)
  unfolding retain
  retain-AllQueried keep [] h = tt
  retain-AllQueried keep ((i, w) ∷ cache) h = ground (arith, retain-AllQueried keep cache h.1)

  insert-AllQueried :
      (pid : ℕ) (e : CachedProcess) (cache : Cache)
      → AllQueried cache
      → ((t : ℕ) × (query t pid ≡ some e.path))
      → AllQueried (insert ℕ_discrete pid e cache)
  unfolding insert
  insert-AllQueried pid e [] h new = (new, tt)
  insert-AllQueried pid e ((i, w) ∷ cache) h new =
      ground (arith, insert-AllQueried pid e cache h.1 new)

  shrink-IsCache : (now : ℕ) (cache : Cache) → AllQueried cache → IsCache (shrink now cache)
  unfolding shrink
  shrink-IsCache now cache h = ground (arith, retain-AllQueried (is_recent now) cache h)

  query_and_store-IsCache :
      (pid now : ℕ) (cache seen : Cache)
      → IsCache cache
      → IsCache ((query_and_store pid now cache).0)
        × Known pid now seen ((query_and_store pid now cache).1)
  unfolding query_and_store
  query_and_store-IsCache pid now cache seen h = elim (Option-cases (query now pid)) [
    | inl e ↦ rw (e, query_and_store) (h, e)
    | inr (path, e) ↦
        let entry : CachedProcess = record { path = path; last_seen = now } in
        rw (e, query_and_store)
          (
            shrink-IsCache now (insert ℕ_discrete pid entry cache)
                (insert-AllQueried pid entry cache h.0 (now, e)),
            inl e,
          )
  ]

  -- From a cache that keeps it: the cache holds at most 1024 processes, each with a path that the
  -- operating system has given for it; the answer is the path that the operating system gives now, or one
  -- that it has given and that was used in the last five minutes; an error is its error now.
  pub process_path-IsCache :
      (pid now : ℕ) (cache : Cache)
      → IsCache cache
      → IsCache ((process_path pid now cache).0)
        × Known pid now cache ((process_path pid now cache).1)
  unfolding process_path
  process_path-IsCache pid now cache h = elim (Option-cases (get ℕ_discrete pid cache)) [
    | inl e ↦ rw (e, process_path) (query_and_store-IsCache pid now cache cache h)
    | inr (entry, e) ↦ elim (Bool-cases (is_recent now entry)) [
      | inl recent ↦
          rw (e, process_path, recent)
            (
              (
                modify-AllQueried pid now cache h.0,
                omega
                    (arith, length-modify ℕ_discrete pid (λ x. record x { last_seen = now }) cache),
              ),
              inr (entry, e, refl, ground arith, get-AllQueried pid cache entry h.0 e),
            )
      | inr old ↦
          rw (e, process_path, old)
            (query_and_store-IsCache pid now (remove ℕ_discrete pid cache) cache (
              remove-AllQueried pid cache h.0,
              omega (arith, length-remove-le ℕ_discrete pid cache),
            ))
    ]
  ]
