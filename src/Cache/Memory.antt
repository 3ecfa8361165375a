-- ===== src/Cache/Memory.antt =====
-- What the in-memory cache answers.
use eitoh_forge.Prelude.{
  ℕ, ◌+◌, ◌*◌, ◌≡◌, ◌≢◌, refl, sym, ap, ◌∙◌, String, str_eq, ◌&&◌, Option, none, some,
  if◌then◌else◌, leb, is_some, arith, eq_iff, inl, inr, Option-cases,
}
use eitoh_forge.Prelude.Dict.{get, get-put, get-remove}
use eitoh_forge.Cache.{
  CacheEntry, MemoryCache, is_expired, expiry, memory_get, memory_set, memory_delete,
}

module _ {V : Type 0} where
  -- What an entry is worth at a time
  abbrev pub worth : Option (CacheEntry V) → (now : ℕ) → Option V
  worth none now = none
  worth (some entry) now = if is_expired entry now then none else entry.value

  -- Whether the entry of a key is there and expired
  abbrev dropped : MemoryCache V → String → ℕ → Option (CacheEntry V)
  dropped m key now = elim (get m key) [
    | none ↦ none
    | some entry ↦ if is_expired entry now then some entry else none
  ]

  pub memory_get_lem :
      (m : MemoryCache V) (key : String) (now : ℕ)
      → (memory_get m key now).0 ≡ worth (get m key) now
  unfolding memory_get
  memory_get_lem m key now = elim (Option-cases (get m key)) [
    | inl e ↦ rw (e, memory_get) refl
    | inr (entry, e) ↦ rw (e, memory_get) (ground arith)
  ]

  -- Looking a key up drops at most its own expired entry.
  memory_get_state :
      (m : MemoryCache V) (key other : String) (now : ℕ)
      → get (memory_get m key now).1 other
        ≡ (if str_eq key other && is_some (dropped m key now) then none else get m other)
  unfolding memory_get
  memory_get_state m key other now = elim (Option-cases (get m key)) [
    | inl e ↦ rw (e, memory_get) (ground arith)
    | inr (entry, e) ↦ rw (e, memory_get) (ground (arith, get-remove m key other))
  ]

  -- After a value is set with or without a time to live, a later call gets it under its key until the
  -- time to live has passed, and nothing from then on; what other keys get stays.
  pub memory_set-get :
      (m : MemoryCache V) (key other : String) (value : Option V) (ttl_seconds : Option ℕ)
      (now later : ℕ)
      → (memory_get (memory_set m key value ttl_seconds now) other later).0 ≡ (
          if str_eq key other
          then elim ttl_seconds [
            | none ↦ value
            | some ttl ↦ if leb (now + ttl * 1000000) later then none else value
          ]
          else (memory_get m other later).0)
  unfolding memory_set
  memory_set-get m key other value none now later = ground (
    arith,
    memory_get_lem (memory_set m key value none now) other later,
    memory_get_lem m other later,
    get-put m key other (record { entry_key = key; value = value; expires_at = expiry none now }),
  )
  memory_set-get m key other value (some ttl) now later = ground (
    arith,
    memory_get_lem (memory_set m key value (some ttl) now) other later,
    memory_get_lem m other later,
    get-put m key other
        (record { entry_key = key; value = value; expires_at = expiry (some ttl) now }),
  )

  pub memory_delete-get :
      (m : MemoryCache V) (key other : String) (later : ℕ)
      → (memory_get (memory_delete m key).1 other later).0
        ≡ (if str_eq key other then none else (memory_get m other later).0)
  unfolding memory_delete
  memory_delete-get m key other later = ground (
    arith,
    memory_get_lem (memory_delete m key).1 other later,
    memory_get_lem m other later,
    get-remove m key other,
  )

  pub memory_get-other :
      (m : MemoryCache V) (key other : String) (now later : ℕ)
      → key ≢ other
      → (memory_get (memory_get m key now).1 other later).0 ≡ (memory_get m other later).0
  memory_get-other m key other now later n =
      let state = memory_get_state m key other now in
      let kept : get (memory_get m key now).1 other ≡ get m other =
        ground (arith, state, eq_iff key other, n) in
      memory_get_lem (memory_get m key now).1 other later
      ∙ ap (λ o. worth o later) kept
      ∙ sym (memory_get_lem m other later)
