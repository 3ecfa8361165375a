-- ===== src/Cache.antt =====
-- src/eitohforge_sdk/infrastructure/cache/: the contract of a cache (contracts.py), the in-memory one
-- (memory.py) and the scope of a tenant (tenant_scoped.py). Times are microseconds since the epoch. A
-- value is an `Option V`, where `none` is Python's None.
pub mod Tags
pub mod Memory
pub mod Tenants
pub mod Inverse
pub mod Run
pub mod Invalidation
mod Tests
use eitoh_forge.Prelude.{
  ℕ, ◌+◌, ◌*◌, String, str_append, Bool, true, false, Option, none, some, [], if◌then◌else◌, leb,
  is_some,
}
use eitoh_forge.Prelude.Text.{startswith}
use eitoh_forge.Prelude.Dict.{Dict, get, put, remove}

pub record CacheEntry (V : Type 0) : Type 0 where
  pub entry_key : String
  pub value : Option V
  pub expires_at : Option ℕ

-- CacheProvider: the operations on a cache of type `C`, at one time
pub record CacheProvider (C V : Type 0) : Type 0 where
  pub get_value : C → String → Option V × C
  pub set_value : C → String → Option V → (ttl_seconds : Option ℕ) → C
  pub delete_key : C → String → Bool × C

-- MemoryCacheProvider
abbrev pub MemoryCache : Type 0 → Type 0
MemoryCache V = Dict (CacheEntry V)

-- now + timedelta(seconds=ttl_seconds)
abbrev pub expiry : Option ℕ → ℕ → Option ℕ
expiry none now = none
expiry (some ttl_seconds) now = some (now + ttl_seconds * 1000000)

module _ {V : Type 0} where
  -- MemoryCacheProvider._is_expired
  abbrev pub is_expired : CacheEntry V → ℕ → Bool
  is_expired entry now = elim entry.expires_at [ none ↦ false | some at ↦ leb at now ]

  -- MemoryCacheProvider.get
  unfoldable pub memory_get : MemoryCache V → String → (now : ℕ) → Option V × MemoryCache V
  unfolding get remove
  memory_get entries key now = elim (get entries key) [
    | none ↦ (none, entries)
    | some entry ↦
        if is_expired entry now then (none, remove entries key) else (entry.value, entries)
  ]

  -- MemoryCacheProvider.set
  unfoldable pub memory_set :
      MemoryCache V → String → Option V → (ttl_seconds : Option ℕ) → (now : ℕ) → MemoryCache V
  unfolding put
  memory_set entries key value ttl_seconds now =
      put entries key
        (record { entry_key = key; value = value; expires_at = expiry ttl_seconds now })

  -- MemoryCacheProvider.delete
  unfoldable pub memory_delete : MemoryCache V → String → Bool × MemoryCache V
  unfolding get remove
  memory_delete entries key = (is_some (get entries key), remove entries key)

  -- MemoryCacheProvider at the time `now`
  abbrev pub memory_cache : (now : ℕ) → CacheProvider (MemoryCache V) V
  memory_cache now = record {
    get_value = λ entries key. memory_get entries key now;
    set_value = λ entries key value ttl_seconds. memory_set entries key value ttl_seconds now;
    delete_key = memory_delete;
  }

-- The methods that only call `get`
module _ {C V : Type 0} (provider : CacheProvider C V) where
  -- exists
  abbrev pub exists_key : C → String → Bool × C
  exists_key c key = let (value, c') = provider.get_value c key in (is_some value, c')

-- TenantScopedCacheProvider._namespaced_key, where `tenant_id` is the current tenant context's
unfoldable pub namespaced_key : (separator : String) (tenant_id : Option String) → String → String
unfolding startswith
namespaced_key separator none key = key
namespaced_key separator (some tenant_id) key =
    let tenant_prefix = str_append tenant_id separator in
    if startswith key tenant_prefix then key else str_append tenant_prefix key

-- TenantScopedCacheProvider around a provider
abbrev pub tenant_scoped :
    {C V : Type 0}
    → CacheProvider C V
    → (separator : String) (tenant_id : Option String) → CacheProvider C V
tenant_scoped provider separator tenant_id = record {
  get_value = λ c key. provider.get_value c (namespaced_key separator tenant_id key);
  set_value = λ c key. provider.set_value c (namespaced_key separator tenant_id key);
  delete_key = λ c key. provider.delete_key c (namespaced_key separator tenant_id key);
}
