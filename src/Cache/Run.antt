-- ===== src/Cache/Run.antt =====
-- The calls of a tagged cache, and what holds after every sequence of them.
use eitoh_forge.Prelude.{ℕ, ◌≡◌, refl, String, true, Option, List, [], ◌∷◌, arith}
use eitoh_forge.Prelude.Dict.{get}
use eitoh_forge.Prelude.Sets.{has, members}
use eitoh_forge.Cache.{CacheProvider}
use eitoh_forge.Cache.Tags.{
  AdvancedCache, get_cached, set_cached, delete_cached, invalidate_prefix, invalidate_prefixes,
  set_with_tags, invalidate_tag, write_through,
}
use eitoh_forge.Cache.Inverse.{
  Inverse, set_cached-Inverse, delete_cached-Inverse, invalidate_prefix-Inverse,
  invalidate_prefixes-Inverse, set_with_tags-Inverse, invalidate_tag-Inverse,
}

-- A call of the cache.
pub data CacheCall (V : Type 0) : Type 0 where
  getting : String → CacheCall V
  setting : String → Option V → (ttl_seconds : Option ℕ) → CacheCall V
  tagging : String → Option V → (tags : List String) → (ttl_seconds : Option ℕ) → CacheCall V
  deleting : String → CacheCall V
  invalidating_tag : String → CacheCall V
  invalidating_prefix : String → CacheCall V
  writing_through :
      String
      → Option V
      → (tags : List String) → (ttl_seconds : Option ℕ) → (prefixes : List String) → CacheCall V

-- The cache around `delegate` before any call
abbrev pub new_cache : {C : Type 0} → C → AdvancedCache C
new_cache delegate = record {
  delegate = delegate;
  known_keys = [];
  tags_to_keys = [];
  keys_to_tags = [];
}

module _ {C V : Type 0} (lower : String → String) where
  -- The cache after a call
  unfoldable pub cache_step : CacheProvider C V → CacheCall V → AdvancedCache C → AdvancedCache C
  unfolding set_cached delete_cached set_with_tags invalidate_tag invalidate_prefix write_through
  cache_step provider (getting key) c = (get_cached provider c key).1
  cache_step provider (setting key value ttl) c = set_cached provider c key value ttl
  cache_step provider (tagging key value tags ttl) c =
      set_with_tags provider lower c key value tags ttl
  cache_step provider (deleting key) c = (delete_cached provider c key).1
  cache_step provider (invalidating_tag tag) c = (invalidate_tag provider lower c tag).1
  cache_step provider (invalidating_prefix prefix) c = (invalidate_prefix provider c prefix).1
  cache_step provider (writing_through key value tags ttl prefixes) c =
      (write_through provider lower c key value tags ttl prefixes).1

  -- The cache after calls, each with its provider (the one at its time)
  unfoldable pub cache_run :
      List (CacheProvider C V × CacheCall V) → AdvancedCache C → AdvancedCache C
  unfolding cache_step
  cache_run [] c = c
  cache_run ((provider, call) ∷ calls) c = cache_run calls (cache_step provider call c)

  cache_step-Inverse :
      (provider : CacheProvider C V) (call : CacheCall V) (c : AdvancedCache C)
      → Inverse c
      → Inverse (cache_step provider call c)
  unfolding cache_step write_through
  cache_step-Inverse provider (getting key) c i = record { inverse = i.inverse; known = i.known }
  cache_step-Inverse provider (setting key value ttl) c i =
      set_cached-Inverse provider c key value ttl i
  cache_step-Inverse provider (tagging key value tags ttl) c i =
      set_with_tags-Inverse provider lower c key value tags ttl i
  cache_step-Inverse provider (deleting key) c i = delete_cached-Inverse provider c key i
  cache_step-Inverse provider (invalidating_tag tag) c i =
      invalidate_tag-Inverse provider lower c tag i
  cache_step-Inverse provider (invalidating_prefix prefix) c i =
      invalidate_prefix-Inverse provider c prefix i
  cache_step-Inverse provider (writing_through key value tags ttl prefixes) c i =
      set_with_tags-Inverse provider lower (invalidate_prefixes provider c prefixes) key value tags
        ttl (invalidate_prefixes-Inverse provider c prefixes i)

  cache_run-Inverse_from :
      (calls : List (CacheProvider C V × CacheCall V)) (c : AdvancedCache C)
      → Inverse c
      → Inverse (cache_run calls c)
  unfolding cache_run
  cache_run-Inverse_from [] c i = i
  cache_run-Inverse_from ((provider, call) ∷ calls) c i =
      cache_run-Inverse_from calls (cache_step provider call c)
        (cache_step-Inverse provider call c i)

  -- After every sequence of calls on a new cache, around any provider: a tag is one of a key's tags
  -- exactly if the key is one of the tag's keys, and a key with tags is a known key.
  pub cache_run-Inverse :
      (calls : List (CacheProvider C V × CacheCall V)) (delegate : C) (key tag : String)
      → let c = cache_run calls (new_cache delegate) in
        (has tag (members c.keys_to_tags key) ≡ has key (members c.tags_to_keys tag))
        × (has tag (members c.keys_to_tags key) ≡ true → has key c.known_keys ≡ true)
  unfolding members has get
  cache_run-Inverse calls delegate key tag =
      let i =
        cache_run-Inverse_from calls (new_cache delegate)
          (record { inverse = λ k t. refl; known = λ k t h. absurd (ground (arith, h)) }) in
      (i.inverse key tag, i.known key tag)
