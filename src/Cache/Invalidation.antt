-- ===== src/Cache/Invalidation.antt =====
-- What the invalidation of a tag leaves in the in-memory cache.
use eitoh_forge.Prelude.{
  ℕ, ◌+◌, ◌≡◌, refl, String, str_eq, Bool, false, none, List, [], ◌∷◌, if◌then◌else◌, arith,
  if_intro,
}
use eitoh_forge.Prelude.Text.{is_blank}
use eitoh_forge.Prelude.Sets.{has, members}
use eitoh_forge.Cache.{CacheProvider, MemoryCache, memory_cache, memory_get, memory_delete}
use eitoh_forge.Cache.Memory.{memory_delete-get}
use eitoh_forge.Cache.Tags.{
  AdvancedCache, normalize, detach_key_from_tags, delete_cached, invalidate_keys, invalidate_tag,
}
use eitoh_forge.Cache.Run.{CacheCall, cache_run, new_cache, cache_run-Inverse}

module _ {V : Type 0} where
  delete_cached-get :
      (now : ℕ) (c : AdvancedCache (MemoryCache V)) (key other : String) (later : ℕ)
      → (memory_get (delete_cached (memory_cache now) c key).1.delegate other later).0
        ≡ (if str_eq key other then none else (memory_get c.delegate other later).0)
  unfolding delete_cached detach_key_from_tags
  delete_cached-get now c key other later =
      let gone = memory_delete-get c.delegate key other later in
      if_intro
        (λ (x : Bool × AdvancedCache (MemoryCache V)).
          (memory_get x.1.delegate other later).0
          ≡ (if str_eq key other then none else (memory_get c.delegate other later).0))
        (memory_delete c.delegate key).0 _ _ (λ e. gone) (λ e. gone)

  invalidate_keys-get :
      (now : ℕ) (c : AdvancedCache (MemoryCache V)) (keys : List String) (count : ℕ)
      (other : String) (later : ℕ)
      → (memory_get (invalidate_keys (memory_cache now) c keys count).1.delegate other later).0
        ≡ (if has other keys then none else (memory_get c.delegate other later).0)
  unfolding invalidate_keys has
  invalidate_keys-get now c [] count other later = refl
  invalidate_keys-get now c (key ∷ keys) count other later =
      let (deleted, c') = delete_cached (memory_cache now) c key in
      ground (
        arith,
        invalidate_keys-get now c' keys (if deleted then count + 1 else count) other later,
        delete_cached-get now c key other later,
      )

  -- In the cache after every sequence of calls around an in-memory provider: when a tag is invalidated
  -- that is not blank, a key of it gets nothing any more, at any time, and every other key gets what it
  -- got before.
  pub invalidate_tag-get :
      (lower : String → String) (calls : List (CacheProvider (MemoryCache V) V × CacheCall V))
      (m : MemoryCache V) (tag other : String) (now later : ℕ)
      → is_blank (normalize lower tag) ≡ false
      → let c = cache_run lower calls (new_cache m) in
        (memory_get (invalidate_tag (memory_cache now) lower c tag).1.delegate other later).0 ≡ (
          if has (normalize lower tag) (members c.keys_to_tags other)
          then none
          else (memory_get c.delegate other later).0)
  unfolding invalidate_tag
  invalidate_tag-get lower calls m tag other now later h =
      let c = cache_run lower calls (new_cache m) in
      let keys = members c.tags_to_keys (normalize lower tag) in
      let (same, known) = cache_run-Inverse lower calls m other (normalize lower tag) in
      rw h (rw same (invalidate_keys-get now c keys 0 other later))
