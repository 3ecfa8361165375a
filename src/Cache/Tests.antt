-- ===== src/Cache/Tests.antt =====
-- A cache with tags, two tenants, and the theorems at them.
use eitoh_forge.Prelude.{
  ◌≡◌, ◌≢◌, refl, String, str_eq, true, false, none, some, List, [], ◌∷◌, if◌then◌else◌, leb, arith,
  eq_iff,
}
use eitoh_forge.Prelude.Text.{is_blank, strip, lstrip, rstrip, isspace, startswith}
use eitoh_forge.Prelude.Dict.{get, put, remove}
use eitoh_forge.Prelude.Sets.{has, add, without, members, add_member, discard_member}
use eitoh_forge.Cache.{
  CacheProvider, MemoryCache, memory_cache, memory_get, memory_set, memory_delete, tenant_scoped,
  namespaced_key,
}
use eitoh_forge.Cache.Memory.{memory_set-get}
use eitoh_forge.Cache.Tags.{
  discard_from, tag_key, normalize, normalized_tags, detach_key_from_tags, set_cached,
  delete_cached, invalidate_keys, set_with_tags, invalidate_tag,
}
use eitoh_forge.Cache.Tenants.{setting, tenant_calls, tenant_calls-get}
use eitoh_forge.Cache.Run.{CacheCall, tagging, new_cache, cache_step, cache_run, cache_run-Inverse}
use eitoh_forge.Cache.Invalidation.{invalidate_tag-get}

abbrev lower : String → String
lower s = s

abbrev none_yet : MemoryCache String
none_yet = []

-- Two keys, one with the tag "orders"
abbrev calls : List (CacheProvider (MemoryCache String) String × CacheCall String)
calls =
    (memory_cache 0, tagging "a" (some "1") ("orders" ∷ []) none)
    ∷ (memory_cache 5, tagging "b" (some "2") ("users" ∷ []) (some 60))
    ∷ []

count :
    (invalidate_tag
      (memory_cache 9)
      lower
      (cache_run lower calls (new_cache none_yet))
      " orders ").0
    ≡ 1
unfolding invalidate_tag cache_run cache_step set_with_tags set_cached tag_key normalized_tags
    detach_key_from_tags discard_from invalidate_keys delete_cached memory_set memory_delete members
    add_member discard_member add without has get put remove strip lstrip rstrip isspace
count = refl

cache_run-Inverse_example :
    let c = cache_run lower calls (new_cache none_yet) in
    (has "orders" (members c.keys_to_tags "a") ≡ has "a" (members c.tags_to_keys "orders"))
    × (has "orders" (members c.keys_to_tags "a") ≡ true → has "a" c.known_keys ≡ true)
cache_run-Inverse_example = cache_run-Inverse lower calls none_yet "a" "orders"

not_blank : is_blank (normalize lower "orders") ≡ false
unfolding strip lstrip rstrip isspace
not_blank = refl

invalidate_tag-get_example :
    let c = cache_run lower calls (new_cache none_yet) in
    (memory_get (invalidate_tag (memory_cache 9) lower c "orders").1.delegate "a" 10).0 ≡ (
      if has (normalize lower "orders") (members c.keys_to_tags "a")
      then none
      else (memory_get c.delegate "a" 10).0)
invalidate_tag-get_example = invalidate_tag-get lower calls none_yet "orders" "a" 9 10 not_blank

memory_set-get_example :
    (memory_get (memory_set none_yet "k" (some "v") (some 1) 0) "k" 999999).0 ≡ (
      if str_eq "k" "k"
      then (if leb 1000000 999999 then none else some "v")
      else (memory_get none_yet "k" 999999).0)
memory_set-get_example = memory_set-get none_yet "k" "k" (some "v") (some 1) 0 999999

differ : (a b : String) → str_eq a b ≡ false → a ≢ b
differ a b h e = ground (arith, h, e, eq_iff a b)

tenant_calls-get_example :
    let m = tenant_calls "acme" ((setting "k" (some "v") none, 0) ∷ []) none_yet in
    ((tenant_scoped (memory_cache 1) ":" (some "globex")).get_value m "k").0
    ≡ ((tenant_scoped (memory_cache 1) ":" (some "globex")).get_value none_yet "k").0
tenant_calls-get_example =
    tenant_calls-get "acme" "globex" ((setting "k" (some "v") none, 0) ∷ []) none_yet "k" 1 refl
      refl (differ "acme" "globex" refl)

-- The key "b:k" of the tenant "a" is the key "k" of the tenant "a:b".
shared : namespaced_key ":" (some "a") "b:k" ≡ namespaced_key ":" (some "a:b") "k"
unfolding namespaced_key startswith
shared = refl
