-- ===== src/Cache/Tags.antt =====
-- src/eitohforge_sdk/infrastructure/cache/invalidation.py: a cache with tags around a provider. `lower`
-- is str.lower. A set is a list in the order of insertion.
use eitoh_forge.Prelude.{
  ℕ, ◌+◌, String, Bool, true, false, Option, List, [], ◌∷◌, if◌then◌else◌, is_some, is_empty,
}
use eitoh_forge.Prelude.Text.{is_blank, strip, startswith}
use eitoh_forge.Prelude.Dict.{get, remove}
use eitoh_forge.Prelude.Sets.{add, without, Sets, members, add_member, discard_member}
use eitoh_forge.Cache.{CacheProvider}

pub record AdvancedCache (C : Type 0) : Type 0 where
  pub delegate : C
  pub known_keys : List String
  pub tags_to_keys : Sets
  pub keys_to_tags : Sets

-- The loop of _detach_key_from_tags
unfoldable pub discard_from : (key : String) → (tags : List String) → Sets → Sets
unfolding get discard_member
discard_from key [] d = d
discard_from key (tag ∷ tags) d =
    discard_from key tags (if is_some (get d tag) then discard_member d tag key else d)

-- The loop of set_with_tags
unfoldable pub tag_key : (key : String) → (tags : List String) → (Sets × Sets) → Sets × Sets
unfolding add_member
tag_key key [] d = d
tag_key key (tag ∷ tags) (tags_to_keys, keys_to_tags) =
    tag_key key tags (add_member tags_to_keys tag key, add_member keys_to_tags key tag)

-- The keys with a prefix
unfoldable pub with_prefix : String → List String → List String
unfolding startswith
with_prefix prefix [] = []
with_prefix prefix (key ∷ keys) =
    let rest = with_prefix prefix keys in if startswith key prefix then key ∷ rest else rest

module _ (lower : String → String) where
  abbrev pub normalize : String → String
  normalize tag = lower (strip tag)

  -- tuple(tag.strip().lower() for tag in tags if tag.strip())
  unfoldable pub normalized_tags : List String → List String
  unfolding strip
  normalized_tags [] = []
  normalized_tags (tag ∷ tags) =
      let rest = normalized_tags tags in if is_blank (strip tag) then rest else normalize tag ∷ rest

module _ {C V : Type 0} (provider : CacheProvider C V) where
  -- AdvancedCacheProvider._detach_key_from_tags
  unfoldable pub detach_key_from_tags : AdvancedCache C → String → AdvancedCache C
  unfolding discard_from members remove
  detach_key_from_tags c key = record c {
    tags_to_keys = discard_from key (members c.keys_to_tags key) c.tags_to_keys;
    keys_to_tags = remove c.keys_to_tags key;
  }

  -- AdvancedCacheProvider.get
  abbrev pub get_cached : AdvancedCache C → String → Option V × AdvancedCache C
  get_cached c key =
      let (value, d) = provider.get_value c.delegate key in (value, record c { delegate = d })

  -- AdvancedCacheProvider.set
  unfoldable pub set_cached :
      AdvancedCache C → String → Option V → (ttl_seconds : Option ℕ) → AdvancedCache C
  unfolding detach_key_from_tags add
  set_cached c key value ttl_seconds =
      let c' = detach_key_from_tags (record c { known_keys = add c.known_keys key }) key in
      record c' { delegate = provider.set_value c'.delegate key value ttl_seconds }

  -- AdvancedCacheProvider.delete
  unfoldable pub delete_cached : AdvancedCache C → String → Bool × AdvancedCache C
  unfolding detach_key_from_tags without
  delete_cached c key =
      let (deleted, d) = provider.delete_key c.delegate key in
      let c' = record c { delegate = d } in
      if deleted
      then (true, detach_key_from_tags (record c' { known_keys = without key c.known_keys }) key)
      else (false, c')

  -- AdvancedCacheProvider.invalidate_keys, from a count
  unfoldable pub invalidate_keys :
      AdvancedCache C → List String → (deleted : ℕ) → ℕ × AdvancedCache C
  unfolding delete_cached
  invalidate_keys c [] count = (count, c)
  invalidate_keys c (key ∷ keys) count =
      let (deleted, c') = delete_cached c key in
      invalidate_keys c' keys (if deleted then count + 1 else count)

  -- AdvancedCacheProvider.invalidate_prefix
  unfoldable pub invalidate_prefix : AdvancedCache C → String → ℕ × AdvancedCache C
  unfolding invalidate_keys with_prefix strip
  invalidate_prefix c prefix =
      let normalized_prefix = strip prefix in
      if is_blank normalized_prefix
      then (0, c)
      else invalidate_keys c (with_prefix normalized_prefix c.known_keys) 0

  -- The loop of write_through over the prefixes
  unfoldable pub invalidate_prefixes : AdvancedCache C → List String → AdvancedCache C
  unfolding invalidate_prefix
  invalidate_prefixes c [] = c
  invalidate_prefixes c (prefix ∷ prefixes) =
      invalidate_prefixes (invalidate_prefix c prefix).1 prefixes

  module _ (lower : String → String) where
    -- AdvancedCacheProvider.set_with_tags
    unfoldable pub set_with_tags :
        AdvancedCache C
        → String
        → Option V
        → (tags : List String) → (ttl_seconds : Option ℕ) → AdvancedCache C
    unfolding set_cached tag_key normalized_tags
    set_with_tags c key value tags ttl_seconds =
        let normalized = normalized_tags lower tags in
        let c' = set_cached c key value ttl_seconds in
        let (tags_to_keys, keys_to_tags) =
          tag_key key normalized (c'.tags_to_keys, c'.keys_to_tags) in
        if is_empty normalized
        then c'
        else record c' { tags_to_keys = tags_to_keys; keys_to_tags = keys_to_tags }

    -- AdvancedCacheProvider.invalidate_tag
    unfoldable pub invalidate_tag : AdvancedCache C → String → ℕ × AdvancedCache C
    unfolding invalidate_keys members strip
    invalidate_tag c tag =
        let normalized_tag = normalize lower tag in
        if is_blank normalized_tag
        then (0, c)
        else invalidate_keys c (members c.tags_to_keys normalized_tag) 0

    -- AdvancedCacheProvider.write_through
    unfoldable pub write_through :
        AdvancedCache C
        → String
        → Option V
        → (tags : List String) → (ttl_seconds : Option ℕ) → (prefixes : List String)
        → Option V × AdvancedCache C
    unfolding set_with_tags invalidate_prefixes
    write_through c key value tags ttl_seconds prefixes =
        (value, set_with_tags (invalidate_prefixes c prefixes) key value tags ttl_seconds)
