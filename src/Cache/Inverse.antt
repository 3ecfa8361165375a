-- ===== src/Cache/Inverse.antt =====
-- The two indexes of a tagged cache stay inverse to each other.
use eitoh_forge.Prelude.{
  ℕ, ◌+◌, ◌≡◌, String, str_eq, Bool, true, false, ◌&&◌, Option, List, [], ◌∷◌, if◌then◌else◌,
  is_some, is_empty, arith, eq_iff, inl, inr, Option-cases, if_intro,
}
use eitoh_forge.Prelude.Text.{is_blank, strip}
use eitoh_forge.Prelude.Dict.{get}
use eitoh_forge.Prelude.Sets.{
  has, add, Sets, members, add_member, discard_member, has-add, has-without, has-add_member,
  has-discard_member, has-remove,
}
use eitoh_forge.Cache.{CacheProvider}
use eitoh_forge.Cache.Tags.{
  AdvancedCache, discard_from, tag_key, with_prefix, normalize, normalized_tags,
  detach_key_from_tags, set_cached, delete_cached, invalidate_keys, invalidate_prefix,
  invalidate_prefixes, set_with_tags, invalidate_tag,
}

has-discard_guarded :
    (d : Sets) (tag t key k : String)
    → has k (members (if is_some (get d tag) then discard_member d tag key else d) t)
      ≡ (if str_eq tag t && str_eq key k then false else has k (members d t))
unfolding members has
has-discard_guarded d tag t key k = elim (Option-cases (get d tag)) [
  | inl e ↦ ground (arith, e, eq_iff tag t, has-discard_member d tag t k key)
  | inr (s, e) ↦ ground (arith, e, eq_iff tag t, has-discard_member d tag t k key)
]

pub has-discard_from :
    (key : String) (tags : List String) (d : Sets) (t k : String)
    → has k (members (discard_from key tags d) t)
      ≡ (if str_eq key k && has t tags then false else has k (members d t))
unfolding discard_from has
has-discard_from key [] d t k = ground arith
has-discard_from key (tag ∷ tags) d t k = ground (
  arith,
  has-discard_from key tags (if is_some (get d tag) then discard_member d tag key else d) t k,
  has-discard_guarded d tag t key k,
)

pub has-tag_key :
    (key : String) (tags : List String) (d e : Sets) (t k : String)
    → (has k (members (tag_key key tags (d, e)).0 t)
        ≡ (if str_eq key k && has t tags then true else has k (members d t)))
      × (has t (members (tag_key key tags (d, e)).1 k)
          ≡ (if str_eq key k && has t tags then true else has t (members e k)))
unfolding tag_key has
has-tag_key key [] d e t k = (ground arith, ground arith)
has-tag_key key (tag ∷ tags) d e t k =
    let (a, b) = has-tag_key key tags (add_member d tag key) (add_member e key tag) t k in
    (
      ground (arith, a, has-add_member d tag t k key, eq_iff key k, eq_iff tag t),
      ground (arith, b, has-add_member e key k t tag, eq_iff key k, eq_iff tag t),
    )

pub record Inverse {C : Type 0} (c : AdvancedCache C) : Type 0 where
  pub inverse :
      (key tag : String)
      → has tag (members c.keys_to_tags key) ≡ has key (members c.tags_to_keys tag)
  pub known :
      (key tag : String) → has tag (members c.keys_to_tags key) ≡ true → has key c.known_keys ≡ true

module _ {C V : Type 0} (provider : CacheProvider C V) where
  detach-Inverse :
      (c : AdvancedCache C) (key : String)
      → Inverse c
      → Inverse (detach_key_from_tags provider c key)
  unfolding detach_key_from_tags
  detach-Inverse c key i = record {
    inverse = λ k t. ground (
      arith,
      has-discard_from key (members c.keys_to_tags key) c.tags_to_keys t k,
      has-remove c.keys_to_tags key k t,
      eq_iff key k,
      i.inverse k t,
      i.inverse key t,
    );
    known = λ k t h. ground (arith, h, has-remove c.keys_to_tags key k t, i.known k t);
  }

  pub detach-known :
      (c : AdvancedCache C) (key k t : String)
      → has t (members (detach_key_from_tags provider c key).keys_to_tags k) ≡ true
      → (str_eq key k ≡ false) × (has t (members c.keys_to_tags k) ≡ true)
  unfolding detach_key_from_tags
  detach-known c key k t h = (
    ground (arith, h, has-remove c.keys_to_tags key k t),
    ground (arith, h, has-remove c.keys_to_tags key k t),
  )

  knowing :
      (c : AdvancedCache C) (key : String)
      → Inverse c
      → Inverse (record c { known_keys = add c.known_keys key })
  knowing c key i = record {
    inverse = i.inverse;
    known = λ k t h. ground (arith, has-add k key c.known_keys, i.known k t h);
  }

  pub set_cached-Inverse :
      (c : AdvancedCache C) (key : String) (value : Option V) (ttl : Option ℕ)
      → Inverse c
      → Inverse (set_cached provider c key value ttl)
  unfolding set_cached
  set_cached-Inverse c key value ttl i =
      let j =
        detach-Inverse (record c { known_keys = add c.known_keys key }) key (knowing c key i) in
      record { inverse = j.inverse; known = j.known }

  pub delete_cached-Inverse :
      (c : AdvancedCache C) (key : String) → Inverse c → Inverse (delete_cached provider c key).1
  unfolding delete_cached
  delete_cached-Inverse c key i =
      let (deleted, d) = provider.delete_key c.delegate key in
      let j = detach-Inverse c key i in
      if_intro (λ (x : Bool × AdvancedCache C). Inverse x.1) deleted _ _
        (λ e. record {
          inverse = j.inverse;
          known = λ k t h.
              let (n, h') = detach-known c key k t h in
              ground (arith, n, has-without k key c.known_keys, i.known k t h');
        })
        (λ e. record { inverse = i.inverse; known = i.known })

  invalidate_keys-Inverse :
      (c : AdvancedCache C) (keys : List String) (count : ℕ)
      → Inverse c
      → Inverse (invalidate_keys provider c keys count).1
  unfolding invalidate_keys
  invalidate_keys-Inverse c [] count i = i
  invalidate_keys-Inverse c (key ∷ keys) count i =
      let (deleted, c') = delete_cached provider c key in
      invalidate_keys-Inverse c' keys (if deleted then count + 1 else count)
        (delete_cached-Inverse c key i)

  pub invalidate_prefix-Inverse :
      (c : AdvancedCache C) (prefix : String)
      → Inverse c
      → Inverse (invalidate_prefix provider c prefix).1
  unfolding invalidate_prefix
  invalidate_prefix-Inverse c prefix i =
      if_intro (λ (x : ℕ × AdvancedCache C). Inverse x.1) (is_blank (strip prefix)) _ _ (λ e. i)
        (λ e. invalidate_keys-Inverse c (with_prefix (strip prefix) c.known_keys) 0 i)

  pub invalidate_prefixes-Inverse :
      (c : AdvancedCache C) (prefixes : List String)
      → Inverse c
      → Inverse (invalidate_prefixes provider c prefixes)
  unfolding invalidate_prefixes
  invalidate_prefixes-Inverse c [] i = i
  invalidate_prefixes-Inverse c (prefix ∷ prefixes) i =
      invalidate_prefixes-Inverse (invalidate_prefix provider c prefix).1 prefixes
        (invalidate_prefix-Inverse c prefix i)

  tagging-Inverse :
      (c : AdvancedCache C) (key : String) (tags : List String)
      → has key c.known_keys ≡ true
      → Inverse c
      → let (tags_to_keys, keys_to_tags) = tag_key key tags (c.tags_to_keys, c.keys_to_tags) in
        Inverse (record c { tags_to_keys = tags_to_keys; keys_to_tags = keys_to_tags })
  tagging-Inverse c key tags h i = record {
    inverse = λ k t.
        let (a, b) = has-tag_key key tags c.tags_to_keys c.keys_to_tags t k in
        ground (arith, a, b, i.inverse k t);
    known = λ k t e.
        let (a, b) = has-tag_key key tags c.tags_to_keys c.keys_to_tags t k in
        ground (arith, b, e, h, eq_iff key k, i.known k t);
  }

  set_cached-known :
      (c : AdvancedCache C) (key : String) (value : Option V) (ttl : Option ℕ)
      → has key (set_cached provider c key value ttl).known_keys ≡ true
  unfolding set_cached detach_key_from_tags
  set_cached-known c key value ttl = ground (arith, has-add key key c.known_keys, eq_iff key key)

  module _ (lower : String → String) where
    pub set_with_tags-Inverse :
        (c : AdvancedCache C) (key : String) (value : Option V) (tags : List String)
        (ttl : Option ℕ)
        → Inverse c
        → Inverse (set_with_tags provider lower c key value tags ttl)
    unfolding set_with_tags
    set_with_tags-Inverse c key value tags ttl i =
        let normalized = normalized_tags lower tags in
        let c' = set_cached provider c key value ttl in
        let j = set_cached-Inverse c key value ttl i in
        if_intro (λ (x : AdvancedCache C). Inverse x) (is_empty normalized) _ _ (λ e. j)
          (λ e. tagging-Inverse c' key normalized (set_cached-known c key value ttl) j)

    pub invalidate_tag-Inverse :
        (c : AdvancedCache C) (tag : String)
        → Inverse c
        → Inverse (invalidate_tag provider lower c tag).1
    unfolding invalidate_tag
    invalidate_tag-Inverse c tag i =
        if_intro (λ (x : ℕ × AdvancedCache C). Inverse x.1) (is_blank (normalize lower tag)) _ _
          (λ e. i)
          (λ e. invalidate_keys-Inverse c (members c.tags_to_keys (normalize lower tag)) 0 i)
