-- ===== src/Cache/Tenants.antt =====
-- The scopes of two tenants do not meet.
use Prim.Native.String.append
use text.Mathlib.TextEquality.{Char-path}
use eitoh_forge.Prelude.{
  ℕ, ◌≡◌, ◌≢◌, refl, sym, ap, subst, List, [], ◌∷◌, ◌∙◌, String, str_append, true, Option, some,
  arith, if_intro, eq_iff,
}
use eitoh_forge.Prelude.Text.{lacks, startswith}
use eitoh_forge.Cache.{
  CacheProvider, MemoryCache, memory_cache, memory_get, tenant_scoped, namespaced_key,
}
use eitoh_forge.Cache.Memory.{memory_set-get, memory_delete-get, memory_get-other}

starts-append : (p s : String) → startswith (str_append p s) p ≡ true
unfolding startswith
starts-append String.[] s = refl
starts-append (String.◌∷◌ c p) s = rw (append.cons c p s) (ground (arith, starts-append p s))

namespaced-starts :
    (separator tenant_id key : String)
    → startswith (namespaced_key separator (some tenant_id) key) (str_append tenant_id separator)
      ≡ true
unfolding namespaced_key
namespaced-starts separator tenant_id key =
    if_intro (λ s. startswith s (str_append tenant_id separator) ≡ true)
      (startswith key (str_append tenant_id separator)) _ _ (λ e. e)
      (λ e. starts-append (str_append tenant_id separator) key)

-- A text that starts with two names, each ended by the separator, starts with one name.
same_name :
    (s a b : String)
    → lacks 58 a ≡ true
    → lacks 58 b ≡ true
    → startswith s (str_append a ":") ≡ true
    → startswith s (str_append b ":") ≡ true
    → a ≡ b
unfolding startswith
same_name s String.[] String.[] p q e f = refl
same_name String.[] String.[] (String.◌∷◌ d b) p q e f = absurd (ground (arith, e))
same_name (String.◌∷◌ x s) String.[] (String.◌∷◌ d b) p q e f =
    let g = subst (λ t. startswith (String.◌∷◌ x s) t ≡ true) (append.cons d b ":") f in
    absurd (ground (arith, e, q, g))
same_name String.[] (String.◌∷◌ c a) b p q e f =
    let g = subst (λ t. startswith String.[] t ≡ true) (append.cons c a ":") e in
    absurd (ground (arith, g))
same_name (String.◌∷◌ x s) (String.◌∷◌ c a) String.[] p q e f =
    let g = subst (λ t. startswith (String.◌∷◌ x s) t ≡ true) (append.cons c a ":") e in
    absurd (ground (arith, f, p, g))
same_name (String.◌∷◌ x s) (String.◌∷◌ c a) (String.◌∷◌ d b) p q e f =
    let g = subst (λ t. startswith (String.◌∷◌ x s) t ≡ true) (append.cons c a ":") e in
    let h = subst (λ t. startswith (String.◌∷◌ x s) t ≡ true) (append.cons d b ":") f in
    let rest : a ≡ b =
      same_name s a b (ground (arith, p)) (ground (arith, q)) (ground (arith, g))
        (ground (arith, h)) in
    let first : c ≡ d = Char-path c d (ground (arith, g, h)) in
    ap (λ t. String.◌∷◌ c t) rest ∙ ap (λ z. String.◌∷◌ z b) first

-- Two tenants without ":" in their ids never have a key in common.
namespaced-differ :
    (a b key other : String)
    → lacks 58 a ≡ true
    → lacks 58 b ≡ true
    → a ≢ b
    → namespaced_key ":" (some a) key ≢ namespaced_key ":" (some b) other
namespaced-differ a b key other p q n e = n (
    same_name (namespaced_key ":" (some a) key) a b p q (namespaced-starts ":" a key)
      (subst (λ s. startswith s (str_append b ":") ≡ true) (sym e) (namespaced-starts ":" b other)))

-- What a tenant does to a cache.
pub data TenantCall (V : Type 0) : Type 0 where
  getting : String → TenantCall V
  setting : String → Option V → (ttl_seconds : Option ℕ) → TenantCall V
  deleting : String → TenantCall V

module _ {V : Type 0} where
  abbrev scoped : String → (now : ℕ) → CacheProvider (MemoryCache V) V
  scoped tenant_id now = tenant_scoped (memory_cache now) ":" (some tenant_id)

  -- The cache after a call of a tenant at a time
  unfoldable pub tenant_call : String → TenantCall V → (now : ℕ) → MemoryCache V → MemoryCache V
  tenant_call tenant_id (getting key) now m = ((scoped tenant_id now).get_value m key).1
  tenant_call tenant_id (setting key value ttl) now m =
      (scoped tenant_id now).set_value m key value ttl
  tenant_call tenant_id (deleting key) now m = ((scoped tenant_id now).delete_key m key).1

  unfoldable pub tenant_calls : String → List (TenantCall V × ℕ) → MemoryCache V → MemoryCache V
  unfolding tenant_call
  tenant_calls tenant_id [] m = m
  tenant_calls tenant_id ((call, now) ∷ calls) m =
      tenant_calls tenant_id calls (tenant_call tenant_id call now m)

  tenant_call-get :
      (a b : String) (call : TenantCall V) (now : ℕ) (m : MemoryCache V) (key : String) (later : ℕ)
      → lacks 58 a ≡ true
      → lacks 58 b ≡ true
      → a ≢ b
      → (memory_get (tenant_call a call now m) (namespaced_key ":" (some b) key) later).0
        ≡ (memory_get m (namespaced_key ":" (some b) key) later).0
  unfolding tenant_call
  tenant_call-get a b (getting k) now m key later p q n =
      memory_get-other m _ _ now later (namespaced-differ a b k key p q n)
  tenant_call-get a b (setting k value ttl) now m key later p q n = ground (
    arith,
    memory_set-get m (namespaced_key ":" (some a) k) (namespaced_key ":" (some b) key) value ttl now
        later,
    eq_iff (namespaced_key ":" (some a) k) (namespaced_key ":" (some b) key),
    namespaced-differ a b k key p q n,
  )
  tenant_call-get a b (deleting k) now m key later p q n = ground (
    arith,
    memory_delete-get m (namespaced_key ":" (some a) k) (namespaced_key ":" (some b) key) later,
    eq_iff (namespaced_key ":" (some a) k) (namespaced_key ":" (some b) key),
    namespaced-differ a b k key p q n,
  )

  -- No sequence of a tenant's calls changes what another tenant gets, at any time, from the in-memory
  -- cache with the separator ":", if neither id contains it.
  pub tenant_calls-get :
      (a b : String) (calls : List (TenantCall V × ℕ)) (m : MemoryCache V) (key : String)
      (later : ℕ)
      → lacks 58 a ≡ true
      → lacks 58 b ≡ true
      → a ≢ b
      → ((tenant_scoped (memory_cache later) ":" (some b)).get_value (tenant_calls a calls m) key).0
        ≡ ((tenant_scoped (memory_cache later) ":" (some b)).get_value m key).0
  unfolding tenant_calls
  tenant_calls-get a b [] m key later p q n = refl
  tenant_calls-get a b ((call, now) ∷ calls) m key later p q n =
      tenant_calls-get a b calls (tenant_call a call now m) key later p q n
      ∙ tenant_call-get a b call now m key later p q n
