-- ===== src/RateLimit/Middleware.antt =====
-- src/eitohforge_sdk/core/rate_limit.py: the key of a request and the middleware.
use eitoh_forge.Prelude.{
  ℕ, ◌≡◌, sym, ◌∙◌, ap, Bool-cases, String, str_append, str_eq, Bool, true, false, Option, none,
  some, inl, inr, List, [], ◌∷◌, if◌then◌else◌, arith,
}
use eitoh_forge.Prelude.Text.{is_blank, strip, startswith}
use eitoh_forge.Prelude.Dict.{Dict, put, get-put}
use eitoh_forge.Prelude.Results.{Result, ok, err, ◌>>=◌, Result-cases}
use eitoh_forge.RateLimit.{
  allowed, allowed_parts, RateLimitRule, InMemoryRateLimiter, LimiterError, window, evict,
  bucket_of, admit, allow,
}

-- What the middleware reads of a request: the path, the header of a name and the host of the client.
pub record HttpRequest : Type 0 where
  pub path : String
  pub header : String → Option String
  pub client_host : Option String

-- What it answers: the handler behind it, or status 429 with Retry-After and X-RateLimit-Limit.
pub data Answer : Type 0 where
  call_next : Answer
  too_many_requests : (retry_after limit : ℕ) → Answer

-- f"client:{host}"
unfoldable pub client_key : Option String → String
client_key none = "client:unknown"
client_key (some host) = if is_blank host then "client:unknown" else str_append "client:" host

-- Whether the path is in the rule's scope.
unfoldable pub in_scope : RateLimitRule → HttpRequest → Bool
unfolding startswith
in_scope rule request = elim rule.scope_path_prefix [
  | none ↦ true
  | some prefix ↦ startswith request.path prefix
]

module _ (lower : String → String) where
  -- resolve_rate_limit_key, where `lower` is str.lower
  unfoldable pub resolve_rate_limit_key : HttpRequest → List String → String
  unfolding client_key strip
  resolve_rate_limit_key request [] = client_key request.client_host
  resolve_rate_limit_key request (name ∷ names) =
      let rest = resolve_rate_limit_key request names in
      elim (request.header name) [
        | none ↦ rest
        | some value ↦
            if is_blank value then rest else str_append (str_append name ":") (lower (strip value))
      ]

  -- The middleware at the time `now`
  unfoldable pub rate_limit_middleware :
      RateLimitRule
      → InMemoryRateLimiter
      → ℕ
      → HttpRequest
      → Result LimiterError (Answer × InMemoryRateLimiter)
  unfolding resolve_rate_limit_key in_scope allow
  rate_limit_middleware rule l now request =
      let counted = do
        (allowed, retry_after, l') ←
            allow l (resolve_rate_limit_key request rule.key_headers) rule now
        ok (if allowed then call_next else too_many_requests retry_after rule.max_requests, l')
      in if in_scope rule request then counted else ok (call_next, l)

-- What a call tells its client.
unfoldable pub told :
    Result LimiterError (Answer × InMemoryRateLimiter) → Result LimiterError Answer
told r = do (a, l) ← r; ok a

bucket_of-put_other :
    (d : Dict (List ℕ)) (j k : String) (b : List ℕ)
    → str_eq j k ≡ false
    → bucket_of (put d j b) k ≡ bucket_of d k
unfolding bucket_of
bucket_of-put_other d j k b ne = ground (arith, get-put d j k b)

-- A call for one key leaves the buckets of the others.
allow-other :
    (l l' : InMemoryRateLimiter) (j k : String) (rule : RateLimitRule) (now : ℕ) (a : Bool) (s : ℕ)
    → str_eq j k ≡ false
    → allow l j rule now ≡ ok (a, s, l')
    → bucket_of l'.requests k ≡ bucket_of l.requests k
unfolding allow
allow-other l l' j k rule now a s ne e =
    elim (Result-cases (admit rule now (evict (window rule) now (bucket_of l.requests j)))) [
      | inl ((x, y, b), f) ↦
          let left : InMemoryRateLimiter = record l { requests = put l.requests j b } in
          let done : allow l j rule now ≡ allowed x y left = rw f in
          let (_, _, same) = allowed_parts x a y s left l' (sym done ∙ e) in
          sym (ap (λ m. bucket_of m.requests k) same) ∙ bucket_of-put_other l.requests j k b ne
      | inr (q, f) ↦ let failed : allow l j rule now ≡ err q = rw f in cc
    ]

-- The answer to a request for one key does not depend on an answered call for another key.
pub middleware-isolated :
    (lower : String → String) (rule : RateLimitRule) (l l' : InMemoryRateLimiter) (j : String)
    (before now : ℕ) (a : Bool) (s : ℕ) (request : HttpRequest)
    → str_eq j (resolve_rate_limit_key lower request rule.key_headers) ≡ false
    → allow l j rule before ≡ ok (a, s, l')
    → told (rate_limit_middleware lower rule l' now request)
      ≡ told (rate_limit_middleware lower rule l now request)
unfolding told rate_limit_middleware allow
middleware-isolated lower rule l l' j before now a s request ne e =
    let k = resolve_rate_limit_key lower request rule.key_headers in
    let same = allow-other l l' j k rule before a s ne e in
    elim (Bool-cases (in_scope rule request)) [
      | inl t ↦
          rw (t, same)
            (elim (Result-cases
              (admit rule now (evict (window rule) now (bucket_of l.requests k)))) [
                | inl ((x, y, b), f) ↦ rw f
                | inr (q, f) ↦ rw f
              ])
      | inr f ↦ rw f
    ]
