-- ===== src/RateLimit/Retry.antt =====
-- The seconds to wait that a refused request is told.
use eitoh_forge.Prelude.{
  ℕ, ◌+◌, ◌-◌, ◌*◌, max, ◌≤◌, ◌<◌, ◌≡◌, ◌∙◌, sym, ap, String, Bool, true, false, List, [], ◌∷◌,
  ◌++◌, subst, if◌then◌else◌, length, arith,
}
use eitoh_forge.Prelude.Results.{Result, ok}
use eitoh_forge.RateLimit.{
  LimiterError, allowed, allowed_parts, RateLimitRule, InMemoryRateLimiter, second, window,
  ceil_seconds, bucket_of, allow,
}
use eitoh_forge.RateLimit.Bucket.{
  live, SortedTo, live-evict, evict-SortedTo, live-le-length, live_at, length-evict-le,
}
use eitoh_forge.RateLimit.Spec.{
  length-kept, limiter_next, limiter_next-Refines, serve-Refines, Refines-empty, serve, empty,
  Monotone, last_time, Request, times, log_allows, Refines, kept, wait, allow_lem,
}

ceil_lower : (d s : ℕ) → s < ceil_seconds d → s * second < d
unfolding ceil_seconds
ceil_lower d s h = omega arith

ceil_upper : (d : ℕ) → d ≤ ceil_seconds d * second
unfolding ceil_seconds
ceil_upper d = omega arith

-- The wait of a full bucket is the least one that frees a place.
retry_bucket :
    (rule : RateLimitRule) (last now : ℕ) (b : List ℕ)
    → 0 < rule.max_requests
    → SortedTo last b
    → rule.max_requests ≤ length b
    → length b ≤ rule.max_requests
    → (1 ≤ wait rule now b)
      × (live (window rule) (now + wait rule now b * second) b < rule.max_requests)
      × ((d : ℕ)
          → 0 < d
          → d < wait rule now b
          → rule.max_requests ≤ live (window rule) (now + d * second) b)
unfolding live
retry_bucket rule last now [] p s full small = absurd (omega arith)
retry_bucket rule last now (t ∷ ts) p (a, b, c) full small =
    let w = window rule in
    let left = t + w - now in
    (
      ground arith,
      ground
          (arith, ceil_upper left, live-le-length w (now + max 1 (ceil_seconds left) * second) ts),
      λ d pos h. ground (arith, ceil_lower left d, live_at w (now + d * second) t ts),
    )

served_parts :
    (ds es : List Bool) (l m : InMemoryRateLimiter)
    → (let x : Result LimiterError (List Bool × InMemoryRateLimiter) = ok (ds, l) in x) ≡ ok (es, m)
    → l ≡ m
served_parts ds es l m e = cc

module _ (rule : RateLimitRule) (l : InMemoryRateLimiter) (log : List Request) (last now : ℕ)
    (r : Refines rule l log last) (le : last ≤ now) (positive : 0 < rule.max_requests) where
  -- What the log holds later, by the bucket that is left now.
  live-kept :
      (k : String) (later : ℕ)
      → now ≤ later
      → live (window rule) later (kept rule l k now) ≡ live (window rule) later (times k log)
  live-kept k later h = live-evict (window rule) now later _ h ∙ r.same k later (omega arith)

  refused_kept :
      (k : String)
      → log_allows rule log k now ≡ false
      → (1 ≤ wait rule now (kept rule l k now))
        × (log_allows rule log k (now + wait rule now (kept rule l k now) * second) ≡ true)
        × ((d : ℕ)
            → 0 < d
            → d < wait rule now (kept rule l k now)
            → log_allows rule log k (now + d * second) ≡ false)
  refused_kept k e =
      let b = kept rule l k now in
      let full = length-kept rule l log last now r le positive k in
      let (one, free, held) =
        retry_bucket rule last now b positive (evict-SortedTo (window rule) now last _ (r.sorted k))
          (ground (arith, full))
          (omega
            (arith, r.bounded k, length-evict-le (window rule) now (bucket_of l.requests k))) in
      (
        one,
        ground (arith, live-kept k (now + wait rule now b * second)),
        λ d pos h. ground (arith, held d pos h, live-kept k (now + d * second)),
      )

-- `allow` refuses, or allows, as the log decides.
decides :
    (rule : RateLimitRule) (l : InMemoryRateLimiter) (log : List Request) (last now : ℕ)
    → Refines rule l log last
    → last ≤ now
    → 0 < rule.max_requests
    → (k : String) (b : Bool) → log_allows rule log k now ≡ b
    → (t : ℕ) × (m : InMemoryRateLimiter) × (allow l k rule now ≡ allowed b t m)
decides rule l log last now r le p k b e = (
  wait rule now (kept rule l k now),
  limiter_next rule l k now,
  rw (allow_lem rule l log last now r le p k, e),
)

retry_at :
    (rule : RateLimitRule) (l : InMemoryRateLimiter) (log : List Request) (last now : ℕ)
    → Refines rule l log last
    → last ≤ now
    → 0 < rule.max_requests
    → (k : String) (s : ℕ) (l' : InMemoryRateLimiter) → allow l k rule now ≡ allowed false s l'
    → (1 ≤ s)
      × ((t : ℕ) × (m : InMemoryRateLimiter) × (allow l' k rule (now + s * second)
            ≡ allowed true t m))
      × ((d : ℕ)
          → 0 < d
          → d < s
          → (t : ℕ) × (m : InMemoryRateLimiter) × (allow l' k rule (now + d * second)
              ≡ allowed false t m))
retry_at rule l log last now r le p k s l' refused =
    let (refusal, waited, left) =
      allowed_parts _ _ _ _ _ _ (sym (allow_lem rule l log last now r le p k) ∙ refused) in
    let (one, free, held) = refused_kept rule l log last now r le p k refusal in
    let same_log = ap (λ b. if b then log ++ (k, now) ∷ [] else log) refusal in
    let r' =
      subst (λ m. Refines rule m log now) left
        (subst (λ h. Refines rule (limiter_next rule l k now) h now) same_log
          (limiter_next-Refines rule l log last now r le p k)) in
    (
      subst (λ x. 1 ≤ x) waited one,
      decides rule l' log now (now + s * second) r' (omega arith) p k true
          (subst (λ x. log_allows rule log k (now + x * second) ≡ true) waited free),
      λ d pos h.
          decides rule l' log now (now + d * second) r' (omega arith) p k false
            (held d pos (subst (λ x. d < x) (sym waited) h)),
    )

-- After any requests from an empty limiter, with a positive limit and a clock that does not go
-- back: a request that is refused is told at least one second, the same request after exactly that
-- many seconds is allowed if none comes in between, and after any smaller positive number of seconds
-- it is refused.
pub allow-retry :
    (rule : RateLimitRule) (calls : List Request) (ds : List Bool) (l : InMemoryRateLimiter)
    (k : String) (now : ℕ) (s : ℕ) (l' : InMemoryRateLimiter)
    → 0 < rule.max_requests
    → Monotone 0 calls
    → serve rule empty calls ≡ ok (ds, l)
    → last_time 0 calls ≤ now
    → allow l k rule now ≡ ok (false, s, l')
    → (1 ≤ s)
      × ((t : ℕ) × (m : InMemoryRateLimiter) × (allow l' k rule (now + s * second)
            ≡ ok (true, t, m)))
      × ((d : ℕ)
          → 0 < d
          → d < s
          → (t : ℕ) × (m : InMemoryRateLimiter) × (allow l' k rule (now + d * second)
              ≡ ok (false, t, m)))
allow-retry rule calls ds l k now s l' p m served le refused =
    let (l1, e1, r1) = serve-Refines rule empty [] 0 calls p (Refines-empty rule) m in
    let same = served_parts _ _ _ _ (sym e1 ∙ served) in
    retry_at rule l1 _ _ now r1 le p k s l' (ap (λ x. allow x k rule now) same ∙ refused)
