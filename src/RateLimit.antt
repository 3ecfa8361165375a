-- ===== src/RateLimit.antt =====
-- src/eitohforge_sdk/core/rate_limit.py: the sliding-window limiter and its middleware. A time is the
-- number of microseconds since the epoch that the clock gives to a call; the source's float
-- timestamps are taken as exact. `now_ts - window_seconds` is never formed: the comparison with it
-- is written without a subtraction.
pub mod Bucket
pub mod Spec
pub mod Retry
pub mod Middleware
mod Tests
use eitoh_forge.Prelude.{
  ℕ, suc, ◌+◌, ◌-◌, ◌*◌, ◌/◌, max, String, Bool, true, false, Option, none, some, List, [], ◌∷◌,
  ◌++◌, ◌≡◌, if◌then◌else◌, leb, length,
}
use eitoh_forge.Prelude.Dict.{Dict, get, put}
use eitoh_forge.Prelude.Results.{Result, ok, err, ◌>>=◌}

-- RateLimitRule; the bounds of src/eitohforge_sdk/core/config.py keep both numbers positive.
pub record RateLimitRule : Type 0 where
  pub max_requests : ℕ
  pub window_seconds : ℕ
  pub key_headers : List String
  pub scope_path_prefix : Option String

pub record InMemoryRateLimiter : Type 0 where
  pub requests : Dict (List ℕ)

-- `bucket[0]` of an empty bucket, where `max_requests` is 0.
pub data LimiterError : Type 0 where
  index_error : LimiterError

abbrev pub second : ℕ
second = 1000000

abbrev pub window : RateLimitRule → ℕ
window rule = rule.window_seconds * second

-- The `while` loop: the leading requests at or before the start of the window are dropped.
unfoldable pub evict : ℕ → ℕ → List ℕ → List ℕ
evict w now [] = []
evict w now (t ∷ ts) = let rest = evict w now ts in if leb (t + w) now then rest else t ∷ ts

-- ceil of a duration, in seconds
unfoldable pub ceil_seconds : ℕ → ℕ
ceil_seconds d = (d + (second - 1)) / second

unfoldable pub bucket_of : Dict (List ℕ) → String → List ℕ
bucket_of d key = elim (get d key) [ none ↦ [] | some b ↦ b ]

-- What `allow` makes of the bucket that is left: whether the request is allowed, the seconds to
-- wait, and the bucket.
unfoldable pub admit : RateLimitRule → ℕ → List ℕ → Result LimiterError (Bool × ℕ × List ℕ)
unfolding ceil_seconds
admit rule now [] = if leb rule.max_requests 0 then err index_error else ok (true, 0, now ∷ [])
admit rule now (t ∷ ts) =
    if leb rule.max_requests (length (t ∷ ts))
    then ok (false, max 1 (ceil_seconds (t + window rule - now)), t ∷ ts)
    else ok (true, 0, (t ∷ ts) ++ now ∷ [])

-- InMemoryRateLimiter.allow at the time `now`
unfoldable pub allow :
    InMemoryRateLimiter
    → String
    → RateLimitRule
    → ℕ
    → Result LimiterError (Bool × ℕ × InMemoryRateLimiter)
unfolding evict admit bucket_of
allow l key rule now = do
  (allowed, retry_after, bucket) ←
      admit rule now (evict (window rule) now (bucket_of l.requests key))
  ok (allowed, retry_after, record l { requests = put l.requests key bucket })

-- The result of `allow`.
abbrev pub Allowed : Type 0
Allowed = Result LimiterError (Bool × ℕ × InMemoryRateLimiter)

abbrev pub allowed : Bool → ℕ → InMemoryRateLimiter → Allowed
allowed a s l = ok (a, s, l)

pub allowed_parts :
    (a b : Bool) (s t : ℕ) (l m : InMemoryRateLimiter)
    → allowed a s l ≡ allowed b t m
    → (a ≡ b) × (s ≡ t) × (l ≡ m)
allowed_parts a b s t l m e = (cc, cc, cc)
