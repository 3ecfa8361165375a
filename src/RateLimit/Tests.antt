-- ===== src/RateLimit/Tests.antt =====
-- Runs of the limiter, and the theorems at them.
use eitoh_forge.Prelude.{
  ◌≡◌, ◌≤◌, ◌<◌, ◌+◌, ◌*◌, ℕ, refl, str_eq, true, false, none, some, String, List, [], ◌∷◌, arith,
}
use eitoh_forge.Prelude.Dict.{get, put}
use eitoh_forge.Prelude.Results.{ok, err}
use eitoh_forge.RateLimit.{
  RateLimitRule, InMemoryRateLimiter, index_error, second, window, evict, ceil_seconds, admit,
  bucket_of, allow,
}
use eitoh_forge.RateLimit.Bucket.{live}
use eitoh_forge.RateLimit.Spec.{Request, times, empty, serve, decisions, log_after, serve-decisions}
use eitoh_forge.RateLimit.Retry.{allow-retry}
use eitoh_forge.RateLimit.Middleware.{
  HttpRequest, too_many_requests, resolve_rate_limit_key, rate_limit_middleware, told,
  middleware-isolated,
}

-- Two requests per ten seconds.
abbrev two_per_ten : RateLimitRule
two_per_ten = record {
  max_requests = 2;
  window_seconds = 10;
  key_headers = "x-actor-id" ∷ [];
  scope_path_prefix = some "/api";
}

abbrev calls : List Request
calls = ("a", 1 * second) ∷ ("a", 3 * second) ∷ ("b", 4 * second) ∷ ("a", 5 * second) ∷ []

abbrev after_calls : InMemoryRateLimiter
after_calls = record {
  requests = ("a", 1 * second ∷ 3 * second ∷ []) ∷ ("b", 4 * second ∷ []) ∷ [];
}

served : serve two_per_ten empty calls ≡ ok (true ∷ true ∷ true ∷ false ∷ [], after_calls)
unfolding serve allow evict admit bucket_of get put
served = refl

refused : allow after_calls "a" two_per_ten (6 * second) ≡ ok (false, 5, after_calls)
unfolding allow evict admit bucket_of get put ceil_seconds
refused = refl

-- A rule that allows nothing raises IndexError on an empty bucket.
no_requests : allow empty "a" (record two_per_ten { max_requests = 0 }) 0 ≡ err index_error
unfolding allow evict admit bucket_of get put
no_requests = refl

abbrev request : HttpRequest
request = record { path = "/api/x"; header = λ n. some " B "; client_host = none }

rejected :
    told (
      rate_limit_middleware
        (λ s. s)
        two_per_ten
        (record { requests = ("x-actor-id:B", 0 ∷ 1 ∷ []) ∷ [] })
        2
        request)
    ≡ ok (too_many_requests 10 2)
unfolding told rate_limit_middleware resolve_rate_limit_key allow evict admit bucket_of get put
    ceil_seconds
rejected = refl

serve-decisions_example :
    ((l : InMemoryRateLimiter) × (serve two_per_ten empty calls
        ≡ ok (decisions two_per_ten [] calls, l)))
    × ((k : String)
        → live (window two_per_ten) (5 * second) (times k (log_after two_per_ten [] calls)) ≤ 2)
serve-decisions_example =
    serve-decisions two_per_ten calls (omega arith)
      (omega arith, (omega arith, (omega arith, (omega arith, tt))))

allow-retry_example :
    (1 ≤ 5)
    × ((t : ℕ) × (m : InMemoryRateLimiter) × (allow after_calls "a" two_per_ten (11 * second)
          ≡ ok (true, t, m)))
    × ((d : ℕ)
        → 0 < d
        → d < 5
        → (t : ℕ) × (m : InMemoryRateLimiter) × (allow after_calls "a" two_per_ten
              (6 * second + d * second)
            ≡ ok (false, t, m)))
allow-retry_example =
    allow-retry two_per_ten calls (true ∷ true ∷ true ∷ false ∷ []) after_calls "a" (6 * second) 5
      after_calls (omega arith) (omega arith, (omega arith, (omega arith, (omega arith, tt))))
      served (omega arith) refused

other_key : str_eq "a" (resolve_rate_limit_key (λ s. s) request two_per_ten.key_headers) ≡ false
unfolding resolve_rate_limit_key
other_key = refl

middleware-isolated_example :
    told (rate_limit_middleware (λ s. s) two_per_ten after_calls (6 * second) request)
    ≡ told (rate_limit_middleware (λ s. s) two_per_ten after_calls (6 * second) request)
middleware-isolated_example =
    middleware-isolated (λ s. s) two_per_ten after_calls after_calls "a" (6 * second) (6 * second)
      false 5 request other_key refused
