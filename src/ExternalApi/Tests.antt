-- ===== src/ExternalApi/Tests.antt =====
-- Calls of a service that is down and then up, and the theorems at them.
use eitoh_forge.Prelude.{
  ℕ, ◌+◌, max, ◌≤◌, ◌≡◌, ◌↔◌, refl, true, none, some, is_some, [], ◌∷◌, map, leb, ltb,
  if◌then◌else◌, arith,
}
use eitoh_forge.Prelude.Sets.{has}
use eitoh_forge.ExternalApi.{
  ApiRequest, RetryStrategy, ApiClient, Sent, answered, short_circuited, state_at, on_success,
  on_failure, attempt_from, conclude_call, call, delay_before,
}
use eitoh_forge.ExternalApi.Breaker.{new_client, streak, calls, calls-Streak}
use eitoh_forge.ExternalApi.Probe.{
  counting_clock, counting_sleep, counting_send, call-attempts, Probed, half_open-Probed,
}

-- The world is the time; the service answers 503 before the second 30 and 200 afterwards.
abbrev clock : ℕ → ℕ × ℕ
clock now = (now, now + 1000000)

abbrev sleep : ℕ → ℕ → ℕ
sleep delay now = now + delay

abbrev send : ApiRequest → ℕ → Sent × ℕ
send request now = (
  answered (record {
    status_code = if leb 30000000 now then 200 else 503;
    response_headers = [];
    response_body = [];
  }),
  now,
)

abbrev strategy : RetryStrategy
strategy = record {
  max_attempts = 2;
  backoff = λ e. 500000;
  max_delay = 8000000;
  retry_status_codes = 503 ∷ [];
  retry_methods = "GET" ∷ [];
}

abbrev request : ApiRequest
request = record { method = "GET"; url = "/"; headers = []; query = []; body = none; timeout = 1 }

-- The first call uses both its attempts and opens the circuit, the second one is stopped.
down :
    map
      (λ r. r.attempts)
      (calls clock sleep send (new_client strategy 1 30) (request ∷ request ∷ []) 0).0
    ≡ 2 ∷ 0 ∷ []
unfolding calls call state_at attempt_from conclude_call on_success on_failure delay_before has
down = refl

calls-Streak_example :
    let (results, c, w') =
      calls clock sleep send (new_client strategy 2 30) (request ∷ request ∷ []) 0 in
    (is_some c.opened_at ≡ leb 2 (streak 0 results))
    × (ltb (streak 0 results) 2 ≡ true → c.failure_count ≡ streak 0 results)
calls-Streak_example =
    calls-Streak clock sleep send strategy 2 30 (request ∷ request ∷ []) 0 (omega arith)

call-attempts_example :
    let (result, c', v) =
      call
        (counting_clock clock sleep send)
        (counting_sleep clock sleep send)
        (counting_send clock sleep send)
        (new_client strategy 2 30)
        request
        (0, 7) in
    (v.1 ≡ 7 + result.attempts)
    × (result.attempts ≤ max 1 2)
    × ((result.attempts ≡ 0) ↔ (result.status ≡ short_circuited))
call-attempts_example = call-attempts clock sleep send (new_client strategy 2 30) request 0 7

abbrev opened : ApiClient
opened = record (new_client strategy 2 30) { failure_count = 2; opened_at = some 1000000 }

half_open-Probed_example :
    Probed clock sleep send opened request 32000000 (call clock sleep send opened request 31000000)
half_open-Probed_example =
    half_open-Probed clock sleep send opened request 31000000 1000000 refl (omega arith)
      (omega arith)
