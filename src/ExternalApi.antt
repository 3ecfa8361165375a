-- ===== src/ExternalApi.antt =====
-- src/eitohforge_sdk/infrastructure/external_api/client.py and contracts.py: the external API client
-- with retries and a circuit breaker. The transport, the clock and sleep act on a world of type `W`.
-- Times and delays are microseconds. One call runs at a time.
pub mod Breaker
pub mod Probe
mod Tests
use eitoh_forge.Prelude.{
  ℕ, zero, suc, ◌+◌, ◌-◌, ◌*◌, min, max, String, str_eq, Bool, true, false, not, ◌&&◌, Option, none,
  some, List, [], ◌∷◌, if◌then◌else◌, leb, ltb, ◌==◌,
}
use eitoh_forge.Prelude.Dict.{Dict}
use eitoh_forge.Prelude.Sets.{has}

pub record ApiRequest : Type 0 where
  pub method : String
  pub url : String
  pub headers : Dict String
  pub query : Dict String
  pub body : Option (List ℕ)
  pub timeout : ℕ

pub record ApiResponse : Type 0 where
  pub status_code : ℕ
  pub response_headers : Dict String
  pub response_body : List ℕ

-- RetryStrategy; `backoff` is `base_delay_seconds * backoff_multiplier ** exponent` of the two fields
-- that only that expression reads, in Python's floats and then microseconds.
pub record RetryStrategy : Type 0 where
  pub max_attempts : ℕ
  pub backoff : ℕ → ℕ
  pub max_delay : ℕ
  pub retry_status_codes : List ℕ
  pub retry_methods : List String

-- RetryStrategy.delay_for_attempt
unfoldable pub delay_before : RetryStrategy → ℕ → ℕ
delay_before strategy attempt =
    if leb attempt 1
    then 0
    else max 0 (min strategy.max_delay (strategy.backoff (max 0 (attempt - 2))))

pub record CircuitBreakerSettings : Type 0 where
  pub failure_threshold : ℕ
  pub recovery_timeout_seconds : ℕ

pub data CallStatus : Type 0 where
  short_circuited succeeded failed : CallStatus

pub data CircuitState : Type 0 where
  closed half_open open_circuit : CircuitState

pub record ApiCallResult : Type 0 where
  pub status : CallStatus
  pub attempts : ℕ
  pub circuit_state : CircuitState
  pub response : Option ApiResponse
  pub error_message : Option String

pub record ApiClient : Type 0 where
  pub retry_strategy : RetryStrategy
  pub circuit_breaker : CircuitBreakerSettings
  pub failure_count : ℕ
  pub opened_at : Option ℕ

-- What a send ends in.
pub data Sent : Type 0 where
  answered : ApiResponse → Sent
  raised : String → Sent

-- How the loop over the attempts ends, with the number of the last attempt.
pub data LoopEnd : Type 0 where
  won : (attempts : ℕ) → ApiResponse → LoopEnd
  lost : (attempts : ℕ) → Option ApiResponse → Option String → LoopEnd

abbrev pub member : ℕ → List ℕ → Bool
member a [] = false
member a (b ∷ l) = if b == a then true else member a l

abbrev pub is_success : ApiResponse → Bool
is_success r = leb 200 r.status_code && ltb r.status_code 300

-- ResilientExternalApiClient._state
unfoldable pub state_at : ApiClient → ℕ → CircuitState
state_at c now = elim c.opened_at [
  | none ↦ closed
  | some opened ↦
      if leb (opened + c.circuit_breaker.recovery_timeout_seconds * 1000000) now
      then half_open
      else open_circuit
]

-- ResilientExternalApiClient._on_success
unfoldable pub on_success : ApiClient → ApiClient
on_success c = record c { failure_count = 0; opened_at = none }

abbrev pub is_half_open : CircuitState → Bool
is_half_open half_open = true
is_half_open closed = false
is_half_open open_circuit = false

-- ResilientExternalApiClient._on_failure at the time `now`
unfoldable pub on_failure : ApiClient → ℕ → ApiClient
unfolding state_at
on_failure c now =
    let threshold = c.circuit_breaker.failure_threshold in
    let count = c.failure_count + 1 in
    if is_half_open (state_at c now)
    then record c { failure_count = threshold; opened_at = some now }
    else record c {
      failure_count = count;
      opened_at = if leb threshold count then some now else c.opened_at;
    }

-- Whether a failed attempt is tried again, and what the loop remembers of it.
abbrev pub retryable : RetryStrategy → Bool → Sent → Bool
retryable strategy allow_retries (answered r) =
    allow_retries && member r.status_code strategy.retry_status_codes
retryable strategy allow_retries (raised message) = allow_retries

abbrev pub last_response : Sent → Option ApiResponse → Option ApiResponse
last_response (answered r) last = some r
last_response (raised message) last = last

abbrev pub last_error : Sent → Option String → Option String
last_error (answered r) last = last
last_error (raised message) last = some message

abbrev pub winner : Sent → Option ApiResponse
winner (answered r) = if is_success r then some r else none
winner (raised message) = none

abbrev pub is_open : CircuitState → Bool
is_open open_circuit = true
is_open closed = false
is_open half_open = false

module _ {W : Type 0} (clock : W → ℕ × W) (sleep : ℕ → W → W)
    (send : ApiRequest → W → Sent × W) where
  abbrev pub pause : ℕ → W → W
  pause delay w = if ltb 0 delay then sleep delay w else w

  -- The loop: `remaining` attempts from the number `attempt` on
  unfoldable pub attempt_from :
      RetryStrategy
      → ApiRequest
      → Bool
      → (remaining attempt : ℕ) → Option ApiResponse
      → Option String
      → W
      → LoopEnd × W
  unfolding delay_before
  attempt_from strategy request allow_retries zero attempt response error w =
      (lost attempt response error, w)
  attempt_from strategy request allow_retries (suc remaining) attempt response error w =
      let (sent, w') = send request w in
      let response' = last_response sent response in
      let error' = last_error sent error in
      let next =
        attempt_from strategy request allow_retries remaining (attempt + 1) response' error'
          (pause (delay_before strategy (attempt + 1)) w') in
      elim (winner sent) [
        | some r ↦ (won attempt r, w')
        | none ↦
            if retryable strategy allow_retries sent
            then if ltb 0 remaining then next else (lost attempt response' error', w')
            else (lost attempt response' error', w')
      ]

  -- What call makes of the loop's end.
  unfoldable pub conclude_call : ApiClient → LoopEnd × W → ApiCallResult × ApiClient × W
  unfolding on_success on_failure state_at
  conclude_call c (won attempts r, w) =
      let c' = on_success c in
      let (now, w') = clock w in
      (
        record {
          status = succeeded;
          attempts = attempts;
          circuit_state = state_at c' now;
          response = some r;
          error_message = none;
        },
        c',
        w',
      )
  conclude_call c (lost attempts response error, w) =
      let (failed_at, w1) = clock w in
      let c' = on_failure c failed_at in
      let (now, w2) = clock w1 in
      (
        record {
          status = failed;
          attempts = attempts;
          circuit_state = state_at c' now;
          response = response;
          error_message = error;
        },
        c',
        w2,
      )

  -- ResilientExternalApiClient.call
  unfoldable pub call : ApiClient → ApiRequest → W → ApiCallResult × ApiClient × W
  unfolding state_at attempt_from conclude_call has
  call c request w =
      let (now, w1) = clock w in
      let state = state_at c now in
      let allow_retries =
        not (is_half_open state) && has request.method c.retry_strategy.retry_methods in
      if is_open state
      then (
        record {
          status = short_circuited;
          attempts = 0;
          circuit_state = state;
          response = none;
          error_message = some "Circuit breaker is open.";
        },
        c,
        w1,
      )
      else conclude_call c (
          attempt_from c.retry_strategy request allow_retries (max 1 c.retry_strategy.max_attempts)
            1 none none w1)
