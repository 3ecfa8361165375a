-- ===== src/ExternalApi/Probe.antt =====
-- How often a call reaches the transport, and what the probe of a half-open circuit does.
use eitoh_forge.Prelude.{
  ℕ, zero, suc, ◌+◌, ◌*◌, max, ◌≤◌, ◌<◌, ◌≡◌, ◌↔◌, refl, String, Bool, false, Option, none, some,
  ltb, arith, inl, inr, Option-cases, if_intro,
}
use eitoh_forge.ExternalApi.{
  ApiRequest, ApiResponse, RetryStrategy, short_circuited, succeeded, failed, ApiCallResult,
  ApiClient, Sent, answered, raised, LoopEnd, won, lost, state_at, on_success, on_failure, is_open,
  attempt_from, conclude_call, call, pause, delay_before, winner, retryable, last_response,
  last_error, half_open,
}

state_half :
    (c : ApiClient) (opened now : ℕ)
    → c.opened_at ≡ some opened
    → opened + c.circuit_breaker.recovery_timeout_seconds * 1000000 ≤ now
    → state_at c now ≡ half_open
unfolding state_at
state_half c opened now e past = rw (e, state_at) (ground (arith, past))

once : (strategy : RetryStrategy) (sent : Sent) → retryable strategy false sent ≡ false
once strategy (answered r) = refl
once strategy (raised m) = refl

module _ {W : Type 0} (clock : W → ℕ × W) (sleep : ℕ → W → W)
    (send : ApiRequest → W → Sent × W) where
  -- The world with a counter of sends.
  abbrev pub counting_clock : W × ℕ → ℕ × (W × ℕ)
  counting_clock (w, n) = let (now, w') = clock w in (now, (w', n))

  abbrev pub counting_sleep : ℕ → W × ℕ → W × ℕ
  counting_sleep d (w, n) = (sleep d w, n)

  abbrev pub counting_send : ApiRequest → W × ℕ → Sent × (W × ℕ)
  counting_send r (w, n) = let (sent, w') = send r w in (sent, (w', n + 1))

  abbrev attempts_of : LoopEnd → ℕ
  attempts_of (won k r) = k
  attempts_of (lost k r m) = k

  -- From the number `attempt` on, with `n` sends before.
  abbrev Spent : ℕ → ℕ → ℕ → LoopEnd × (W × ℕ) → Type 0
  Spent remaining attempt n (e, (w, sends)) =
      (sends + attempt ≡ n + attempts_of e + 1)
      × (attempts_of e + 1 ≤ attempt + remaining)
      × (attempt ≤ attempts_of e)

  attempt_from-Spent :
      (strategy : RetryStrategy) (request : ApiRequest) (allow : Bool) (remaining attempt n : ℕ)
      (r : Option ApiResponse) (m : Option String) (v : W × ℕ)
      → 0 < remaining
      → v.1 ≡ n
      → Spent remaining attempt n (
          attempt_from counting_clock counting_sleep counting_send strategy request allow remaining
            attempt r m v)
  unfolding attempt_from
  attempt_from-Spent strategy request allow zero attempt n r m v p h = absurd (omega arith)
  attempt_from-Spent strategy request allow (suc remaining) attempt n r m (w, k) p h =
      let (sent, w') = send request w in
      let delay = delay_before strategy (attempt + 1) in
      let r' = last_response sent r in
      let m' = last_error sent m in
      elim (Option-cases (winner sent)) [
        | inr (x, e) ↦ rw (e, attempt_from) (omega (arith, h), omega arith, omega arith)
        | inl e ↦
            rw (e, attempt_from)
              (if_intro (Spent (suc remaining) attempt n) (retryable strategy allow sent) _ _
                (λ a.
                  if_intro (Spent (suc remaining) attempt n) (ltb 0 remaining) _ _
                    (λ b.
                      let after =
                        pause counting_clock counting_sleep counting_send delay (w', k + 1) in
                      let kept : after.1 ≡ n + 1 =
                        if_intro (λ (x : W × ℕ). x.1 ≡ n + 1) (ltb 0 delay) _ _
                          (λ c. omega (arith, h)) (λ c. omega (arith, h)) in
                      let (s, t, u) =
                        attempt_from-Spent strategy request allow remaining (attempt + 1) (n + 1) r'
                          m' after (ground arith) kept in
                      (omega (arith, s), omega (arith, t), omega (arith, u)))
                    (λ b. (omega (arith, h), omega arith, omega arith)))
                (λ a. (omega (arith, h), omega arith, omega arith)))
      ]

  abbrev Reports : ApiClient → ℕ → ApiCallResult × ApiClient × (W × ℕ) → Type 0
  Reports c n (result, c', v) =
      (v.1 ≡ n + result.attempts)
      × (result.attempts ≤ max 1 c.retry_strategy.max_attempts)
      × ((result.attempts ≡ 0) ↔ (result.status ≡ short_circuited))

  conclude_call-Reports :
      (c : ApiClient) (n : ℕ) (e : LoopEnd × (W × ℕ))
      → Spent (max 1 c.retry_strategy.max_attempts) 1 n e
      → Reports c n (conclude_call counting_clock counting_sleep counting_send c e)
  unfolding conclude_call
  conclude_call-Reports c n (won k r, (w, sends)) (a, b, d) =
      (omega (arith, a), omega (arith, b), ((λ h. absurd (omega (arith, h, d))), λ h. cc))
  conclude_call-Reports c n (lost k r m, (w, sends)) (a, b, d) =
      (omega (arith, a), omega (arith, b), ((λ h. absurd (omega (arith, h, d))), λ h. cc))

  -- Every call reaches the transport as often as its result reports, and at most `max_attempts`
  -- times, or once if that is smaller; it reports no attempt exactly if the circuit stopped it.
  pub call-attempts :
      (c : ApiClient) (request : ApiRequest) (w : W) (n : ℕ)
      → let (result, c', v) = call counting_clock counting_sleep counting_send c request (w, n) in
        (v.1 ≡ n + result.attempts)
        × (result.attempts ≤ max 1 c.retry_strategy.max_attempts)
        × ((result.attempts ≡ 0) ↔ (result.status ≡ short_circuited))
  unfolding call
  call-attempts c request w n =
      let (now, w1) = clock w in
      let limit = max 1 c.retry_strategy.max_attempts in
      if_intro (λ (x : ApiCallResult × ApiClient × (W × ℕ)). Reports c n x)
        (is_open (state_at c now)) _ _ (λ e. (omega arith, omega arith, ((λ h. refl), λ h. refl)))
        (λ e. conclude_call-Reports c n _ (
          attempt_from-Spent c.retry_strategy request _ limit 1 n none none (w1, n) (omega arith)
            refl))

  -- The probe's result and client, from what it was answered.
  abbrev pub Probed : ApiClient → ApiRequest → W → ApiCallResult × ApiClient × W → Type 0
  Probed c request w (result, c', w') =
      let (sent, w1) = send request w in
      (result.attempts ≡ 1)
      × ((r : ApiResponse)
          → winner sent ≡ some r
          → (result.status ≡ succeeded) × (c'.opened_at ≡ none) × (c'.failure_count ≡ 0))
      × (winner sent ≡ none
          → (result.status ≡ failed)
            × (c'.opened_at ≡ some (clock w1).0)
            × (c'.failure_count ≡ c.circuit_breaker.failure_threshold))

  attempt_won :
      (strategy : RetryStrategy) (request : ApiRequest) (limit : ℕ) (w : W) (r : ApiResponse)
      → 0 < limit
      → winner (send request w).0 ≡ some r
      → attempt_from clock sleep send strategy request false limit 1 none none w
        ≡ (won 1 r, (send request w).1)
  unfolding attempt_from
  attempt_won strategy request zero w r p e = absurd (omega arith)
  attempt_won strategy request (suc n) w r p e = rw (e, attempt_from) refl

  attempt_lost :
      (strategy : RetryStrategy) (request : ApiRequest) (limit : ℕ) (w : W)
      → 0 < limit
      → winner (send request w).0 ≡ none
      → attempt_from clock sleep send strategy request false limit 1 none none w ≡ (
        lost 1 (last_response (send request w).0 none) (last_error (send request w).0 none),
        (send request w).1,
      )
  unfolding attempt_from
  attempt_lost strategy request zero w p e = absurd (omega arith)
  attempt_lost strategy request (suc n) w p e =
      rw (e, attempt_from, once strategy (send request w).0) refl

  won_probe :
      (c : ApiClient) (request : ApiRequest) (w : W) (r : ApiResponse)
      → winner (send request w).0 ≡ some r
      → Probed c request w (conclude_call clock sleep send c (won 1 r, (send request w).1))
  unfolding conclude_call on_success
  won_probe c request w r e =
      (refl, (λ x f. (refl, refl, refl)), λ f. absurd (ground (arith, e, f)))

  lost_probe :
      (c : ApiClient) (request : ApiRequest) (w : W)
      → winner (send request w).0 ≡ none
      → state_at c (clock (send request w).1).0 ≡ half_open
      → Probed c request w (
          conclude_call clock sleep send c (
            lost 1 (last_response (send request w).0 none) (last_error (send request w).0 none),
            (send request w).1,
          ))
  unfolding conclude_call
  lost_probe c request w e half = (
    refl,
    (λ x f. absurd (ground (arith, e, f))),
    λ f. (refl, rw (half, on_failure) refl, rw (half, on_failure) refl),
  )

  -- A call of an open circuit whose recovery timeout has passed, with a clock that does not go back
  -- during the call, tries the request once. A successful answer closes the circuit and clears its
  -- count; any other answer, or an exception, opens it again from the time of the failure on.
  pub half_open-Probed :
      (c : ApiClient) (request : ApiRequest) (w : W) (opened : ℕ)
      → c.opened_at ≡ some opened
      → opened + c.circuit_breaker.recovery_timeout_seconds * 1000000 ≤ (clock w).0
      → (clock w).0 ≤ (clock (send request (clock w).1).1).0
      → Probed c request (clock w).1 (call clock sleep send c request w)
  unfolding call
  half_open-Probed c request w opened e past forward =
      let (now, w1) = clock w in
      let (sent, w2) = send request w1 in
      let half = state_half c opened now e past in
      let later = state_half c opened (clock w2).0 e (omega (arith, past, forward)) in
      let strategy = c.retry_strategy in
      elim (Option-cases (winner sent)) [
        | inr (r, f) ↦
            rw
              (
                half,
                attempt_won strategy request (max 1 strategy.max_attempts) w1 r (omega arith) f,
              )
              (won_probe c request w1 r f)
        | inl f ↦
            rw
              (half, attempt_lost strategy request (max 1 strategy.max_attempts) w1 (omega arith) f)
              (lost_probe c request w1 f later)
      ]
