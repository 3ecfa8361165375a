-- ===== src/ExternalApi/Breaker.antt =====
-- The circuit over sequences of calls.
use eitoh_forge.Prelude.{
  ℕ, ◌+◌, ◌≤◌, ◌<◌, ◌≡◌, refl, true, none, is_some, List, [], ◌∷◌, leb, ltb, arith, if_intro,
}
use eitoh_forge.ExternalApi.{
  ApiRequest, RetryStrategy, CallStatus, short_circuited, succeeded, failed, ApiCallResult,
  ApiClient, Sent, LoopEnd, won, lost, state_at, on_success, on_failure, is_open, conclude_call,
  call,
}

-- Failed calls since the last one that succeeded; a call that the circuit stopped does not count.
abbrev pub streak_after : CallStatus → ℕ → ℕ
streak_after short_circuited n = n
streak_after succeeded n = 0
streak_after failed n = n + 1

-- The streak after results, from a streak of `n`
abbrev pub streak : ℕ → List ApiCallResult → ℕ
streak n [] = n
streak n (r ∷ results) = streak (streak_after r.status n) results

abbrev pub new_client : RetryStrategy → (threshold recovery : ℕ) → ApiClient
new_client strategy threshold recovery = record {
  retry_strategy = strategy;
  circuit_breaker = record { failure_threshold = threshold; recovery_timeout_seconds = recovery };
  failure_count = 0;
  opened_at = none;
}

-- The client's counters for a streak of `n` failed calls.
pub record Counts (c : ApiClient) (threshold n : ℕ) : Type 0 where
  pub same : c.circuit_breaker.failure_threshold ≡ threshold
  pub opened : is_some c.opened_at ≡ leb threshold n
  pub counted : ltb n threshold ≡ true → c.failure_count ≡ n
  pub many : leb threshold n ≡ true → threshold ≤ c.failure_count

new_client-Counts :
    (strategy : RetryStrategy) (t recovery : ℕ)
    → 0 < t
    → Counts (new_client strategy t recovery) t 0
new_client-Counts strategy t recovery p = record {
  same = refl;
  opened = ground arith;
  counted = λ h. refl;
  many = λ h. absurd (ground arith);
}

on_success-Counts : (c : ApiClient) (t n : ℕ) → 0 < t → Counts c t n → Counts (on_success c) t 0
unfolding on_success
on_success-Counts c t n p i = record {
  same = i.same;
  opened = ground arith;
  counted = λ h. refl;
  many = λ h. absurd (ground arith);
}

on_failure-Counts :
    (c : ApiClient) (t n now : ℕ) → Counts c t n → Counts (on_failure c now) t (n + 1)
unfolding on_failure state_at
on_failure-Counts c t n now i = record {
  same = ground (arith, i.same);
  opened = ground (arith, i.same, i.opened, i.counted, i.many);
  counted = λ h. ground (arith, i.same, i.opened, i.counted, i.many);
  many = λ h. ground (arith, i.same, i.opened, i.counted, i.many);
}

module _ {W : Type 0} (clock : W → ℕ × W) (sleep : ℕ → W → W)
    (send : ApiRequest → W → Sent × W) where
  conclude_call-Counts :
      (c : ApiClient) (t n : ℕ) (e : LoopEnd × W)
      → 0 < t
      → Counts c t n
      → let (result, c', w') = conclude_call clock sleep send c e in
        Counts c' t (streak_after result.status n)
  unfolding conclude_call
  conclude_call-Counts c t n (won k r, w) p i = on_success-Counts c t n p i
  conclude_call-Counts c t n (lost k r m, w) p i = on_failure-Counts c t n (clock w).0 i

  call-Counts :
      (c : ApiClient) (t n : ℕ) (request : ApiRequest) (w : W)
      → 0 < t
      → Counts c t n
      → let (result, c', w') = call clock sleep send c request w in
        Counts c' t (streak_after result.status n)
  unfolding call
  call-Counts c t n request w p i =
      if_intro (λ (x : ApiCallResult × ApiClient × W). Counts x.1 t (streak_after x.0.status n))
        (is_open (state_at c (clock w).0)) _ _ (λ e. i) (λ e. conclude_call-Counts c t n _ p i)

  -- The results and the client of a sequence of calls.
  unfoldable pub calls : ApiClient → List ApiRequest → W → List ApiCallResult × ApiClient × W
  calls c [] w = ([], c, w)
  calls c (request ∷ requests) w =
      let (result, c', w') = call clock sleep send c request w in
      let (results, c'', w'') = calls c' requests w' in (result ∷ results, c'', w'')

  calls-Counts :
      (c : ApiClient) (t n : ℕ) (requests : List ApiRequest) (w : W)
      → 0 < t
      → Counts c t n
      → let (results, c', w') = calls c requests w in Counts c' t (streak n results)
  unfolding calls
  calls-Counts c t n [] w p i = i
  calls-Counts c t n (request ∷ requests) w p i =
      let (result, c', w') = call clock sleep send c request w in
      calls-Counts c' t (streak_after result.status n) requests w' p
        (call-Counts c t n request w p i)

  -- From a new client with a positive threshold, after every sequence of calls: the circuit has
  -- opened exactly if at least as many calls as the threshold have failed since the last one that
  -- succeeded, where the calls that the circuit stopped do not count; until then the client's count
  -- is their number.
  pub calls-Streak :
      (strategy : RetryStrategy) (threshold recovery : ℕ) (requests : List ApiRequest) (w : W)
      → 0 < threshold
      → let (results, c, w') = calls (new_client strategy threshold recovery) requests w in
        (is_some c.opened_at ≡ leb threshold (streak 0 results))
        × (ltb (streak 0 results) threshold ≡ true → c.failure_count ≡ streak 0 results)
  calls-Streak strategy threshold recovery requests w p =
      let i =
        calls-Counts (new_client strategy threshold recovery) threshold 0 requests w p
          (new_client-Counts strategy threshold recovery p) in
      (i.opened, i.counted)
