-- ===== src/RateLimit/Spec.antt =====
-- The limiter against a log of all allowed requests.
use eitoh_forge.Prelude.{
  ℕ, ◌+◌, ◌-◌, max, ◌≤◌, ◌<◌, ◌≡◌, ◌∙◌, refl, String, Bool, List, [], ◌∷◌, ◌++◌, if◌then◌else◌,
  str_eq, eq_iff, ltb, leb, length, arith, length-append,
}
use eitoh_forge.Prelude.Dict.{Dict, get, put, get-put}
use eitoh_forge.Prelude.Results.{Result, ok, ◌>>=◌}
use eitoh_forge.RateLimit.{
  RateLimitRule, InMemoryRateLimiter, LimiterError, window, evict, bucket_of, admit, allow,
  ceil_seconds,
}
use eitoh_forge.RateLimit.Bucket.{
  live, SortedTo, live-append, live-le-length, live-evict, evict-SortedTo, length-evict,
  length-evict-le, SortedTo-append, SortedTo-mono,
}

-- A request: its key and its time.
abbrev pub Request : Type 0
Request = String × ℕ

-- The times of one key, oldest first.
unfoldable pub times : String → List Request → List ℕ
times k [] = []
times k ((j, t) ∷ h) = let rest = times k h in if str_eq j k then t ∷ rest else rest

-- The specification: a request is allowed while its window holds fewer than `max_requests` allowed
-- requests of its key.
abbrev pub log_allows : RateLimitRule → List Request → String → ℕ → Bool
log_allows rule log k now = ltb (live (window rule) now (times k log)) rule.max_requests

-- The log after the request.
abbrev pub log_next : RateLimitRule → List Request → String → ℕ → List Request
log_next rule log k now = if log_allows rule log k now then log ++ (k, now) ∷ [] else log

-- The limiter holds what the log says, for all windows from the time `last` on.
pub record Refines (rule : RateLimitRule) (l : InMemoryRateLimiter) (log : List Request) (last : ℕ)
    : Type 0 where
  pub sorted : (k : String) → SortedTo last (bucket_of l.requests k)
  pub bounded : (k : String) → length (bucket_of l.requests k) ≤ rule.max_requests
  pub same :
      (k : String) (later : ℕ)
      → last ≤ later
      → live (window rule) later (bucket_of l.requests k) ≡ live (window rule) later (times k log)

times-append :
    (k : String) (h : List Request) (j : String) (t : ℕ)
    → times k (h ++ (j, t) ∷ []) ≡ (if str_eq j k then times k h ++ t ∷ [] else times k h)
unfolding times
times-append k [] j t = ground arith
times-append k ((i, s) ∷ h) j t = ground (arith, times-append k h j t)

bucket_of-put :
    (d : Dict (List ℕ)) (k j : String) (b : List ℕ)
    → bucket_of (put d k b) j ≡ (if str_eq k j then b else bucket_of d j)
unfolding bucket_of
bucket_of-put d k j b = ground (arith, get-put d k j b)

-- The bucket after an accepted decision.
abbrev bucket_next : RateLimitRule → ℕ → List ℕ → List ℕ
bucket_next rule now b = if ltb (length b) rule.max_requests then b ++ now ∷ [] else b

-- The seconds to wait that go with it.
abbrev pub wait : RateLimitRule → ℕ → List ℕ → ℕ
wait rule now [] = 0
wait rule now (t ∷ ts) =
    if leb rule.max_requests (length (t ∷ ts))
    then max 1 (ceil_seconds (t + window rule - now))
    else 0

admit_lem :
    (rule : RateLimitRule) (now : ℕ) (b : List ℕ)
    → 0 < rule.max_requests
    → admit rule now b
      ≡ ok (ltb (length b) rule.max_requests, wait rule now b, bucket_next rule now b)
unfolding admit
admit_lem rule now [] h = ground arith
admit_lem rule now (t ∷ ts) h = ground arith

-- The bucket that `allow` decides on.
abbrev pub kept : RateLimitRule → InMemoryRateLimiter → String → ℕ → List ℕ
kept rule l k now = evict (window rule) now (bucket_of l.requests k)

abbrev pub limiter_next : RateLimitRule → InMemoryRateLimiter → String → ℕ → InMemoryRateLimiter
limiter_next rule l k now = record l {
  requests = put l.requests k (bucket_next rule now (kept rule l k now));
}

module _ (rule : RateLimitRule) (l : InMemoryRateLimiter) (log : List Request) (last now : ℕ)
    (r : Refines rule l log last) (le : last ≤ now) (positive : 0 < rule.max_requests) where
  pub length-kept : (k : String) → length (kept rule l k now) ≡ live (window rule) now (times k log)
  length-kept k = length-evict (window rule) now last _ (r.sorted k) ∙ r.same k now le

  pub allow_lem :
      (k : String)
      → allow l k rule now
        ≡ ok (
          log_allows rule log k now,
          wait rule now (kept rule l k now),
          limiter_next rule l k now,
        )
  unfolding allow
  allow_lem k = rw (admit_lem rule now (kept rule l k now) positive, length-kept k)

  sorted_next : (k j : String) → SortedTo now (bucket_of (limiter_next rule l k now).requests j)
  sorted_next k j =
      let here = evict-SortedTo (window rule) now last _ (r.sorted k) in
      rw (bucket_of-put l.requests k j _) (
        ground (
          arith,
          SortedTo-mono last now _ le here,
          SortedTo-append last now _ le here,
          SortedTo-mono last now _ le (r.sorted j),
        ))

  bounded_next :
      (k j : String) → length (bucket_of (limiter_next rule l k now).requests j) ≤ rule.max_requests
  bounded_next k j = rw (bucket_of-put l.requests k j _) (
      ground (
        arith,
        length-append (kept rule l k now) (now ∷ []),
        length-evict-le (window rule) now (bucket_of l.requests k),
        r.bounded k,
        r.bounded j,
      ))

  same_next :
      (k j : String) (later : ℕ)
      → now ≤ later
      → live (window rule) later (bucket_of (limiter_next rule l k now).requests j)
        ≡ live (window rule) later (times j (log_next rule log k now))
  same_next k j later h = rw (bucket_of-put l.requests k j _) (
      ground (
        arith,
        eq_iff k j,
        length-kept k,
        times-append j log k now,
        live-append (window rule) later (kept rule l k now) (now ∷ []),
        live-append (window rule) later (times j log) (now ∷ []),
        live-evict (window rule) now later (bucket_of l.requests k) h,
        r.same k later (omega arith),
        r.same j later (omega arith),
      ))

  pub limiter_next-Refines :
      (k : String) → Refines rule (limiter_next rule l k now) (log_next rule log k now) now
  limiter_next-Refines k = record {
    sorted = sorted_next k;
    bounded = bounded_next k;
    same = same_next k;
  }

  -- One request of a limiter that holds what the log says, at a time that is not before the last
  -- one: `allow` returns, with the decision of the log, and the limiter holds the log's next state.
  pub allow-Refines :
      (k : String)
      → (retry : ℕ) × (l' : InMemoryRateLimiter) × (allow l k rule now
          ≡ ok (log_allows rule log k now, retry, l'))
        × Refines rule l' (log_next rule log k now) now
  allow-Refines k = (
    wait rule now (kept rule l k now),
    limiter_next rule l k now,
    allow_lem k,
    limiter_next-Refines k,
  )

-- A sequence of requests, through the limiter and through the log.
unfoldable pub serve :
    RateLimitRule
    → InMemoryRateLimiter
    → List Request
    → Result LimiterError (List Bool × InMemoryRateLimiter)
serve rule l [] = ok ([], l)
serve rule l ((k, now) ∷ calls) = do
  (allowed, retry, l') ← allow l k rule now
  (rest, l'') ← serve rule l' calls
  ok (allowed ∷ rest, l'')

unfoldable pub decisions : RateLimitRule → List Request → List Request → List Bool
decisions rule log [] = []
decisions rule log ((k, now) ∷ calls) =
    log_allows rule log k now ∷ decisions rule (log_next rule log k now) calls

unfoldable pub log_after : RateLimitRule → List Request → List Request → List Request
log_after rule log [] = log
log_after rule log ((k, now) ∷ calls) = log_after rule (log_next rule log k now) calls

-- The clock does not go back.
abbrev pub Monotone : ℕ → List Request → Type 0
Monotone last [] = Unit {0}
Monotone last ((k, now) ∷ calls) = (last ≤ now) × Monotone now calls

abbrev pub last_time : ℕ → List Request → ℕ
last_time last [] = last
last_time last ((k, now) ∷ calls) = last_time now calls

pub serve-Refines :
    (rule : RateLimitRule) (l : InMemoryRateLimiter) (log : List Request) (last : ℕ)
    (calls : List Request)
    → 0 < rule.max_requests
    → Refines rule l log last
    → Monotone last calls
    → (l' : InMemoryRateLimiter) × (serve rule l calls ≡ ok (decisions rule log calls, l'))
      × Refines rule l' (log_after rule log calls) (last_time last calls)
unfolding serve decisions log_after
serve-Refines rule l log last [] p r m = (l, refl, r)
serve-Refines rule l log last ((k, now) ∷ calls) p r (le, m) =
    let (retry, l', e, r') = allow-Refines rule l log last now r le p k in
    let (l'', e', r'') = serve-Refines rule l' (log_next rule log k now) now calls p r' m in
    (l'', rw (e, e'), r'')

abbrev pub empty : InMemoryRateLimiter
empty = record { requests = [] }

pub Refines-empty : (rule : RateLimitRule) → Refines rule empty [] 0
unfolding bucket_of get live times
Refines-empty rule = record {
  sorted = λ k. tt;
  bounded = λ k. omega arith;
  same = λ k later h. refl;
}

-- From an empty limiter, with a positive limit and a clock that does not go back, every sequence of
-- requests gets the decisions of the log of allowed requests; and at its end no key has more
-- allowed requests in the window than the limit.
pub serve-decisions :
    (rule : RateLimitRule) (calls : List Request)
    → 0 < rule.max_requests
    → Monotone 0 calls
    → ((l : InMemoryRateLimiter) × (serve rule empty calls ≡ ok (decisions rule [] calls, l)))
      × ((k : String)
          → live (window rule) (last_time 0 calls) (times k (log_after rule [] calls))
            ≤ rule.max_requests)
serve-decisions rule calls p m =
    let (l, e, r) = serve-Refines rule empty [] 0 calls p (Refines-empty rule) m in
    let now = last_time 0 calls in
    (
      (l, e),
      λ k. omega (
        arith,
        r.same k now (omega arith),
        live-le-length (window rule) now (bucket_of l.requests k),
        r.bounded k,
      ),
    )
