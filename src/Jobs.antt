-- ===== src/Jobs.antt =====
-- src/eitohforge_sdk/infrastructure/jobs/contracts.py and memory.py: the background job queue with
-- its retry policy and dead letters. A time is the number of seconds since the epoch. The world, of
-- type `W`, is whatever the handlers and the clock see; a handler changes it, may enqueue jobs, and
-- ends or raises. The numbers of a policy are not negative.
pub mod Rules
pub mod Ledger
pub mod Attempts
pub mod Backoff
mod Tests
use mathlib.Core.Option
use eitoh_forge.Prelude.{
  ℕ, zero, suc, ◌+◌, ◌-◌, ◌*◌, ◌^◌, ◌≡◌, min, max, String, str_append, Bool, true, false, Option,
  none, some, List, [], ◌∷◌, ◌++◌, if◌then◌else◌, leb, ltb,
}
use eitoh_forge.Prelude.Dict.{Dict, get, put}

-- RetryPolicy. The multiplier is a float with a whole value, such as the default 2.0; `in_range` says
-- that no delay up to the last attempt leaves the range of floats, where Python raises OverflowError.
-- A float's rounding starts at 2 ^ 53 seconds, so the delay is exact for a cap below that.
pub record RetryPolicy : Type 0 where
  pub max_attempts : ℕ
  pub base_delay_seconds : ℕ
  pub backoff_multiplier : ℕ
  pub max_delay_seconds : ℕ
  pub in_range : ltb (base_delay_seconds * backoff_multiplier ^ max_attempts) (2 ^ 1023) ≡ true

-- RetryPolicy.delay_for_attempt
unfoldable pub delay_for_attempt : RetryPolicy → ℕ → ℕ
delay_for_attempt policy attempt =
    let exponent = max 0 (attempt - 2) in
    let delay = policy.base_delay_seconds * policy.backoff_multiplier ^ exponent in
    if leb attempt 1 then 0 else max 0 (min policy.max_delay_seconds delay)

-- JobEnvelope; `P` is the type of the payload's values.
pub record JobEnvelope (P : Type 0) : Type 0 where
  pub id : String
  pub name : String
  pub payload : Dict P
  pub metadata : Dict String
  pub attempts : ℕ
  pub available_at : ℕ
  pub created_at : ℕ

pub data JobStatus : Type 0 where
  succeeded dead_lettered retried : JobStatus

pub record JobResult : Type 0 where
  pub job_id : String
  pub job_name : String
  pub status : JobStatus
  pub result_attempts : ℕ
  pub error_message : Option String

-- What a handler leaves: the world, the jobs that it has enqueued, and its exception, if it raises.
pub record Handled (W P : Type 0) : Type 0 where
  pub world : W
  pub enqueued : List (JobEnvelope P)
  pub raised : Option String

abbrev pub JobHandler : Type 0 → Type 0 → Type 0
JobHandler W P = W → JobEnvelope P → Handled W P

pub record JobQueue (W P : Type 0) : Type 0 where
  pub retry_policy : RetryPolicy
  pub handlers : Dict (JobHandler W P)
  pub pending : List (JobEnvelope P)
  pub dead_letter : List (JobEnvelope P)

unfoldable pub result_of : {P : Type 0} → JobEnvelope P → JobStatus → Option String → JobResult
result_of job status error = record {
  job_id = job.id;
  job_name = job.name;
  status = status;
  result_attempts = job.attempts;
  error_message = error;
}

module _ {W P : Type 0} where
  -- InMemoryBackgroundJobQueue.register_handler
  unfoldable pub register_handler : JobQueue W P → String → JobHandler W P → JobQueue W P
  register_handler q job_name handler = record q { handlers = put q.handlers job_name handler }

  unfoldable pub push_pending : JobQueue W P → JobEnvelope P → JobQueue W P
  push_pending q job = record q { pending = q.pending ++ job ∷ [] }

  -- InMemoryBackgroundJobQueue.enqueue, at the time `now` and with the id that uuid4 gives
  unfoldable pub enqueue :
      JobQueue W P
      → (id : String) (now : ℕ) (job_name : String) → Dict P
      → Dict String
      → JobEnvelope P × JobQueue W P
  unfolding push_pending
  enqueue q id now job_name payload metadata =
      let envelope : JobEnvelope P = record {
        id = id;
        name = job_name;
        payload = payload;
        metadata = metadata;
        attempts = 0;
        available_at = now;
        created_at = now;
      } in
      (envelope, push_pending q envelope)

  unfoldable pub mark_dead_letter : JobQueue W P → JobEnvelope P → JobQueue W P
  mark_dead_letter q job = record q { dead_letter = q.dead_letter ++ job ∷ [] }

  -- A job that failed, in the world that its handler left: `clock` reads the time, and the world may
  -- have moved on after it.
  unfoldable pub fail :
      (clock : W → ℕ × W) → JobQueue W P → W → JobEnvelope P → String → JobResult × JobQueue W P × W
  unfolding mark_dead_letter push_pending result_of delay_for_attempt
  fail clock q w executing message =
      let (now, w') = clock w in
      let retried_job = record executing {
        available_at = now + delay_for_attempt q.retry_policy (executing.attempts + 1);
      } in
      if leb q.retry_policy.max_attempts executing.attempts
      then (result_of executing dead_lettered (some message), mark_dead_letter q executing, w)
      else (result_of retried_job retried (some message), push_pending q retried_job, w')

  -- How a handler's call ends.
  unfoldable pub settle :
      (clock : W → ℕ × W)
      → JobQueue W P
      → JobEnvelope P
      → Handled W P
      → JobResult × JobQueue W P × W
  unfolding result_of fail
  settle clock q executing done =
      let q' = record q { pending = q.pending ++ done.enqueued } in
      elim done.raised [
        | none ↦ (result_of executing succeeded none, q', done.world)
        | some message ↦ fail clock q' done.world executing message
      ]

  -- InMemoryBackgroundJobQueue._dispatch
  unfoldable pub dispatch :
      (clock : W → ℕ × W) → JobQueue W P → W → JobEnvelope P → JobResult × JobQueue W P × W
  unfolding mark_dead_letter result_of settle
  dispatch clock q w job =
      let executing = record job { attempts = job.attempts + 1 } in
      elim (get q.handlers job.name) [
        | none ↦ (
          result_of job dead_lettered
              (some (str_append "No handler registered for job: " job.name)),
          mark_dead_letter q job,
          w,
        )
        | some handler ↦ settle clock q executing (handler w executing)
      ]

  unfoldable pub run_head :
      (clock : W → ℕ × W)
      → JobQueue W P
      → W
      → List (JobEnvelope P)
      → Option JobResult × JobQueue W P × W
  unfolding dispatch
  run_head clock q w [] = (none, q, w)
  run_head clock q w (job ∷ jobs) =
      let (now, w') = clock w in
      let (result, q', w'') = dispatch clock (record q { pending = jobs }) w' job in
      if ltb now job.available_at then (none, q, w') else (some result, q', w'')

  -- InMemoryBackgroundJobQueue.run_next
  unfoldable pub run_next :
      (clock : W → ℕ × W) → JobQueue W P → W → Option JobResult × JobQueue W P × W
  unfolding run_head
  run_next clock q w = run_head clock q w q.pending

  abbrev pub prepend :
      JobResult → List JobResult × JobQueue W P × W → List JobResult × JobQueue W P × W
  prepend result (results, q, w) = (result ∷ results, q, w)

  -- InMemoryBackgroundJobQueue.run_all_available; `none` is out of fuel.
  unfoldable pub run_all_available :
      (clock : W → ℕ × W) → ℕ → JobQueue W P → W → Option (List JobResult × JobQueue W P × W)
  unfolding run_next
  run_all_available clock zero q w = none
  run_all_available clock (suc fuel) q w =
      let (next, q', w') = run_next clock q w in
      let more = run_all_available clock fuel q' w' in
      elim next [ none ↦ some ([], q', w') | some result ↦ Option.map (prepend result) more ]
