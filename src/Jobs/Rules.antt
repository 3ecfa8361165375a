-- ===== src/Jobs/Rules.antt =====
-- What can become of a job, as rules over `dispatch` and `run_next`.
use eitoh_forge.Prelude.{
  ℕ, ◌+◌, ◌≤◌, ◌<◌, ◌≡◌, refl, String, str_append, Option, none, some, List, [], ◌∷◌, ◌++◌, leb,
  ltb, ◌⊎◌, inl, inr, arith, Option-cases, if_intro,
}
use eitoh_forge.Prelude.Dict.{get}
use eitoh_forge.Jobs.{
  RetryPolicy, delay_for_attempt, JobEnvelope, dead_lettered, retried, succeeded, JobResult,
  Handled, JobHandler, JobQueue, push_pending, mark_dead_letter, result_of, fail, settle, dispatch,
  run_head, run_next,
}

List-cases : {A : Type 0} (l : List A) → (l ≡ []) ⊎ ((x : A) × (xs : List A) × (l ≡ x ∷ xs))
List-cases [] = inl refl
List-cases (x ∷ xs) = inr (x, xs, refl)

module _ {P : Type 0} where
  -- The copy of a job that its handler gets.
  abbrev pub executing : JobEnvelope P → JobEnvelope P
  executing job = record job { attempts = job.attempts + 1 }

  -- The copy that waits for its next attempt.
  abbrev pub retry_of : RetryPolicy → ℕ → JobEnvelope P → JobEnvelope P
  retry_of policy now job = record (executing job) {
    available_at = now + delay_for_attempt policy (job.attempts + 1 + 1);
  }

  abbrev pub unknown_handler : JobEnvelope P → JobResult
  unknown_handler job =
      result_of job dead_lettered (some (str_append "No handler registered for job: " job.name))

module _ {W P : Type 0} where
  abbrev pub with_enqueued : JobQueue W P → Handled W P → JobQueue W P
  with_enqueued q done = record q { pending = q.pending ++ done.enqueued }

  module _ (clock : W → ℕ × W) (q : JobQueue W P) (w : W) (job : JobEnvelope P)
      (Q : JobResult × JobQueue W P × W → Type 0) where
    -- The four ends of a dispatch.
    pub dispatch_rule :
        (get q.handlers job.name ≡ none → Q (unknown_handler job, mark_dead_letter q job, w))
        → ((handler : JobHandler W P)
            → get q.handlers job.name ≡ some handler
            → let done = handler w (executing job) in
              (done.raised ≡ none
                → Q (result_of (executing job) succeeded none, with_enqueued q done, done.world))
              × ((message : String)
                  → done.raised ≡ some message
                  → (q.retry_policy.max_attempts ≤ job.attempts + 1
                      → Q (
                        result_of (executing job) dead_lettered (some message),
                        mark_dead_letter (with_enqueued q done) (executing job),
                        done.world,
                      ))
                    × (job.attempts + 1 < q.retry_policy.max_attempts
                        → let (now, w') = clock done.world in
                          Q (
                            result_of (retry_of q.retry_policy now job) retried (some message),
                            push_pending (with_enqueued q done) (retry_of q.retry_policy now job),
                            w',
                          ))))
        → Q (dispatch clock q w job)
    unfolding dispatch settle fail
    dispatch_rule unknown known = elim (Option-cases (get q.handlers job.name)) [
      | inl e ↦ rw (e, dispatch) (unknown e)
      | inr (handler, e) ↦
          let (fine, raising) = known handler e in
          elim (Option-cases (handler w (executing job)).raised) [
            | inl f ↦ rw (e, dispatch, f, settle) (fine f)
            | inr (message, f) ↦
                rw (e, dispatch, f, settle, fail)
                  (if_intro Q (leb q.retry_policy.max_attempts (job.attempts + 1)) _ _
                    (λ l. (raising message f).0 (ground arith))
                    (λ l. (raising message f).1 (ground arith)))
          ]
    ]

  module _ (clock : W → ℕ × W) (q : JobQueue W P) (w : W)
      (Q : Option JobResult × JobQueue W P × W → Type 0) where
    -- `run_next` is idle, waits for the head of the queue, or dispatches it.
    pub run_next_rule :
        (q.pending ≡ [] → Q (none, q, w))
        → ((job : JobEnvelope P) (jobs : List (JobEnvelope P))
            → q.pending ≡ job ∷ jobs
            → let (now, w') = clock w in
              (now < job.available_at → Q (none, q, w'))
              × (job.available_at ≤ now
                  → let (result, q', w'') = dispatch clock (record q { pending = jobs }) w' job in
                    Q (some result, q', w'')))
        → Q (run_next clock q w)
    unfolding run_next run_head
    run_next_rule idle head = elim (List-cases q.pending) [
      | inl e ↦ rw (e, run_head) (idle e)
      | inr (job, jobs, e) ↦
          let (waits, runs) = head job jobs e in
          rw (e, run_head)
            (if_intro Q (ltb (clock w).0 job.available_at) _ _ (λ l. waits (ground arith))
              (λ l. runs (ground arith)))
    ]
