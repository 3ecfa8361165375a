-- ===== src/Jobs/Attempts.antt =====
-- The number of times a job is tried, over all that can happen to a queue.
use eitoh_forge.Prelude.{
  ℕ, ◌≤◌, ◌<◌, ◌≡◌, refl, sym, ap, subst, ◌∙◌, String, str_eq, Option, none, some, List, [], ◌∷◌,
  ◌++◌, if◌then◌else◌, arith, All, All-append, Bool-cases, inl, inr,
}
use eitoh_forge.Prelude.Dict.{Dict, get, get-put}
use eitoh_forge.Jobs.{
  RetryPolicy, JobEnvelope, JobResult, JobHandler, JobQueue, register_handler, enqueue,
  push_pending, mark_dead_letter, result_of, run_next,
}
use eitoh_forge.Jobs.Rules.{executing, dispatch_rule, run_next_rule}

-- A result that does not report more attempts than the limit.
abbrev pub Reports : RetryPolicy → Option JobResult → Type 0
Reports policy none = Unit {0}
Reports policy (some result) = result.result_attempts ≤ policy.max_attempts

module _ {P : Type 0} where
  fresh-waiting :
      (policy : RetryPolicy) (jobs : List (JobEnvelope P))
      → 0 < policy.max_attempts
      → All (λ j. j.attempts ≡ 0) jobs
      → All (λ j. j.attempts < policy.max_attempts) jobs
  fresh-waiting policy [] p h = tt
  fresh-waiting policy (job ∷ jobs) p (h, hs) = (omega arith, fresh-waiting policy jobs p hs)

module _ {W P : Type 0} where
  -- What a handler enqueues has not been tried.
  abbrev pub EnqueuesFresh : JobHandler W P → Type 0
  EnqueuesFresh handler =
      (w : W) (job : JobEnvelope P) → All (λ j. j.attempts ≡ 0) (handler w job).enqueued

  abbrev pub empty_queue : RetryPolicy → JobQueue W P
  empty_queue policy = record {
    retry_policy = policy;
    handlers = [];
    pending = [];
    dead_letter = [];
  }

  -- The queues that a program can make from an empty one.
  pub data Reached (policy : RetryPolicy) : JobQueue W P → Type 0 where
    start : Reached policy (empty_queue policy)
    registered :
        (q : JobQueue W P) (job_name : String) (handler : JobHandler W P)
        → Reached policy q
        → EnqueuesFresh handler
        → Reached policy (register_handler q job_name handler)
    enqueued :
        (q : JobQueue W P) (id : String) (now : ℕ) (job_name : String) (payload : Dict P)
        (metadata : Dict String)
        → Reached policy q
        → Reached policy (enqueue q id now job_name payload metadata).1
    ran :
        (q : JobQueue W P) (clock : W → ℕ × W) (w : W)
        → Reached policy q
        → Reached policy (run_next clock q w).1

  -- The invariant, for the policy's limit.
  pub record Within (policy : RetryPolicy) (q : JobQueue W P) : Type 0 where
    pub same_policy : q.retry_policy ≡ policy
    pub waiting : All (λ j. j.attempts < policy.max_attempts) q.pending
    pub dead : All (λ j. j.attempts ≤ policy.max_attempts) q.dead_letter
    pub fresh :
        (job_name : String) (handler : JobHandler W P)
        → get q.handlers job_name ≡ some handler
        → EnqueuesFresh handler

  -- A policy with a positive limit and a queue that keeps the invariant:
  run_next-Within :
      (policy : RetryPolicy) (clock : W → ℕ × W) (q : JobQueue W P) (w : W)
      → 0 < policy.max_attempts
      → Within policy q
      → let (next, q', w') = run_next clock q w in Reports policy next × Within policy q'
  unfolding result_of mark_dead_letter push_pending
  run_next-Within policy clock q w p i =
      run_next_rule clock q w (λ (next, q', w'). Reports policy next × Within policy q')
        (λ e. (tt, i))
        (λ job jobs e.
          let limit = ap (λ x. x.max_attempts) i.same_policy in
          let (here, rest) =
            subst (λ l. All (λ j. j.attempts < policy.max_attempts) l) e i.waiting in
          (
            λ l. (tt, i),
            λ l.
                dispatch_rule clock (record q { pending = jobs }) (clock w).1 job
                  (λ (result, q', w'). Reports policy (some result) × Within policy q')
                  (λ f. (
                    omega arith,
                    record {
                      same_policy = i.same_policy;
                      waiting = rest;
                      dead = All-append _ q.dead_letter (job ∷ []) i.dead (omega arith, tt);
                      fresh = i.fresh;
                    },
                  ))
                  (λ handler f.
                    let new =
                      fresh-waiting policy _ p
                        (i.fresh job.name handler f (clock w).1 (executing job)) in
                    let more = All-append _ jobs _ rest new in
                    (
                      λ f. (
                        omega arith,
                        record {
                          same_policy = i.same_policy;
                          waiting = more;
                          dead = i.dead;
                          fresh = i.fresh;
                        },
                      ),
                      λ message f. (
                        λ l. (
                          omega arith,
                          record {
                            same_policy = i.same_policy;
                            waiting = more;
                            dead =
                                All-append _ q.dead_letter (executing job ∷ []) i.dead
                                  (omega arith, tt);
                            fresh = i.fresh;
                          },
                        ),
                        λ l. (
                          omega arith,
                          record {
                            same_policy = i.same_policy;
                            waiting =
                                All-append _ (jobs ++ _) (_ ∷ []) more
                                  (omega (arith, limit, l), tt);
                            dead = i.dead;
                            fresh = i.fresh;
                          },
                        ),
                      ),
                    )),
          ))

  register-Within :
      (policy : RetryPolicy) (q : JobQueue W P) (job_name : String) (handler : JobHandler W P)
      → EnqueuesFresh handler
      → Within policy q
      → Within policy (register_handler q job_name handler)
  unfolding register_handler
  register-Within policy q job_name handler new i = record {
    same_policy = i.same_policy;
    waiting = i.waiting;
    dead = i.dead;
    fresh = λ other h e.
        let found = sym (get-put q.handlers job_name other handler) ∙ e in
        elim (Bool-cases (str_eq job_name other)) [
          | inl same ↦
              let here : some handler ≡ some h =
                subst (λ b. (if b then some handler else get q.handlers other) ≡ some h) same
                  found in
              subst EnqueuesFresh (let x : handler ≡ h = cc in x) new
          | inr differs ↦ i.fresh other h (
              subst (λ b. (if b then some handler else get q.handlers other) ≡ some h) differs
                found)
        ];
  }

  enqueue-Within :
      (policy : RetryPolicy) (q : JobQueue W P) (id : String) (now : ℕ) (job_name : String)
      (payload : Dict P) (metadata : Dict String)
      → 0 < policy.max_attempts
      → Within policy q
      → Within policy (enqueue q id now job_name payload metadata).1
  unfolding enqueue push_pending
  enqueue-Within policy q id now job_name payload metadata p i = record {
    same_policy = i.same_policy;
    waiting = All-append _ q.pending (_ ∷ []) i.waiting (p, tt);
    dead = i.dead;
    fresh = i.fresh;
  }

  within :
      (policy : RetryPolicy) (q : JobQueue W P)
      → 0 < policy.max_attempts
      → Reached policy q
      → Within policy q
  unfolding get
  within policy _ p start = record {
    same_policy = refl;
    waiting = tt;
    dead = tt;
    fresh = λ name h e. absurd (ground arith);
  }
  within policy _ p (registered q job_name handler r new) =
      register-Within policy q job_name handler new (within policy q p r)
  within policy _ p (enqueued q id now job_name payload metadata r) =
      enqueue-Within policy q id now job_name payload metadata p (within policy q p r)
  within policy _ p (ran q clock w r) = (run_next-Within policy clock q w p (within policy q p r)).1

  -- In every queue that a program makes from an empty one, with a positive limit and handlers that
  -- enqueue only new jobs: a job that waits has been tried less often than the limit, a dead letter
  -- not more often, and the next run reports at most the limit.
  pub Reached-Within :
      (policy : RetryPolicy) (q : JobQueue W P)
      → 0 < policy.max_attempts
      → Reached policy q
      → Within policy q × ((clock : W → ℕ × W) (w : W) → Reports policy (run_next clock q w).0)
  Reached-Within policy q p r =
      let i = within policy q p r in (i, λ clock w. (run_next-Within policy clock q w p i).0)
