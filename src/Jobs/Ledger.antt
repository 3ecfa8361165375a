-- ===== src/Jobs/Ledger.antt =====
-- Where the jobs of a queue are, and how many runs they have left, when handlers enqueue nothing.
use eitoh_forge.Prelude.{
  ℕ, zero, suc, ◌+◌, ◌-◌, max, ◌≤◌, ◌<◌, ◌≡◌, refl, ◌∙◌, ap, String, str_eq, none, some, List, [],
  ◌∷◌, ◌++◌, if◌then◌else◌, ◌⊎◌, inl, inr, arith, length,
}
use eitoh_forge.Prelude.Dict.{get}
use eitoh_forge.Jobs.{
  JobEnvelope, dead_lettered, retried, succeeded, JobResult, JobHandler, JobQueue, push_pending,
  mark_dead_letter, result_of, dispatch, run_next, run_all_available,
}
use eitoh_forge.Jobs.Rules.{executing, retry_of, dispatch_rule, run_next_rule}

-- Results of status succeeded under an id.
unfoldable pub gone : String → JobResult → ℕ
gone i r = elim r.status [
  | succeeded ↦ if str_eq r.job_id i then 1 else 0
  | dead_lettered ↦ 0
  | retried ↦ 0
]

unfoldable pub gone_all : String → List JobResult → ℕ
gone_all i [] = 0
gone_all i (r ∷ rs) = gone i r + gone_all i rs

module _ {P : Type 0} where
  -- The jobs under an id.
  unfoldable pub count : String → List (JobEnvelope P) → ℕ
  count i [] = 0
  count i (job ∷ jobs) = (if str_eq job.id i then 1 else 0) + count i jobs

  -- How many runs a policy leaves to a job.
  abbrev pub left : ℕ → JobEnvelope P → ℕ
  left limit job = max 1 (limit - job.attempts)

  unfoldable pub left_all : ℕ → List (JobEnvelope P) → ℕ
  left_all limit [] = 0
  left_all limit (job ∷ jobs) = left limit job + left_all limit jobs

  pub count-append :
      (i : String) (a b : List (JobEnvelope P)) → count i (a ++ b) ≡ count i a + count i b
  unfolding count
  count-append i [] b = omega arith
  count-append i (x ∷ a) b = omega (arith, count-append i a b)

  pub left_all-append :
      (limit : ℕ) (a b : List (JobEnvelope P))
      → left_all limit (a ++ b) ≡ left_all limit a + left_all limit b
  unfolding left_all
  left_all-append limit [] b = omega arith
  left_all-append limit (x ∷ a) b = omega (arith, left_all-append limit a b)

  pub append_nil : (a : List (JobEnvelope P)) → a ++ [] ≡ a
  append_nil [] = refl
  append_nil (x ∷ a) = ap (λ l. x ∷ l) (append_nil a)

module _ {W P : Type 0} where
  -- No handler enqueues a job.
  abbrev pub Quiet : JobQueue W P → Type 0
  Quiet q =
      (name : String) (handler : JobHandler W P)
      → get q.handlers name ≡ some handler
      → (w : W) (job : JobEnvelope P) → (handler w job).enqueued ≡ []

  -- Jobs under an id that wait or are dead letters.
  abbrev pub held : String → JobQueue W P → ℕ
  held i q = count i q.pending + count i q.dead_letter

  -- The runs that the queue can still make.
  abbrev pub budget : JobQueue W P → ℕ
  budget q = left_all q.retry_policy.max_attempts q.pending

  -- A run of one job.
  pub record Ran (q : JobQueue W P) (result : JobResult) (q' : JobQueue W P) : Type 0 where
    pub quiet : Quiet q'
    pub policy : q'.retry_policy ≡ q.retry_policy
    pub spends : budget q' < budget q
    pub conserves : (i : String) → held i q' + gone i result ≡ held i q

  module _ (clock : W → ℕ × W) (q : JobQueue W P) (w : W) (job : JobEnvelope P)
      (jobs : List (JobEnvelope P)) (here : q.pending ≡ job ∷ jobs) (quiet : Quiet q) where
    abbrev popped : JobQueue W P
    popped = record q { pending = jobs }

    dispatch-Ran : let (result, q', w') = dispatch clock popped w job in Ran q result q'
    unfolding count left_all gone result_of mark_dead_letter push_pending
    dispatch-Ran =
        dispatch_rule clock popped w job (λ (result, q', w'). Ran q result q')
          (λ e. record {
            quiet = quiet;
            policy = refl;
            spends = rw here (omega arith);
            conserves = λ i. rw here (omega (arith, count-append i q.dead_letter (job ∷ [])));
          })
          (λ handler e.
            let limit = q.retry_policy.max_attempts in
            let still =
              ap (λ l. jobs ++ l) (quiet job.name handler e w (executing job)) ∙ append_nil jobs in
            (
              λ f. record {
                quiet = quiet;
                policy = refl;
                spends = rw (here, still) (omega arith);
                conserves = λ i. rw (here, still) (ground arith);
              },
              λ message f. (
                λ l. record {
                  quiet = quiet;
                  policy = refl;
                  spends = rw (here, still) (omega arith);
                  conserves = λ i.
                      rw (here, still)
                        (omega (arith, count-append i q.dead_letter (executing job ∷ [])));
                },
                λ l.
                    let again =
                      retry_of q.retry_policy (clock (handler w (executing job)).world).0 job in
                    record {
                      quiet = quiet;
                      policy = refl;
                      spends =
                          rw (here, still)
                            (omega (arith, left_all-append limit jobs (again ∷ []), l));
                      conserves =
                          λ i. rw (here, still) (omega (arith, count-append i jobs (again ∷ [])));
                    },
              ),
            ))

  -- `run_next` runs a job, or changes nothing.
  pub run_next-Ran :
      (clock : W → ℕ × W) (q : JobQueue W P) (w : W)
      → Quiet q
      → let (next, q', w') = run_next clock q w in
        ((next ≡ none) × (q' ≡ q)) ⊎ ((result : JobResult) × (next ≡ some result) × Ran q result q')
  run_next-Ran clock q w quiet =
      run_next_rule clock q w
        (λ (next, q', w').
          ((next ≡ none) × (q' ≡ q))
          ⊎ ((result : JobResult) × (next ≡ some result) × Ran q result q'))
        (λ e. inl (refl, refl))
        (λ job jobs e.
          let (now, w') = clock w in
          (λ l. inl (refl, refl), λ l. inr (_, refl, dispatch-Ran clock q w' job jobs e quiet)))

  -- If no handler enqueues a job: `run_all_available` ends, with at most as many results as the
  -- queue had runs left; then `run_next` finds no job to run; and under every id the jobs that wait,
  -- the dead letters and the results of status succeeded are together as many as the waiting jobs
  -- and the dead letters at the start.
  pub run_all-Settles :
      (clock : W → ℕ × W) (fuel : ℕ) (q : JobQueue W P) (w : W)
      → Quiet q
      → budget q < fuel
      → (results : List JobResult) × (q' : JobQueue W P) × (w' : W) × (before : W)
        × (run_all_available clock fuel q w ≡ some (results, q', w'))
        × (length results ≤ budget q)
        × (run_next clock q' before ≡ (none, q', w'))
        × ((i : String) → held i q' + gone_all i results ≡ held i q)
  unfolding run_all_available gone_all
  run_all-Settles clock zero q w quiet h = absurd (omega arith)
  run_all-Settles clock (suc fuel) q w quiet h = elim (run_next-Ran clock q w quiet) [
    | inl (e, same) ↦
        let w' = (run_next clock q w).2 in
        (
          [],
          q,
          w',
          w,
          rw (e, run_all_available, same),
          omega arith,
          λ i. (e i, same i, w'),
          λ i. omega arith,
        )
    | inr (result, e, ran) ↦
        let (next, q1, w1) = run_next clock q w in
        let (results, q', w', before, runs, few, ends, kept) =
          run_all-Settles clock fuel q1 w1 ran.quiet (omega (arith, ran.spends)) in
        (
          result ∷ results,
          q',
          w',
          before,
          rw (e, run_all_available, runs),
          omega (arith, ran.spends, few),
          ends,
          λ i. omega (arith, kept i, ran.conserves i),
        )
  ]
