-- ===== src/Jobs/Tests.antt =====
-- Runs of the queue, and the theorems at them.
use eitoh_forge.Prelude.{
  ℕ, ◌+◌, ◌≡◌, ◌≤◌, refl, String, Option, none, some, List, [], ◌∷◌, map, length, subst, inl, inr,
  Bool-cases, arith, if◌then◌else◌, str_eq,
}
use eitoh_forge.Prelude.Dict.{get}
use eitoh_forge.Jobs.{
  RetryPolicy, JobEnvelope, delay_for_attempt, JobResult, JobHandler, JobQueue, register_handler,
  enqueue, push_pending, mark_dead_letter, result_of, settle, fail, dispatch, run_next, run_head,
  run_all_available,
}
use eitoh_forge.Jobs.Ledger.{Quiet, left_all, held, gone_all, budget, run_all-Settles}
use eitoh_forge.Jobs.Attempts.{Reached, Within, Reports, Reached-Within, empty_queue}

-- Three attempts, waits of 1, 2, 4, … seconds, at most a minute.
abbrev defaults : RetryPolicy
defaults = record {
  max_attempts = 3;
  base_delay_seconds = 1;
  backoff_multiplier = 2;
  max_delay_seconds = 60;
  in_range = refl;
}

-- The world is the time; reading it takes ten seconds.
abbrev slow_clock : ℕ → ℕ × ℕ
slow_clock now = (now, now + 10)

abbrev frozen : ℕ → ℕ × ℕ
frozen now = (now, now)

abbrev always_fails : JobHandler ℕ String
always_fails w job = record { world = w; enqueued = []; raised = some "boom" }

abbrev mail : String → ℕ → JobEnvelope String
mail id at = record {
  id = id;
  name = "mail";
  payload = [];
  metadata = [];
  attempts = 0;
  available_at = at;
  created_at = 0;
}

abbrev queue : List (JobEnvelope String) → JobQueue ℕ String
queue jobs = record {
  retry_policy = defaults;
  handlers = ("mail", always_fails) ∷ [];
  pending = jobs;
  dead_letter = [];
}

abbrev reports : Option (List JobResult × JobQueue ℕ String × ℕ) → Option (List ℕ × List ℕ)
reports none = none
reports (some (results, q, w)) =
    some (map (λ r. r.result_attempts) results, map (λ j. j.attempts) q.dead_letter)

-- A job that always fails is tried three times and becomes a dead letter.
three_attempts :
    reports (run_all_available slow_clock 10 (queue (mail "1" 0 ∷ [])) 0)
    ≡ some (1 ∷ 2 ∷ 3 ∷ [], 3 ∷ [])
unfolding run_all_available run_next run_head dispatch settle fail delay_for_attempt push_pending
    mark_dead_letter result_of get
three_attempts = refl

-- A head that is not available yet keeps an available job behind it from running.
head_blocks :
    reports (run_all_available frozen 10 (queue (mail "late" 5 ∷ mail "due" 0 ∷ [])) 0)
    ≡ some ([], [])
unfolding run_all_available run_next run_head dispatch settle fail delay_for_attempt push_pending
    mark_dead_letter result_of get
head_blocks = refl

queue-Quiet : (jobs : List (JobEnvelope String)) → Quiet (queue jobs)
unfolding get
queue-Quiet jobs name handler e w job = elim (Bool-cases (str_eq "mail" name)) [
  | inl same ↦
      let here : some always_fails ≡ some handler =
        subst (λ b. (if b then some always_fails else none) ≡ some handler) same e in
      subst (λ h. (h w job).enqueued ≡ []) (let x : always_fails ≡ handler = cc in x) refl
  | inr differs ↦
      let gone : none ≡ some handler =
        subst (λ b. (if b then some always_fails else none) ≡ some handler) differs e in
      cc
]

run_all-Settles_example :
    let q = queue (mail "1" 0 ∷ mail "2" 0 ∷ []) in
    (results : List JobResult) × (q' : JobQueue ℕ String) × (w' : ℕ) × (before : ℕ)
    × (run_all_available slow_clock 7 q 0 ≡ some (results, q', w'))
    × (length results ≤ budget q)
    × (run_next slow_clock q' before ≡ (none, q', w'))
    × ((i : String) → held i q' + gone_all i results ≡ held i q)
unfolding left_all
run_all-Settles_example =
    run_all-Settles slow_clock 7 (queue (mail "1" 0 ∷ mail "2" 0 ∷ [])) 0
      (queue-Quiet (mail "1" 0 ∷ mail "2" 0 ∷ [])) (omega arith)

abbrev two_steps : JobQueue ℕ String
two_steps =
    (enqueue (register_handler (empty_queue defaults) "mail" always_fails) "1" 0 "mail" [] []).1

Reached-Within_example :
    Within defaults (run_next frozen two_steps 0).1
    × ((clock : ℕ → ℕ × ℕ) (w : ℕ)
        → Reports defaults (run_next clock (run_next frozen two_steps 0).1 w).0)
Reached-Within_example = Reached-Within defaults (run_next frozen two_steps 0).1 (omega arith) (
    Reached.ran two_steps frozen 0 (
      Reached.enqueued _ "1" 0 "mail" [] [] (
        Reached.registered (empty_queue defaults) "mail" always_fails Reached.start (λ w job. tt))))
