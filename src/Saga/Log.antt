-- ===== src/Saga/Log.antt =====
-- The event log of a run, against the result that the run returns.
use mathlib.Core.List.{append_assoc, append-nil, map-append}
use eitoh_forge.Prelude.{
  String, ◌≡◌, refl, ◌∙◌, Option, none, some, List, [], ◌∷◌, ◌++◌, map, reverse, str_append, arith,
  ap,
}
use eitoh_forge.Saga.{
  SagaStatus, value, SagaStep, Outcome, succeeded, returned, raised, Event, RunState,
  SagaExecutionResult, RunOutcome, result, uncaught, Callback, emit, step_executed,
  step_compensated, start, finish, names, backward, notify, settle, conclude, run,
}
use eitoh_forge.Saga.Rules.{
  after_execute, after_compensate, forward_rule, backward_rule, Ends, Settles,
}

-- An event without the saga id: name, kind and detail.
abbrev pub Entry : Type 0
Entry = String × String × String

abbrev pub entries : List Event → List Entry
entries = map (λ e. (e.0, e.2, e.3))

abbrev pub executed_entry : String → String → Entry
executed_entry saga_name step_name = (saga_name, "step", str_append "executed:" step_name)

abbrev pub compensated_entry : String → String → Entry
compensated_entry saga_name step_name = (saga_name, "step", str_append "compensated:" step_name)

-- The log of a run up to its last event, for given names of executed and compensated steps.
abbrev pub open_log : String → List String → List String → List Entry
open_log saga_name executed compensated =
    (saga_name, "start", "running")
    ∷ (map (executed_entry saga_name) executed ++ map (compensated_entry saga_name) compensated)

-- The log that a result stands for.
abbrev pub log_of : String → SagaExecutionResult → List Entry
log_of saga_name r =
    open_log saga_name r.executed_steps r.compensated_steps
    ++ (saga_name, "finish", value r.status) ∷ []

-- A run that returns has logged its result. A run that the callback ended has logged no finish.
abbrev pub Logged : {D E : Type 0} → String → RunState D → RunOutcome E × RunState D → Type 0
Logged saga_name s (result r, s') = entries s'.events ≡ entries s.events ++ log_of saga_name r
Logged saga_name s (uncaught e, s') =
    (executed : List String) × (compensated : List String) × (entries s'.events
      ≡ entries s.events ++ open_log saga_name executed compensated)

module _ {D : Type 0} where
  entries-emit :
      (saga_name kind detail : String) (s : RunState D)
      → entries (emit saga_name kind detail s).events
        ≡ entries s.events ++ (saga_name, kind, detail) ∷ []
  unfolding emit
  entries-emit saga_name kind detail s = map-append _ s.events _

module _ {D : Type 0} (saga_name : String) (base : List Entry) where
  -- The log while the loops run.
  Logs : List String → List String → RunState D → Type 0
  Logs executed done s = entries s.events ≡ base ++ open_log saga_name executed done

  start-Logs : (s : RunState D) → entries s.events ≡ base → Logs [] [] (start saga_name s)
  unfolding Logs start
  start-Logs s h = simp (entries-emit, h)

  finish-Logs :
      (status : SagaStatus) (executed done : List String) (s : RunState D)
      → Logs executed done s
      → entries (finish saga_name status s).events
        ≡ base ++ (open_log saga_name executed done ++ (saga_name, "finish", value status) ∷ [])
  unfolding Logs finish
  finish-Logs status executed done s h = simp (entries-emit, h, append_assoc)

module _ {D E : Type 0} (saga_name : String) (base : List Entry) where
  step_executed-Logs :
      (step : SagaStep D E) (executed : List (SagaStep D E)) (s : RunState D)
      → Logs saga_name base (names executed) [] s
      → Logs saga_name base
          (names (executed ++ step ∷ []))
          []
          (step_executed saga_name step.name (after_execute step s))
  unfolding Logs step_executed
  step_executed-Logs step executed s h =
      simp (entries-emit, h, map-append, append_assoc, append-nil)

  step_compensated-Logs :
      (step : SagaStep D E) (executed done : List String) (s : RunState D)
      → Logs saga_name base executed done s
      → Logs saga_name base executed
          (done ++ step.name ∷ [])
          (step_compensated saga_name step.name (after_compensate step s))
  unfolding Logs step_compensated
  step_compensated-Logs step executed done s h = simp (entries-emit, h, map-append, append_assoc)

module _ {D E : Type 0} (str : E → String) (on_failure : Option (Callback D E)) (saga_name : String)
    (s : RunState D) where
  -- The invariants of the two loops, for the log that `s` had.
  InForward : List (SagaStep D E) → List (SagaStep D E) → RunState D → Type 0
  InForward executed rest t = Logs saga_name (entries s.events) (names executed) [] t

  Failed : List (SagaStep D E) → E → RunState D → Type 0
  Failed executed exc t = Logs saga_name (entries s.events) (names executed) [] t

  InBackward : List (SagaStep D E) → List (SagaStep D E) → List String → RunState D → Type 0
  InBackward executed rest done t = Logs saga_name (entries s.events) (names executed) done t

  Interrupted : List (SagaStep D E) → RunState D → Type 0
  Interrupted executed t =
      (done : List String) × Logs saga_name (entries s.events) (names executed) done t

  events-notify :
      (step : SagaStep D E) (exc : E) (t : RunState D)
      → (notify str on_failure saga_name step exc t).1.events ≡ t.events
  unfolding notify
  events-notify step exc t = ground arith

  settle-Logged :
      (executed : List (SagaStep D E)) (exc : E) (t : Outcome E × List String × RunState D)
      → Settles str on_failure saga_name (InBackward executed) (Interrupted executed) t
      → Logged saga_name s (settle str on_failure saga_name executed exc t)
  unfolding settle InBackward Interrupted Logs
  settle-Logged executed exc (raised e, done, t) (done', h) = (names executed, done', h)
  settle-Logged executed exc (returned, done, t) h = finish-Logs saga_name _ _ _ done t h

  backward-Settles :
      (executed steps : List (SagaStep D E)) (done : List String) (t : RunState D)
      → Logs saga_name (entries s.events) (names executed) done t
      → Settles str on_failure saga_name
          (InBackward executed)
          (Interrupted executed)
          (backward str on_failure saga_name steps done t)
  unfolding InBackward Interrupted Logs
  backward-Settles executed steps done t =
      backward_rule str on_failure saga_name (InBackward executed) (Interrupted executed)
        (λ step rest done t h _. step_compensated-Logs saga_name _ step _ done t h)
        (λ step rest done t exc h _. (
          λ _. ap entries (events-notify step exc (after_compensate step t)) ∙ h,
          λ e _. (done, ap entries (events-notify step exc (after_compensate step t)) ∙ h),
        ))
        steps done t

  conclude-Logged :
      (t : List (SagaStep D E) × Option E × RunState D)
      → Ends str on_failure saga_name InForward Failed t
      → Logged saga_name s (conclude str on_failure saga_name t)
  unfolding conclude InForward Failed
  conclude-Logged (executed, none, t) h = finish-Logs saga_name _ succeeded (names executed) [] t h
  conclude-Logged (executed, some exc, t) h =
      settle-Logged executed exc _ (backward-Settles executed (reverse executed) [] t h)

  -- Every run appends to the event log. If it returns, the new entries are the start, one entry for
  -- each executed step, one for each compensated step, both in the order of the result, and the
  -- finish with the status of the result. If the callback's exception leaves the run, the new
  -- entries are of that form without the finish.
  pub run-Logged :
      (steps : List (SagaStep D E)) → Logged saga_name s (run str on_failure saga_name steps s)
  unfolding run InForward Failed Logs
  run-Logged steps = conclude-Logged _ (
      forward_rule str on_failure saga_name InForward Failed
        (λ step rest executed t h _. step_executed-Logs saga_name _ step executed t h)
        (λ step rest executed t exc h _. h) steps [] _ (start-Logs saga_name _ s refl))
