-- ===== src/Saga.antt =====
-- src/eitohforge_sdk/infrastructure/transactions/saga.py: the orchestrator, the in-memory state
-- store and the manager. The steps and the callback are the caller's code: arguments that act on
-- the shared context and return or raise. `E` is the type of the exceptions that
-- `except Exception` catches; `D` is the type of the context's `data`.
pub mod Rules
pub mod Log
pub mod Order
pub mod Atomic
pub mod Manager
mod Tests
use eitoh_forge.Prelude.{
  String, ◌≡◌, Option, none, some, List, [], ◌∷◌, ◌++◌, map, reverse, if◌then◌else◌, is_empty,
  str_append,
}

pub data SagaStatus : Type 0 where
  pending running succeeded failed compensated : SagaStatus

-- SagaStatus.value
unfoldable pub value : SagaStatus → String
value pending = "pending"
value running = "running"
value succeeded = "succeeded"
value failed = "failed"
value compensated = "compensated"

pub record SagaContext (D : Type 0) : Type 0 where
  pub saga_id : String
  pub trace_id : Option String
  pub tenant_id : Option String
  pub items : D

-- How a call of the caller's code ends.
pub data Outcome (E : Type 0) : Type 0 where
  returned : Outcome E
  raised : E → Outcome E

pub record SagaStep (D E : Type 0) : Type 0 where
  pub name : String
  pub execute : SagaContext D → Outcome E × SagaContext D
  pub compensate : SagaContext D → Outcome E × SagaContext D

-- InMemorySagaStateStore.events: (saga_name, saga_id, kind, detail)
abbrev pub Event : Type 0
Event = String × String × String × String

-- What a run changes: the context that the steps share, and the events of the state store.
pub record RunState (D : Type 0) : Type 0 where
  pub context : SagaContext D
  pub events : List Event

pub record SagaExecutionResult : Type 0 where
  pub status : SagaStatus
  pub executed_steps : List String
  pub compensated_steps : List String
  pub error_message : Option String

-- A call of `run` returns its result, or raises what the callback raised.
pub data RunOutcome (E : Type 0) : Type 0 where
  result : SagaExecutionResult → RunOutcome E
  uncaught : E → RunOutcome E

-- on_compensation_failure: saga name, context, step name and exception
abbrev pub Callback : Type 0 → Type 0 → Type 0
Callback D E = String → SagaContext D → String → E → Outcome E × SagaContext D

module _ {D : Type 0} where
  unfoldable pub emit : String → String → String → RunState D → RunState D
  emit saga_name kind detail s = record s {
    events = s.events ++ (saga_name, s.context.saga_id, kind, detail) ∷ [];
  }

  unfoldable pub start : String → RunState D → RunState D
  unfolding emit value
  start saga_name = emit saga_name "start" (value running)

  unfoldable pub finish : String → SagaStatus → RunState D → RunState D
  unfolding emit value
  finish saga_name status = emit saga_name "finish" (value status)

  unfoldable pub step_executed : String → String → RunState D → RunState D
  unfolding emit
  step_executed saga_name step_name = emit saga_name "step" (str_append "executed:" step_name)

  unfoldable pub step_compensated : String → String → RunState D → RunState D
  unfolding emit
  step_compensated saga_name step_name = emit saga_name "step" (str_append "compensated:" step_name)

abbrev pub names : {D E : Type 0} → List (SagaStep D E) → List String
names = map (λ step. step.name)

module _ {D E : Type 0} (str : E → String) (on_failure : Option (Callback D E)) where
  -- What the `try` block leaves: the steps that executed, the exception that ended the loop, if
  -- any, and the state.
  unfoldable pub forward :
      String
      → List (SagaStep D E)
      → List (SagaStep D E)
      → RunState D
      → List (SagaStep D E) × Option E × RunState D
  unfolding step_executed
  forward saga_name [] executed s = (executed, none, s)
  forward saga_name (step ∷ steps) executed s =
      let (r, context) = step.execute s.context in
      let s' = record s { context = context } in
      elim r [
        | returned ↦
            forward saga_name steps (executed ++ step ∷ []) (step_executed saga_name step.name s')
        | raised exc ↦ (executed, some exc, s')
      ]

  -- One pass of the `except` block's loop: the names compensated so far, or what the callback
  -- raised.
  unfoldable pub notify : String → SagaStep D E → E → RunState D → Outcome E × RunState D
  notify saga_name step exc s = elim on_failure [
    | none ↦ (returned, s)
    | some callback ↦
        let (r, context) = callback saga_name s.context step.name exc in
        (r, record s { context = context })
  ]

  unfoldable pub backward :
      String → List (SagaStep D E) → List String → RunState D → Outcome E × List String × RunState D
  unfolding step_compensated notify
  backward saga_name [] done s = (returned, done, s)
  backward saga_name (step ∷ steps) done s =
      let (r, context) = step.compensate s.context in
      let s' = record s { context = context } in
      elim r [
        | returned ↦
            backward saga_name steps (done ++ step.name ∷ [])
              (step_compensated saga_name step.name s')
        | raised exc ↦
            let (r', s'') = notify saga_name step exc s' in
            elim r' [
              | returned ↦ backward saga_name steps done s''
              | raised e ↦ (raised e, done, s'')
            ]
      ]

  -- The end of the `except` block.
  unfoldable pub settle :
      String
      → List (SagaStep D E)
      → E
      → Outcome E × List String × RunState D
      → RunOutcome E × RunState D
  unfolding finish
  settle saga_name executed exc (raised e, done, s) = (uncaught e, s)
  settle saga_name executed exc (returned, done, s) =
      let status = if is_empty done then failed else compensated in
      (
        result (record {
          status = status;
          executed_steps = names executed;
          compensated_steps = done;
          error_message = some (str exc);
        }),
        finish saga_name status s,
      )

  unfoldable pub conclude :
      String → List (SagaStep D E) × Option E × RunState D → RunOutcome E × RunState D
  unfolding finish backward settle
  conclude saga_name (executed, none, s) = (
    result (record {
      status = succeeded;
      executed_steps = names executed;
      compensated_steps = [];
      error_message = none;
    }),
    finish saga_name succeeded s,
  )
  conclude saga_name (executed, some exc, s) =
      settle saga_name executed exc (backward saga_name (reverse executed) [] s)

  -- SagaOrchestrator.run, over the context that it is given or makes
  unfoldable pub run : String → List (SagaStep D E) → RunState D → RunOutcome E × RunState D
  unfolding start forward conclude
  run saga_name steps s = conclude saga_name (forward saga_name steps [] (start saga_name s))
