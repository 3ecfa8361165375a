-- ===== src/Saga/Manager.antt =====
-- SagaManager: named sagas in front of the orchestrator.
use eitoh_forge.Prelude.{String, ◌≡◌, Option, none, some, List, if◌then◌else◌, arith, str_eq}
use eitoh_forge.Prelude.Text.{strip, is_blank}
use eitoh_forge.Prelude.Dict.{Dict, get, put, get-put}
use eitoh_forge.Prelude.Results.{Result, ok, err}
use eitoh_forge.Saga.{SagaStep, RunState, RunOutcome, Callback, run}

pub data ManagerError : Type 0 where
  name_required : ManagerError
  unknown_saga : String → ManagerError

pub record SagaManager (D E : Type 0) : Type 0 where
  pub definitions : Dict (List (SagaStep D E))

module _ {D E : Type 0} where
  unfoldable pub register :
      SagaManager D E → String → List (SagaStep D E) → Result ManagerError (SagaManager D E)
  register m saga_name steps =
      let key = strip saga_name in
      if is_blank key
      then err name_required
      else ok (record m { definitions = put m.definitions key steps })

module _ {D E : Type 0} (str : E → String) (on_failure : Option (Callback D E)) where
  -- SagaManager.run; the key error is the one that `raise KeyError` names
  unfoldable pub run_named :
      SagaManager D E → String → RunState D → Result ManagerError (RunOutcome E × RunState D)
  run_named m saga_name s = elim (get m.definitions (strip saga_name)) [
    | none ↦ err (unknown_saga saga_name)
    | some steps ↦ ok (run str on_failure (strip saga_name) steps s)
  ]

  -- After a registration under a name that is not blank, a run under any name with the same
  -- stripped form runs the registered steps, and a run under a name with another stripped form does
  -- what it did before.
  pub run_named-register :
      (m m' : SagaManager D E) (a b : String) (steps : List (SagaStep D E)) (s : RunState D)
      → register m a steps ≡ ok m'
      → run_named m' b s ≡ (
          if str_eq (strip a) (strip b)
          then ok (run str on_failure (strip b) steps s)
          else run_named m b s)
  unfolding register run_named
  run_named-register m m' a b steps s h =
      ground (arith, get-put m.definitions (strip a) (strip b) steps)
