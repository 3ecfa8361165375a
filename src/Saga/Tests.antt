-- ===== src/Saga/Tests.antt =====
-- Runs of a saga over a counter, and the theorems at them.
use Prim.Native.Nat.{pred}
use eitoh_forge.Prelude.{ℕ, suc, String, ◌≡◌, refl, none, some, List, [], ◌∷◌}
use eitoh_forge.Prelude.Text.{strip}
use eitoh_forge.Prelude.Dict.{put}
use eitoh_forge.Prelude.Results.{ok}
use eitoh_forge.Saga.{
  SagaContext, SagaStep, returned, raised, RunState, RunOutcome, result, compensated, run,
}
use eitoh_forge.Saga.Log.{Logged, run-Logged}
use eitoh_forge.Saga.Order.{RunOrdered, run-RunOrdered}
use eitoh_forge.Saga.Atomic.{Reversible, AllOrNothing, run-AllOrNothing}
use eitoh_forge.Saga.Manager.{SagaManager, register, run_named, run_named-register}

abbrev reserve : SagaStep ℕ String
reserve = record {
  name = "reserve";
  execute = λ c. (returned, record c { items = suc c.items });
  compensate = λ c. (returned, record c { items = pred c.items });
}

abbrev charge : SagaStep ℕ String
charge = record {
  name = "charge";
  execute = λ c. (raised "card", c);
  compensate = λ c. (returned, c);
}

abbrev steps : List (SagaStep ℕ String)
steps = reserve ∷ reserve ∷ charge ∷ reserve ∷ []

abbrev context : SagaContext ℕ
context = record { saga_id = "s-1"; trace_id = none; tenant_id = none; items = 5 }

abbrev before : RunState ℕ
before = record { context = context; events = [] }

abbrev outcome : RunOutcome String × RunState ℕ
outcome = run (λ e. e) none "order" steps before

undone :
    outcome.0
    ≡ result (record {
      status = compensated;
      executed_steps = "reserve" ∷ "reserve" ∷ [];
      compensated_steps = "reserve" ∷ "reserve" ∷ [];
      error_message = some "card";
    })
unfolding run
undone = refl

run-Logged_example : Logged "order" before outcome
run-Logged_example = run-Logged (λ e. e) none "order" before steps

run-RunOrdered_example : RunOrdered none steps outcome
run-RunOrdered_example = run-RunOrdered (λ e. e) none "order" steps before

reserve-Reversible : Reversible reserve
reserve-Reversible = record { undo = λ c e. refl; clean = λ c exc e. cc }

charge-Reversible : Reversible charge
charge-Reversible = record { undo = λ c e. cc; clean = λ c exc e. refl }

run-AllOrNothing_example : AllOrNothing context outcome
run-AllOrNothing_example =
    run-AllOrNothing (λ e. e) none "order" context steps before
      (reserve-Reversible, (reserve-Reversible, (charge-Reversible, (reserve-Reversible, tt)))) refl

abbrev manager : SagaManager ℕ String
manager = record { definitions = [] }

abbrev registered : SagaManager ℕ String
registered = record { definitions = ("order", steps) ∷ [] }

register_order : register manager " order " steps ≡ ok registered
unfolding register strip put
register_order = refl

run_named-register_example : run_named (λ e. e) none registered "order " before ≡ ok outcome
unfolding register strip
run_named-register_example =
    run_named-register (λ e. e) none manager registered " order " "order " steps before
      register_order
