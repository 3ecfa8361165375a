-- ===== src/Saga/Atomic.antt =====
-- What a saga is for: steps that can be undone make the whole run all or nothing.
use mathlib.Core.List.{append_assoc, append-nil, reverse-append}
use eitoh_forge.Prelude.{
  String, ◌≡◌, refl, sym, ◌∙◌, ◌⊎◌, inl, inr, Option, none, some, List, [], ◌∷◌, ◌++◌, reverse, ap,
  subst, All,
}
use eitoh_forge.Saga.{
  succeeded, SagaContext, SagaStep, Outcome, returned, raised, RunState, RunOutcome, result,
  uncaught, Callback, step_executed, step_compensated, names, start, forward, backward, settle,
  conclude, run,
}
use eitoh_forge.Saga.Rules.{forward_rule, backward_rule, Ends, Settles}
use eitoh_forge.Saga.Order.{names-reverse}

-- The compensation of a step takes back what its execution did to the context, and an execution
-- that raises leaves the context as it was.
pub record Reversible {D E : Type 0} (step : SagaStep D E) : Type 0 where
  pub undo :
      (c : SagaContext D)
      → (step.execute c).0 ≡ returned
      → step.compensate (step.execute c).1 ≡ (returned, c)
  pub clean :
      (c : SagaContext D) (exc : E) → (step.execute c).0 ≡ raised exc → (step.execute c).1 ≡ c

abbrev pub AllOrNothing : {D E : Type 0} → SagaContext D → RunOutcome E × RunState D → Type 0
AllOrNothing c (result r, s) =
    (r.status ≡ succeeded) ⊎ ((s.context ≡ c) × (r.compensated_steps ≡ reverse r.executed_steps))
AllOrNothing c (uncaught e, s) = ⊥

module _ {D E : Type 0} (str : E → String) (on_failure : Option (Callback D E)) (saga_name : String)
    (c : SagaContext D) where
  -- Compensating these steps in this order leads from the second context back to `c`.
  Reached : List (SagaStep D E) → SagaContext D → Type 0
  Reached [] d = d ≡ c
  Reached (step ∷ steps) d =
      (d' : SagaContext D) × (step.compensate d ≡ (returned, d')) × Reached steps d'

  InForward : List (SagaStep D E) → List (SagaStep D E) → RunState D → Type 0
  InForward executed rest s = Reached (reverse executed) s.context × All Reversible rest

  Failed : List (SagaStep D E) → E → RunState D → Type 0
  Failed executed exc s = Reached (reverse executed) s.context

  InBackward : List (SagaStep D E) → List (SagaStep D E) → List String → RunState D → Type 0
  InBackward executed rest done s =
      Reached rest s.context × (names (reverse executed) ≡ done ++ names rest)

  settle-AllOrNothing :
      (executed : List (SagaStep D E)) (exc : E) (t : Outcome E × List String × RunState D)
      → Settles str on_failure saga_name (InBackward executed) (λ _. ⊥) t
      → AllOrNothing c (settle str on_failure saga_name executed exc t)
  unfolding settle InBackward Reached step_executed step_compensated
  settle-AllOrNothing executed exc (raised e, done, s) h = h
  settle-AllOrNothing executed exc (returned, done, s) h =
      inr (h.0, sym (append-nil done) ∙ sym h.1 ∙ names-reverse executed)

  backward-Settles :
      (executed : List (SagaStep D E)) (s : RunState D)
      → Reached (reverse executed) s.context
      → Settles str on_failure saga_name
          (InBackward executed)
          (λ _. ⊥)
          (backward str on_failure saga_name (reverse executed) [] s)
  unfolding InBackward Reached step_compensated
  backward-Settles executed s h =
      backward_rule str on_failure saga_name (InBackward executed) (λ _. ⊥)
        (λ step rest done s ((d, e, r), n) _.
          (subst (Reached rest) (sym (ap (λ p. p.1) e)) r, n ∙ sym (append_assoc done _ _)))
        (λ step rest done s exc ((d, e, r), n) x. absurd (cc (x, ap (λ p. p.0) e)))
        (reverse executed) [] s (h, refl)

  conclude-AllOrNothing :
      (t : List (SagaStep D E) × Option E × RunState D)
      → Ends str on_failure saga_name InForward Failed t
      → AllOrNothing c (conclude str on_failure saga_name t)
  unfolding conclude Failed
  conclude-AllOrNothing (executed, none, s) h = inl refl
  conclude-AllOrNothing (executed, some exc, s) h =
      settle-AllOrNothing executed exc _ (backward-Settles executed s h)

  -- If every step is reversible, a run always returns a result. Either it succeeded, or the context
  -- is the one that the run began with, and the compensated steps are all the executed ones, in
  -- reverse order.
  pub run-AllOrNothing :
      (steps : List (SagaStep D E)) (s : RunState D)
      → All Reversible steps
      → s.context ≡ c
      → AllOrNothing c (run str on_failure saga_name steps s)
  unfolding run InForward Failed Reached start step_executed
  run-AllOrNothing steps s rev at =
      conclude-AllOrNothing (forward str on_failure saga_name steps [] (start saga_name s)) (
        forward_rule str on_failure saga_name InForward Failed
          (λ step rest executed s (r, rs) e. (
            subst (λ l. Reached l (step.execute s.context).1)
                (sym (reverse-append executed (step ∷ []))) (s.context, rs.0.undo s.context e, r),
            rs.1,
          ))
          (λ step rest executed s exc (r, rs) e.
            subst (Reached (reverse executed)) (sym (rs.0.clean s.context exc e)) r)
          steps [] (start saga_name s) (at, rev))
