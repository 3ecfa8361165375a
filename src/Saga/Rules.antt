-- ===== src/Saga/Rules.antt =====
-- Loop rules for the two loops of a run, from which the properties of a run follow.
use eitoh_forge.Prelude.{String, ◌≡◌, refl, Option, none, some, List, [], ◌∷◌, ◌++◌, ◌⊎◌, inl, inr}
use eitoh_forge.Saga.{
  Outcome, returned, raised, SagaStep, RunState, Callback, step_executed, step_compensated, forward,
  notify, backward,
}

pub Outcome-cases : {E : Type 0} (o : Outcome E) → (o ≡ returned) ⊎ ((e : E) × (o ≡ raised e))
Outcome-cases returned = inl refl
Outcome-cases (raised e) = inr (e, refl)

module _ {D E : Type 0} where
  -- The state after the body of a step, or its compensation, has run.
  abbrev pub after_execute : SagaStep D E → RunState D → RunState D
  after_execute step s = record s { context = (step.execute s.context).1 }

  abbrev pub after_compensate : SagaStep D E → RunState D → RunState D
  after_compensate step s = record s { context = (step.compensate s.context).1 }

module _ {D E : Type 0} (str : E → String) (on_failure : Option (Callback D E)) (saga_name : String)
    (P : List (SagaStep D E) → List (SagaStep D E) → RunState D → Type 0)
    (Q : List (SagaStep D E) → E → RunState D → Type 0) where
  -- `P` on the normal exit of the loop, `Q` where a step raised.
  abbrev pub Ends : List (SagaStep D E) × Option E × RunState D → Type 0
  Ends (executed, none, s) = P executed [] s
  Ends (executed, some exc, s) = Q executed exc s

  pub forward_rule :
      ((step : SagaStep D E) (rest executed : List (SagaStep D E)) (s : RunState D)
        → P executed (step ∷ rest) s
        → (step.execute s.context).0 ≡ returned
        → P (executed ++ step ∷ []) rest (step_executed saga_name step.name (after_execute step s)))
      → ((step : SagaStep D E) (rest executed : List (SagaStep D E)) (s : RunState D) (exc : E)
          → P executed (step ∷ rest) s
          → (step.execute s.context).0 ≡ raised exc
          → Q executed exc (after_execute step s))
      → (steps executed : List (SagaStep D E)) (s : RunState D) → P executed steps s
      → Ends (forward str on_failure saga_name steps executed s)
  unfolding forward
  forward_rule ret exn [] executed s h = h
  forward_rule ret exn (step ∷ steps) executed s h =
      elim (Outcome-cases (step.execute s.context).0) [
        | inl e ↦ rw (e, forward) (forward_rule ret exn steps _ _ (ret step steps executed s h e))
        | inr (exc, e) ↦ rw (e, forward) (exn step steps executed s exc h e)
      ]

module _ {D E : Type 0} (str : E → String) (on_failure : Option (Callback D E)) (saga_name : String)
    (P : List (SagaStep D E) → List String → RunState D → Type 0) (Q : RunState D → Type 0) where
  -- `P` where the loop ends, `Q` where the callback raised.
  abbrev pub Settles : Outcome E × List String × RunState D → Type 0
  Settles (returned, done, s) = P [] done s
  Settles (raised e, done, s) = Q s

  pub backward_rule :
      ((step : SagaStep D E) (rest : List (SagaStep D E)) (done : List String) (s : RunState D)
        → P (step ∷ rest) done s
        → (step.compensate s.context).0 ≡ returned
        → P rest
            (done ++ step.name ∷ [])
            (step_compensated saga_name step.name (after_compensate step s)))
      → ((step : SagaStep D E) (rest : List (SagaStep D E)) (done : List String) (s : RunState D)
            (exc : E)
          → P (step ∷ rest) done s
          → (step.compensate s.context).0 ≡ raised exc
          → let n = notify str on_failure saga_name step exc (after_compensate step s) in
            (n.0 ≡ returned → P rest done n.1) × ((e : E) → n.0 ≡ raised e → Q n.1))
      → (steps : List (SagaStep D E)) (done : List String) (s : RunState D) → P steps done s
      → Settles (backward str on_failure saga_name steps done s)
  unfolding backward
  backward_rule ret exn [] done s h = h
  backward_rule ret exn (step ∷ steps) done s h =
      elim (Outcome-cases (step.compensate s.context).0) [
        | inl e ↦ rw (e, backward) (backward_rule ret exn steps _ _ (ret step steps done s h e))
        | inr (exc, e) ↦
            elim (Outcome-cases
              (notify str on_failure saga_name step exc (after_compensate step s)).0) [
                | inl e' ↦
                    rw (e, e', backward)
                      (backward_rule ret exn steps done _ ((exn step steps done s exc h e).0 e'))
                | inr (x, e') ↦ rw (e, e', backward) ((exn step steps done s exc h e).1 x e')
              ]
      ]
