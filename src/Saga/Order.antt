-- ===== src/Saga/Order.antt =====
-- Which steps a run executes and compensates, and in which order.
use mathlib.Core.List.{
  append_assoc, append-nil, map-append, reverse-cons, Sublist, sublist-append_left,
}
use mathlib.Core.List.Sublist
use eitoh_forge.Prelude.{
  String, ◌≡◌, ◌≢◌, refl, sym, ◌∙◌, Option, none, some, List, [], ◌∷◌, ◌++◌, reverse, ap, subst,
  arith,
}
use eitoh_forge.Saga.{
  SagaStatus, succeeded, failed, compensated, SagaStep, Outcome, returned, raised, RunState,
  SagaExecutionResult, RunOutcome, result, uncaught, Callback, names, backward, notify, settle,
  conclude, run,
}
use eitoh_forge.Saga.Rules.{forward_rule, backward_rule, Ends, Settles}

-- What a result says of the steps, for each status.
abbrev pub Ordered : List String → SagaExecutionResult → SagaStatus → Type 0
Ordered steps r succeeded =
    (r.executed_steps ≡ steps) × (r.compensated_steps ≡ []) × (r.error_message ≡ none)
Ordered steps r failed =
    (pending : List String) × (steps ≡ r.executed_steps ++ pending)
    × (pending ≢ [])
    × (r.compensated_steps ≡ [])
    × (r.error_message ≢ none)
Ordered steps r compensated =
    (pending : List String) × (steps ≡ r.executed_steps ++ pending)
    × (pending ≢ [])
    × (r.compensated_steps ≢ [])
    × Sublist r.compensated_steps (reverse r.executed_steps)
    × (r.error_message ≢ none)
Ordered steps r _ = ⊥

abbrev pub RunOrdered :
    {D E : Type 0}
    → Option (Callback D E)
    → List (SagaStep D E)
    → RunOutcome E × RunState D
    → Type 0
RunOrdered on_failure steps (result r, s) = Ordered (names steps) r r.status
RunOrdered on_failure steps (uncaught e, s) = on_failure ≢ none

pub names-reverse :
    {D E : Type 0} (steps : List (SagaStep D E)) → names (reverse steps) ≡ reverse (names steps)
names-reverse [] = refl
names-reverse (step ∷ steps) = simp (reverse-cons, map-append, names-reverse steps)

module _ {D E : Type 0} (str : E → String) (on_failure : Option (Callback D E)) (saga_name : String)
    (all : List (SagaStep D E)) where
  -- The invariants of the two loops over the steps `all`.
  InForward : List (SagaStep D E) → List (SagaStep D E) → RunState D → Type 0
  InForward executed rest s = all ≡ executed ++ rest

  Failed : List (SagaStep D E) → E → RunState D → Type 0
  Failed executed exc s =
      (pending : List String) × (names all ≡ names executed ++ pending) × (pending ≢ [])

  InBackward : List (SagaStep D E) → List (SagaStep D E) → List String → RunState D → Type 0
  InBackward executed rest done s =
      (tried : List String) × (names (reverse executed) ≡ tried ++ names rest) × Sublist done tried

  settle-RunOrdered :
      (executed : List (SagaStep D E)) (exc : E) (s : RunState D)
      → Failed executed exc s
      → (t : Outcome E × List String × RunState D)
      → Settles str on_failure saga_name (InBackward executed) (λ _. on_failure ≢ none) t
      → RunOrdered on_failure all (settle str on_failure saga_name executed exc t)
  unfolding settle InBackward Failed
  settle-RunOrdered executed exc s h (raised e, done, t) k = k
  settle-RunOrdered executed exc s (p, e, n) (returned, [], t) k = (p, e, n, refl, λ z. cc)
  settle-RunOrdered executed exc s (p, e, n) (returned, x ∷ done, t) (tried, q, k) = (
    p,
    e,
    n,
    (λ z. cc),
    subst (λ l. Sublist (x ∷ done) l) (sym (append-nil tried) ∙ sym q ∙ names-reverse executed) k,
    λ z. cc,
  )

  notify-uncaught :
      (step : SagaStep D E) (exc : E) (s : RunState D) (e : E)
      → (notify str on_failure saga_name step exc s).0 ≡ raised e
      → on_failure ≢ none
  unfolding notify
  notify-uncaught step exc s e h n = ground arith

  backward-Settles :
      (executed : List (SagaStep D E)) (s : RunState D)
      → Settles str on_failure saga_name
          (InBackward executed)
          (λ _. on_failure ≢ none)
          (backward str on_failure saga_name (reverse executed) [] s)
  unfolding InBackward
  backward-Settles executed s =
      backward_rule str on_failure saga_name (InBackward executed) (λ _. on_failure ≢ none)
        (λ step rest done s (tried, e, k) _. (
          tried ++ step.name ∷ [],
          e ∙ sym (append_assoc tried _ _),
          Sublist.append k (Sublist.refl _),
        ))
        (λ step rest done s exc (tried, e, k) _. (
          λ _. (
            tried ++ step.name ∷ [],
            e ∙ sym (append_assoc tried _ _),
            Sublist.trans k (sublist-append_left tried _),
          ),
          λ x h. notify-uncaught step exc _ x h,
        ))
        (reverse executed) [] s ([], refl, Sublist.refl [])

  conclude-RunOrdered :
      (t : List (SagaStep D E) × Option E × RunState D)
      → Ends str on_failure saga_name InForward Failed t
      → RunOrdered on_failure all (conclude str on_failure saga_name t)
  unfolding conclude InForward Failed
  conclude-RunOrdered (executed, none, s) h = (ap names (sym (h ∙ append-nil executed)), refl, refl)
  conclude-RunOrdered (executed, some exc, s) h =
      settle-RunOrdered executed exc s h _ (backward-Settles executed s)

  -- A run succeeds only after it has executed all steps, in order, and it has then compensated
  -- none. Otherwise the executed steps are a proper prefix of the steps; the compensated steps are a
  -- subsequence of the executed ones in reverse order; the status is `compensated` if there is one
  -- and `failed` if there is none; and the result carries an error. A run ends without a result only
  -- if a callback was given.
  pub run-RunOrdered :
      (s : RunState D) → RunOrdered on_failure all (run str on_failure saga_name all s)
  unfolding run InForward Failed
  run-RunOrdered s = conclude-RunOrdered _ (
      forward_rule str on_failure saga_name InForward Failed
        (λ step rest executed s h _. h ∙ sym (append_assoc executed _ _))
        (λ step rest executed s exc h _.
          (names (step ∷ rest), ap names h ∙ map-append _ executed _, λ z. cc))
        all [] _ refl)
