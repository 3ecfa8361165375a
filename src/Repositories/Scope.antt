-- ===== src/Repositories/Scope.antt =====
-- Which rows a query returns.
use eitoh_forge.Prelude.{◌≡◌, String, Bool, true, Option, none, some, List, [], ◌∷◌, All}
use eitoh_forge.Prelude.Dict.{Dict}
use eitoh_forge.Prelude.Results.{Result, ok, err, ◌>>=◌ as and_then}
use eitoh_forge.Repositories.{
  Row, Operand, FilterCondition, QuerySpec, RepositoryContext, matches_condition, tenant_of, ◌>>=◌,
  row_in_tenant_scope,
}
use eitoh_forge.Repositories.Memory.{RepositoryError}

-- Every row of a result, if there is one
abbrev AllIn : (Row → Type 0) → Option (List Row) → Type 0
AllIn P none = Unit {0}
AllIn P (some rows) = All P rows

module _ (show : Operand → String) (holds endswith : (part s : String) → Bool) where
  -- The row matches the condition, and all the conditions.
  abbrev pub Matches : FilterCondition → Row → Type 0
  Matches condition row = matches_condition show holds endswith row condition ≡ some true

  abbrev pub MatchesAll : List FilterCondition → Row → Type 0
  MatchesAll [] row = Unit {0}
  MatchesAll (condition ∷ conditions) row = Matches condition row × MatchesAll conditions row

-- Every row of a result, if it is one
abbrev AllOk : (Row → Type 0) → Result RepositoryError (List Row) → Type 0
AllOk P (ok rows) = All P rows
AllOk P (err e) = Unit {0}

module _ (show : Operand → String) (holds endswith : (part s : String) → Bool) (id_field : String)
    (current : RepositoryContext) where
  -- In the tenant's scope, and matching the query's conditions
  abbrev pub Listed : Option RepositoryContext → QuerySpec → Row → Type 0
  Listed context query row =
      (row_in_tenant_scope row (tenant_of context current) ≡ true)
      × MatchesAll show holds endswith query.filters row
