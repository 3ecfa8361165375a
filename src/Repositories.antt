-- ===== src/Repositories.antt =====
-- src/eitohforge_sdk/application/dto/repository.py, domain/repositories/query_coalesce.py and
-- infrastructure/repositories/repository_row_helpers.py: the queries of the dict-backed repositories. A
-- field of a row is None, a text or an integer; other Python values are not modelled. `show` is Python's
-- `str`. A `none` result is a TypeError of a comparison.
pub mod Memory
pub mod Isolation
pub mod Scope
pub mod Pages
mod Tests
use eitoh_forge.Prelude.{
  ℕ, ◌+◌, String, str_eq, Bool, true, false, not, ◌&&◌, ◌||◌, Option, none, some, List, [], ◌∷◌,
  ◌++◌, if◌then◌else◌, take, drop, is_some, is_empty,
}
use eitoh_forge.Prelude.Text.{is_blank, startswith}
use eitoh_forge.Prelude.Int.{ℤ, pos, eqℤ, ltℤ}
use eitoh_forge.Prelude.Dict.{Dict, get, put}
use eitoh_forge.Prelude.Sort.{str_lt, sort_stable}
use eitoh_forge.Prelude.Decimal.{read_decimal}

pub data Value : Type 0 where
  null : Value
  text : String → Value
  number : ℤ → Value

abbrev pub Row : Type 0
Row = Dict Value

pub data FilterOperator : Type 0 where
  eq ne gt gte lt lte contains starts_with ends_with between is_in not_in exists : FilterOperator

-- The value of a filter
pub data Operand : Type 0 where
  single : Value → Operand
  sequence : List Value → Operand

pub record FilterCondition : Type 0 where
  pub field : String
  pub operator : FilterOperator
  pub operand : Operand

pub data SortDirection : Type 0 where
  asc desc : SortDirection

pub record SortSpec : Type 0 where
  pub sort_field : String
  pub direction : SortDirection

pub data PaginationMode : Type 0 where
  by_offset by_cursor by_keyset : PaginationMode

pub record PaginationSpec : Type 0 where
  pub page_size : ℕ
  pub offset : ℕ
  pub cursor : Option String
  pub mode : PaginationMode

pub record QuerySpec : Type 0 where
  pub filters : List FilterCondition
  pub sorts : List SortSpec
  pub pagination : PaginationSpec

pub record RepositoryContext : Type 0 where
  pub actor_id : Option String
  pub tenant_id : Option String

infixl 5 ◌>>=◌
abbrev pub ◌>>=◌ {ℓ κ} : {A : Type ℓ} {B : Type κ} → Option A → (A → Option B) → Option B
none >>= f = none
some a >>= f = f a

-- column == value
abbrev pub value_eq : Value → Value → Bool
value_eq null null = true
value_eq (text a) (text b) = str_eq a b
value_eq (number a) (number b) = eqℤ a b
value_eq _ _ = false

abbrev pub operand_eq : Value → Operand → Bool
operand_eq column (single v) = value_eq column v
operand_eq column (sequence vs) = false

-- a < b
abbrev pub value_lt : Value → Value → Option Bool
value_lt (text a) (text b) = some (str_lt a b)
value_lt (number a) (number b) = some (ltℤ a b)
value_lt _ _ = none

-- a <= b
abbrev pub value_le : Value → Value → Option Bool
value_le a b = do less ← value_lt b a; some (not less)

abbrev pub ordered : (Value → Value → Option Bool) → Value → Operand → Option Bool
ordered test column (single v) = test column v
ordered test column (sequence vs) = none

abbrev pub one_of : Value → List Value → Bool
one_of column [] = false
one_of column (v ∷ vs) = value_eq column v || one_of column vs

-- bool(value)
abbrev pub is_true : Operand → Bool
is_true (single null) = false
is_true (single (text s)) = not (is_blank s)
is_true (single (number n)) = not (eqℤ n (pos 0))
is_true (sequence vs) = not (is_empty vs)

abbrev pub is_null : Value → Bool
is_null null = true
is_null (text s) = false
is_null (number n) = false

-- val[0] <= column <= val[1]
abbrev pub in_between : Value → Operand → Option Bool
in_between column (sequence (low ∷ high ∷ [])) = do
  above ← value_le low column
  if above then value_le column high else some false
in_between column _ = some false

module _ (show : Operand → String) (holds endswith : (part s : String) → Bool) where
  -- The operators of matches_condition; `holds` is `part in s`
  unfoldable pub apply_operator : FilterOperator → Value → Operand → Option Bool
  unfolding startswith
  apply_operator eq column val = some (operand_eq column val)
  apply_operator ne column val = some (not (operand_eq column val))
  apply_operator gt column val = ordered (λ c v. value_lt v c) column val
  apply_operator gte column val = ordered (λ c v. value_le v c) column val
  apply_operator lt column val = ordered value_lt column val
  apply_operator lte column val = ordered value_le column val
  apply_operator contains column (single (text part)) = some (holds part (show (single column)))
  apply_operator contains column _ = none
  apply_operator starts_with column val = some (startswith (show (single column)) (show val))
  apply_operator ends_with column val = some (endswith (show val) (show (single column)))
  apply_operator between column val = in_between column val
  apply_operator is_in column (sequence vs) = some (one_of column vs)
  apply_operator is_in column (single v) = some false
  apply_operator not_in column (sequence vs) = some (not (one_of column vs))
  apply_operator not_in column (single v) = some false
  apply_operator exists column val =
      some (if is_true val then not (is_null column) else is_null column)

  -- matches_condition
  unfoldable pub matches_condition : Row → FilterCondition → Option Bool
  unfolding apply_operator get
  matches_condition row condition = elim (get row condition.field) [
    | none ↦ some false
    | some column ↦ apply_operator condition.operator column condition.operand
  ]

  -- [r for r in out if matches_condition(r, cond)]
  unfoldable pub matching : FilterCondition → List Row → Option (List Row)
  unfolding matches_condition
  matching condition [] = some []
  matching condition (row ∷ rows) = do
    matched ← matches_condition row condition
    rest ← matching condition rows
    some (if matched then row ∷ rest else rest)

  -- The loop over the filters
  unfoldable pub matching_all : List FilterCondition → List Row → Option (List Row)
  unfolding matching
  matching_all [] rows = some rows
  matching_all (condition ∷ conditions) rows = do
    rows' ← matching condition rows
    matching_all conditions rows'

-- row.get(field)
unfoldable pub column_of : String → Row → Value
unfolding get
column_of field row = elim (get row field) [ none ↦ null | some v ↦ v ]

abbrev pub has_text : String → List Row → Bool
has_text field [] = false
has_text field (row ∷ rows) = elim (column_of field row) [ text s ↦ true | _ ↦ has_text field rows ]

abbrev pub has_number : String → List Row → Bool
has_number field [] = false
has_number field (row ∷ rows) = elim (column_of field row) [
  | number n ↦ true
  | _ ↦ has_number field rows
]

-- sort_key(a) < sort_key(b), of columns without both texts and numbers: None comes last
abbrev pub key_lt : Value → Value → Bool
key_lt null b = false
key_lt (text a) null = true
key_lt (number a) null = true
key_lt (text a) (text b) = str_lt a b
key_lt (number a) (number b) = ltℤ a b
key_lt (text a) (number b) = false
key_lt (number a) (text b) = false

abbrev pub row_before : SortSpec → Row → Row → Bool
row_before spec a b =
    let x = column_of spec.sort_field a in
    let y = column_of spec.sort_field b in
    elim spec.direction [ asc ↦ key_lt x y | desc ↦ key_lt y x ]

-- out.sort, whose comparisons raise TypeError if a column holds both texts and numbers
unfoldable pub sort_rows : SortSpec → List Row → Option (List Row)
unfolding column_of sort_stable
sort_rows spec rows =
    if has_text spec.sort_field rows && has_number spec.sort_field rows
    then none
    else some (sort_stable (row_before spec) rows)

-- The loop over the sorts
unfoldable pub sort_all : List SortSpec → List Row → Option (List Row)
unfolding sort_rows
sort_all [] rows = some rows
sort_all (spec ∷ specs) rows = do rows' ← sort_rows spec rows; sort_all specs rows'

-- The tenant of the repository's context, or else of the current one
abbrev pub tenant_of : Option RepositoryContext → RepositoryContext → Option String
tenant_of none current = current.tenant_id
tenant_of (some context) current =
    if is_some context.tenant_id then context.tenant_id else current.tenant_id

abbrev pub actor_of : Option RepositoryContext → RepositoryContext → Option String
actor_of none current = current.actor_id
actor_of (some context) current =
    if is_some context.actor_id then context.actor_id else current.actor_id

-- row_in_tenant_scope, for the tenant that tenant_of gives
unfoldable pub row_in_tenant_scope : Row → (tenant : Option String) → Bool
unfolding get
row_in_tenant_scope row none = true
row_in_tenant_scope row (some tenant) = elim (get row "tenant_id") [
  | none ↦ true
  | some v ↦ value_eq v (text tenant)
]

abbrev pub put_missing : Row → String → Value → Row
put_missing row field v = if is_some (get row field) then row else put row field v

abbrev pub put_tenant : Option String → Row → Row
put_tenant none row = row
put_tenant (some tenant) row = put_missing row "tenant_id" (text tenant)

abbrev pub put_actor : Option String → (is_create : Bool) → Row → Row
put_actor none is_create row = row
put_actor (some actor) is_create row =
    put (if is_create then put_missing row "created_by" (text actor) else row) "updated_by"
      (text actor)

-- apply_write_context
unfoldable pub apply_write_context : Row → (tenant actor : Option String) → (is_create : Bool) → Row
unfolding get put
apply_write_context values tenant actor is_create =
    put_actor actor is_create (put_tenant tenant values)

-- resolve_offset_from_spec. A cursor of digits is one of at most 4300 ASCII digits: `isdigit` also takes
-- those of other scripts, and `int` raises ValueError for more.
unfoldable pub resolve_offset_from_spec : PaginationSpec → ℕ
unfolding read_decimal
resolve_offset_from_spec p = elim p.mode [
  | by_cursor ↦ elim p.cursor [
    | none ↦ p.offset
    | some cursor ↦ elim (read_decimal cursor) [ none ↦ p.offset | some n ↦ n ]
  ]
  | by_offset ↦ p.offset
  | by_keyset ↦ p.offset
]

-- slice_page
unfoldable pub slice_page : List Row → PaginationSpec → List Row
unfolding resolve_offset_from_spec
slice_page rows p = take p.page_size (drop (resolve_offset_from_spec p) rows)
