-- ===== src/Repositories/Memory.antt =====
-- src/eitohforge_sdk/infrastructure/repositories/memory_repository.py with
-- domain/repositories/query_coalesce.py: the dict-backed repository. Payloads are rows (what
-- `create_to_values` and `update_to_values` give), and so are the entities (what `to_entity` is
-- given). The ids of uuid4 are arguments, and so is the current tenant context. Specifications are the
-- lists of their filters.
use eitoh_forge.Prelude.{
  ℕ, ◌+◌, String, Bool, true, false, ◌||◌, Option, none, some, List, [], ◌∷◌, ◌++◌, if◌then◌else◌,
  ltb, is_some, length,
}
use eitoh_forge.Prelude.Dict.{Dict, get, put, remove}
use eitoh_forge.Prelude.Decimal.{decimal}
use eitoh_forge.Prelude.Results.{Result, ok, err, ◌>>=◌}
use eitoh_forge.Repositories.{
  text, Row, Operand, single, FilterCondition, SortSpec, PaginationSpec, by_offset, QuerySpec,
  RepositoryContext, matching_all, sort_all, tenant_of, actor_of, row_in_tenant_scope,
  apply_write_context, resolve_offset_from_spec, slice_page, is_null, column_of,
}

pub data RepositoryError : Type 0 where
  query_and_criteria sort_and_sorts incomparable : RepositoryError

pub data FilterItem : Type 0 where
  condition : FilterCondition → FilterItem
  specification : List FilterCondition → FilterItem

-- The arguments of list and paginate
pub record Criteria : Type 0 where
  pub query : Option QuerySpec
  pub given_filters : Option (List FilterItem)
  pub given_sort : Option SortSpec
  pub given_sorts : Option (List SortSpec)
  pub given_pagination : Option PaginationSpec

pub record PageResult : Type 0 where
  pub items : List Row
  pub total : ℕ
  pub result_page_size : ℕ
  pub next_cursor : Option String

-- expand_filter_items
unfoldable pub expand_filter_items : List FilterItem → List FilterCondition
expand_filter_items [] = []
expand_filter_items (condition c ∷ items) = c ∷ expand_filter_items items
expand_filter_items (specification cs ∷ items) = cs ++ expand_filter_items items

-- _merge_sorts
abbrev pub merge_sorts :
    Option SortSpec → Option (List SortSpec) → Result RepositoryError (List SortSpec)
merge_sorts (some sort) (some sorts) = err sort_and_sorts
merge_sorts (some sort) none = ok (sort ∷ [])
merge_sorts none (some sorts) = ok sorts
merge_sorts none none = ok []

abbrev pub value_or {ℓ} : {A : Type ℓ} → A → Option A → A
value_or a none = a
value_or a (some b) = b

-- PaginationSpec()
abbrev pub default_pagination : PaginationSpec
default_pagination = record { page_size = 50; offset = 0; cursor = none; mode = by_offset }

-- coalesce_query_spec
unfoldable pub coalesce_query_spec : Criteria → Result RepositoryError QuerySpec
unfolding expand_filter_items
coalesce_query_spec c =
    let has_kw =
      is_some c.given_filters
      || is_some c.given_sort
      || is_some c.given_sorts
      || is_some c.given_pagination in
    elim c.query [
      | some query ↦ if has_kw then err query_and_criteria else ok query
      | none ↦ do
        sorts ← merge_sorts c.given_sort c.given_sorts
        ok (record {
          filters = expand_filter_items (value_or [] c.given_filters);
          sorts = sorts;
          pagination = value_or default_pagination c.given_pagination;
        })
    ]

abbrev pub comparable {ℓ} : {A : Type ℓ} → Option A → Result RepositoryError A
comparable none = err incomparable
comparable (some a) = ok a

abbrev pub scoped_rows : Dict Row → (tenant : Option String) → List Row
scoped_rows [] tenant = []
scoped_rows ((entity_id, row) ∷ rows) tenant =
    let rest = scoped_rows rows tenant in
    if row_in_tenant_scope row tenant then row ∷ rest else rest

module _ (show : Operand → String) (holds endswith : (part s : String) → Bool) (id_field : String)
    (current : RepositoryContext) where
  -- InMemoryRepository.create
  unfoldable pub create_entity :
      Dict Row → Row → Option RepositoryContext → (new_id : String) → Row × Dict Row
  unfolding apply_write_context put get column_of
  create_entity rows payload context new_id =
      let values =
        apply_write_context payload (tenant_of context current) (actor_of context current) true in
      let values' =
        if is_null (column_of id_field values) then put values id_field (text new_id) else values in
      let entity_id = show (single (column_of id_field values')) in
      (values', put rows entity_id values')

  -- The row of an id, if the caller may see it
  unfoldable pub visible : Dict Row → (entity_id : String) → Option RepositoryContext → Option Row
  unfolding get row_in_tenant_scope
  visible rows entity_id context = elim (get rows entity_id) [
    | none ↦ none
    | some row ↦ if row_in_tenant_scope row (tenant_of context current) then some row else none
  ]

  -- InMemoryRepository.get
  abbrev pub get_entity : Dict Row → (entity_id : String) → Option RepositoryContext → Option Row
  get_entity = visible

  -- {**row, **patch}
  unfoldable pub merged : Row → (patch : Row) → Row
  unfolding put
  merged row [] = row
  merged row ((field, v) ∷ patch) = merged (put row field v) patch

  -- InMemoryRepository.update
  unfoldable pub update_entity :
      Dict Row → (entity_id : String) → Row → Option RepositoryContext → Option Row × Dict Row
  unfolding visible merged apply_write_context put
  update_entity rows entity_id payload context = elim (visible rows entity_id context) [
    | none ↦ (none, rows)
    | some row ↦
        let patch =
          apply_write_context payload (tenant_of context current) (actor_of context current)
            false in
        let row' = merged row patch in (some row', put rows entity_id row')
  ]

  -- InMemoryRepository.delete
  unfoldable pub delete_entity :
      Dict Row → (entity_id : String) → Option RepositoryContext → Bool × Dict Row
  unfolding visible remove
  delete_entity rows entity_id context = elim (visible rows entity_id context) [
    | none ↦ (false, rows)
    | some row ↦ (true, remove rows entity_id)
  ]

  -- filtered_rows
  unfoldable pub filtered_rows :
      Dict Row → QuerySpec → Option RepositoryContext → Result RepositoryError (List Row)
  unfolding matching_all sort_all row_in_tenant_scope
  filtered_rows rows query context = do
    matched ← comparable (
        matching_all show holds endswith query.filters
          (scoped_rows rows (tenant_of context current)))
    comparable (sort_all query.sorts matched)

  -- InMemoryRepository.list
  unfoldable pub list_entities :
      Dict Row → Criteria → Option RepositoryContext → Result RepositoryError (List Row)
  unfolding coalesce_query_spec filtered_rows slice_page
  list_entities rows criteria context = do
    resolved ← coalesce_query_spec criteria
    found ← filtered_rows rows resolved context
    ok (slice_page found resolved.pagination)

  -- The page of the rows that were found
  unfoldable pub page_of : List Row → PaginationSpec → PageResult
  unfolding slice_page resolve_offset_from_spec decimal
  page_of found p =
      let next_offset = resolve_offset_from_spec p + p.page_size in
      record {
        items = slice_page found p;
        total = length found;
        result_page_size = p.page_size;
        next_cursor = if ltb next_offset (length found) then some (decimal next_offset) else none;
      }

  -- InMemoryRepository.paginate
  unfoldable pub paginate :
      Dict Row → Criteria → Option RepositoryContext → Result RepositoryError PageResult
  unfolding coalesce_query_spec filtered_rows page_of
  paginate rows criteria context = do
    resolved ← coalesce_query_spec criteria
    found ← filtered_rows rows resolved context
    ok (page_of found resolved.pagination)

  -- InMemoryRepository.bulk_create, of payloads with the ids that uuid4 would give
  unfoldable pub bulk_create :
      Dict Row → List (Row × String) → Option RepositoryContext → List Row × Dict Row
  unfolding create_entity
  bulk_create rows [] context = ([], rows)
  bulk_create rows ((payload, new_id) ∷ payloads) context =
      let (entity, rows') = create_entity rows payload context new_id in
      let (entities, rows'') = bulk_create rows' payloads context in (entity ∷ entities, rows'')
