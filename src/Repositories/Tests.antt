-- ===== src/Repositories/Tests.antt =====
-- A repository of two tenants, and the theorems at it.
use eitoh_forge.Prelude.{
  ◌≡◌, ◌≢◌, refl, String, str_eq, Bool, false, none, some, List, [], ◌∷◌, arith, eq_iff,
}
use eitoh_forge.Prelude.Int.{pos}
use eitoh_forge.Prelude.Dict.{Dict, get, put}
use eitoh_forge.Prelude.Results.{ok}
use eitoh_forge.Prelude.Sort.{insert_stable, sort_stable}
use eitoh_forge.Repositories.{
  text, number, Row, Operand, single, QuerySpec, RepositoryContext, gt, asc, by_offset,
  apply_operator, matches_condition, matching, matching_all, column_of, sort_rows, sort_all,
  row_in_tenant_scope, apply_write_context,
}
use eitoh_forge.Repositories.Memory.{Criteria, create_entity, filtered_rows}
use eitoh_forge.Repositories.Isolation.{RowChange, updating, deleting, change_rows, change_rows-get}
use eitoh_forge.Repositories.Pages.{follow_cursors, follow_cursors-All}

-- Python's str of a text, and texts without part or end; the tests compare numbers
abbrev show : Operand → String
show (single (text s)) = s
show _ = ""

abbrev holds : String → String → Bool
holds part s = str_eq part s

abbrev acme : RepositoryContext
acme = record { actor_id = none; tenant_id = some "acme" }

abbrev row_a : Row
row_a = ("id", text "a") ∷ ("tenant_id", text "acme") ∷ ("total", number (pos 5)) ∷ []

abbrev row_b : Row
row_b = ("id", text "b") ∷ ("tenant_id", text "globex") ∷ ("total", number (pos 7)) ∷ []

abbrev row_c : Row
row_c = ("id", text "c") ∷ ("tenant_id", text "acme") ∷ ("total", number (pos 9)) ∷ []

abbrev rows : Dict Row
rows = ("c", row_c) ∷ ("b", row_b) ∷ ("a", row_a) ∷ []

-- total > 1, sorted by total
abbrev query : QuerySpec
query = record {
  filters = record { field = "total"; operator = gt; operand = single (number (pos 1)) } ∷ [];
  sorts = record { sort_field = "total"; direction = asc } ∷ [];
  pagination = record { page_size = 1; offset = 0; cursor = none; mode = by_offset };
}

abbrev criteria : Criteria
criteria = record {
  query = some query;
  given_filters = none;
  given_sort = none;
  given_sorts = none;
  given_pagination = none;
}

found : filtered_rows show holds holds "id" acme rows query none ≡ ok (row_a ∷ row_c ∷ [])
unfolding filtered_rows matching_all matching matches_condition apply_operator row_in_tenant_scope
    sort_all sort_rows sort_stable insert_stable column_of get
found = refl

follow_cursors-All_example :
    follow_cursors show holds holds "id" acme rows query none 1 3 none ≡ ok (row_a ∷ row_c ∷ [])
follow_cursors-All_example =
    follow_cursors-All show holds holds "id" acme rows query none (row_a ∷ row_c ∷ []) 1 3 found
      (omega arith) (omega arith)

abbrev changes : List RowChange
changes = updating "b" (("total", number (pos 0)) ∷ []) ∷ deleting "b" ∷ []

differ : (a b : String) → str_eq a b ≡ false → a ≢ b
differ a b h e = ground (arith, h, e, eq_iff a b)

stored : get rows "b" ≡ some row_b
unfolding get
stored = refl

owned : get row_b "tenant_id" ≡ some (text "globex")
unfolding get
owned = refl

change_rows-get_example :
    get (change_rows show holds holds "id" acme none changes rows) "b" ≡ some row_b
change_rows-get_example =
    change_rows-get show holds holds "id" acme none changes rows "b" "acme" "globex" row_b refl
      stored owned (differ "globex" "acme" refl)

-- A create with the id of another tenant's row replaces that row.
replaced :
    get (create_entity show holds holds "id" acme rows (("id", text "b") ∷ []) none "n").1 "b"
    ≡ some (("id", text "b") ∷ ("tenant_id", text "acme") ∷ [])
unfolding create_entity apply_write_context column_of get put
replaced = refl
