-- ===== src/Repositories/Isolation.antt =====
-- What a tenant's calls do to the rows of others.
use eitoh_forge.Prelude.{
  ◌≡◌, ◌≢◌, refl, sym, ap, subst, ◌∙◌, String, Bool, false, Option, none, some, List, [], ◌∷◌,
  arith, eq_iff, inl, inr, Option-cases,
}
use eitoh_forge.Prelude.Dict.{Dict, get, get-put_other, get-remove}
use eitoh_forge.Repositories.{text, Row, Operand, RepositoryContext, tenant_of, row_in_tenant_scope}
use eitoh_forge.Repositories.Memory.{visible, update_entity, delete_entity}

-- The row of another tenant is out of scope.
out_of_scope :
    (row : Row) (tenant owner : String)
    → get row "tenant_id" ≡ some (text owner)
    → owner ≢ tenant
    → row_in_tenant_scope row (some tenant) ≡ false
unfolding row_in_tenant_scope
out_of_scope row tenant owner e n =
    rw (row_in_tenant_scope, e) (ground (arith, eq_iff owner tenant, n))

-- A change of a row by its id.
pub data RowChange : Type 0 where
  updating : (entity_id : String) → Row → RowChange
  deleting : (entity_id : String) → RowChange

module _ (show : Operand → String) (holds endswith : (part s : String) → Bool) (id_field : String)
    (current : RepositoryContext) where
  unfoldable pub change_row : Option RepositoryContext → RowChange → Dict Row → Dict Row
  unfolding update_entity delete_entity
  change_row context (updating entity_id payload) rows =
      (update_entity show holds endswith id_field current rows entity_id payload context).1
  change_row context (deleting entity_id) rows =
      (delete_entity show holds endswith id_field current rows entity_id context).1

  unfoldable pub change_rows : Option RepositoryContext → List RowChange → Dict Row → Dict Row
  unfolding change_row
  change_rows context [] rows = rows
  change_rows context (change ∷ changes) rows =
      change_rows context changes (change_row context change rows)

  invisible :
      (rows : Dict Row) (context : Option RepositoryContext) (id tenant owner : String) (row : Row)
      → tenant_of context current ≡ some tenant
      → get rows id ≡ some row
      → get row "tenant_id" ≡ some (text owner)
      → owner ≢ tenant
      → visible show holds endswith id_field current rows id context ≡ none
  unfolding visible
  invisible rows context id tenant owner row t e o n =
      rw (visible, e, t, out_of_scope row tenant owner o n) refl

  elsewhere :
      (rows : Dict Row) (context : Option RepositoryContext) (j id tenant owner : String)
      (row seen : Row)
      → tenant_of context current ≡ some tenant
      → get rows id ≡ some row
      → get row "tenant_id" ≡ some (text owner)
      → owner ≢ tenant
      → visible show holds endswith id_field current rows j context ≡ some seen
      → id ≢ j
  elsewhere rows context j id tenant owner row seen t e o n v same =
      let h = invisible rows context id tenant owner row t e o n in
      let v' =
        subst (λ k. visible show holds endswith id_field current rows k context ≡ some seen)
          (sym same) v in
      absurd (ground (arith, h, v'))

  update_unseen :
      (rows : Dict Row) (j : String) (payload : Row) (context : Option RepositoryContext)
      → visible show holds endswith id_field current rows j context ≡ none
      → (update_entity show holds endswith id_field current rows j payload context).1 ≡ rows
  unfolding update_entity
  update_unseen rows j payload context v = rw (update_entity, v) refl

  delete_unseen :
      (rows : Dict Row) (j : String) (context : Option RepositoryContext)
      → visible show holds endswith id_field current rows j context ≡ none
      → (delete_entity show holds endswith id_field current rows j context).1 ≡ rows
  unfolding delete_entity
  delete_unseen rows j context v = rw (delete_entity, v) refl

  update-get_other :
      (rows : Dict Row) (j id : String) (payload seen : Row) (context : Option RepositoryContext)
      → visible show holds endswith id_field current rows j context ≡ some seen
      → id ≢ j
      → get (update_entity show holds endswith id_field current rows j payload context).1 id
        ≡ get rows id
  unfolding update_entity
  update-get_other rows j id payload seen context v n =
      rw (update_entity, v) (get-put_other rows j id _ n)

  delete-get_other :
      (rows : Dict Row) (j id : String) (seen : Row) (context : Option RepositoryContext)
      → visible show holds endswith id_field current rows j context ≡ some seen
      → id ≢ j
      → get (delete_entity show holds endswith id_field current rows j context).1 id ≡ get rows id
  unfolding delete_entity
  delete-get_other rows j id seen context v n =
      rw (delete_entity, v) (ground (arith, get-remove rows j id, eq_iff j id, n))

  change_row-get :
      (context : Option RepositoryContext) (change : RowChange) (rows : Dict Row)
      (id tenant owner : String) (row : Row)
      → tenant_of context current ≡ some tenant
      → get rows id ≡ some row
      → get row "tenant_id" ≡ some (text owner)
      → owner ≢ tenant
      → get (change_row context change rows) id ≡ some row
  unfolding change_row
  change_row-get context (updating j payload) rows id tenant owner row t e o n =
      elim (Option-cases (visible show holds endswith id_field current rows j context)) [
        | inl v ↦ ap (λ d. get d id) (update_unseen rows j payload context v) ∙ e
        | inr (seen, v) ↦
            update-get_other rows j id payload seen context v
              (elsewhere rows context j id tenant owner row seen t e o n v)
            ∙ e
      ]
  change_row-get context (deleting j) rows id tenant owner row t e o n =
      elim (Option-cases (visible show holds endswith id_field current rows j context)) [
        | inl v ↦ ap (λ d. get d id) (delete_unseen rows j context v) ∙ e
        | inr (seen, v) ↦
            delete-get_other rows j id seen context v
              (elsewhere rows context j id tenant owner row seen t e o n v)
            ∙ e
      ]

  -- No sequence of updates and deletions in the scope of a tenant changes a row whose tenant_id is
  -- another tenant's.
  pub change_rows-get :
      (context : Option RepositoryContext) (changes : List RowChange) (rows : Dict Row)
      (id tenant owner : String) (row : Row)
      → tenant_of context current ≡ some tenant
      → get rows id ≡ some row
      → get row "tenant_id" ≡ some (text owner)
      → owner ≢ tenant
      → get (change_rows context changes rows) id ≡ some row
  unfolding change_rows
  change_rows-get context [] rows id tenant owner row t e o n = e
  change_rows-get context (change ∷ changes) rows id tenant owner row t e o n =
      change_rows-get context changes (change_row context change rows) id tenant owner row t
        (change_row-get context change rows id tenant owner row t e o n) o n
