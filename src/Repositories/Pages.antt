-- ===== src/Repositories/Pages.antt =====
-- Following the cursors of a query gives all its rows.
use eitoh_forge.Prelude.{
  ℕ, zero, suc, ◌+◌, ◌-◌, ◌≤◌, ◌<◌, ◌≡◌, refl, sym, ap, ◌∙◌, String, Bool, Option, none, some, List,
  [], ◌∷◌, ◌++◌, if◌then◌else◌, ltb, take, drop, length, arith, inl, inr, Bool-cases,
}
use eitoh_forge.Prelude.Dict.{Dict}
use eitoh_forge.Prelude.Decimal.{decimal, read-decimal}
use eitoh_forge.Prelude.Results.{Result, ok, ◌>>=◌}
use eitoh_forge.Repositories.{
  Row, Operand, PaginationSpec, by_cursor, QuerySpec, RepositoryContext, resolve_offset_from_spec,
  slice_page,
}
use eitoh_forge.Repositories.Memory.{
  RepositoryError, Criteria, PageResult, coalesce_query_spec, filtered_rows, page_of, paginate,
}

take-drop : (n : ℕ) (rows : List Row) → take n rows ++ drop n rows ≡ rows
take-drop zero rows = refl
take-drop (suc n) [] = refl
take-drop (suc n) (row ∷ rows) = ap (λ l. row ∷ l) (take-drop n rows)

take_all : (n : ℕ) (rows : List Row) → length rows ≤ n → take n rows ≡ rows
take_all zero [] h = refl
take_all zero (row ∷ rows) h = absurd (omega (arith, h))
take_all (suc n) [] h = refl
take_all (suc n) (row ∷ rows) h = ap (λ l. row ∷ l) (take_all n rows (omega (arith, h)))

drop_all : (n : ℕ) (rows : List Row) → length rows ≤ n → drop n rows ≡ []
drop_all zero [] h = refl
drop_all zero (row ∷ rows) h = absurd (omega (arith, h))
drop_all (suc n) [] h = refl
drop_all (suc n) (row ∷ rows) h = drop_all n rows (omega (arith, h))

length-drop : (n : ℕ) (rows : List Row) → length (drop n rows) ≡ length rows - n
length-drop zero rows = omega arith
length-drop (suc n) [] = omega arith
length-drop (suc n) (row ∷ rows) = length-drop n rows ∙ omega arith

drop-nil : (n : ℕ) → drop {A = Row} n [] ≡ []
drop-nil zero = refl
drop-nil (suc n) = refl

drop-drop : (n m : ℕ) (rows : List Row) → drop m (drop n rows) ≡ drop (n + m) rows
drop-drop zero m rows = ap (λ k. drop k rows) (omega arith)
drop-drop (suc n) m [] = drop-nil m ∙ sym (drop-nil (suc n + m))
drop-drop (suc n) m (row ∷ rows) =
    let next : suc n + m ≡ suc (n + m) = omega arith in
    drop-drop n m rows ∙ ap (λ k. drop k (row ∷ rows)) (sym next)

take-rest : (k p : ℕ) (rows : List Row) → take p (drop k rows) ++ drop (k + p) rows ≡ drop k rows
take-rest k p rows =
    ap (λ l. take p (drop k rows) ++ l) (sym (drop-drop k p rows)) ∙ take-drop p (drop k rows)

-- A page's items, with those of the pages from its next cursor on
abbrev pub gather :
    PageResult
    → (Option String → Result RepositoryError (List Row))
    → Result RepositoryError (List Row)
gather page next_pages = elim page.next_cursor [
  | none ↦ ok page.items
  | some cursor ↦ next_pages (some cursor) >>= λ rest. ok (page.items ++ rest)
]

gather_last :
    (page : PageResult) (f : Option String → Result RepositoryError (List Row))
    → page.next_cursor ≡ none
    → gather page f ≡ ok page.items
gather_last page f e = rw e refl

gather_more :
    (page : PageResult) (f : Option String → Result RepositoryError (List Row)) (cursor : String)
    (rest : List Row)
    → page.next_cursor ≡ some cursor
    → f (some cursor) ≡ ok rest
    → gather page f ≡ ok (page.items ++ rest)
gather_more page f cursor rest e h = rw (e, h) refl

module _ (show : Operand → String) (holds endswith : (part s : String) → Bool) (id_field : String)
    (current : RepositoryContext) where
  -- The page at a cursor
  abbrev pub cursor_spec : (page_size : ℕ) → (cursor : Option String) → PaginationSpec
  cursor_spec page_size cursor = record {
    page_size = page_size;
    offset = 0;
    cursor = cursor;
    mode = by_cursor;
  }

  abbrev pub with_pagination : QuerySpec → PaginationSpec → Criteria
  with_pagination query p = record {
    query = some (record query { pagination = p });
    given_filters = none;
    given_sort = none;
    given_sorts = none;
    given_pagination = none;
  }

  -- The items of the pages from a cursor on, for a number of pages at most
  unfoldable pub follow_cursors :
      Dict Row
      → QuerySpec
      → Option RepositoryContext
      → (page_size pages : ℕ) → Option String
      → Result RepositoryError (List Row)
  unfolding paginate
  follow_cursors rows query context page_size zero cursor = ok []
  follow_cursors rows query context page_size (suc pages) cursor =
      paginate show holds endswith id_field current rows
        (with_pagination query (cursor_spec page_size cursor)) context
      >>= λ page. gather page (follow_cursors rows query context page_size pages)

  paginate_found :
      (rows : Dict Row) (query : QuerySpec) (context : Option RepositoryContext) (found : List Row)
      (p : PaginationSpec)
      → filtered_rows show holds endswith id_field current rows query context ≡ ok found
      → paginate show holds endswith id_field current rows (with_pagination query p) context
        ≡ ok (page_of show holds endswith id_field current found p)
  unfolding paginate coalesce_query_spec filtered_rows
  paginate_found rows query context found p e = rw e refl

  next_cursor-page_of :
      (found : List Row) (p : PaginationSpec) (k : ℕ)
      → resolve_offset_from_spec p ≡ k
      → (page_of show holds endswith id_field current found p).next_cursor
        ≡ (if ltb (k + p.page_size) (length found) then some (decimal (k + p.page_size)) else none)
  unfolding page_of
  next_cursor-page_of found p k at =
      ap
        (λ n.
          if ltb (n + p.page_size) (length found) then some (decimal (n + p.page_size)) else none)
        at

  items-page_of :
      (found : List Row) (p : PaginationSpec) (k : ℕ)
      → resolve_offset_from_spec p ≡ k
      → (page_of show holds endswith id_field current found p).items
        ≡ take p.page_size (drop k found)
  unfolding page_of slice_page
  items-page_of found p k at = ap (λ n. take p.page_size (drop n found)) at

  resolve-decimal :
      (page_size n : ℕ) → resolve_offset_from_spec (cursor_spec page_size (some (decimal n))) ≡ n
  unfolding resolve_offset_from_spec
  resolve-decimal page_size n = rw (resolve_offset_from_spec, read-decimal n) refl

  follow_from :
      (rows : Dict Row) (query : QuerySpec) (context : Option RepositoryContext) (found : List Row)
      (page_size pages k : ℕ) (cursor : Option String)
      → filtered_rows show holds endswith id_field current rows query context ≡ ok found
      → 0 < page_size
      → resolve_offset_from_spec (cursor_spec page_size cursor) ≡ k
      → length found < k + pages
      → follow_cursors rows query context page_size pages cursor ≡ ok (drop k found)
  unfolding follow_cursors
  follow_from rows query context found page_size zero k cursor e pos at short =
      ap ok (sym (drop_all k found (omega (arith, short))))
  follow_from rows query context found page_size (suc pages) k cursor e pos at short =
      let p = cursor_spec page_size cursor in
      let page = page_of show holds endswith id_field current found p in
      let rest = follow_cursors rows query context page_size pages in
      let next = next_cursor-page_of found p k at in
      let items = items-page_of found p k at in
      rw (paginate_found rows query context found p e)
        (elim (Bool-cases (ltb (k + page_size) (length found))) [
          | inl more ↦
              gather_more page rest (decimal (k + page_size)) (drop (k + page_size) found)
                (ground (arith, next, more))
                (follow_from rows query context found page_size pages (k + page_size)
                  (some (decimal (k + page_size))) e pos (resolve-decimal page_size (k + page_size))
                  (omega (arith, short, pos)))
              ∙ ap ok
                  (ap (λ l. l ++ drop (k + page_size) found) items ∙ take-rest k page_size found)
          | inr last ↦
              gather_last page rest (ground (arith, next, last))
              ∙ ap ok (
                  items
                  ∙ take_all page_size (drop k found) (ground (arith, last, length-drop k found)))
        ])

  -- Following the cursors of a query from its first page on gives exactly the rows that its filters and
  -- sorts find, in their order, if the page size is positive and there are more pages than rows to
  -- follow.
  pub follow_cursors-All :
      (rows : Dict Row) (query : QuerySpec) (context : Option RepositoryContext) (found : List Row)
      (page_size pages : ℕ)
      → filtered_rows show holds endswith id_field current rows query context ≡ ok found
      → 0 < page_size
      → length found < pages
      → follow_cursors rows query context page_size pages none ≡ ok found
  unfolding resolve_offset_from_spec
  follow_cursors-All rows query context found page_size pages e pos enough =
      follow_from rows query context found page_size pages 0 none e pos refl (omega (arith, enough))
