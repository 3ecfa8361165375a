-- ===== src/Sessions/Index.antt =====
-- The index of subjects lists exactly the sessions of the records.
use eitoh_forge.Prelude.{
  ◌≡◌, refl, String, str_eq, eq_iff, true, ◌&&◌, some, is_some, List, [], ◌∷◌, ◌++◌, if◌then◌else◌,
  arith, inl, inr, Option-cases,
}
use eitoh_forge.Prelude.Dict.{Dict, get, get-put}
use eitoh_forge.Sessions.{
  SessionRecord, InMemorySessionStore, mem_id, add_id, index_of, put_session, listed,
}
use eitoh_forge.Sessions.Revoke.{has_id}

-- A record stands under its own id, and its subject's index has it; an index names no
-- other record.
pub record Indexed (s : InMemorySessionStore) : Type 0 where
  pub keyed : (id : String) (r : SessionRecord) → get s.records id ≡ some r → r.session_id ≡ id
  pub complete :
      (id : String) (r : SessionRecord)
      → get s.records id ≡ some r
      → mem_id id (index_of s r.subject) ≡ true
  pub sound :
      (id subject : String)
      → mem_id id (index_of s subject) ≡ true
      → (r : SessionRecord) × (get s.records id ≡ some r) × (r.subject ≡ subject)

-- Exactly the ids that have a record are listed.
pub has_id-listed :
    (d : Dict SessionRecord) (ids : List String) (id : String)
    → ((j : String) (r : SessionRecord) → get d j ≡ some r → r.session_id ≡ j)
    → has_id id (listed d ids) ≡ mem_id id ids && is_some (get d id)
unfolding listed
has_id-listed d [] id keyed = refl
has_id-listed d (j ∷ ids) id keyed =
    let more = has_id-listed d ids id keyed in
    elim (Option-cases (get d j)) [
      | inl e ↦ rw (e, listed) (ground (arith, more, eq_iff j id, e))
      | inr (r, e) ↦
          rw (e, listed) (ground (arith, more, eq_iff j id, eq_iff r.session_id id, keyed j r e, e))
    ]

mem_id-append :
    (id j : String) (ids : List String)
    → mem_id id (ids ++ j ∷ []) ≡ (if mem_id id ids then true else str_eq j id)
mem_id-append id j [] = ground arith
mem_id-append id j (i ∷ ids) = ground (arith, mem_id-append id j ids)

pub mem_id-add_id :
    (id j : String) (ids : List String)
    → mem_id id (add_id ids j) ≡ (if mem_id id ids then true else str_eq j id)
unfolding add_id
mem_id-add_id id j ids = ground (arith, mem_id-append id j ids, eq_iff j id)

pub index_of-put :
    (s : InMemorySessionStore) (r : SessionRecord) (subject : String)
    → index_of (put_session s r) subject ≡ (
        if str_eq r.subject subject
        then add_id (index_of s r.subject) r.session_id
        else index_of s subject)
unfolding index_of put_session
index_of-put s r subject =
    ground (
      arith,
      get-put s.subject_index r.subject subject (add_id (index_of s r.subject) r.session_id),
    )
