-- ===== src/Sessions/Revoke.antt =====
-- What revocations leave of the records.
use eitoh_forge.Prelude.{
  ℕ, ◌≡◌, refl, ap, ◌∙◌, String, str_eq, eq_iff, Bool, true, false, Option, none, some, List, [],
  ◌∷◌, if◌then◌else◌, arith, inl, inr, Bool-cases, Option-cases,
}
use eitoh_forge.Prelude.Dict.{get, get-put}
use eitoh_forge.Sessions.{
  SessionRecord, InMemorySessionStore, revoked_record, revoke_session, revoke_each,
}

revoked_once :
    (now : ℕ) (r : SessionRecord) → revoked_record now (revoked_record now r) ≡ revoked_record now r
unfolding revoked_record
revoked_once now r = elim (Option-cases r.revoked_at) [ inl e ↦ rw e refl | inr (t, e) ↦ rw e refl ]

abbrev pub revoked_found : ℕ → Option SessionRecord → Option SessionRecord
revoked_found now none = none
revoked_found now (some r) = some (revoked_record now r)

revoked_found_once :
    (now : ℕ) (o : Option SessionRecord)
    → revoked_found now (revoked_found now o) ≡ revoked_found now o
revoked_found_once now none = refl
revoked_found_once now (some r) = ap some (revoked_once now r)

-- Whether a list has a record with the id.
abbrev pub has_id : String → List SessionRecord → Bool
has_id id [] = false
has_id id (r ∷ rs) = if str_eq r.session_id id then true else has_id id rs

pub get-revoke :
    (s : InMemorySessionStore) (j id : String) (now : ℕ)
    → get (revoke_session s j now).1.records id
      ≡ (if str_eq j id then revoked_found now (get s.records id) else get s.records id)
unfolding revoke_session
get-revoke s j id now = elim (Option-cases (get s.records j)) [
  | inl e ↦ rw (e, revoke_session) (ground (arith, eq_iff j id, e))
  | inr (r, e) ↦
      rw (e, revoke_session)
        (get-put s.records j id (revoked_record now r) ∙ ground (arith, eq_iff j id, e))
]

pub get-revoke_each :
    (s : InMemorySessionStore) (rs : List SessionRecord) (id : String) (now : ℕ)
    → get (revoke_each s rs now).1.records id
      ≡ (if has_id id rs then revoked_found now (get s.records id) else get s.records id)
unfolding revoke_each
get-revoke_each s [] id now = refl
get-revoke_each s (r ∷ rs) id now =
    let s' = (revoke_session s r.session_id now).1 in
    get-revoke_each s' rs id now ∙ elim (Bool-cases (str_eq r.session_id id)) [
      | inl e ↦ elim (Bool-cases (has_id id rs)) [
        | inl f ↦
            rw (get-revoke s r.session_id id now, e, f) (revoked_found_once now (get s.records id))
        | inr f ↦ rw (get-revoke s r.session_id id now, e, f) refl
      ]
      | inr e ↦ rw (get-revoke s r.session_id id now, e) refl
    ]
