-- ===== src/Sessions/Tests.antt =====
-- A store with two subjects, and the theorem at it.
use eitoh_forge.Prelude.{◌≡◌, refl, none, some, []}
use eitoh_forge.Prelude.Dict.{get, put}
use eitoh_forge.Prelude.Results.{err}
use eitoh_forge.Sessions.{
  SessionRecord, InMemorySessionStore, expired, add_id, index_of, put_session, create_session,
  revoked_record, revoke_session, listed, list_by_subject, revoke_each, revoke_all_sessions,
  validate_record, validate_session,
}

abbrev empty_store : InMemorySessionStore
empty_store = record { records = []; subject_index = [] }

abbrev with_ada : InMemorySessionStore
with_ada = (create_session empty_store 10 0 "s1" "ada" none none []).1

abbrev store : InMemorySessionStore
store = (create_session with_ada 10 1 "s2" "bob" none (some 0) []).1

abbrev ada : SessionRecord
ada = record {
  session_id = "s1";
  subject = "ada";
  tenant_id = none;
  created_at = 0;
  expires_at = 10;
  metadata = [];
  revoked_at = none;
}

counted : (revoke_all_sessions store "ada" 5).0 ≡ 1
unfolding create_session put_session add_id index_of revoke_all_sessions list_by_subject listed
    revoke_each revoke_session revoked_record get put
counted = refl

bob_expires : validate_session (revoke_all_sessions store "ada" 5).1 "s2" 11 ≡ err expired
unfolding validate_session validate_record create_session put_session add_id index_of
    revoke_all_sessions list_by_subject listed revoke_each revoke_session revoked_record get put
bob_expires = refl
