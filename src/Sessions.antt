-- ===== src/Sessions.antt =====
-- src/eitohforge_sdk/core/auth/session.py: the in-memory session store and the session manager over
-- it. Times are microseconds since the epoch; the clock and uuid4 are arguments. A set of ids is a
-- list without repetitions, in an order that nothing here depends on.
pub mod Revoke
pub mod Index
pub mod Keeps
pub mod Reached
mod Tests
use eitoh_forge.Prelude.{
  ℕ, ◌+◌, String, str_eq, Bool, true, false, not, ◌&&◌, Option, none, some, is_some, List, [], ◌∷◌,
  ◌++◌, if◌then◌else◌, leb, ltb,
}
use eitoh_forge.Prelude.Dict.{Dict, get, put}
use eitoh_forge.Prelude.Results.{Result, ok, err}

-- SessionNotFoundError, SessionRevokedError, SessionExpiredError
pub data SessionError : Type 0 where
  not_found revoked expired : SessionError

pub record SessionRecord : Type 0 where
  pub session_id : String
  pub subject : String
  pub tenant_id : Option String
  pub created_at : ℕ
  pub expires_at : ℕ
  pub metadata : Dict String
  pub revoked_at : Option ℕ

-- SessionRecord.is_active
unfoldable pub is_active : SessionRecord → ℕ → Bool
is_active r now = not (is_some r.revoked_at) && ltb now r.expires_at

pub record InMemorySessionStore : Type 0 where
  pub records : Dict SessionRecord
  pub subject_index : Dict (List String)

abbrev pub mem_id : String → List String → Bool
mem_id id [] = false
mem_id id (j ∷ ids) = if str_eq j id then true else mem_id id ids

-- set.add
unfoldable pub add_id : List String → String → List String
add_id ids id = if mem_id id ids then ids else ids ++ id ∷ []

-- self._subject_index.get(subject, set())
unfoldable pub index_of : InMemorySessionStore → String → List String
index_of s subject = elim (get s.subject_index subject) [ none ↦ [] | some ids ↦ ids ]

-- InMemorySessionStore.put
unfoldable pub put_session : InMemorySessionStore → SessionRecord → InMemorySessionStore
unfolding add_id index_of
put_session s r = record {
  records = put s.records r.session_id r;
  subject_index = put s.subject_index r.subject (add_id (index_of s r.subject) r.session_id);
}

-- InMemorySessionStore.get, SessionManager.get_session
unfoldable pub get_session : InMemorySessionStore → String → Option SessionRecord
get_session s session_id = get s.records session_id

-- The record of a session after a revocation.
unfoldable pub revoked_record : ℕ → SessionRecord → SessionRecord
revoked_record now r = if is_some r.revoked_at then r else record r { revoked_at = some now }

-- InMemorySessionStore.revoke, SessionManager.revoke_session
unfoldable pub revoke_session : InMemorySessionStore → String → ℕ → Bool × InMemorySessionStore
unfolding revoked_record
revoke_session s session_id now = elim (get s.records session_id) [
  | none ↦ (false, s)
  | some r ↦ (true, record s { records = put s.records session_id (revoked_record now r) })
]

-- The records of ids, where there are any.
unfoldable pub listed : Dict SessionRecord → List String → List SessionRecord
listed d [] = []
listed d (id ∷ ids) = let rest = listed d ids in elim (get d id) [ none ↦ rest | some r ↦ r ∷ rest ]

-- InMemorySessionStore.list_by_subject
unfoldable pub list_by_subject : InMemorySessionStore → String → List SessionRecord
unfolding listed index_of
list_by_subject s subject = listed s.records (index_of s subject)

-- SessionManager.create_session; `ttl or default_ttl` takes the default for a ttl of zero too.
unfoldable pub create_session :
    InMemorySessionStore
    → (default_ttl now : ℕ) (id subject : String) (tenant_id : Option String) (ttl : Option ℕ)
      (metadata : Dict String)
    → SessionRecord × InMemorySessionStore
unfolding put_session
create_session s default_ttl now id subject tenant_id ttl metadata =
    let lifetime : ℕ = elim ttl [
      | none ↦ default_ttl
      | some t ↦ if leb t 0 then default_ttl else t
    ] in
    let r : SessionRecord = record {
      session_id = id;
      subject = subject;
      tenant_id = tenant_id;
      created_at = now;
      expires_at = now + lifetime;
      metadata = metadata;
      revoked_at = none;
    } in
    (r, put_session s r)

-- What validate_session does with the record.
unfoldable pub validate_record : Option SessionRecord → ℕ → Result SessionError SessionRecord
validate_record none now = err not_found
validate_record (some r) now =
    if is_some r.revoked_at then err revoked else if leb r.expires_at now then err expired else ok r

-- SessionManager.validate_session
unfoldable pub validate_session :
    InMemorySessionStore → String → ℕ → Result SessionError SessionRecord
unfolding validate_record
validate_session s session_id now = validate_record (get s.records session_id) now

-- The loop of revoke_all_sessions
unfoldable pub revoke_each :
    InMemorySessionStore → List SessionRecord → ℕ → ℕ × InMemorySessionStore
unfolding revoke_session
revoke_each s [] now = (0, s)
revoke_each s (r ∷ rs) now =
    let (found, s') = revoke_session s r.session_id now in
    let (count, s'') = revoke_each s' rs now in ((if found then 1 else 0) + count, s'')

-- SessionManager.revoke_all_sessions
unfoldable pub revoke_all_sessions : InMemorySessionStore → String → ℕ → ℕ × InMemorySessionStore
unfolding revoke_each list_by_subject
revoke_all_sessions s subject now = revoke_each s (list_by_subject s subject) now
