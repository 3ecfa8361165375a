-- ===== src/Sessions/Reached.antt =====
-- What holds of every store that sessions are created and revoked in.
use eitoh_forge.Prelude.{ℕ, ◌≡◌, String, Option, none, []}
use eitoh_forge.Prelude.Dict.{Dict, get}
use eitoh_forge.Sessions.{InMemorySessionStore, revoke_session, create_session, revoke_all_sessions}

-- The stores that a program makes from an empty one, with ids that are not in use.
pub data Reached : InMemorySessionStore → Type 0 where
  start : Reached (record { records = []; subject_index = [] })
  created :
      (s : InMemorySessionStore) (default_ttl now : ℕ) (id subject : String)
      (tenant_id : Option String) (ttl : Option ℕ) (metadata : Dict String)
      → Reached s
      → get s.records id ≡ none
      → Reached (create_session s default_ttl now id subject tenant_id ttl metadata).1
  revoked_one :
      (s : InMemorySessionStore) (id : String) (now : ℕ)
      → Reached s
      → Reached (revoke_session s id now).1
  revoked_all :
      (s : InMemorySessionStore) (subject : String) (now : ℕ)
      → Reached s
      → Reached (revoke_all_sessions s subject now).1
