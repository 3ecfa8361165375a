-- ===== src/Idempotency.antt =====
-- src/eitohforge_sdk/core/idempotency.py: the middleware that replays the stored response of a write
-- request, with its in-memory store. Times are microseconds since the epoch; the readings of the clock
-- are arguments. SHA-256 as a hex text, str.upper and str.lower are arguments. The handler behind the
-- middleware acts on a world of type `W`.
pub mod Replays
mod Tests
use eitoh_forge.Prelude.{
  ℕ, ◌+◌, ◌*◌, String, str_append, str_eq, Bool, true, false, not, ◌&&◌, Option, none, some, List,
  [], ◌∷◌, map, if◌then◌else◌, leb, ltb, length,
}
use eitoh_forge.Prelude.Text.{is_blank, strip}
use eitoh_forge.Prelude.Dict.{Dict, get, put, remove}
use eitoh_forge.Prelude.Sets.{has}
use eitoh_forge.Prelude.Bytes.{Bytes}

pub record IdempotencyRule : Type 0 where
  pub header_name : String
  pub write_methods : List String
  pub ttl_seconds : ℕ
  pub max_body_bytes : ℕ

pub record IdempotencyRecord : Type 0 where
  pub body_hash : String
  pub record_status : ℕ
  pub record_body : Bytes
  pub record_headers : Dict String
  pub record_media_type : Option String
  pub expires_at : ℕ

-- InMemoryIdempotencyStore
abbrev pub IdempotencyStore : Type 0
IdempotencyStore = Dict IdempotencyRecord

-- InMemoryIdempotencyStore.get at the time `now`
unfoldable pub find_record :
    IdempotencyStore → String → (now : ℕ) → Option IdempotencyRecord × IdempotencyStore
unfolding get remove
find_record store key now = elim (get store key) [
  | none ↦ (none, store)
  | some r ↦ if leb r.expires_at now then (none, remove store key) else (some r, store)
]

-- What the middleware reads of a request.
pub record WriteRequest : Type 0 where
  pub method : String
  pub path : String
  pub header : String → Option String
  pub body : Bytes

-- A response whose body has been read
pub record WriteResponse : Type 0 where
  pub status_code : ℕ
  pub response_body : Bytes
  pub response_headers : Dict String
  pub media_type : Option String

-- What the middleware answers: the handler's response, a stored one, or 409.
pub data IdempotencyAnswer : Type 0 where
  handled : WriteResponse → IdempotencyAnswer
  replayed : WriteResponse → IdempotencyAnswer
  key_reused : IdempotencyAnswer

abbrev ignored_headers : List String
ignored_headers = "content-length" ∷ "date" ∷ "server" ∷ "transfer-encoding" ∷ []

module _ (upper lower : String → String) (sha256 : Bytes → String) where
  -- _sanitize_response_headers
  unfoldable pub sanitize_response_headers : Dict String → Dict String
  unfolding has
  sanitize_response_headers [] = []
  sanitize_response_headers ((key, value) ∷ headers) =
      let rest = sanitize_response_headers headers in
      if has (lower key) ignored_headers then rest else (key, value) ∷ rest

  -- _build_store_key
  unfoldable pub build_store_key : WriteRequest → (request_key : String) → String
  unfolding strip
  build_store_key request request_key =
      str_append (upper request.method)
        (str_append ":" (str_append request.path (str_append ":" (strip request_key))))

  -- The key of a write request, if it has one that is not blank
  unfoldable pub key_of_request : IdempotencyRule → WriteRequest → Option String
  unfolding has strip build_store_key
  key_of_request rule request =
      if has (upper request.method) (map upper rule.write_methods)
      then elim (request.header rule.header_name) [
        | none ↦ none
        | some request_key ↦
            if is_blank (strip request_key)
            then none
            else some (build_store_key request request_key)
      ]
      else none

  -- The stored response with its mark
  abbrev pub replay_of : IdempotencyRecord → WriteResponse
  replay_of r = record {
    status_code = r.record_status;
    response_body = r.record_body;
    response_headers = put r.record_headers "X-Idempotent-Replay" "true";
    media_type = r.record_media_type;
  }

  abbrev pub is_stored : IdempotencyRule → WriteResponse → Bool
  is_stored rule response =
      ltb response.status_code 500 && leb (length response.response_body) rule.max_body_bytes

  abbrev pub record_of :
      IdempotencyRule → WriteRequest → WriteResponse → (now : ℕ) → IdempotencyRecord
  record_of rule request response now = record {
    body_hash = sha256 request.body;
    record_status = response.status_code;
    record_body = response.response_body;
    record_headers = sanitize_response_headers response.response_headers;
    record_media_type = response.media_type;
    expires_at = now + rule.ttl_seconds * 1000000;
  }

  module _ {W : Type 0} (call_next : WriteRequest → W → WriteResponse × W) where
    -- _idempotency_middleware; the store reads the clock as `now`, the record's expiry is from
    -- `stored_at`, after the handler
    unfoldable pub idempotency_middleware :
        IdempotencyRule
        → IdempotencyStore
        → WriteRequest
        → (now stored_at : ℕ) → W
        → IdempotencyAnswer × IdempotencyStore × W
    unfolding key_of_request find_record put sanitize_response_headers
    idempotency_middleware rule store request now stored_at w =
        let (response, w') = call_next request w in
        elim (key_of_request rule request) [
          | none ↦ (handled response, store, w')
          | some key ↦
              let (existing, store') = find_record store key now in
              elim existing [
                | some r ↦
                    if str_eq r.body_hash (sha256 request.body)
                    then (replayed (replay_of r), store', w)
                    else (key_reused, store', w)
                | none ↦ (
                  handled response,
                  if is_stored rule response
                      then put store' key (record_of rule request response stored_at)
                      else store',
                  w',
                )
              ]
        ]
