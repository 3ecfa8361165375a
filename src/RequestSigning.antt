-- ===== src/RequestSigning.antt =====
-- src/eitohforge_sdk/core/request_signing.py: the middleware that checks signed requests, with its
-- store of nonces. Times are microseconds since the epoch. HMAC-SHA256 and SHA-256 as hex texts,
-- str.upper and the secrets are arguments.
pub mod Nonces
pub mod Passes
pub mod Accepted
pub mod Replay
mod Tests
use eitoh_forge.Prelude.{
  ℕ, ◌+◌, ◌*◌, ◌/◌, String, str_append, Bool, true, false, not, ◌&&◌, Option, none, some, List, [],
  ◌∷◌, map, if◌then◌else◌, leb, ltb, is_some,
}
use eitoh_forge.Prelude.Text.{is_blank, startswith}
use eitoh_forge.Prelude.Int.{ℤ, distance}
use eitoh_forge.Prelude.Dict.{Dict, get, put, remove}
use eitoh_forge.Prelude.Sets.{has}
use eitoh_forge.Prelude.Bytes.{Bytes, utf8, compare_digest}
use eitoh_forge.Prelude.ReadInt.{read_int}

pub record RequestSigningRule : Type 0 where
  pub enabled : Bool
  pub signature_header : String
  pub timestamp_header : String
  pub nonce_header : String
  pub key_id_header : String
  pub allowed_skew_seconds : ℕ
  pub nonce_ttl_seconds : ℕ
  pub methods : List String
  pub scope_path_prefix : Option String

pub record SignaturePayload : Type 0 where
  pub payload_method : String
  pub payload_path : String
  pub timestamp : String
  pub nonce : String
  pub body_sha256_hex : String

-- InMemoryRequestNonceStore: when the record of a nonce expires
abbrev pub NonceStore : Type 0
NonceStore = Dict ℕ

abbrev pub keys_of : NonceStore → List String
keys_of [] = []
keys_of ((k, e) ∷ d) = k ∷ keys_of d

abbrev pub expired : Option ℕ → ℕ → Bool
expired none now = false
expired (some e) now = leb e now

-- The loop of _prune over the keys
unfoldable pub prune_keys : List String → ℕ → NonceStore → NonceStore
unfolding get remove
prune_keys [] now d = d
prune_keys (k ∷ keys) now d = prune_keys keys now (if expired (get d k) now then remove d k else d)

-- InMemoryRequestNonceStore._prune
unfoldable pub prune : ℕ → NonceStore → NonceStore
unfolding prune_keys
prune now d = prune_keys (keys_of d) now d

-- InMemoryRequestNonceStore.mark at the time `now`
unfoldable pub mark : NonceStore → (nonce_key : String) → (expires_at now : ℕ) → Bool × NonceStore
unfolding prune get put
mark d nonce_key expires_at now =
    let d' = prune now d in
    if is_some (get d' nonce_key) then (false, d') else (true, put d' nonce_key expires_at)

abbrev canonical_line : String → String → String
canonical_line s rest = str_append s (str_append "\n" rest)

-- compute_request_signature
unfoldable pub compute_request_signature :
    (hmac : Bytes → Bytes → String) → SignaturePayload → (secret : String) → String
unfolding utf8
compute_request_signature hmac p secret = hmac (utf8 secret) (
    utf8 (
      canonical_line p.payload_method (
        canonical_line p.payload_path
          (canonical_line p.timestamp (canonical_line p.nonce p.body_sha256_hex)))))

-- What the middleware reads of a request.
pub record SignedRequest : Type 0 where
  pub method : String
  pub path : String
  pub header : String → Option String
  pub body : Bytes

pub data SigningError : Type 0 where
  missing_headers invalid_timestamp stale_timestamp replayed_nonce unknown_key : SigningError
  invalid_signature : SigningError

-- What the middleware does: the handler behind it, 401, or the exception of compare_digest.
pub data SigningAnswer : Type 0 where
  call_next : SigningAnswer
  signature_error : SigningError → SigningAnswer
  crashed : SigningAnswer

infixl 5 ◌>>=◌
abbrev pub ◌>>=◌ {ℓ κ} : {A : Type ℓ} {B : Type κ} → Option A → (A → Option B) → Option B
none >>= f = none
some a >>= f = f a

-- A header's text, if it is there and not empty
abbrev pub filled : Option String → Option String
filled none = none
filled (some s) = if is_blank s then none else some s

-- The signature, the timestamp and the nonce, if none of the headers is missing
unfoldable pub signed_headers :
    RequestSigningRule → SignedRequest → Option (String × String × String)
signed_headers rule request = do
  signature ← filled (request.header rule.signature_header)
  timestamp ← filled (request.header rule.timestamp_header)
  nonce ← filled (request.header rule.nonce_header)
  some (signature, timestamp, nonce)

-- key_id or 'default'
abbrev pub key_name : Option String → String
key_name key_id = elim (filled key_id) [ none ↦ "default" | some k ↦ k ]

-- f"{key_id or 'default'}:{nonce}"
unfoldable pub nonce_key_of : Option String → (nonce : String) → String
nonce_key_of key_id nonce = str_append (key_name key_id) (str_append ":" nonce)

module _ (upper : String → String) where
  -- Whether the middleware looks at the request.
  unfoldable pub is_guarded : RequestSigningRule → SignedRequest → Bool
  unfolding has startswith
  is_guarded rule request =
      rule.enabled
      && has (upper request.method) (map upper rule.methods)
      && elim rule.scope_path_prefix [ none ↦ true | some prefix ↦ startswith request.path prefix ]

  module _ (hmac : Bytes → Bytes → String) (sha256 : Bytes → String)
      (resolve_secret : Option String → Option String) where
    abbrev pub compared : Option Bool → SigningAnswer
    compared none = crashed
    compared (some false) = signature_error invalid_signature
    compared (some true) = call_next

    -- The part after the nonce is marked
    unfoldable pub check_signature :
        RequestSigningRule → SignedRequest → (signature timestamp nonce : String) → SigningAnswer
    unfolding compute_request_signature compare_digest
    check_signature rule request signature timestamp nonce =
        elim (filled (resolve_secret (request.header rule.key_id_header))) [
          | none ↦ signature_error unknown_key
          | some secret ↦
              let payload : SignaturePayload = record {
                payload_method = upper request.method;
                payload_path = request.path;
                timestamp = timestamp;
                nonce = nonce;
                body_sha256_hex = sha256 request.body;
              } in
              compared (compare_digest (compute_request_signature hmac payload secret) signature)
        ]

    -- The part after the headers are there. The store's reading of the clock is `mark_now`.
    unfoldable pub check_nonce :
        RequestSigningRule
        → NonceStore
        → SignedRequest
        → (signature timestamp nonce : String) → (now mark_now : ℕ) → SigningAnswer × NonceStore
    unfolding check_signature mark nonce_key_of read_int
    check_nonce rule d request signature timestamp nonce now mark_now =
        let key = nonce_key_of (request.header rule.key_id_header) nonce in
        let (fresh, d') = mark d key (now + rule.nonce_ttl_seconds * 1000000) mark_now in
        elim (read_int timestamp) [
          | none ↦ (signature_error invalid_timestamp, d)
          | some ts ↦
              if ltb rule.allowed_skew_seconds (distance (now / 1000000) ts)
              then (signature_error stale_timestamp, d)
              else if fresh
              then (check_signature rule request signature timestamp nonce, d')
              else (signature_error replayed_nonce, d')
        ]

    -- _request_signing_middleware
    unfoldable pub request_signing_middleware :
        RequestSigningRule
        → NonceStore
        → SignedRequest
        → (now mark_now : ℕ) → SigningAnswer × NonceStore
    unfolding is_guarded signed_headers check_nonce
    request_signing_middleware rule d request now mark_now =
        if is_guarded rule request
        then elim (signed_headers rule request) [
          | none ↦ (signature_error missing_headers, d)
          | some (signature, timestamp, nonce) ↦
              check_nonce rule d request signature timestamp nonce now mark_now
        ]
        else (call_next, d)
