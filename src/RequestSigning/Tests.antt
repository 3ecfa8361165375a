-- ===== src/RequestSigning/Tests.antt =====
-- Signed requests, a replay that the defaults let through, and the theorems at them. The digests are
-- fixed texts.
use eitoh_forge.Prelude.{ℕ, ◌≡◌, ◌≢◌, ◌↔◌, refl, String, true, Option, none, some, [], ◌∷◌, arith}
use eitoh_forge.Prelude.Text.{is_ascii, startswith, strip}
use eitoh_forge.Prelude.Dict.{get, put, remove}
use eitoh_forge.Prelude.Sets.{has}
use eitoh_forge.Prelude.Bytes.{Bytes, compare_digest}
use eitoh_forge.Prelude.ReadInt.{read_int}
use eitoh_forge.RequestSigning.{
  RequestSigningRule, SignedRequest, call_next, is_guarded, signed_headers, prune_keys, prune, mark,
  nonce_key_of, compute_request_signature, check_signature, check_nonce, request_signing_middleware,
}
use eitoh_forge.RequestSigning.Accepted.{Accepts, request_signing_middleware-Accepts}
use eitoh_forge.RequestSigning.Replay.{serve_signed, accepted_once}

abbrev upper : String → String
upper s = s

abbrev hmac : Bytes → Bytes → String
hmac key message = "5f"

ascii : (key message : Bytes) → is_ascii (hmac key message) ≡ true
unfolding is_ascii
ascii key message = refl

abbrev sha256 : Bytes → String
sha256 body = "0a"

abbrev resolve_secret : Option String → Option String
resolve_secret key_id = some "secret"

-- The defaults, with a time to live of the nonces
abbrev rule_of : ℕ → RequestSigningRule
rule_of ttl = record {
  enabled = true;
  signature_header = "x-signature";
  timestamp_header = "x-signature-timestamp";
  nonce_header = "x-signature-nonce";
  key_id_header = "x-signature-key-id";
  allowed_skew_seconds = 300;
  nonce_ttl_seconds = ttl;
  methods = "POST" ∷ "PUT" ∷ "PATCH" ∷ "DELETE" ∷ [];
  scope_path_prefix = none;
}

-- A request with the timestamp 1000
abbrev request : SignedRequest
request = record {
  method = "POST";
  path = "/orders";
  header = get (
      ("x-signature", "5f") ∷ ("x-signature-timestamp", "1000") ∷ ("x-signature-nonce", "n1") ∷ []);
  body = [];
}

-- With the default of 300 seconds, a request that is sent at the second 700, with the clock of its
-- sender ahead by 300 seconds, is let through again at the second 1000.
replayed :
    (request_signing_middleware upper hmac sha256 resolve_secret
      (rule_of 300)
      (request_signing_middleware upper hmac sha256 resolve_secret
        (rule_of 300)
        []
        request
        700000000
        700000000).1
      request
      1000000000
      1000000000).0
    ≡ call_next
unfolding request_signing_middleware is_guarded signed_headers check_nonce check_signature mark
    prune prune_keys nonce_key_of compute_request_signature compare_digest read_int get put remove
    has is_ascii startswith strip
replayed = refl

guarded : is_guarded upper (rule_of 602) request ≡ true
unfolding is_guarded has
guarded = refl

its_headers : signed_headers (rule_of 602) request ≡ some ("5f", "1000", "n1")
unfolding signed_headers get
its_headers = refl

accepted :
    (request_signing_middleware upper hmac sha256 resolve_secret
      (rule_of 602)
      []
      request
      700000000
      700000000).0
    ≡ call_next
unfolding request_signing_middleware is_guarded signed_headers check_nonce check_signature mark
    prune prune_keys nonce_key_of compute_request_signature compare_digest read_int get put remove
    has is_ascii startswith strip
accepted = refl

request_signing_middleware-Accepts_example :
    ((request_signing_middleware upper hmac sha256 resolve_secret
        (rule_of 602)
        []
        request
        700000000
        700000000).0
      ≡ call_next)
    ↔ Accepts upper hmac sha256 resolve_secret (rule_of 602) [] request 700000000 700000000
request_signing_middleware-Accepts_example =
    request_signing_middleware-Accepts upper hmac sha256 resolve_secret ascii (rule_of 602) []
      request 700000000 700000000 guarded

accepted_once_example :
    (request_signing_middleware upper hmac sha256 resolve_secret
      (rule_of 602)
      (serve_signed upper hmac sha256 resolve_secret
        (rule_of 602)
        ascii
        (request_signing_middleware upper hmac sha256 resolve_secret
          (rule_of 602)
          []
          request
          700000000
          700000000).1
        [])
      request
      1300000000
      1300000000).0
    ≢ call_next
accepted_once_example =
    accepted_once upper hmac sha256 resolve_secret (rule_of 602) ascii [] request request [] "5f"
      "5f" "1000" "n1" 700000000 700000000 1300000000 1300000000 (omega arith) guarded guarded
      its_headers its_headers refl tt (omega arith) (omega arith) (omega arith) accepted
