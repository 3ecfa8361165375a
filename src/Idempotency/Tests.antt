-- ===== src/Idempotency/Tests.antt =====
-- An order that is sent twice, and the theorem at it. The handler counts its calls; the hash is fixed.
use eitoh_forge.Prelude.{ℕ, ◌+◌, ◌≡◌, refl, String, none, [], ◌∷◌}
use eitoh_forge.Prelude.Text.{strip, lstrip, rstrip, isspace}
use eitoh_forge.Prelude.Dict.{get, put, remove}
use eitoh_forge.Prelude.Sets.{has}
use eitoh_forge.Prelude.Bytes.{Bytes}
use eitoh_forge.Idempotency.{
  IdempotencyRule, IdempotencyStore, find_record, WriteRequest, WriteResponse,
  sanitize_response_headers, build_store_key, key_of_request, idempotency_middleware,
}
use eitoh_forge.Idempotency.Replays.{serve_writes}

abbrev same : String → String
same s = s

abbrev sha256 : Bytes → String
sha256 body = "0a"

abbrev created : WriteResponse
created = record {
  status_code = 201;
  response_body = 49 ∷ [];
  response_headers = ("date", "today") ∷ ("x-posted", "1") ∷ [];
  media_type = none;
}

abbrev call_next : WriteRequest → ℕ → WriteResponse × ℕ
call_next request calls = (created, calls + 1)

abbrev rule : IdempotencyRule
rule = record {
  header_name = "idempotency-key";
  write_methods = "POST" ∷ [];
  ttl_seconds = 86400;
  max_body_bytes = 1048576;
}

abbrev posted : WriteRequest
posted = record {
  method = "POST";
  path = "/orders";
  header = get (("idempotency-key", " k1 ") ∷ []);
  body = [];
}

abbrev empty : IdempotencyStore
empty = []

-- The second request does not reach the handler.
calls :
    (serve_writes same same sha256 call_next rule
      ((posted, 0, 5) ∷ (posted, 60, 61) ∷ [])
      (empty, 0)).1
    ≡ 1
unfolding serve_writes idempotency_middleware key_of_request build_store_key find_record
    sanitize_response_headers has get put remove strip lstrip rstrip isspace
calls = refl
