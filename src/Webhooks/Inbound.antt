-- ===== src/Webhooks/Inbound.antt =====
-- src/eitohforge_sdk/infrastructure/webhooks/inbound.py: the endpoint that checks a signature and
-- passes the JSON on. `header` is request.headers.get (of
-- Starlette, which compares names without the case of their letters), `loads` is json.loads after decode.
use eitoh_forge.Prelude.{ℕ, String, Bool, true, false, Option, none, some, if◌then◌else◌, is_empty}
use eitoh_forge.Prelude.Text.{is_blank, strip}
use eitoh_forge.Prelude.Bytes.{Bytes, utf8, compare_digest}
use eitoh_forge.Webhooks.{verify_webhook_signature}

-- verify_body_hmac_hex
unfoldable pub verify_body_hmac_hex :
    (hmac : Bytes → Bytes → String)
    → (secret : String) → Bytes
    → (signature_hex : String) → Option Bool
unfolding compare_digest strip
verify_body_hmac_hex hmac secret body signature_hex =
    compare_digest (hmac (utf8 secret) body) (strip signature_hex)

-- What json.loads of the decoded body gives or raises.
pub data Loaded (J : Type 0) : Type 0 where
  object : J → Loaded J
  not_an_object : Loaded J
  decode_error : Loaded J
  unicode_error : Loaded J

pub data Unauthorized : Type 0 where
  missing_signature missing_timestamp invalid_signature : Unauthorized

-- The answers, with the payload that the handler gets; `crashed` is an exception that is not answered
-- (of compare_digest, or of decode).
pub data Received (J : Type 0) : Type 0 where
  unauthorized : Unauthorized → Received J
  invalid_json : Received J
  must_be_object : Received J
  crashed : Received J
  handled : J → Received J

-- headers.get, where a missing and an empty header are the same to the caller
abbrev pub present : Option String → Option String
present none = none
present (some s) = if is_blank s then none else some s

module _ {J : Type 0} (empty : J) (loads : Bytes → Loaded J) where
  abbrev pub accept_loaded : Loaded J → Received J
  accept_loaded (object payload) = handled payload
  accept_loaded not_an_object = must_be_object
  accept_loaded decode_error = invalid_json
  accept_loaded unicode_error = crashed

  abbrev pub accept_body : Bytes → Received J
  accept_body body = if is_empty body then handled empty else accept_loaded (loads body)

  abbrev pub accept_verified : Option Bool → Bytes → Received J
  accept_verified none body = crashed
  accept_verified (some false) body = unauthorized invalid_signature
  accept_verified (some true) body = accept_body body

  -- receive
  unfoldable pub receive_webhook :
      (hmac : Bytes → Bytes → String)
      → (secret signature_header timestamp_header : String) → (use_timestamp_canonical : Bool)
      → (header : String → Option String) → Bytes
      → (now : ℕ) → Received J
  unfolding verify_webhook_signature verify_body_hmac_hex
  receive_webhook hmac secret signature_header timestamp_header canonical header body now =
      elim (present (header signature_header)) [
        | none ↦ unauthorized missing_signature
        | some signature ↦
            if canonical
            then elim (present (header timestamp_header)) [
              | none ↦ unauthorized missing_timestamp
              | some timestamp ↦
                  accept_verified
                    (verify_webhook_signature hmac signature timestamp body secret 300 now) body
            ]
            else accept_verified (verify_body_hmac_hex hmac secret body signature) body
      ]
