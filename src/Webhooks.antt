-- ===== src/Webhooks.antt =====
-- src/eitohforge_sdk/infrastructure/webhooks/: signed delivery with retries and dead letters
-- (dispatcher.py, contracts.py) and its signatures (signing.py). Times are microseconds since the
-- epoch. HMAC-SHA256 as a hex text, the event's JSON bytes, uuid4, the clock and the transport are
-- arguments; the last three act on a world of type `W`. The values of a payload have the type `J`.
pub mod Inbound
pub mod Attempts
pub mod Authentic
pub mod Delivered
mod Tests
use mathlib.Core.Option
use eitoh_forge.Prelude.{
  ℕ, zero, suc, ◌+◌, ◌/◌, String, Bool, true, false, ◌&&◌, ◌||◌, Option, none, some, List, [], ◌∷◌,
  ◌++◌, if◌then◌else◌, leb, ltb, ◌==◌,
}
use eitoh_forge.Prelude.Text.{is_blank}
use eitoh_forge.Prelude.Int.{ℤ, distance}
use eitoh_forge.Prelude.Dict.{Dict, put}
use eitoh_forge.Prelude.Bytes.{Bytes, utf8, compare_digest}
use eitoh_forge.Prelude.Decimal.{decimal}
use eitoh_forge.Prelude.ReadInt.{read_int}
use eitoh_forge.Jobs.{RetryPolicy}

pub record WebhookEvent (J : Type 0) : Type 0 where
  pub name : String
  pub payload : Dict J
  pub metadata : Dict String
  pub event_id : Option String
  pub occurred_at : ℕ

pub record WebhookEndpointConfig : Type 0 where
  pub url : String
  pub secret : String
  pub timeout : ℕ
  pub signature_header : String
  pub timestamp_header : String
  pub event_name_header : String
  pub event_id_header : String

pub record WebhookRequest : Type 0 where
  pub request_url : String
  pub request_body : Bytes
  pub headers : Dict String
  pub request_timeout : ℕ

pub record WebhookResponse : Type 0 where
  pub status_code : ℕ
  pub response_body : Bytes
  pub response_headers : Dict String

pub record WebhookDeadLetterRecord (J : Type 0) : Type 0 where
  pub event : WebhookEvent J
  pub endpoint : WebhookEndpointConfig
  pub record_attempts : ℕ
  pub record_error : Option String
  pub record_status_code : Option ℕ

pub data DeliveryStatus : Type 0 where
  succeeded dead_lettered : DeliveryStatus

pub record WebhookDeliveryResult : Type 0 where
  pub status : DeliveryStatus
  pub attempts : ℕ
  pub last_status_code : Option ℕ
  pub error_message : Option String

pub record WebhookDispatcher (J : Type 0) : Type 0 where
  pub retry_policy : RetryPolicy
  pub dead_letters : List (WebhookDeadLetterRecord J)

-- int(now.timestamp())
abbrev pub unix_seconds : ℕ → ℕ
unix_seconds now = now / 1000000

unfoldable pub compute_webhook_signature :
    (hmac : Bytes → Bytes → String) → (timestamp : String) → Bytes → (secret : String) → String
compute_webhook_signature hmac timestamp body secret =
    hmac (utf8 secret) (utf8 timestamp ++ 46 ∷ body)

-- `none` is the TypeError of hmac.compare_digest
unfoldable pub verify_webhook_signature :
    (hmac : Bytes → Bytes → String)
    → (signature timestamp : String) → Bytes
    → (secret : String) (allowed_skew now : ℕ) → Option Bool
unfolding compute_webhook_signature compare_digest read_int
verify_webhook_signature hmac signature timestamp body secret allowed_skew now =
    elim (read_int timestamp) [
      | none ↦ some false
      | some ts ↦
          if ltb allowed_skew (distance (unix_seconds now) ts)
          then some false
          else compare_digest (compute_webhook_signature hmac timestamp body secret) signature
    ]

abbrev pub is_retryable_status : ℕ → Bool
is_retryable_status status_code = (status_code == 429) || leb 500 status_code

-- What a send ends in.
pub data Transported : Type 0 where
  responded : WebhookResponse → Transported
  raised : String → Transported

-- How the loop over the attempts ends.
pub data Delivery : Type 0 where
  delivered : (attempt status_code : ℕ) → Delivery
  gave_up : (status_code : Option ℕ) → (error : Option String) → Delivery

abbrev pub delivered_status : Transported → Option ℕ
delivered_status (responded r) =
    if leb 200 r.status_code && ltb r.status_code 300 then some r.status_code else none
delivered_status (raised m) = none

abbrev pub is_retried : Transported → Bool
is_retried (responded r) = is_retryable_status r.status_code
is_retried (raised m) = true

abbrev pub status_after : Transported → Option ℕ → Option ℕ
status_after (responded r) last = some r.status_code
status_after (raised m) last = last

abbrev pub error_after : Transported → Option String → Option String
error_after (responded r) last = last
error_after (raised m) last = some m

module _ {J W : Type 0} (uuid4 : W → String × W) where
  -- event.event_id or str(uuid4())
  abbrev pub id_of : WebhookEvent J → W → String × W
  id_of event w = elim event.event_id [
    | none ↦ uuid4 w
    | some event_id ↦ if is_blank event_id then uuid4 w else (event_id, w)
  ]

module _ {J : Type 0} (hmac : Bytes → Bytes → String)
    (event_json : (event_id : String) → WebhookEvent J → Bytes) where
  -- The request of an attempt at the time `now`
  unfoldable pub signed_request :
      WebhookEvent J → WebhookEndpointConfig → (event_id : String) → (now : ℕ) → WebhookRequest
  unfolding compute_webhook_signature decimal put
  signed_request event endpoint event_id now =
      let body = event_json event_id event in
      let timestamp = decimal (unix_seconds now) in
      let signature = compute_webhook_signature hmac timestamp body endpoint.secret in
      let headers0 = put [] "content-type" "application/json" in
      let headers1 = put headers0 endpoint.signature_header signature in
      let headers2 = put headers1 endpoint.timestamp_header timestamp in
      let headers3 = put headers2 endpoint.event_name_header event.name in
      record {
        request_url = endpoint.url;
        request_body = body;
        headers = put headers3 endpoint.event_id_header event_id;
        request_timeout = endpoint.timeout;
      }

module _ {J : Type 0} where
  -- What dispatch makes of the loop's end.
  abbrev pub settle_delivery :
      WebhookDispatcher J
      → WebhookEvent J
      → WebhookEndpointConfig
      → Delivery
      → WebhookDeliveryResult × WebhookDispatcher J
  settle_delivery d event endpoint (delivered attempt status_code) = (
    record {
      status = succeeded;
      attempts = attempt;
      last_status_code = some status_code;
      error_message = none;
    },
    d,
  )
  settle_delivery d event endpoint (gave_up code error) =
      let max_attempts = d.retry_policy.max_attempts in
      let letter : WebhookDeadLetterRecord J = record {
        event = event;
        endpoint = endpoint;
        record_attempts = max_attempts;
        record_error = error;
        record_status_code = code;
      } in
      (
        record {
          status = dead_lettered;
          attempts = max_attempts;
          last_status_code = code;
          error_message = error;
        },
        record d { dead_letters = d.dead_letters ++ letter ∷ [] },
      )

module _ {J W : Type 0} (hmac : Bytes → Bytes → String)
    (event_json : (event_id : String) → WebhookEvent J → Bytes) (uuid4 : W → String × W)
    (clock : W → ℕ × W) (send : WebhookRequest → W → Transported × W) where
  -- The loop: `remaining` attempts from the number `attempt` on
  unfoldable pub deliver_from :
      WebhookEvent J
      → WebhookEndpointConfig
      → (event_id : String) → (remaining attempt : ℕ) → Option ℕ
      → Option String
      → W
      → Delivery × W
  unfolding signed_request
  deliver_from event endpoint event_id zero attempt code error w = (gave_up code error, w)
  deliver_from event endpoint event_id (suc remaining) attempt code error w =
      let (now, w1) = clock w in
      let (sent, w2) = send (signed_request hmac event_json event endpoint event_id now) w1 in
      let code' = status_after sent code in
      let error' = error_after sent error in
      let rest = deliver_from event endpoint event_id remaining (attempt + 1) code' error' w2 in
      elim (delivered_status sent) [
        | some status_code ↦ (delivered attempt status_code, w2)
        | none ↦ if is_retried sent then rest else (gave_up code' error', w2)
      ]

  -- WebhookDispatcher.dispatch
  unfoldable pub dispatch_webhook :
      WebhookDispatcher J
      → WebhookEvent J
      → WebhookEndpointConfig
      → W
      → (WebhookDeliveryResult × WebhookDispatcher J) × W
  unfolding deliver_from
  dispatch_webhook d event endpoint w =
      let (event_id, w1) = id_of uuid4 event w in
      let (e, w2) =
        deliver_from event endpoint event_id d.retry_policy.max_attempts 1 none none w1 in
      (settle_delivery d event endpoint e, w2)
