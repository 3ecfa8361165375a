-- ===== src/Webhooks/Tests.antt =====
-- A delivery that is retried, received, and the theorems at it. The digest is a fixed text.
use eitoh_forge.Prelude.{
  ℕ, ◌+◌, ◌≡◌, ◌≤◌, length, ◌↔◌, refl, sym, ap, subst, ◌∙◌, if_intro, ◌≢◌, String, str_eq, eq_iff,
  true, false, Option, none, some, Bool-cases, inl, inr, [], ◌∷◌, ltb, if◌then◌else◌, arith,
}
use eitoh_forge.Prelude.Text.{is_ascii, is_visible}
use eitoh_forge.Prelude.Dict.{Dict, get}
use eitoh_forge.Prelude.Codes.{text_eq, text_eq_iff, lower}
use eitoh_forge.Prelude.Bytes.{Bytes, utf8}
use eitoh_forge.Webhooks.{
  succeeded, dead_lettered, WebhookEvent, WebhookEndpointConfig, WebhookRequest, WebhookDispatcher,
  Transported, responded, signed_request, deliver_from, dispatch_webhook,
}
use eitoh_forge.Webhooks.Inbound.{Loaded, object, handled, accept_body, receive_webhook}
use eitoh_forge.Webhooks.Attempts.{
  logging_uuid4, logging_clock, logging_send, dispatch_webhook-Settled,
}
use eitoh_forge.Webhooks.Authentic.{Hex, CarriedBy, Holds, receive_webhook-Carries}
use eitoh_forge.Webhooks.Delivered.{
  folded, Alone, Apart, Separate, Delivers, signed_request-Received,
}

abbrev hmac : Bytes → Bytes → String
hmac key message = "5f"

hmac-Hex : Hex hmac
unfolding is_ascii
hmac-Hex key message = (refl, refl)

abbrev event_json : String → WebhookEvent String → Bytes
event_json event_id event = utf8 event.name

-- The world counts the sends, one a second; the first is answered 503.
abbrev uuid4 : ℕ → String × ℕ
uuid4 n = ("e1", n)

abbrev clock : ℕ → ℕ × ℕ
clock n = (n, n)

abbrev send : WebhookRequest → ℕ → Transported × ℕ
send request n = (
  responded (record {
    status_code = if ltb n 1000000 then 503 else 204;
    response_body = [];
    response_headers = [];
  }),
  n + 1000000,
)

abbrev paid : WebhookEvent String
paid = record { name = "paid"; payload = []; metadata = []; event_id = none; occurred_at = 0 }

abbrev endpoint : WebhookEndpointConfig
endpoint = record {
  url = "https://example.com/hook";
  secret = "s";
  timeout = 5000000;
  signature_header = "x-webhook-signature";
  timestamp_header = "x-webhook-timestamp";
  event_name_header = "x-webhook-event";
  event_id_header = "x-webhook-event-id";
}

abbrev dispatcher : WebhookDispatcher String
dispatcher = record {
  retry_policy = record {
    max_attempts = 3;
    base_delay_seconds = 1;
    backoff_multiplier = 2;
    max_delay_seconds = 60;
    in_range = refl;
  };
  dead_letters = [];
}

-- The second attempt succeeds.
retried :
    (dispatch_webhook hmac event_json uuid4 clock send dispatcher paid endpoint 0).0.0.attempts ≡ 2
unfolding dispatch_webhook deliver_from signed_request
retried = refl

dispatch_webhook-Settled_example :
    let ((result, d), (w, log)) =
      dispatch_webhook hmac event_json
        (logging_uuid4 hmac event_json uuid4 clock send)
        (logging_clock hmac event_json uuid4 clock send)
        (logging_send hmac event_json uuid4 clock send)
        dispatcher
        paid
        endpoint
        (0, []) in
    (length log ≤ 3)
    × (result.status ≡ succeeded → (result.attempts ≡ length log) × (d.dead_letters ≡ []))
    × (result.status ≡ dead_lettered
        → d.dead_letters
          ≡ record {
            event = paid;
            endpoint = endpoint;
            record_attempts = result.attempts;
            record_error = result.error_message;
            record_status_code = result.last_status_code;
          }
            ∷ [])
dispatch_webhook-Settled_example =
    dispatch_webhook-Settled hmac event_json uuid4 clock send dispatcher paid endpoint 0

abbrev loads : Bytes → Loaded String
loads body = object "payload"

abbrev header : String → Option String
header = get (("x-webhook-signature", "5f") ∷ ("x-webhook-timestamp", "100") ∷ [])

receive_webhook-Carries_example :
    (receive_webhook "" loads hmac "s" "x-webhook-signature" "x-webhook-timestamp" false header
        (utf8 "paid")
        200000000
      ≡ handled "payload")
    ↔ (CarriedBy false hmac header "s" "x-webhook-signature" "x-webhook-timestamp"
          (utf8 "paid")
          200000000
        × Holds "" loads (utf8 "paid") "payload")
receive_webhook-Carries_example =
    receive_webhook-Carries hmac hmac-Hex "" loads "s" "x-webhook-signature" "x-webhook-timestamp"
      header (utf8 "paid") 200000000 false "payload"

visible : (key message : Bytes) → is_visible (hmac key message) ≡ true
unfolding is_visible
visible key message = refl

differ : (a b : String) → text_eq (folded a) (folded b) ≡ false → Apart a b
differ a b h e = ground (arith, h, e, text_eq_iff (folded a) (folded b))

separate : Separate endpoint
unfolding lower
separate = (
  differ "content-type" "x-webhook-signature" refl,
  differ "content-type" "x-webhook-timestamp" refl,
  differ "x-webhook-signature" "x-webhook-timestamp" refl,
  differ "x-webhook-signature" "x-webhook-event" refl,
  differ "x-webhook-signature" "x-webhook-event-id" refl,
  differ "x-webhook-timestamp" "x-webhook-event" refl,
  differ "x-webhook-timestamp" "x-webhook-event-id" refl,
)

-- The first header of the name, without the case of its letters
unfoldable first_of : Dict String → String → Option String
first_of [] name = none
first_of ((j, value) ∷ headers) name =
    if text_eq (folded j) (folded name) then some value else first_of headers name

get_first : (headers : Dict String) (j value : String) → get ((j, value) ∷ headers) j ≡ some value
unfolding get
get_first headers j value = ground (arith, eq_iff j j)

-- An entry of the rest is seen, but for one behind the first's name.
get_later :
    (headers : Dict String) (i j v value : String)
    → i ≢ j
    → get ((i, v) ∷ headers) j ≡ get headers j
unfolding get
get_later headers i j v value n = ground (arith, eq_iff i j, n)

tail-Alone :
    (headers : Dict String) (j v name : String)
    → j ≢ name
    → Alone ((j, v) ∷ headers) name
    → Alone headers name
tail-Alone headers j v name n alone other value h same = elim (Bool-cases (str_eq j other)) [
  | inl e ↦
      let q : j ≡ other = ground (arith, e, eq_iff j other) in
      alone other v (subst (λ k. get ((j, v) ∷ headers) k ≡ some v) q (get_first headers j v)) same
  | inr e ↦
      let m : j ≢ other = λ q. ground (arith, e, eq_iff j other, q) in
      alone other value (get_later headers j other v value m ∙ h) same
]

first_of-Delivers : (headers : Dict String) → Delivers headers (first_of headers)
unfolding first_of get
first_of-Delivers [] name value h seen alone = absurd cc
first_of-Delivers ((j, v) ∷ headers) name value h seen alone =
    let same = text_eq_iff (folded j) (folded name) in
    elim (Bool-cases (str_eq j name)) [
      | inl e ↦
          let q : j ≡ name = ground (arith, e, eq_iff j name) in
          let t : text_eq (folded j) (folded name) ≡ true = same.1 (ap folded q) in
          rw t (ground (arith, h, e))
      | inr e ↦
          let n : j ≢ name = λ q. ground (arith, e, eq_iff j name, q) in
          if_intro (λ o. o ≡ some value) (text_eq (folded j) (folded name)) _ _
            (λ t. absurd (n (alone j v (get_first headers j v) (same.0 t))))
            (λ t.
              first_of-Delivers headers name value (sym (get_later headers j name v value n) ∙ h)
                seen (tail-Alone headers j v name n alone))
    ]

signed_request-Received_example :
    let request = signed_request hmac event_json paid endpoint "e1" 100000000 in
    receive_webhook "" loads hmac "s" "x-webhook-signature" "x-webhook-timestamp" true
      (first_of request.headers)
      request.request_body
      200000000
    ≡ accept_body "" loads request.request_body
signed_request-Received_example =
    signed_request-Received hmac hmac-Hex visible event_json paid endpoint "e1" "" loads
      (first_of (signed_request hmac event_json paid endpoint "e1" 100000000).headers) 100000000
      200000000 separate (omega arith) (first_of-Delivers _) (omega arith)
