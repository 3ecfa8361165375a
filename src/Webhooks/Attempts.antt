-- ===== src/Webhooks/Attempts.antt =====
-- What a dispatch leaves: its requests, its result and the dead letters.
use eitoh_forge.Prelude.{
  ℕ, zero, suc, ◌+◌, ◌≤◌, ◌≡◌, refl, ap, subst, String, Option, none, List, [], ◌∷◌, ◌++◌, arith,
  inl, inr, Option-cases, if_intro, length, length-append,
}
use eitoh_forge.Prelude.Bytes.{Bytes}
use eitoh_forge.Prelude.Text.{is_blank}
use eitoh_forge.Webhooks.{
  WebhookEvent, WebhookEndpointConfig, WebhookRequest, succeeded, dead_lettered,
  WebhookDeliveryResult, WebhookDispatcher, Transported, Delivery, delivered, gave_up,
  delivered_status, is_retried, status_after, error_after, id_of, signed_request, deliver_from,
  settle_delivery, dispatch_webhook,
}

module _ {J W : Type 0} (hmac : Bytes → Bytes → String)
    (event_json : (event_id : String) → WebhookEvent J → Bytes) (uuid4 : W → String × W)
    (clock : W → ℕ × W) (send : WebhookRequest → W → Transported × W) where
  -- The world with the requests that were sent.
  abbrev pub logging_uuid4 : W × List WebhookRequest → String × (W × List WebhookRequest)
  logging_uuid4 (w, log) = let (event_id, w') = uuid4 w in (event_id, (w', log))

  abbrev pub logging_clock : W × List WebhookRequest → ℕ × (W × List WebhookRequest)
  logging_clock (w, log) = let (now, w') = clock w in (now, (w', log))

  abbrev pub logging_send :
      WebhookRequest → W × List WebhookRequest → Transported × (W × List WebhookRequest)
  logging_send r (w, log) = let (sent, w') = send r w in (sent, (w', log ++ r ∷ []))

  -- After `attempt - 1` sends: a delivery is the last send, and giving up spends at most the rest.
  abbrev Ends : (remaining attempt n : ℕ) → Delivery × (W × List WebhookRequest) → Type 0
  Ends remaining attempt n (delivered k code, (w, log)) =
      (length log + attempt ≡ n + k + 1) × (k + 1 ≤ attempt + remaining)
  Ends remaining attempt n (gave_up code error, (w, log)) = length log ≤ n + remaining

  Ends-later :
      (remaining attempt n m : ℕ) (x : Delivery × (W × List WebhookRequest))
      → m ≡ n + 1
      → Ends remaining (attempt + 1) m x
      → Ends (suc remaining) attempt n x
  Ends-later remaining attempt n m (delivered k code, (w, log)) h (a, b) =
      (omega (arith, h, a), omega (arith, b))
  Ends-later remaining attempt n m (gave_up code error, (w, log)) h a = omega (arith, h, a)

  deliver_from-Ends :
      (event : WebhookEvent J) (endpoint : WebhookEndpointConfig) (event_id : String)
      (remaining attempt : ℕ) (code : Option ℕ) (error : Option String)
      (v : W × List WebhookRequest)
      → Ends remaining attempt (length v.1) (
          deliver_from hmac event_json logging_uuid4 logging_clock logging_send event endpoint
            event_id remaining attempt code error v)
  unfolding deliver_from
  deliver_from-Ends event endpoint event_id zero attempt code error (w, log) = omega arith
  deliver_from-Ends event endpoint event_id (suc remaining) attempt code error (w, log) =
      let (now, w1) = clock w in
      let request = signed_request hmac event_json event endpoint event_id now in
      let (sent, w2) = send request w1 in
      let code' = status_after sent code in
      let error' = error_after sent error in
      let log' = log ++ request ∷ [] in
      let longer : length log' ≡ length log + 1 = length-append log (request ∷ []) in
      elim (Option-cases (delivered_status sent)) [
        | inr (c, e) ↦ rw (e, deliver_from) (omega (arith, longer), omega arith)
        | inl e ↦
            rw (e, deliver_from)
              (if_intro (Ends (suc remaining) attempt (length log)) (is_retried sent) _ _
                (λ a. Ends-later remaining attempt (length log) (length log') _ longer (
                  deliver_from-Ends event endpoint event_id remaining (attempt + 1) code' error'
                    (w2, log')))
                (λ a. omega (arith, longer)))
      ]

  id_of-log : (event : WebhookEvent J) (w : W) → (id_of logging_uuid4 event (w, [])).1.1 ≡ []
  id_of-log event w = elim (Option-cases event.event_id) [
    | inl e ↦ rw e refl
    | inr (i, e) ↦ rw e (
        if_intro (λ (x : String × (W × List WebhookRequest)). x.1.1 ≡ []) (is_blank i) _ _
          (λ b. refl) (λ b. refl))
  ]

  -- What is left of a dispatch: its requests within the attempts, and its dead letter.
  abbrev Settled :
      WebhookDispatcher J
      → WebhookEvent J
      → WebhookEndpointConfig
      → (WebhookDeliveryResult × WebhookDispatcher J) × (W × List WebhookRequest)
      → Type 0
  Settled d event endpoint ((result, d'), (w, log)) =
      (length log ≤ d.retry_policy.max_attempts)
      × (result.status ≡ succeeded
          → (result.attempts ≡ length log) × (d'.dead_letters ≡ d.dead_letters))
      × (result.status ≡ dead_lettered
          → d'.dead_letters
            ≡ d.dead_letters
              ++ (record {
                event = event;
                endpoint = endpoint;
                record_attempts = result.attempts;
                record_error = result.error_message;
                record_status_code = result.last_status_code;
              }
                  ∷ []))

  settle_delivery-Settled :
      (d : WebhookDispatcher J) (event : WebhookEvent J) (endpoint : WebhookEndpointConfig)
      (e : Delivery) (w : W) (log : List WebhookRequest)
      → Ends d.retry_policy.max_attempts 1 0 (e, (w, log))
      → Settled d event endpoint (settle_delivery d event endpoint e, (w, log))
  settle_delivery-Settled d event endpoint (delivered k code) w log (a, b) =
      (omega (arith, a, b), (λ h. (omega (arith, a), refl)), λ h. absurd cc)
  settle_delivery-Settled d event endpoint (gave_up code error) w log a =
      (omega (arith, a), (λ h. absurd cc), λ h. refl)

  -- A dispatch sends at most `max_attempts` requests. If it succeeds, it reports the number of its
  -- requests and leaves the dead letters; otherwise it appends one dead letter, with the event, the
  -- endpoint, and the attempts, the error and the status code that it reports.
  pub dispatch_webhook-Settled :
      (d : WebhookDispatcher J) (event : WebhookEvent J) (endpoint : WebhookEndpointConfig) (w : W)
      → let ((result, d'), (w', log)) =
          dispatch_webhook hmac event_json logging_uuid4 logging_clock logging_send d event endpoint
            (w, []) in
        (length log ≤ d.retry_policy.max_attempts)
        × (result.status ≡ succeeded
            → (result.attempts ≡ length log) × (d'.dead_letters ≡ d.dead_letters))
        × (result.status ≡ dead_lettered
            → d'.dead_letters
              ≡ d.dead_letters
                ++ (record {
                  event = event;
                  endpoint = endpoint;
                  record_attempts = result.attempts;
                  record_error = result.error_message;
                  record_status_code = result.last_status_code;
                }
                    ∷ []))
  unfolding dispatch_webhook
  dispatch_webhook-Settled d event endpoint w =
      let (event_id, v) = id_of logging_uuid4 event (w, []) in
      let (e, u) =
        deliver_from hmac event_json logging_uuid4 logging_clock logging_send event endpoint
          event_id d.retry_policy.max_attempts 1 none none v in
      settle_delivery-Settled d event endpoint e u.0 u.1 (
        subst (λ n. Ends d.retry_policy.max_attempts 1 n (e, u)) (ap length (id_of-log event w))
          (deliver_from-Ends event endpoint event_id d.retry_policy.max_attempts 1 none none v))
