-- ===== src/Webhooks/Delivered.antt =====
-- That the inbound endpoint takes the dispatcher's requests. Header names are compared without the case
-- of their letters, as Starlette's headers.get does.
use eitoh_forge.Prelude.{
  ℕ, ◌≤◌, ◌<◌, ◌≡◌, ◌≢◌, ◌⊎◌, inl, inr, refl, sym, ap, ◌∙◌, String, true, Option, some, [], map,
  arith, eq_iff,
}
use eitoh_forge.Prelude.Text.{is_visible}
use eitoh_forge.Prelude.Codes.{Text, codes, lower}
use eitoh_forge.Prelude.Int.{pos, distance}
use eitoh_forge.Prelude.Dict.{Dict, get, put, get-put, get-put_same, get-put_other}
use eitoh_forge.Prelude.Bytes.{Bytes}
use eitoh_forge.Prelude.Decimal.{decimal, decimal-visible}
use eitoh_forge.Prelude.ReadInt.{read_int-decimal}
use eitoh_forge.Webhooks.{
  WebhookEvent, WebhookEndpointConfig, compute_webhook_signature, unix_seconds, signed_request,
}
use eitoh_forge.Webhooks.Inbound.{Loaded, accept_body, receive_webhook}
use eitoh_forge.Webhooks.Authentic.{Hex, Carries, Carries→verified}

-- A header's name without the case of its letters
abbrev pub folded : String → Text
folded name = map lower (codes name)

-- No other header has the name but for the case of its letters.
abbrev pub Alone : Dict String → String → Type 0
Alone headers name =
    (other value : String)
    → get headers other ≡ some value
    → folded other ≡ folded name
    → other ≡ name

-- What a transport and headers.get do with a header that has its name alone and a value of visible
-- characters
abbrev pub Delivers : Dict String → (header : String → Option String) → Type 0
Delivers headers header =
    (name value : String)
    → get headers name ≡ some value
    → is_visible value ≡ true
    → Alone headers name
    → header name ≡ some value

-- Two names that differ in more than the case of their letters
abbrev pub Apart : String → String → Type 0
Apart a b = folded a ≢ folded b

apart : {a b : String} → Apart a b → a ≢ b
apart n e = n (ap folded e)

-- The signature and its timestamp have their header names for themselves.
abbrev pub Separate : WebhookEndpointConfig → Type 0
Separate endpoint =
    Apart "content-type" endpoint.signature_header
    × Apart "content-type" endpoint.timestamp_header
    × Apart endpoint.signature_header endpoint.timestamp_header
    × Apart endpoint.signature_header endpoint.event_name_header
    × Apart endpoint.signature_header endpoint.event_id_header
    × Apart endpoint.timestamp_header endpoint.event_name_header
    × Apart endpoint.timestamp_header endpoint.event_id_header

-- The five headers of a request
abbrev sent_headers :
    WebhookEndpointConfig → (signature timestamp name event_id : String) → Dict String
sent_headers endpoint signature timestamp name event_id =
    let headers0 = put [] "content-type" "application/json" in
    let headers1 = put headers0 endpoint.signature_header signature in
    let headers2 = put headers1 endpoint.timestamp_header timestamp in
    let headers3 = put headers2 endpoint.event_name_header name in
    put headers3 endpoint.event_id_header event_id

put_key :
    (d : Dict String) (k j v w : String) → get (put d k v) j ≡ some w → (j ≡ k) ⊎ (get d j ≡ some w)
put_key d k j v w h = ground (arith, get-put d k j v, eq_iff k j, h)

nothing : (j w : String) → get [] j ≢ some w
unfolding get
nothing j w h = absurd cc

-- The names of the five headers
abbrev OneOf : WebhookEndpointConfig → String → Type 0
OneOf endpoint j =
    (j ≡ endpoint.event_id_header)
    ⊎ ((j ≡ endpoint.event_name_header)
        ⊎ ((j ≡ endpoint.timestamp_header)
            ⊎ ((j ≡ endpoint.signature_header) ⊎ (j ≡ "content-type"))))

module _ (endpoint : WebhookEndpointConfig) (signature timestamp name event_id : String) where
  abbrev all_headers : Dict String
  all_headers = sent_headers endpoint signature timestamp name event_id

  sent_name : (j w : String) → get all_headers j ≡ some w → OneOf endpoint j
  sent_name j w h = elim (put_key _ endpoint.event_id_header j event_id w h) [
    | inl e ↦ inl e
    | inr h3 ↦ inr (elim (put_key _ endpoint.event_name_header j name w h3) [
      | inl e ↦ inl e
      | inr h2 ↦ inr (elim (put_key _ endpoint.timestamp_header j timestamp w h2) [
        | inl e ↦ inl e
        | inr h1 ↦ inr (elim (put_key _ endpoint.signature_header j signature w h1) [
          | inl e ↦ inl e
          | inr h0 ↦ inr (elim (put_key [] "content-type" j "application/json" w h0) [
            | inl e ↦ e
            | inr h ↦ absurd (nothing j w h)
          ])
        ])
      ])
    ])
  ]

  signature-Alone : Separate endpoint → Alone all_headers endpoint.signature_header
  signature-Alone (a, b, c, d, e, f, g) j w h same =
      let clash : (k : String) → Apart k endpoint.signature_header → j ≢ k =
        λ k n q. n (ap folded (sym q) ∙ same) in
      elim (sent_name j w h) [
        | inl q ↦ absurd (clash _ (λ r. e (sym r)) q)
        | inr (inl q) ↦ absurd (clash _ (λ r. d (sym r)) q)
        | inr (inr (inl q)) ↦ absurd (clash _ (λ r. c (sym r)) q)
        | inr (inr (inr (inl q))) ↦ q
        | inr (inr (inr (inr q))) ↦ absurd (clash _ a q)
      ]

  timestamp-Alone : Separate endpoint → Alone all_headers endpoint.timestamp_header
  timestamp-Alone (a, b, c, d, e, f, g) j w h same =
      let clash : (k : String) → Apart k endpoint.timestamp_header → j ≢ k =
        λ k n q. n (ap folded (sym q) ∙ same) in
      elim (sent_name j w h) [
        | inl q ↦ absurd (clash _ (λ r. g (sym r)) q)
        | inr (inl q) ↦ absurd (clash _ (λ r. f (sym r)) q)
        | inr (inr (inl q)) ↦ q
        | inr (inr (inr (inl q))) ↦ absurd (clash _ c q)
        | inr (inr (inr (inr q))) ↦ absurd (clash _ b q)
      ]

  timestamp_sent : Separate endpoint → get all_headers endpoint.timestamp_header ≡ some timestamp
  timestamp_sent (a, b, c, d, e, f, g) =
      get-put_other _ endpoint.event_id_header endpoint.timestamp_header event_id (apart g)
      ∙ get-put_other _ endpoint.event_name_header endpoint.timestamp_header name (apart f)
      ∙ get-put_same _ endpoint.timestamp_header timestamp

  signature_sent : Separate endpoint → get all_headers endpoint.signature_header ≡ some signature
  signature_sent (a, b, c, d, e, f, g) =
      get-put_other _ endpoint.event_id_header endpoint.signature_header event_id (apart e)
      ∙ get-put_other _ endpoint.event_name_header endpoint.signature_header name (apart d)
      ∙ get-put_other _ endpoint.timestamp_header endpoint.signature_header timestamp (apart c)
      ∙ get-put_same _ endpoint.signature_header signature

module _ (hmac : Bytes → Bytes → String) (hex : Hex hmac)
    (visible : (key message : Bytes) → is_visible (hmac key message) ≡ true) {J : Type 0}
    (event_json : (event_id : String) → WebhookEvent J → Bytes) (event : WebhookEvent J)
    (endpoint : WebhookEndpointConfig) (event_id : String) where
  signed_request-Carries :
      (header : String → Option String) (sent_at now : ℕ)
      → Separate endpoint
      → sent_at < 253402300800000000
      → Delivers (signed_request hmac event_json event endpoint event_id sent_at).headers header
      → distance (unix_seconds now) (pos (unix_seconds sent_at)) ≤ 300
      → Carries hmac header endpoint.secret endpoint.signature_header endpoint.timestamp_header
          (event_json event_id event)
          now
  unfolding signed_request compute_webhook_signature
  signed_request-Carries header sent_at now separate small delivers near =
      let timestamp = decimal (unix_seconds sent_at) in
      let signature =
        compute_webhook_signature hmac timestamp (event_json event_id event) endpoint.secret in
      (
        signature,
        timestamp,
        delivers endpoint.signature_header signature
            (signature_sent endpoint signature timestamp event.name event_id separate) (visible _ _)
            (signature-Alone endpoint signature timestamp event.name event_id separate),
        delivers endpoint.timestamp_header timestamp
            (timestamp_sent endpoint signature timestamp event.name event_id separate)
            (decimal-visible (unix_seconds sent_at))
            (timestamp-Alone endpoint signature timestamp event.name event_id separate),
        (
          (
            pos (unix_seconds sent_at),
            read_int-decimal (unix_seconds sent_at) (omega (arith, small)),
            near,
          ),
          refl,
        ),
      )

  -- For an HMAC whose digests are texts of visible ASCII characters that are not empty, and an endpoint
  -- with use_timestamp_canonical: a request that the dispatcher sends by the year 9999 and whose
  -- headers are delivered, with header names for the signature and the timestamp that differ from each
  -- other and from the other three's in more than the case of their letters, passes the endpoint of the
  -- same secret and header names when it arrives at most 300 seconds away by its clock: what the
  -- endpoint then answers depends on the body alone.
  pub signed_request-Received :
      (empty : J) (loads : Bytes → Loaded J) (header : String → Option String) (sent_at now : ℕ)
      → Separate endpoint
      → sent_at < 253402300800000000
      → Delivers (signed_request hmac event_json event endpoint event_id sent_at).headers header
      → distance (unix_seconds now) (pos (unix_seconds sent_at)) ≤ 300
      → let request = signed_request hmac event_json event endpoint event_id sent_at in
        receive_webhook empty loads hmac endpoint.secret endpoint.signature_header
          endpoint.timestamp_header true header request.request_body now
        ≡ accept_body empty loads request.request_body
  unfolding signed_request
  signed_request-Received empty loads header sent_at now separate small delivers near =
      Carries→verified hmac hex empty loads endpoint.secret endpoint.signature_header
        endpoint.timestamp_header header _ now
        (signed_request-Carries header sent_at now separate small delivers near)
