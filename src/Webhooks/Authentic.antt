-- ===== src/Webhooks/Authentic.antt =====
-- Which requests the inbound endpoint takes, in both of its modes.
use eitoh_forge.Prelude.{
  ℕ, ◌≤◌, ◌≡◌, ◌≢◌, ◌↔◌, ◌⊎◌, ◌∷◌, ◌++◌, refl, sym, ap, ◌∙◌, String, Bool, true, false, Option,
  none, some, [], ltb, if◌then◌else◌, arith, inl, inr, Option-cases,
}
use eitoh_forge.Prelude.Text.{is_blank, is_ascii, strip, lstrip, rstrip}
use eitoh_forge.Prelude.Int.{ℤ, distance}
use eitoh_forge.Prelude.Bytes.{Bytes, utf8, compare_digest, compare_digest_iff}
use eitoh_forge.Prelude.ReadInt.{read_int, read_int_not_blank}
use eitoh_forge.Webhooks.{compute_webhook_signature, verify_webhook_signature, unix_seconds}
use eitoh_forge.Webhooks.Inbound.{
  Loaded, object, not_an_object, decode_error, unicode_error, accept_loaded, verify_body_hmac_hex,
  Received, handled, present, accept_body, accept_verified, receive_webhook,
}

-- Digests in hex: texts of ASCII characters that are not empty.
abbrev pub Hex : (Bytes → Bytes → String) → Type 0
Hex hmac =
    (key message : Bytes)
    → (is_ascii (hmac key message) ≡ true) × (is_blank (hmac key message) ≡ false)

-- A signature of the body and a timestamp that is at most `skew` seconds away from `now`
abbrev pub Signed :
    (Bytes → Bytes → String)
    → (secret : String) → Bytes
    → (skew now : ℕ) → (signature timestamp : String) → Type 0
Signed hmac secret body skew now signature timestamp =
    ((ts : ℤ) × (read_int timestamp ≡ some ts) × (distance (unix_seconds now) ts ≤ skew))
    × (signature ≡ hmac (utf8 secret) (utf8 timestamp ++ 46 ∷ body))

-- A header has the digest, and another one the timestamp of it.
abbrev pub Carries :
    (Bytes → Bytes → String)
    → (header : String → Option String) → (secret signature_header timestamp_header : String)
    → Bytes
    → (now : ℕ) → Type 0
Carries hmac header secret signature_header timestamp_header body now =
    (signature : String) × (timestamp : String) × (header signature_header ≡ some signature)
    × (header timestamp_header ≡ some timestamp)
    × Signed hmac secret body 300 now signature timestamp

-- A header has the digest of the body alone, with spaces around it perhaps.
abbrev pub CarriesPlain :
    (Bytes → Bytes → String)
    → (header : String → Option String) → (secret signature_header : String) → Bytes
    → Type 0
CarriesPlain hmac header secret signature_header body =
    (signature : String) × (header signature_header ≡ some signature)
    × (strip signature ≡ hmac (utf8 secret) body)

-- What the headers carry with use_timestamp_canonical, and without it
abbrev pub CarriedBy :
    (use_timestamp_canonical : Bool)
    → (Bytes → Bytes → String)
    → (header : String → Option String) → (secret signature_header timestamp_header : String)
    → Bytes
    → (now : ℕ) → Type 0
CarriedBy true hmac header secret signature_header timestamp_header body now =
    Carries hmac header secret signature_header timestamp_header body now
CarriedBy false hmac header secret signature_header timestamp_header body now =
    CarriesPlain hmac header secret signature_header body

-- The payload is the empty one of an empty body, or the JSON object that the body holds.
abbrev pub Holds : {J : Type 0} → (empty : J) → (loads : Bytes → Loaded J) → Bytes → J → Type 0
Holds empty loads body payload =
    ((body ≡ []) × (payload ≡ empty)) ⊎ ((body ≢ []) × (loads body ≡ object payload))

accept_loaded-object :
    {J : Type 0} (empty : J) (loads : Bytes → Loaded J) (l : Loaded J) (payload : J)
    → accept_loaded empty loads l ≡ handled payload
    → l ≡ object payload
accept_loaded-object empty loads (object p) payload h = cc
accept_loaded-object empty loads not_an_object payload h = absurd cc
accept_loaded-object empty loads decode_error payload h = absurd cc
accept_loaded-object empty loads unicode_error payload h = absurd cc

accept_body-Holds :
    {J : Type 0} (empty : J) (loads : Bytes → Loaded J) (body : Bytes) (payload : J)
    → (accept_body empty loads body ≡ handled payload) ↔ Holds empty loads body payload
accept_body-Holds empty loads [] payload =
    ((λ h. inl (refl, cc)), λ h. elim h [ inl (e, f) ↦ cc | inr (n, f) ↦ absurd (n refl) ])
accept_body-Holds empty loads (b ∷ body) payload = (
  (λ h. inr ((λ e. absurd cc), accept_loaded-object empty loads (loads (b ∷ body)) payload h)),
  λ h. elim h [ inl (e, f) ↦ absurd cc | inr (n, e) ↦ rw e refl ],
)

strip-not_blank : (s : String) → is_blank (strip s) ≡ false → is_blank s ≡ false
unfolding strip lstrip rstrip
strip-not_blank String.[] h = h
strip-not_blank (String.◌∷◌ c s) h = refl

module _ (hmac : Bytes → Bytes → String) (hex : Hex hmac) where
  verified_at :
      (signature timestamp : String) (body : Bytes) (secret : String) (skew now : ℕ) (ts : ℤ)
      → read_int timestamp ≡ some ts
      → verify_webhook_signature hmac signature timestamp body secret skew now ≡ (
          if ltb skew (distance (unix_seconds now) ts)
          then some false
          else compare_digest (compute_webhook_signature hmac timestamp body secret) signature)
  unfolding verify_webhook_signature
  verified_at signature timestamp body secret skew now ts e = rw (e, verify_webhook_signature) refl

  unread :
      (signature timestamp : String) (body : Bytes) (secret : String) (skew now : ℕ)
      → read_int timestamp ≡ none
      → verify_webhook_signature hmac signature timestamp body secret skew now ≡ some false
  unfolding verify_webhook_signature
  unread signature timestamp body secret skew now e = rw (e, verify_webhook_signature) refl

  compared :
      (signature timestamp : String) (body : Bytes) (secret : String)
      → (compare_digest (compute_webhook_signature hmac timestamp body secret) signature
          ≡ some true)
        ↔ (compute_webhook_signature hmac timestamp body secret ≡ signature)
  unfolding compute_webhook_signature
  compared signature timestamp body secret = compare_digest_iff _ signature (hex _ _).0

  verify_webhook_signature→Signed :
      (signature timestamp : String) (body : Bytes) (secret : String) (skew now : ℕ)
      → verify_webhook_signature hmac signature timestamp body secret skew now ≡ some true
      → Signed hmac secret body skew now signature timestamp
  unfolding compute_webhook_signature
  verify_webhook_signature→Signed signature timestamp body secret skew now h =
      elim (Option-cases (read_int timestamp)) [
        | inl e ↦ absurd (ground (arith, h, unread signature timestamp body secret skew now e))
        | inr (ts, e) ↦
            let v = verified_at signature timestamp body secret skew now ts e in
            let c = compared signature timestamp body secret in
            ((ts, e, ground (arith, v, h)), ground (arith, v, h, c))
      ]

  Signed→verify_webhook_signature :
      (signature timestamp : String) (body : Bytes) (secret : String) (skew now : ℕ)
      → Signed hmac secret body skew now signature timestamp
      → verify_webhook_signature hmac signature timestamp body secret skew now ≡ some true
  unfolding compute_webhook_signature
  Signed→verify_webhook_signature signature timestamp body secret skew now ((ts, e, near), same) =
      let v = verified_at signature timestamp body secret skew now ts e in
      let c = compared signature timestamp body secret in ground (arith, v, near, same, c)

  present-some : (o : Option String) (s : String) → present o ≡ some s → o ≡ some s
  present-some none s h = absurd cc
  present-some (some t) s h = ground (arith, h)

  present-some_of_text : (s : String) → is_blank s ≡ false → present (some s) ≡ some s
  present-some_of_text s h = ground (arith, h)

  Signed-not_blank :
      (signature timestamp : String) (body : Bytes) (secret : String) (skew now : ℕ)
      → Signed hmac secret body skew now signature timestamp
      → (is_blank signature ≡ false) × (is_blank timestamp ≡ false)
  Signed-not_blank signature timestamp body secret skew now ((ts, e, near), same) =
      (rw same (hex _ _).1, read_int_not_blank timestamp ts e)

  module _ {J : Type 0} (empty : J) (loads : Bytes → Loaded J)
      (secret signature_header timestamp_header : String) (header : String → Option String)
      (body : Bytes) (now : ℕ) where
    abbrev received : Received J
    received =
        receive_webhook empty loads hmac secret signature_header timestamp_header true header body
          now

    received_verified :
        (signature timestamp : String)
        → present (header signature_header) ≡ some signature
        → present (header timestamp_header) ≡ some timestamp
        → received
          ≡ accept_verified empty loads
              (verify_webhook_signature hmac signature timestamp body secret 300 now)
              body
    unfolding receive_webhook
    received_verified signature timestamp e f = rw (e, receive_webhook, f) refl

    unsigned : present (header signature_header) ≡ none → (payload : J) → received ≢ handled payload
    unfolding receive_webhook
    unsigned e payload = rw (e, receive_webhook) cc

    undated :
        (signature : String)
        → present (header signature_header) ≡ some signature
        → present (header timestamp_header) ≡ none
        → (payload : J) → received ≢ handled payload
    unfolding receive_webhook
    undated signature e f payload = rw (e, receive_webhook, f) cc

    accept_verified_handled :
        (v : Option Bool) (payload : J)
        → accept_verified empty loads v body ≡ handled payload
        → (v ≡ some true) × (accept_body empty loads body ≡ handled payload)
    accept_verified_handled none payload h = absurd cc
    accept_verified_handled (some false) payload h = absurd cc
    accept_verified_handled (some true) payload h = (refl, h)

    handled→Carries :
        (payload : J)
        → received ≡ handled payload
        → Carries hmac header secret signature_header timestamp_header body now
          × (accept_body empty loads body ≡ handled payload)
    handled→Carries payload h = elim (Option-cases (present (header signature_header))) [
      | inl e ↦ absurd (unsigned e payload h)
      | inr (signature, e) ↦ elim (Option-cases (present (header timestamp_header))) [
        | inl f ↦ absurd (undated signature e f payload h)
        | inr (timestamp, f) ↦
            let (v, b) =
              accept_verified_handled _ payload
                (sym (received_verified signature timestamp e f) ∙ h) in
            let s = verify_webhook_signature→Signed signature timestamp body secret 300 now v in
            ((signature, timestamp, present-some _ _ e, present-some _ _ f, s), b)
      ]
    ]

    pub Carries→verified :
        Carries hmac header secret signature_header timestamp_header body now
        → received ≡ accept_body empty loads body
    Carries→verified (signature, timestamp, e, f, s) =
        let (a, b) = Signed-not_blank signature timestamp body secret 300 now s in
        received_verified signature timestamp (ap present e ∙ present-some_of_text signature a)
          (ap present f ∙ present-some_of_text timestamp b)
        ∙ ap (λ v. accept_verified empty loads v body)
            (Signed→verify_webhook_signature signature timestamp body secret 300 now s)

    abbrev plainly_received : Received J
    plainly_received =
        receive_webhook empty loads hmac secret signature_header timestamp_header false header body
          now

    plainly_verified :
        (signature : String)
        → present (header signature_header) ≡ some signature
        → plainly_received
          ≡ accept_verified empty loads
              (compare_digest (hmac (utf8 secret) body) (strip signature))
              body
    unfolding receive_webhook verify_body_hmac_hex
    plainly_verified signature e = rw (e, receive_webhook, verify_body_hmac_hex) refl

    plainly_unsigned :
        present (header signature_header) ≡ none
        → (payload : J) → plainly_received ≢ handled payload
    unfolding receive_webhook
    plainly_unsigned e payload = rw (e, receive_webhook) cc

    handled→CarriesPlain :
        (payload : J)
        → plainly_received ≡ handled payload
        → CarriesPlain hmac header secret signature_header body
          × (accept_body empty loads body ≡ handled payload)
    handled→CarriesPlain payload h = elim (Option-cases (present (header signature_header))) [
      | inl e ↦ absurd (plainly_unsigned e payload h)
      | inr (signature, e) ↦
          let (v, b) = accept_verified_handled _ payload (sym (plainly_verified signature e) ∙ h) in
          (
            (
              signature,
              present-some _ _ e,
              sym ((compare_digest_iff _ (strip signature) (hex _ _).0).0 v),
            ),
            b,
          )
    ]

    CarriesPlain→verified :
        CarriesPlain hmac header secret signature_header body
        → plainly_received ≡ accept_body empty loads body
    CarriesPlain→verified (signature, e, s) =
        let text = strip-not_blank signature (ap is_blank s ∙ (hex _ _).1) in
        plainly_verified signature (ap present e ∙ present-some_of_text signature text)
        ∙ ap (λ v. accept_verified empty loads v body)
            ((compare_digest_iff _ (strip signature) (hex _ _).0).1 (sym s))

    -- For an HMAC whose digests are ASCII texts that are not empty: the endpoint handles a payload
    -- exactly if it is what the body holds (a JSON object, or the empty one for an empty body) and the
    -- request's headers carry the digest: with use_timestamp_canonical, the one of the timestamp
    -- header, a point and the body, with a timestamp at most 300 seconds away; without it, the one of
    -- the body, where spaces around it and the timestamp header do not matter.
    pub receive_webhook-Carries :
        (canonical : Bool) (payload : J)
        → (receive_webhook empty loads hmac secret signature_header timestamp_header canonical
              header body now
            ≡ handled payload)
          ↔ (CarriedBy canonical hmac header secret signature_header timestamp_header body now
              × Holds empty loads body payload)
    receive_webhook-Carries true payload =
        let (read, held) = accept_body-Holds empty loads body payload in
        (
          (λ h. let (c, b) = handled→Carries payload h in (c, read b)),
          λ (c, b). Carries→verified c ∙ held b,
        )
    receive_webhook-Carries false payload =
        let (read, held) = accept_body-Holds empty loads body payload in
        (
          (λ h. let (c, b) = handled→CarriesPlain payload h in (c, read b)),
          λ (c, b). CarriesPlain→verified c ∙ held b,
        )
