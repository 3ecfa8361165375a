-- ===== src/RequestSigning/Passes.antt =====
-- Which requests the middleware lets through.
use eitoh_forge.Prelude.{
  ℕ, ◌+◌, ◌*◌, ◌/◌, ◌≤◌, ◌≡◌, ◌≢◌, ◌↔◌, refl, sym, ap, ◌∙◌, String, Bool, true, false, Option, none,
  some, ltb, if◌then◌else◌, arith, inl, inr, Option-cases,
}
use eitoh_forge.Prelude.Text.{is_ascii}
use eitoh_forge.Prelude.Int.{ℤ, distance}
use eitoh_forge.Prelude.Bytes.{Bytes, compare_digest, compare_digest_iff}
use eitoh_forge.Prelude.ReadInt.{read_int}
use eitoh_forge.RequestSigning.{
  RequestSigningRule, SignaturePayload, NonceStore, mark, compute_request_signature, SignedRequest,
  SigningError, signed_headers, SigningAnswer, call_next, signature_error, missing_headers,
  invalid_timestamp, stale_timestamp, replayed_nonce, filled, nonce_key_of, is_guarded, compared,
  check_signature, check_nonce, request_signing_middleware,
}

module _ (upper : String → String) (hmac : Bytes → Bytes → String) (sha256 : Bytes → String)
    (resolve_secret : Option String → Option String)
    (ascii : (key message : Bytes) → is_ascii (hmac key message) ≡ true) where
  abbrev pub payload_of : SignedRequest → (timestamp nonce : String) → SignaturePayload
  payload_of request timestamp nonce = record {
    payload_method = upper request.method;
    payload_path = request.path;
    timestamp = timestamp;
    nonce = nonce;
    body_sha256_hex = sha256 request.body;
  }

  -- The signature is the one of the request's payload under the secret of its key.
  abbrev pub Genuine :
      RequestSigningRule → SignedRequest → (signature timestamp nonce : String) → Type 0
  Genuine rule request signature timestamp nonce =
      (secret : String) × (filled (resolve_secret (request.header rule.key_id_header))
        ≡ some secret)
      × (compute_request_signature hmac (payload_of request timestamp nonce) secret ≡ signature)

  compared-call_next :
      (v : Option Bool)
      → (compared upper hmac sha256 resolve_secret v ≡ call_next) ↔ (v ≡ some true)
  compared-call_next none = ((λ h. absurd cc), λ h. absurd cc)
  compared-call_next (some false) = ((λ h. absurd cc), λ h. absurd cc)
  compared-call_next (some true) = ((λ h. refl), λ h. refl)

  unknown :
      (rule : RequestSigningRule) (request : SignedRequest) (signature timestamp nonce : String)
      → filled (resolve_secret (request.header rule.key_id_header)) ≡ none
      → check_signature upper hmac sha256 resolve_secret rule request signature timestamp nonce
        ≢ call_next
  unfolding check_signature
  unknown rule request signature timestamp nonce e = rw (e, check_signature) cc

  checked :
      (rule : RequestSigningRule) (request : SignedRequest)
      (signature timestamp nonce secret : String)
      → filled (resolve_secret (request.header rule.key_id_header)) ≡ some secret
      → check_signature upper hmac sha256 resolve_secret rule request signature timestamp nonce
        ≡ compared upper hmac sha256 resolve_secret (
            compare_digest
              (compute_request_signature hmac (payload_of request timestamp nonce) secret)
              signature)
  unfolding check_signature
  checked rule request signature timestamp nonce secret e = rw (e, check_signature) refl

  digests :
      (p : SignaturePayload) (secret signature : String)
      → (compare_digest (compute_request_signature hmac p secret) signature ≡ some true)
        ↔ (compute_request_signature hmac p secret ≡ signature)
  unfolding compute_request_signature
  digests p secret signature = compare_digest_iff _ signature (ascii _ _)

  check_signature-Genuine :
      (rule : RequestSigningRule) (request : SignedRequest) (signature timestamp nonce : String)
      → (check_signature upper hmac sha256 resolve_secret rule request signature timestamp nonce
          ≡ call_next)
        ↔ Genuine rule request signature timestamp nonce
  check_signature-Genuine rule request signature timestamp nonce =
      let secret_of = filled (resolve_secret (request.header rule.key_id_header)) in
      (
        (λ h. elim (Option-cases secret_of) [
          | inl e ↦ absurd (unknown rule request signature timestamp nonce e h)
          | inr (secret, e) ↦
              let v = sym (checked rule request signature timestamp nonce secret e) ∙ h in
              (
                secret,
                e,
                (digests (payload_of request timestamp nonce) secret signature).0
                    ((compared-call_next _).0 v),
              )
        ]),
        λ (secret, e, s).
            checked rule request signature timestamp nonce secret e
            ∙ (compared-call_next _).1
                ((digests (payload_of request timestamp nonce) secret signature).1 s),
      )

  refusal : {e : SigningError} → signature_error e ≢ call_next
  refusal h = absurd cc

  -- The nonce is marked and is new in the store.
  abbrev pub marking :
      RequestSigningRule
      → NonceStore
      → SignedRequest
      → (nonce : String) → (now mark_now : ℕ) → Bool × NonceStore
  marking rule d request nonce now mark_now =
      mark d (nonce_key_of (request.header rule.key_id_header) nonce)
        (now + rule.nonce_ttl_seconds * 1000000) mark_now

  abbrev pub checking :
      RequestSigningRule
      → NonceStore
      → SignedRequest
      → (signature timestamp nonce : String) → (now mark_now : ℕ) → SigningAnswer × NonceStore
  checking = check_nonce upper hmac sha256 resolve_secret

  -- A timestamp that the rule takes at the time `now`
  abbrev pub Timely : RequestSigningRule → (timestamp : String) → (now : ℕ) → Type 0
  Timely rule timestamp now =
      (ts : ℤ) × (read_int timestamp ≡ some ts)
      × (distance (now / 1000000) ts ≤ rule.allowed_skew_seconds)

  pub unreadable_at :
      (rule : RequestSigningRule) (d : NonceStore) (request : SignedRequest)
      (signature timestamp nonce : String) (now mark_now : ℕ)
      → read_int timestamp ≡ none
      → checking rule d request signature timestamp nonce now mark_now
        ≡ (signature_error invalid_timestamp, d)
  unfolding check_nonce
  unreadable_at rule d request signature timestamp nonce now mark_now e = rw (e, check_nonce) refl

  pub read_at :
      (rule : RequestSigningRule) (d : NonceStore) (request : SignedRequest)
      (signature timestamp nonce : String) (now mark_now : ℕ) (ts : ℤ)
      → read_int timestamp ≡ some ts
      → let (fresh, d') = marking rule d request nonce now mark_now in
        checking rule d request signature timestamp nonce now mark_now ≡ (
          if ltb rule.allowed_skew_seconds (distance (now / 1000000) ts)
          then (signature_error stale_timestamp, d)
          else if fresh
          then (
            check_signature upper hmac sha256 resolve_secret rule request signature timestamp nonce,
            d',
          )
          else (signature_error replayed_nonce, d'))
  unfolding check_nonce
  read_at rule d request signature timestamp nonce now mark_now ts e = rw (e, check_nonce) refl

  -- The answer of one who is timely, fresh and genuine, and the only way to it.
  abbrev pub verdict :
      (late fresh : Bool) → SigningAnswer → (d d' : NonceStore) → SigningAnswer × NonceStore
  verdict late fresh a d d' =
      if late
      then (signature_error stale_timestamp, d)
      else if fresh
      then (a, d')
      else (signature_error replayed_nonce, d')

  answered :
      (late fresh : Bool) (a : SigningAnswer) (d d' : NonceStore)
      → ((verdict late fresh a d d').0 ≡ call_next)
        ↔ ((late ≡ false) × (fresh ≡ true) × (a ≡ call_next))
  answered true fresh a d d' = ((λ h. absurd cc), λ (x, y, z). absurd cc)
  answered false true a d d' = ((λ h. (refl, refl, h)), λ (x, y, z). z)
  answered false false a d d' = ((λ h. absurd cc), λ (x, y, z). absurd cc)

  -- A timestamp that the rule takes, a nonce that is new in the store, and a genuine signature
  abbrev pub Acceptable :
      RequestSigningRule
      → NonceStore
      → SignedRequest
      → (signature timestamp nonce : String) → (now mark_now : ℕ) → Type 0
  Acceptable rule d request signature timestamp nonce now mark_now =
      Timely rule timestamp now
      × ((marking rule d request nonce now mark_now).0 ≡ true)
      × Genuine rule request signature timestamp nonce

  pub check_nonce→Acceptable :
      (rule : RequestSigningRule) (d : NonceStore) (request : SignedRequest)
      (signature timestamp nonce : String) (now mark_now : ℕ)
      → (checking rule d request signature timestamp nonce now mark_now).0 ≡ call_next
      → Acceptable rule d request signature timestamp nonce now mark_now
  check_nonce→Acceptable rule d request signature timestamp nonce now mark_now h =
      elim (Option-cases (read_int timestamp)) [
        | inl e ↦
            let u = unreadable_at rule d request signature timestamp nonce now mark_now e in
            absurd (refusal (ap (λ x. x.0) (sym u) ∙ h))
        | inr (ts, e) ↦
            let eq = read_at rule d request signature timestamp nonce now mark_now ts e in
            let late = ltb rule.allowed_skew_seconds (distance (now / 1000000) ts) in
            let (fresh', d') = marking rule d request nonce now mark_now in
            let a' =
              check_signature upper hmac sha256 resolve_secret rule request signature timestamp
                nonce in
            let (near, fresh, a) = (answered late fresh' a' d d').0 (ap (λ x. x.0) (sym eq) ∙ h) in
            (
              (ts, e, ground (arith, near)),
              fresh,
              (check_signature-Genuine rule request signature timestamp nonce).0 a,
            )
      ]

  Acceptable→check_nonce :
      (rule : RequestSigningRule) (d : NonceStore) (request : SignedRequest)
      (signature timestamp nonce : String) (now mark_now : ℕ)
      → Acceptable rule d request signature timestamp nonce now mark_now
      → (checking rule d request signature timestamp nonce now mark_now).0 ≡ call_next
  Acceptable→check_nonce rule d request signature timestamp nonce now mark_now
        ((ts, e, near), fresh, g) =
      ap (λ x. x.0) (read_at rule d request signature timestamp nonce now mark_now ts e)
      ∙ (answered _ _ _ d _).1 (
        ground (arith, near),
        fresh,
        (check_signature-Genuine rule request signature timestamp nonce).1 g,
      )

  abbrev pub answering :
      RequestSigningRule
      → NonceStore
      → SignedRequest
      → (now mark_now : ℕ) → SigningAnswer × NonceStore
  answering = request_signing_middleware upper hmac sha256 resolve_secret

  -- The request's headers are there and acceptable.
  abbrev pub Passes : RequestSigningRule → NonceStore → SignedRequest → (now mark_now : ℕ) → Type 0
  Passes rule d request now mark_now =
      (signature : String) × (timestamp : String) × (nonce : String) × (signed_headers rule request
        ≡ some (signature, timestamp, nonce))
      × Acceptable rule d request signature timestamp nonce now mark_now

  pub missing_at :
      (rule : RequestSigningRule) (d : NonceStore) (request : SignedRequest) (now mark_now : ℕ)
      → is_guarded upper rule request ≡ true
      → signed_headers rule request ≡ none
      → answering rule d request now mark_now ≡ (signature_error missing_headers, d)
  unfolding request_signing_middleware
  missing_at rule d request now mark_now guarded e =
      rw (request_signing_middleware, guarded, e) refl

  pub headers_at :
      (rule : RequestSigningRule) (d : NonceStore) (request : SignedRequest) (now mark_now : ℕ)
      (signature timestamp nonce : String)
      → is_guarded upper rule request ≡ true
      → signed_headers rule request ≡ some (signature, timestamp, nonce)
      → answering rule d request now mark_now
        ≡ checking rule d request signature timestamp nonce now mark_now
  unfolding request_signing_middleware
  headers_at rule d request now mark_now signature timestamp nonce guarded e =
      rw (request_signing_middleware, guarded, e) refl

  pub call_next→Passes :
      (rule : RequestSigningRule) (d : NonceStore) (request : SignedRequest) (now mark_now : ℕ)
      → is_guarded upper rule request ≡ true
      → (answering rule d request now mark_now).0 ≡ call_next
      → Passes rule d request now mark_now
  call_next→Passes rule d request now mark_now guarded h =
      elim (Option-cases (signed_headers rule request)) [
        | inl e ↦
            let m = missing_at rule d request now mark_now guarded e in
            absurd (refusal (ap (λ x. x.0) (sym m) ∙ h))
        | inr ((signature, timestamp, nonce), e) ↦
            let c = headers_at rule d request now mark_now signature timestamp nonce guarded e in
            (
              signature,
              timestamp,
              nonce,
              e,
              check_nonce→Acceptable rule d request signature timestamp nonce now mark_now
                  (ap (λ x. x.0) (sym c) ∙ h),
            )
      ]

  -- For an HMAC whose digests are ASCII texts: a request that the rule covers is let through exactly if
  -- it passes the middleware's four tests.
  pub request_signing_middleware-Passes :
      (rule : RequestSigningRule) (d : NonceStore) (request : SignedRequest) (now mark_now : ℕ)
      → is_guarded upper rule request ≡ true
      → ((answering rule d request now mark_now).0 ≡ call_next) ↔ Passes rule d request now mark_now
  request_signing_middleware-Passes rule d request now mark_now guarded = (
    call_next→Passes rule d request now mark_now guarded,
    λ (signature, timestamp, nonce, e, a).
        ap (λ x. x.0) (headers_at rule d request now mark_now signature timestamp nonce guarded e)
        ∙ Acceptable→check_nonce rule d request signature timestamp nonce now mark_now a,
  )
