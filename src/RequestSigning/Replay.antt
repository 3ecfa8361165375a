-- ===== src/RequestSigning/Replay.antt =====
-- A signed request is let through once.
use eitoh_forge.Prelude.{
  ℕ, ◌+◌, ◌*◌, ◌/◌, ◌≤◌, ◌<◌, ◌≡◌, ◌≢◌, refl, sym, ap, subst, ◌∙◌, String, Bool, true, false,
  Option, some, List, [], ◌∷◌, ltb, arith, inl, inr, Bool-cases, Option-cases, if_intro,
}
use eitoh_forge.Prelude.Text.{is_ascii}
use eitoh_forge.Prelude.Int.{ℤ, pos, negsuc, distance}
use eitoh_forge.Prelude.Bytes.{Bytes}
use eitoh_forge.Prelude.ReadInt.{read_int}
use eitoh_forge.RequestSigning.{
  RequestSigningRule, NonceStore, mark, SignedRequest, SigningAnswer, call_next, signed_headers,
  nonce_key_of, is_guarded, check_nonce, request_signing_middleware,
}
use eitoh_forge.RequestSigning.Nonces.{Guards, mark-Guards, mark-Guards_later, Guards-mark}
use eitoh_forge.RequestSigning.Passes.{
  check_nonce→Acceptable, headers_at, missing_at, unreadable_at, read_at, verdict,
}

-- Two times near one timestamp are near each other.
near_twice :
    (n m skew : ℕ) (ts : ℤ) → distance n ts ≤ skew → distance m ts ≤ skew → m ≤ n + 2 * skew
near_twice n m skew (pos t) a b = ground (arith, a, b)
near_twice n m skew (negsuc t) a b = ground (arith, a, b)

same_number : (s : String) (a b : ℤ) → read_int s ≡ some a → read_int s ≡ some b → a ≡ b
same_number s a b e f = cc

-- Request after request, each with the middleware's and the store's readings of the clock
abbrev pub Arrival : Type 0
Arrival = SignedRequest × ℕ × ℕ

-- The clock does not go back after `from`, and the store reads it within a second.
abbrev pub Forward : ℕ → List Arrival → Type 0
Forward from [] = Unit {0}
Forward from ((request, now, mark_now) ∷ arrivals) =
    (from ≤ now) × (now ≤ mark_now) × (mark_now ≤ now + 1000000) × Forward mark_now arrivals

module _ (upper : String → String) (hmac : Bytes → Bytes → String) (sha256 : Bytes → String)
    (resolve_secret : Option String → Option String) (rule : RequestSigningRule)
    (ascii : (key message : Bytes) → is_ascii (hmac key message) ≡ true) where
  abbrev handle : NonceStore → SignedRequest → (now mark_now : ℕ) → SigningAnswer × NonceStore
  handle = request_signing_middleware upper hmac sha256 resolve_secret rule

  -- The store after the arrivals
  unfoldable pub serve_signed : NonceStore → List Arrival → NonceStore
  serve_signed d [] = d
  serve_signed d ((request, now, mark_now) ∷ arrivals) =
      serve_signed (handle d request now mark_now).1 arrivals

  abbrev last_time : ℕ → List Arrival → ℕ
  last_time from [] = from
  last_time from ((request, now, mark_now) ∷ arrivals) = last_time mark_now arrivals

  Guards-weaken :
      (d : NonceStore) (k : String) (e now later : ℕ)
      → now ≤ later
      → Guards d k e now
      → Guards d k e later
  Guards-weaken d k e now later h g before = g (omega (arith, h, before))

  abbrev GuardsAfter : String → (e mark_now : ℕ) → SigningAnswer × NonceStore → Type 0
  GuardsAfter k e mark_now (a, d) = Guards d k e mark_now

  verdict-Guards :
      (late : Bool) (a : SigningAnswer) (d : NonceStore) (j : String) (f mark_now from : ℕ)
      (k : String) (e : ℕ)
      → from ≤ mark_now
      → Guards d k e from
      → GuardsAfter k e mark_now (
          verdict upper hmac sha256 resolve_secret ascii late
            (mark d j f mark_now).0
            a
            d
            (mark d j f mark_now).1)
  verdict-Guards late a d j f mark_now from k e h g =
      let after = mark-Guards_later d k j e f from mark_now h g in
      if_intro (GuardsAfter k e mark_now) late _ _ (λ x. Guards-weaken d k e from mark_now h g)
        (λ x.
          if_intro (GuardsAfter k e mark_now) (mark d j f mark_now).0 _ _ (λ y. after) (λ y. after))

  check_nonce-Guards :
      (d : NonceStore) (request : SignedRequest) (signature timestamp nonce : String)
      (now mark_now : ℕ) (k : String) (e from : ℕ)
      → from ≤ mark_now
      → Guards d k e from
      → GuardsAfter k e mark_now (
          check_nonce upper hmac sha256 resolve_secret rule d request signature timestamp nonce now
            mark_now)
  check_nonce-Guards d request signature timestamp nonce now mark_now k e from h g =
      elim (Option-cases (read_int timestamp)) [
        | inl x ↦
            subst (GuardsAfter k e mark_now)
              (sym (
                unreadable_at upper hmac sha256 resolve_secret ascii rule d request signature
                  timestamp nonce now mark_now x))
              (Guards-weaken d k e from mark_now h g)
        | inr (ts, x) ↦
            subst (GuardsAfter k e mark_now)
              (sym (
                read_at upper hmac sha256 resolve_secret ascii rule d request signature timestamp
                  nonce now mark_now ts x))
              (verdict-Guards _ _ d _ _ mark_now from k e h g)
      ]

  unguarded :
      (d : NonceStore) (request : SignedRequest) (now mark_now : ℕ)
      → is_guarded upper rule request ≡ false
      → handle d request now mark_now ≡ (call_next, d)
  unfolding request_signing_middleware
  unguarded d request now mark_now e = rw (request_signing_middleware, e) refl

  handle-Guards :
      (d : NonceStore) (request : SignedRequest) (now mark_now : ℕ) (k : String) (e from : ℕ)
      → from ≤ mark_now
      → Guards d k e from
      → GuardsAfter k e mark_now (handle d request now mark_now)
  handle-Guards d request now mark_now k e from h g =
      let kept = Guards-weaken d k e from mark_now h g in
      elim (Bool-cases (is_guarded upper rule request)) [
        | inr x ↦ subst (GuardsAfter k e mark_now) (sym (unguarded d request now mark_now x)) kept
        | inl x ↦ elim (Option-cases (signed_headers rule request)) [
          | inl y ↦
              subst (GuardsAfter k e mark_now)
                (sym (
                  missing_at upper hmac sha256 resolve_secret ascii rule d request now mark_now x
                    y))
                kept
          | inr ((signature, timestamp, nonce), y) ↦
              subst (GuardsAfter k e mark_now)
                (sym (
                  headers_at upper hmac sha256 resolve_secret ascii rule d request now mark_now
                    signature timestamp nonce x y))
                (check_nonce-Guards d request signature timestamp nonce now mark_now k e from h g)
        ]
      ]

  serve_signed-Guards :
      (d : NonceStore) (arrivals : List Arrival) (k : String) (e from : ℕ)
      → Forward from arrivals
      → Guards d k e from
      → Guards (serve_signed d arrivals) k e (last_time from arrivals)
  unfolding serve_signed
  serve_signed-Guards d [] k e from f g = g
  serve_signed-Guards d ((request, now, mark_now) ∷ arrivals) k e from (a, b, c, f) g =
      serve_signed-Guards (handle d request now mark_now).1 arrivals k e mark_now f
        (handle-Guards d request now mark_now k e from (omega (arith, a, b)) g)

  accepted-Guards :
      (d : NonceStore) (request : SignedRequest) (signature timestamp nonce : String)
      (now mark_now : ℕ)
      → is_guarded upper rule request ≡ true
      → signed_headers rule request ≡ some (signature, timestamp, nonce)
      → (handle d request now mark_now).0 ≡ call_next
      → ((ts : ℤ) × (read_int timestamp ≡ some ts)
          × (distance (now / 1000000) ts ≤ rule.allowed_skew_seconds))
        × Guards
            (handle d request now mark_now).1
            (nonce_key_of (request.header rule.key_id_header) nonce)
            (now + rule.nonce_ttl_seconds * 1000000)
            mark_now
  accepted-Guards d request signature timestamp nonce now mark_now guarded e h =
      let through =
        headers_at upper hmac sha256 resolve_secret ascii rule d request now mark_now signature
          timestamp nonce guarded e in
      let ((ts, x, near), fresh, g) =
        check_nonce→Acceptable upper hmac sha256 resolve_secret ascii rule d request signature
          timestamp nonce now mark_now (ap (λ x. x.0) (sym through) ∙ h) in
      let at =
        read_at upper hmac sha256 resolve_secret ascii rule d request signature timestamp nonce now
          mark_now ts x in
      let key = nonce_key_of (request.header rule.key_id_header) nonce in
      let expires_at = now + rule.nonce_ttl_seconds * 1000000 in
      let late : ltb rule.allowed_skew_seconds (distance (now / 1000000) ts) ≡ false =
        ground (arith, near) in
      (
        (ts, x, near),
        subst (GuardsAfter key expires_at mark_now) (sym (through ∙ at))
            (rw (late, fresh) (mark-Guards d key expires_at mark_now fresh)),
      )

  accepted_fresh :
      (d : NonceStore) (request : SignedRequest) (signature timestamp nonce : String)
      (now mark_now : ℕ)
      → is_guarded upper rule request ≡ true
      → signed_headers rule request ≡ some (signature, timestamp, nonce)
      → (handle d request now mark_now).0 ≡ call_next
      → (mark d
          (nonce_key_of (request.header rule.key_id_header) nonce)
          (now + rule.nonce_ttl_seconds * 1000000)
          mark_now).0
        ≡ true
  accepted_fresh d request signature timestamp nonce now mark_now guarded e h =
      let through =
        headers_at upper hmac sha256 resolve_secret ascii rule d request now mark_now signature
          timestamp nonce guarded e in
      (check_nonce→Acceptable upper hmac sha256 resolve_secret ascii rule d request signature
        timestamp nonce now mark_now (ap (λ x. x.0) (sym through) ∙ h)).1

  -- For an HMAC whose digests are ASCII texts, and nonces that live at least two seconds longer than
  -- twice the allowed skew, on a clock that does not go back and that the store reads within a second
  -- of the middleware: after the middleware has let a request that its rule covers through, and after
  -- any further requests, it does not let one through that it covers and that has the same key id,
  -- timestamp and nonce.
  pub accepted_once :
      (d : NonceStore) (first again : SignedRequest) (arrivals : List Arrival)
      (signature signature' timestamp nonce : String) (now mark_now now' mark_now' : ℕ)
      → 2 * rule.allowed_skew_seconds + 2 ≤ rule.nonce_ttl_seconds
      → is_guarded upper rule first ≡ true
      → is_guarded upper rule again ≡ true
      → signed_headers rule first ≡ some (signature, timestamp, nonce)
      → signed_headers rule again ≡ some (signature', timestamp, nonce)
      → again.header rule.key_id_header ≡ first.header rule.key_id_header
      → Forward mark_now arrivals
      → last_time mark_now arrivals ≤ now'
      → now' ≤ mark_now'
      → mark_now' ≤ now' + 1000000
      → (request_signing_middleware upper hmac sha256 resolve_secret rule d first now mark_now).0
        ≡ call_next
      → (request_signing_middleware upper hmac sha256 resolve_secret rule
          (serve_signed
            (request_signing_middleware upper hmac sha256 resolve_secret rule d first now
              mark_now).1
            arrivals)
          again
          now'
          mark_now').0
        ≢ call_next
  accepted_once d first again arrivals s s' timestamp nonce now mark_now now' mark_now' long g g' e
        e' same f order read soon h h' =
      let d1 = (handle d first now mark_now).1 in
      let d2 = serve_signed d1 arrivals in
      let ((ts, x, near), kept) = accepted-Guards d first s timestamp nonce now mark_now g e h in
      let ((ts', x', near'), after) =
        accepted-Guards d2 again s' timestamp nonce now' mark_now' g' e' h' in
      let held = serve_signed-Guards d1 arrivals _ _ mark_now f kept in
      let close = near_twice (now / 1000000) (now' / 1000000) rule.allowed_skew_seconds ts near (
        subst (λ z. distance (now' / 1000000) z ≤ rule.allowed_skew_seconds)
          (same_number timestamp ts' ts x' x) near') in
      let fresh = accepted_fresh d2 again s' timestamp nonce now' mark_now' g' e' h' in
      let key = nonce_key_of (first.header rule.key_id_header) nonce in
      let expires_at = now' + rule.nonce_ttl_seconds * 1000000 in
      let early : mark_now' < now + rule.nonce_ttl_seconds * 1000000 =
        omega (arith, long, soon, close) in
      let used : (mark d2 key expires_at mark_now').0 ≡ false =
        Guards-mark d2 key _ expires_at _ mark_now' (omega (arith, order, read)) early held in
      let unused : (mark d2 key expires_at mark_now').0 ≡ true =
        subst (λ o. (mark d2 (nonce_key_of o nonce) expires_at mark_now').0 ≡ true) same fresh in
      absurd (ground (arith, used, unused))
