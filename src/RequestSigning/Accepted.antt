-- ===== src/RequestSigning/Accepted.antt =====
-- What a signed request has to carry, said without the middleware's own steps.
use eitoh_forge.Prelude.{
  ℕ, ◌/◌, ◌≤◌, ◌≡◌, ◌↔◌, refl, sym, subst, ◌∙◌, ◌⊎◌, inl, inr, String, str_append, true, Option,
  none, some, is_some, not, List, [], ◌∷◌, arith, Bool-cases,
}
use eitoh_forge.Prelude.Text.{is_blank, is_ascii}
use eitoh_forge.Prelude.Given.{Given, Missing, Missing-none, Missing-some}
use eitoh_forge.Prelude.Int.{ℤ, distance}
use eitoh_forge.Prelude.Dict.{get}
use eitoh_forge.Prelude.Bytes.{Bytes, utf8}
use eitoh_forge.Prelude.ReadInt.{read_int}
use eitoh_forge.RequestSigning.{
  RequestSigningRule, NonceStore, mark, compute_request_signature, SignedRequest, call_next, filled,
  signed_headers, key_name, nonce_key_of, is_guarded, request_signing_middleware, ◌>>=◌,
}
use eitoh_forge.RequestSigning.Nonces.{live_at, mark_fresh}
use eitoh_forge.RequestSigning.Passes.{Genuine, marking, request_signing_middleware-Passes}

-- Lines with "\n" between them
abbrev pub join_lines : List String → String
join_lines [] = ""
join_lines (s ∷ []) = s
join_lines (s ∷ t ∷ lines) = str_append s (str_append "\n" (join_lines (t ∷ lines)))

-- The name of a key: the key id, or "default" for one that is missing or empty.
abbrev pub KeyName : Option String → String → Type 0
KeyName o k = Given o k ⊎ (Missing o × (k ≡ "default"))

filled→Given : (o : Option String) (s : String) → filled o ≡ some s → Given o s
filled→Given none s h = absurd cc
filled→Given (some t) s h = ground (arith, h)

Given→filled : (o : Option String) (s : String) → Given o s → filled o ≡ some s
Given→filled o s (e, b) = rw e (ground (arith, b))

key_name-KeyName : (o : Option String) → KeyName o (key_name o)
key_name-KeyName none = inr (Missing-none, refl)
key_name-KeyName (some t) = elim (Bool-cases (is_blank t)) [
  | inl e ↦ inr (Missing-some t e, ground (arith, e))
  | inr e ↦ inl (ground (arith, e))
]

KeyName→key_name : (o : Option String) (k : String) → KeyName o k → k ≡ key_name o
KeyName→key_name o k (inl (e, b)) = rw e (ground (arith, b))
KeyName→key_name none k (inr (n, e)) = e
KeyName→key_name (some t) k (inr (n, e)) = ground (arith, n t refl, e)

abbrev triple : (a b c : Option String) → Option (String × String × String)
triple a b c = a >>= λ x. b >>= λ y. c >>= λ z. some (x, y, z)

triple-some :
    (a b c : Option String) (s t n : String)
    → triple a b c ≡ some (s, t, n)
    → (a ≡ some s) × (b ≡ some t) × (c ≡ some n)
triple-some none b c s t n h = absurd cc
triple-some (some x) none c s t n h = absurd cc
triple-some (some x) (some y) none s t n h = absurd cc
triple-some (some x) (some y) (some z) s t n h = (cc, cc, cc)

-- The three headers are there and not empty.
abbrev pub Headed :
    RequestSigningRule → SignedRequest → (signature timestamp nonce : String) → Type 0
Headed rule request signature timestamp nonce =
    Given (request.header rule.signature_header) signature
    × Given (request.header rule.timestamp_header) timestamp
    × Given (request.header rule.nonce_header) nonce

signed_headers-Headed :
    (rule : RequestSigningRule) (request : SignedRequest) (s t n : String)
    → (signed_headers rule request ≡ some (s, t, n)) ↔ Headed rule request s t n
unfolding signed_headers
signed_headers-Headed rule request s t n = (
  (λ h.
      let (a, b, c) = triple-some (filled (request.header rule.signature_header)) _ _ s t n h in
      (filled→Given _ s a, filled→Given _ t b, filled→Given _ n c)),
  λ (a, b, c). rw (signed_headers, Given→filled _ s a, Given→filled _ t b, Given→filled _ n c) refl,
)

-- No mark of the nonce's key is alive in the store.
abbrev pub Unmarked : NonceStore → (key : String) → (now : ℕ) → Type 0
Unmarked d key now = (expires_at : ℕ) → get d key ≡ some expires_at → expires_at ≤ now

live_at-dead :
    (o : Option ℕ) (now : ℕ)
    → (not (is_some (live_at now o)) ≡ true) ↔ ((e : ℕ) → o ≡ some e → e ≤ now)
live_at-dead none now = ((λ h e q. absurd cc), λ h. refl)
live_at-dead (some x) now = ((λ h e q. ground (arith, h, q)), λ h. ground (arith, h x refl))

mark-Unmarked :
    (d : NonceStore) (key : String) (e now : ℕ) → ((mark d key e now).0 ≡ true) ↔ Unmarked d key now
mark-Unmarked d key e now =
    let (a, b) = live_at-dead (get d key) now in
    ((λ h. a (sym (mark_fresh d key e now) ∙ h)), λ h. mark_fresh d key e now ∙ b h)

module _ (upper : String → String) (hmac : Bytes → Bytes → String) (sha256 : Bytes → String)
    (resolve_secret : Option String → Option String) where
  -- The signature is the digest of the five lines under the secret of the key id.
  abbrev pub SignedBy :
      RequestSigningRule → SignedRequest → (signature timestamp nonce : String) → Type 0
  SignedBy rule request signature timestamp nonce =
      (secret : String) × Given (resolve_secret (request.header rule.key_id_header)) secret
      × (signature
          ≡ hmac (utf8 secret) (
              utf8 (
                join_lines (
                  upper request.method
                  ∷ request.path
                  ∷ timestamp
                  ∷ nonce
                  ∷ sha256 request.body
                  ∷ []))))

  -- What the middleware lets through
  abbrev pub Accepts : RequestSigningRule → NonceStore → SignedRequest → (now mark_now : ℕ) → Type 0
  Accepts rule d request now mark_now =
      (signature : String) × (timestamp : String) × (nonce : String) × (key : String) × Headed rule
        request signature timestamp nonce
      × ((ts : ℤ) × (read_int timestamp ≡ some ts)
          × (distance (now / 1000000) ts ≤ rule.allowed_skew_seconds))
      × KeyName (request.header rule.key_id_header) key
      × Unmarked d (str_append key (str_append ":" nonce)) mark_now
      × SignedBy rule request signature timestamp nonce

  module _ (ascii : (key message : Bytes) → is_ascii (hmac key message) ≡ true) where
    Genuine-SignedBy :
        (rule : RequestSigningRule) (request : SignedRequest) (s t n : String)
        → Genuine upper hmac sha256 resolve_secret ascii rule request s t n
          ↔ SignedBy rule request s t n
    unfolding compute_request_signature
    Genuine-SignedBy rule request s t n = (
      (λ (secret, e, h). (secret, filled→Given _ secret e, sym h)),
      λ (secret, g, h). (secret, Given→filled _ secret g, sym h),
    )

    marking-Unmarked :
        (rule : RequestSigningRule) (d : NonceStore) (request : SignedRequest) (nonce : String)
        (now mark_now : ℕ)
        → ((marking upper hmac sha256 resolve_secret ascii rule d request nonce now mark_now).0
            ≡ true)
          ↔ Unmarked d
              (str_append (key_name (request.header rule.key_id_header)) (str_append ":" nonce))
              mark_now
    unfolding nonce_key_of
    marking-Unmarked rule d request nonce now mark_now = mark-Unmarked d _ _ mark_now

    -- For an HMAC whose digests are ASCII texts, and a request that the rule covers: the middleware
    -- lets it through exactly if the headers of the signature, the timestamp and the nonce are there
    -- and not empty, the timestamp reads as a number of seconds within the allowed skew, the store has
    -- no mark that is alive of the nonce under the name of the request's key ("default" without one),
    -- the key has a secret, and the signature is the digest under it of the method, the path, the
    -- timestamp, the nonce and the digest of the body, with line breaks between them.
    pub request_signing_middleware-Accepts :
        (rule : RequestSigningRule) (d : NonceStore) (request : SignedRequest) (now mark_now : ℕ)
        → is_guarded upper rule request ≡ true
        → ((request_signing_middleware upper hmac sha256 resolve_secret rule d request now
              mark_now).0
            ≡ call_next)
          ↔ Accepts rule d request now mark_now
    request_signing_middleware-Accepts rule d request now mark_now guarded =
        let passes =
          request_signing_middleware-Passes upper hmac sha256 resolve_secret ascii rule d request
            now mark_now guarded in
        let id = request.header rule.key_id_header in
        (
          (λ h.
              let (s, t, n, e, (timely, fresh, g)) = passes.0 h in
              (
                s,
                t,
                n,
                key_name id,
                (signed_headers-Headed rule request s t n).0 e,
                timely,
                key_name-KeyName id,
                (marking-Unmarked rule d request n now mark_now).0 fresh,
                (Genuine-SignedBy rule request s t n).0 g,
              )),
          λ (s, t, n, key, headed, timely, named, unmarked, g).
              let same = KeyName→key_name id key named in
              let unmarked' =
                subst (λ k. Unmarked d (str_append k (str_append ":" n)) mark_now) same unmarked in
              passes.1 (
                s,
                t,
                n,
                (signed_headers-Headed rule request s t n).1 headed,
                (
                  timely,
                  (marking-Unmarked rule d request n now mark_now).1 unmarked',
                  (Genuine-SignedBy rule request s t n).1 g,
                ),
              ),
        )
