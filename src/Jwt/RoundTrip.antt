-- ===== src/Jwt/RoundTrip.antt =====
-- A token that is issued validates until it expires.
use eitoh_forge.Prelude.{
  ℕ, ◌+◌, ◌≡◌, refl, ap, ◌∙◌, String, str_append, str_eq, eq_iff, true, Option, none, some, [], ◌∷◌,
  if◌then◌else◌, leb, arith, Bool-cases, inl, inr,
}
use eitoh_forge.Prelude.Text.{lacks, is_ascii, split-three}
use eitoh_forge.Prelude.Dict.{get, put}
use eitoh_forge.Prelude.Int.{pos}
use eitoh_forge.Prelude.Results.{ok, err}
use eitoh_forge.Jwt.{
  Codec, Claims, text, int, object, token_expired, TokenType, type_value, JwtTokenManager,
  payload_of, put_optional, update, timestamp, matches, encode_token, claims_of, validate_claims,
  check_signature, validate_segments, decode_and_validate,
}

-- What base64url and HMAC promise: no segment holds a dot, and a signature is ASCII.
pub record IsUrlSafe (codec : Codec) : Type 0 where
  pub json_lacks : (c : Claims) → lacks 46 (codec.encode_json c) ≡ true
  pub sign_lacks : (d s : String) → lacks 46 (codec.sign d s) ≡ true
  pub sign_ascii : (d s : String) → is_ascii (codec.sign d s) ≡ true

same_text : (s : String) → str_eq s s ≡ true
same_text s = ground (arith, eq_iff s s)

abbrev named :
    (kind subject jti : String) (iat exp : ℕ) (tenant issuer audience : Option String) → Claims
named kind subject jti iat exp tenant issuer audience =
    put_optional
      (put_optional
        (put_optional
          (("sub", text subject)
            ∷ ("typ", text kind)
            ∷ ("jti", text jti)
            ∷ ("iat", int (pos iat))
            ∷ ("exp", int (pos exp))
            ∷ [])
          "tenant_id" tenant)
        "iss" issuer)
      "aud" audience

-- What the checks look up.
abbrev Lookups : Claims → String → ℕ → Option String → Option String → Type 0
Lookups c kind exp issuer audience =
    (get c "typ" ≡ some (text kind))
    × (get c "exp" ≡ some (int (pos exp)))
    × (matches issuer (get c "iss") ≡ true)
    × (matches audience (get c "aud") ≡ true)

named-Lookups :
    (kind subject jti : String) (iat exp : ℕ) (t i a : Option String)
    → Lookups (named kind subject jti iat exp t i a) kind exp i a
unfolding get put
named-Lookups kind subject jti iat exp none none none = (refl, refl, refl, refl)
named-Lookups kind subject jti iat exp none none (some z) = (refl, refl, refl, same_text z)
named-Lookups kind subject jti iat exp none (some y) none = (refl, refl, same_text y, refl)
named-Lookups kind subject jti iat exp none (some y) (some z) =
    (refl, refl, same_text y, same_text z)
named-Lookups kind subject jti iat exp (some x) none none = (refl, refl, refl, refl)
named-Lookups kind subject jti iat exp (some x) none (some z) = (refl, refl, refl, same_text z)
named-Lookups kind subject jti iat exp (some x) (some y) none = (refl, refl, same_text y, refl)
named-Lookups kind subject jti iat exp (some x) (some y) (some z) =
    (refl, refl, same_text y, same_text z)

same-Lookups :
    (c d : Claims) (kind : String) (exp : ℕ) (i a : Option String)
    → ((k : String) → get d k ≡ get c k)
    → Lookups c kind exp i a
    → Lookups d kind exp i a
same-Lookups c d kind exp i a same (p, q, r, s) = (
  same "typ" ∙ p,
  same "exp" ∙ q,
  ap (matches i) (same "iss") ∙ r,
  ap (matches a) (same "aud") ∙ s,
)

validate-Lookups :
    (m : JwtTokenManager) (c : Claims) (token_type : TokenType) (exp now : ℕ)
    → Lookups c (type_value token_type) exp m.issuer m.audience
    → validate_claims m c (some token_type) now
      ≡ (if leb exp (timestamp now) then err token_expired else ok c)
unfolding validate_claims
validate-Lookups m c token_type exp now (p, q, r, s) =
    rw (p, same_text (type_value token_type), q, r, s)
      (elim (Bool-cases (leb exp (timestamp now))) [ inl e ↦ rw e refl | inr e ↦ rw e refl ])

-- A token of either type, issued without additional claims: with a codec whose segments hold no dot
-- and that decodes this payload to an object with the same values, its issuer accepts it as a token
-- of that type before the second of its expiry, and from then on finds it expired.
pub decode-encode :
    (codec : Codec) (m : JwtTokenManager) (token_type : TokenType) (subject jti : String)
    (ttl now later : ℕ) (tenant : Option String) (claims : Claims)
    → IsUrlSafe codec
    → let payload = payload_of m token_type subject ttl now jti tenant [] in
      codec.decode_json (codec.encode_json payload) ≡ object claims
      → ((k : String) → get claims k ≡ get payload k)
      → decode_and_validate codec m (encode_token codec payload m.secret) (some token_type) later
        ≡ (if leb (timestamp (now + ttl)) (timestamp later) then err token_expired else ok claims)
unfolding decode_and_validate encode_token payload_of update claims_of
decode-encode codec m token_type subject jti ttl now later tenant claims safe decoded same =
    let payload = payload_of m token_type subject ttl now jti tenant [] in
    let head = codec.encode_json (("alg", text "HS256") ∷ ("typ", text "JWT") ∷ []) in
    let body = codec.encode_json payload in
    let input = str_append (str_append head ".") body in
    let signature = codec.sign input m.secret in
    let parts =
      split-three head body signature (safe.json_lacks _) (safe.json_lacks payload)
        (safe.sign_lacks _ _) in
    let found =
      same-Lookups payload claims (type_value token_type) (timestamp (now + ttl)) m.issuer
        m.audience same
        (named-Lookups _ subject jti (timestamp now) _ tenant m.issuer m.audience) in
    rw
      (
        parts,
        validate_segments,
        check_signature,
        safe.sign_ascii input m.secret,
        same_text signature,
        decoded,
      )
      (validate-Lookups m claims token_type (timestamp (now + ttl)) later found)
