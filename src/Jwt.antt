-- ===== src/Jwt.antt =====
-- src/eitohforge_sdk/core/auth/jwt.py: issue, validation and rotation of access and refresh tokens.
-- Times are microseconds since the epoch; each call of the clock is an argument, and so are the ids
-- that uuid4 gives. HMAC with base64url and JSON with base64url are the argument `Codec`.
pub mod Identity
pub mod RoundTrip
pub mod SingleUse
mod Tests
use mathlib.Core.Option
use eitoh_forge.Prelude.{
  ℕ, ◌+◌, ◌/◌, String, str_append, str_eq, Bool, true, false, not, ◌&&◌, ◌||◌, Option, none, some,
  List, [], ◌∷◌, if◌then◌else◌, leb, ltb,
}
use eitoh_forge.Prelude.Int.{ℤ, pos, negsuc}
use eitoh_forge.Prelude.Dict.{Dict, get, put}
use eitoh_forge.Prelude.Results.{Result, ok, err, ◌>>=◌, ◌>>◌}
use eitoh_forge.Prelude.Text.{length_of, is_ascii, split}

pub data TokenType : Type 0 where
  access refresh : TokenType

-- TokenType.value
unfoldable pub type_value : TokenType → String
type_value access = "access"
type_value refresh = "refresh"

-- A value of a JSON object, as far as the program looks at it.
pub data ClaimValue : Type 0 where
  text : String → ClaimValue
  int : ℤ → ClaimValue
  boolean : Bool → ClaimValue
  structure : String → ClaimValue

abbrev pub Claims : Type 0
Claims = Dict ClaimValue

pub data JwtError : Type 0 where
  three_segments bad_signature not_an_object wrong_type no_exp token_expired wrong_issuer : JwtError
  wrong_audience no_jti type_error token_replay session_expired short_secret not_base64url :
      JwtError
  -- `type_error` is hmac.compare_digest's, `not_json` is what json.loads and bytes.decode raise
  not_json : JwtError

-- What _decode_json returns or raises.
pub data Decoded : Type 0 where
  object : Claims → Decoded
  other_json : Decoded
  undecodable : JwtError → Decoded

-- `sign` is _sign, of the text and the secret; `encode_json` and `decode_json` are the functions of
-- those names.
pub record Codec : Type 0 where
  pub sign : String → String → String
  pub encode_json : Claims → String
  pub decode_json : String → Decoded

pub record RefreshTokenRecord : Type 0 where
  pub subject : String
  pub tenant_id : Option String
  pub expires_at : ℕ
  pub revoked : Bool

pub record TokenPair : Type 0 where
  pub access_token : String
  pub refresh_token : String

-- JwtTokenManager, with the records of its InMemoryRefreshTokenStore
pub record JwtTokenManager : Type 0 where
  pub secret : String
  pub access_ttl : ℕ
  pub refresh_ttl : ℕ
  pub issuer : Option String
  pub audience : Option String
  pub records : Dict RefreshTokenRecord

-- JwtTokenManager.__init__
unfoldable pub new_manager :
    (secret : String) (access_ttl refresh_ttl : ℕ) (issuer audience : Option String)
    → Result JwtError JwtTokenManager
new_manager secret access_ttl refresh_ttl issuer audience =
    if ltb (length_of secret) 32
    then err short_secret
    else ok (record {
      secret = secret;
      access_ttl = access_ttl;
      refresh_ttl = refresh_ttl;
      issuer = issuer;
      audience = audience;
      records = [];
    })

-- InMemoryRefreshTokenStore.put
unfoldable pub put_record : JwtTokenManager → String → RefreshTokenRecord → JwtTokenManager
put_record m jti r = record m { records = put m.records jti r }

-- InMemoryRefreshTokenStore.revoke
unfoldable pub revoke : JwtTokenManager → String → JwtTokenManager
unfolding put_record
revoke m jti = elim (get m.records jti) [
  | none ↦ m
  | some r ↦ put_record m jti (record r { revoked = true })
]

-- The readings of the clock in one rotation
pub record Times : Type 0 where
  pub validated : ℕ
  pub compared : ℕ
  pub access_issued : ℕ
  pub refresh_issued : ℕ

-- int(time.timestamp())
abbrev pub timestamp : ℕ → ℕ
timestamp time = time / 1000000

abbrev pub put_optional : Claims → String → Option String → Claims
put_optional claims key none = claims
put_optional claims key (some v) = put claims key (text v)

-- dict.update
unfoldable pub update : Claims → Claims → Claims
update claims [] = claims
update claims ((k, v) ∷ more) = update (put claims k v) more

-- The claims of a token that is issued at `now` with the id `jti`.
unfoldable pub payload_of :
    JwtTokenManager
    → TokenType
    → (subject : String) (ttl now : ℕ) (jti : String) (tenant_id : Option String)
      (additional_claims : Claims)
    → Claims
unfolding type_value update
payload_of m token_type subject ttl now jti tenant_id additional_claims =
    let base : Claims =
      ("sub", text subject)
      ∷ ("typ", text (type_value token_type))
      ∷ ("jti", text jti)
      ∷ ("iat", int (pos (timestamp now)))
      ∷ ("exp", int (pos (timestamp (now + ttl))))
      ∷ [] in
    let own =
      put_optional (put_optional (put_optional base "tenant_id" tenant_id) "iss" m.issuer) "aud"
        m.audience in
    update own additional_claims

-- f"{a}.{b}"
abbrev pub dotted : String → String → String
dotted a b = str_append (str_append a ".") b

-- isinstance(value, int)
abbrev pub as_int : Option ClaimValue → Option ℤ
as_int (some (int z)) = some z
as_int (some (boolean b)) = some (pos (if b then 1 else 0))
as_int _ = none

-- isinstance(value, str)
abbrev pub as_text : Option ClaimValue → Option String
as_text (some (text s)) = some s
as_text _ = none

abbrev pub is_text : Option ClaimValue → String → Bool
is_text v s = elim (as_text v) [ none ↦ false | some t ↦ str_eq t s ]

-- exp <= now_ts
abbrev pub expired : ℤ → ℕ → Bool
expired (pos e) now_ts = leb e now_ts
expired (negsuc e) now_ts = true

abbrev pub check : Bool → JwtError → Result JwtError (Unit {0})
check b e = if b then ok tt else err e

-- `expected is not None and payload.get(key) != expected` is the failure.
abbrev pub matches : Option String → Option ClaimValue → Bool
matches none v = true
matches (some s) v = is_text v s

-- The claims of a payload segment
unfoldable pub claims_of : Decoded → Result JwtError Claims
claims_of (object claims) = ok claims
claims_of other_json = err not_an_object
claims_of (undecodable e) = err e

abbrev pub exp_of : Option ℤ → Result JwtError ℤ
exp_of none = err no_exp
exp_of (some z) = ok z

abbrev pub jti_of : Option String → Result JwtError String
jti_of none = err no_jti
jti_of (some jti) = ok jti

-- The checks of decode_and_validate on the claims, in its order
unfoldable pub validate_claims :
    JwtTokenManager → Claims → Option TokenType → (now : ℕ) → Result JwtError Claims
unfolding type_value
validate_claims m payload expected_type now = do
  check (matches (Option.map type_value expected_type) (get payload "typ")) wrong_type
  exp ← exp_of (as_int (get payload "exp"))
  check (not (expired exp (timestamp now))) token_expired
  check (matches m.issuer (get payload "iss")) wrong_issuer
  check (matches m.audience (get payload "aud")) wrong_audience
  ok payload

module _ (codec : Codec) where
  -- _encode_token
  unfoldable pub encode_token : Claims → String → String
  encode_token payload secret =
      let header = codec.encode_json (("alg", text "HS256") ∷ ("typ", text "JWT") ∷ []) in
      let signing_input = dotted header (codec.encode_json payload) in
      dotted signing_input (codec.sign signing_input secret)

  -- hmac.compare_digest refuses a text that is not ASCII; what `sign` gives is ASCII.
  unfoldable pub check_signature :
      JwtTokenManager → (header payload signature : String) → Result JwtError (Unit {0})
  unfolding is_ascii
  check_signature m header payload signature =
      if is_ascii signature
      then check (str_eq (codec.sign (dotted header payload) m.secret) signature) bad_signature
      else err type_error

  unfoldable pub validate_segments :
      JwtTokenManager → List String → Option TokenType → (now : ℕ) → Result JwtError Claims
  unfolding check_signature claims_of validate_claims
  validate_segments m (header ∷ payload ∷ signature ∷ []) expected_type now = do
    check_signature m header payload signature
    claims ← claims_of (codec.decode_json payload)
    validate_claims m claims expected_type now
  validate_segments m _ expected_type now = err three_segments

  -- JwtTokenManager.decode_and_validate
  unfoldable pub decode_and_validate :
      JwtTokenManager → String → Option TokenType → (now : ℕ) → Result JwtError Claims
  unfolding split validate_segments
  decode_and_validate m token expected_type now =
      validate_segments m (split 46 token) expected_type now

  -- JwtTokenManager.issue_token_pair, with the times and the ids of the two tokens
  unfoldable pub issue_token_pair :
      JwtTokenManager
      → (now now' : ℕ) (jti jti' : String) (subject : String) (tenant_id : Option String)
        (additional_claims : Claims)
      → TokenPair × JwtTokenManager
  unfolding payload_of encode_token put_record
  issue_token_pair m now now' jti jti' subject tenant_id additional_claims =
      let token =
        encode_token (payload_of m access subject m.access_ttl now jti tenant_id additional_claims)
          m.secret in
      let token' =
        encode_token
          (payload_of m refresh subject m.refresh_ttl now' jti' tenant_id additional_claims)
          m.secret in
      (
        record { access_token = token; refresh_token = token' },
        put_record m jti' (record {
          subject = subject;
          tenant_id = tenant_id;
          expires_at = now' + m.refresh_ttl;
          revoked = false;
        }),
      )

  -- The claim `jti` of a valid refresh token
  unfoldable pub refresh_jti : JwtTokenManager → String → (now : ℕ) → Result JwtError String
  unfolding decode_and_validate
  refresh_jti m token now = do
    claims ← decode_and_validate m token (some refresh) now
    jti_of (as_text (get claims "jti"))

  -- What rotate_refresh_token does with the record of the token: the result, and the store.
  unfoldable pub rotate_record :
      JwtTokenManager
      → (jti : String) → Option RefreshTokenRecord
      → (times : Times) → (ids : String × String) → Result JwtError TokenPair × JwtTokenManager
  unfolding revoke issue_token_pair
  rotate_record m jti none times ids = (err token_replay, m)
  rotate_record m jti (some r) times (id, id') =
      let m' = revoke m jti in
      let (pair, m'') =
        issue_token_pair m' times.access_issued times.refresh_issued id id' r.subject r.tenant_id
          [] in
      if r.revoked
      then (err token_replay, m)
      else if leb r.expires_at times.compared
      then (err session_expired, m')
      else (ok pair, m'')

  -- JwtTokenManager.rotate_refresh_token
  unfoldable pub rotate_refresh_token :
      JwtTokenManager
      → String
      → Times
      → String × String
      → Result JwtError TokenPair × JwtTokenManager
  unfolding refresh_jti rotate_record
  rotate_refresh_token m token times ids = elim (refresh_jti m token times.validated) [
    | err e ↦ (err e, m)
    | ok jti ↦ rotate_record m jti (get m.records jti) times ids
  ]

  -- JwtTokenManager.revoke_refresh_token
  unfoldable pub revoke_refresh_token :
      JwtTokenManager → String → (now : ℕ) → Result JwtError (Unit {0}) × JwtTokenManager
  unfolding refresh_jti revoke
  revoke_refresh_token m token now = elim (refresh_jti m token now) [
    | err e ↦ (err e, m)
    | ok jti ↦ (ok tt, revoke m jti)
  ]
