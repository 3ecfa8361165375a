-- ===== src/Jwt/Tests.antt =====
-- Tokens of a toy codec, and the theorems at them.
use eitoh_forge.Prelude.{◌≡◌, refl, String, none, some, [], ◌∷◌}
use eitoh_forge.Prelude.Text.{split, is_ascii}
use eitoh_forge.Prelude.Dict.{get, put}
use eitoh_forge.Prelude.Int.{pos}
use eitoh_forge.Prelude.Results.{Result, ok, err}
use eitoh_forge.Jwt.{
  Codec, Claims, text, int, object, JwtError, type_error, TokenPair, refresh, type_value,
  JwtTokenManager, Times, revoke, put_record, payload_of, update, claims_of, validate_claims,
  check_signature, validate_segments, encode_token, decode_and_validate, issue_token_pair,
  refresh_jti, rotate_record, rotate_refresh_token,
}
use eitoh_forge.Jwt.RoundTrip.{IsUrlSafe, decode-encode}
use eitoh_forge.Jwt.SingleUse.{here, rotate-SingleUse}

abbrev empty_manager : JwtTokenManager
empty_manager = record {
  secret = "0123456789abcdef0123456789abcdef";
  access_ttl = 900000000;
  refresh_ttl = 604800000000;
  issuer = some "forge";
  audience = none;
  records = [];
}

abbrev refresh_claims : Claims
refresh_claims =
    ("sub", text "ada")
    ∷ ("typ", text "refresh")
    ∷ ("jti", text "j1")
    ∷ ("iat", int (pos 0))
    ∷ ("exp", int (pos 604800))
    ∷ ("iss", text "forge")
    ∷ []

-- It knows one payload.
abbrev toy : Codec
toy = record {
  sign = λ d s. "sig";
  encode_json = λ c. "seg";
  decode_json = λ s. object refresh_claims;
}

toy-IsUrlSafe : IsUrlSafe toy
unfolding is_ascii
toy-IsUrlSafe = record {
  json_lacks = λ c. refl;
  sign_lacks = λ d s. refl;
  sign_ascii = λ d s. refl;
}

abbrev issued : TokenPair × JwtTokenManager
issued = issue_token_pair toy empty_manager 0 0 "j0" "j1" "ada" none []

abbrev at_one : Times
at_one = record { validated = 1; compared = 2; access_issued = 3; refresh_issued = 4 }

abbrev token : String
token = "seg.seg.sig"

token_valid : refresh_jti toy issued.1 token 1 ≡ ok "j1"
unfolding refresh_jti decode_and_validate split validate_segments check_signature is_ascii claims_of
    validate_claims type_value get put issue_token_pair put_record
token_valid = refl

abbrev rotation : Result JwtError TokenPair × JwtTokenManager
rotation = rotate_refresh_token toy issued.1 token at_one ("j2", "j3")

rotation_fine : rotation ≡ (ok (record { access_token = token; refresh_token = token }), rotation.1)
unfolding rotate_refresh_token rotate_record revoke refresh_jti decode_and_validate split
    validate_segments check_signature is_ascii claims_of validate_claims type_value get put
    issue_token_pair put_record encode_token
rotation_fine = refl

-- A signature that is not ASCII makes the comparison raise TypeError.
not_ascii : decode_and_validate toy issued.1 "seg.seg.ü" none 1 ≡ err type_error
unfolding decode_and_validate split validate_segments check_signature is_ascii
not_ascii = refl

rotate-SingleUse_example :
    (e : JwtError) × (rotate_refresh_token toy rotation.1 token at_one ("j4", "j5")
      ≡ (err e, rotation.1))
rotate-SingleUse_example =
    rotate-SingleUse toy issued.1 rotation.1 rotation.1 token "j1" "j2" "j3" at_one at_one
      ("j4", "j5") (record { access_token = token; refresh_token = token }) token_valid refl
      rotation_fine here

toy_payload :
    (k : String)
    → get refresh_claims k
      ≡ get (payload_of empty_manager refresh "ada" 604800000000 0 "j1" none []) k
unfolding payload_of update type_value put
toy_payload k = refl

decode-encode_example :
    decode_and_validate toy empty_manager
      (encode_token toy
        (payload_of empty_manager refresh "ada" 604800000000 0 "j1" none [])
        empty_manager.secret)
      (some refresh)
      5
    ≡ ok refresh_claims
decode-encode_example =
    decode-encode toy empty_manager refresh "ada" "j1" 604800000000 0 5 none refresh_claims
      toy-IsUrlSafe refl toy_payload
