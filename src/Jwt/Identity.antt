-- ===== src/Jwt/Identity.antt =====
-- The id of a refresh token does not depend on the manager that reads it, nor on the time.
use mathlib.Core.Option
use eitoh_forge.Prelude.{ℕ, ◌≡◌, refl, String, not, Option, none, some, List, [], ◌∷◌}
use eitoh_forge.Prelude.Text.{split}
use eitoh_forge.Prelude.Dict.{get}
use eitoh_forge.Prelude.Results.{Result, ok, err, ◌>>=◌, ◌>>◌}
use eitoh_forge.Jwt.{
  Codec, Claims, JwtError, TokenType, refresh, JwtTokenManager, as_text, jti_of, check, matches,
  type_value, exp_of, expired, timestamp, wrong_type, token_expired, wrong_issuer, wrong_audience,
  as_int, claims_of, validate_claims, check_signature, validate_segments, decode_and_validate,
  refresh_jti, no_jti, three_segments,
}

clash : {C B : Type 0} (e : JwtError) (b : B) → err e ≡ ok b → C
clash e b h = cc

then_ok :
    {A : Type 0} (m : Result JwtError (Unit {0})) (k : Result JwtError A) (a : A)
    → (m >> k) ≡ ok a
    → k ≡ ok a
then_ok (ok u) k a h = h
then_ok (err e) k a h = cc

bind_ok :
    {A B : Type 0} (m : Result JwtError A) (f : A → Result JwtError B) (b : B)
    → (m >>= f) ≡ ok b
    → (a : A) × (m ≡ ok a) × (f a ≡ ok b)
bind_ok (ok a) f b h = (a, refl, h)
bind_ok (err e) f b h = clash e b h

-- A result that is `p` where there is one.
abbrev Gives : {A : Type 0} → A → Result JwtError A → Type 0
Gives {A} p r = (c : A) → r ≡ ok c → p ≡ c

bind-Gives :
    {A B : Type 0} (p : B) (m : Result JwtError A) (f : A → Result JwtError B)
    → ((a : A) → Gives p (f a))
    → Gives p (m >>= f)
bind-Gives p (ok a) f h = h a
bind-Gives p (err e) f h = λ c k. clash e c k

ok_same : {A : Type 0} (p k : A) → (let r : Result JwtError A = ok p in r) ≡ ok k → p ≡ k
ok_same p k e = cc

validate_claims-same :
    (m : JwtTokenManager) (payload : Claims) (t : Option TokenType) (now : ℕ)
    → Gives payload (validate_claims m payload t now)
unfolding validate_claims
validate_claims-same m payload t now =
    bind-Gives payload (check (matches (Option.map type_value t) (get payload "typ")) wrong_type) _
      (λ a. bind-Gives payload (exp_of (as_int (get payload "exp"))) _ (λ exp.
        bind-Gives payload (check (not (expired exp (timestamp now))) token_expired) _ (λ b.
          bind-Gives payload (check (matches m.issuer (get payload "iss")) wrong_issuer) _ (λ c.
            bind-Gives payload (check (matches m.audience (get payload "aud")) wrong_audience)
              (λ u. ok payload) (λ d k e. ok_same payload k e)))))

jti_of_ok : (o : Option String) (jti : String) → jti_of o ≡ ok jti → o ≡ some jti
jti_of_ok none jti h = clash no_jti jti h
jti_of_ok (some j) jti h = cc

-- The id that the text of a token holds.
unfoldable segments_jti : Codec → List String → Option String
segments_jti codec (header ∷ payload ∷ signature ∷ []) =
    elim (claims_of (codec.decode_json payload)) [ ok c ↦ as_text (get c "jti") | err e ↦ none ]
segments_jti codec _ = none

jti_found :
    (codec : Codec) (m : JwtTokenManager) (parts : List String) (now : ℕ) (c : Claims)
    (jti : String)
    → validate_segments codec m parts (some refresh) now ≡ ok c
    → as_text (get c "jti") ≡ some jti
    → segments_jti codec parts ≡ some jti
unfolding validate_segments segments_jti
jti_found codec m [] now c jti h e = clash three_segments c h
jti_found codec m (a ∷ []) now c jti h e = clash three_segments c h
jti_found codec m (a ∷ b ∷ []) now c jti h e = clash three_segments c h
jti_found codec m (a ∷ b ∷ d ∷ []) now c jti h e =
    let (claims, f, g) =
      bind_ok (claims_of (codec.decode_json b)) (λ x. validate_claims m x (some refresh) now) c
        (then_ok (check_signature codec m a b d)
          (claims_of (codec.decode_json b) >>= λ x. validate_claims m x (some refresh) now) c h) in
    rw (f, segments_jti) (rw (validate_claims-same m claims (some refresh) now c g) e)
jti_found codec m (a ∷ b ∷ d ∷ x ∷ more) now c jti h e = clash three_segments c h

refresh_jti-found :
    (codec : Codec) (m : JwtTokenManager) (token : String) (now : ℕ) (jti : String)
    → refresh_jti codec m token now ≡ ok jti
    → segments_jti codec (split 46 token) ≡ some jti
unfolding refresh_jti decode_and_validate
refresh_jti-found codec m token now jti h =
    let (c, f, g) = bind_ok (decode_and_validate codec m token (some refresh) now) _ jti h in
    jti_found codec m (split 46 token) now c jti f (jti_of_ok _ jti g)

pub refresh_jti-same :
    (codec : Codec) (m m' : JwtTokenManager) (token : String) (now now' : ℕ) (jti jti' : String)
    → refresh_jti codec m token now ≡ ok jti
    → refresh_jti codec m' token now' ≡ ok jti'
    → jti ≡ jti'
refresh_jti-same codec m m' token now now' jti jti' h h' =
    let a = refresh_jti-found codec m token now jti h in
    let b = refresh_jti-found codec m' token now' jti' h' in cc
