-- ===== src/Jwt/SingleUse.antt =====
-- A refresh token buys at most one rotation, whatever calls come after it.
use eitoh_forge.Prelude.{
  ℕ, ◌≡◌, refl, sym, ap, subst, ◌∙◌, String, str_eq, eq_iff, true, false, Option, some, [], leb,
  arith, inl, inr, Bool-cases, Option-cases, if_intro,
}
use eitoh_forge.Prelude.Dict.{get, get-put}
use eitoh_forge.Prelude.Results.{Result, ok, err, Result-cases}
use eitoh_forge.Jwt.Identity.{refresh_jti-same}
use eitoh_forge.Jwt.{
  Codec, Claims, JwtError, token_replay, session_expired, RefreshTokenRecord, TokenPair,
  JwtTokenManager, Times, put_record, revoke, issue_token_pair, refresh_jti, rotate_record,
  rotate_refresh_token, revoke_refresh_token,
}

-- The record of the id is there, and revoked.
abbrev pub Spent : String → JwtTokenManager → Type 0
Spent jti m = (r : RefreshTokenRecord) × (get m.records jti ≡ some r) × (r.revoked ≡ true)

Spent-put :
    (jti j : String) (m : JwtTokenManager) (r : RefreshTokenRecord)
    → str_eq j jti ≡ false
    → Spent jti m
    → Spent jti (put_record m j r)
unfolding put_record
Spent-put jti j m r ne (old, e, spent) = (old, get-put m.records j jti r ∙ rw ne e, spent)

revoke-Spent :
    (jti : String) (m : JwtTokenManager) (r : RefreshTokenRecord)
    → get m.records jti ≡ some r
    → Spent jti (revoke m jti)
unfolding revoke put_record
revoke-Spent jti m r e =
    let same : str_eq jti jti ≡ true = ground (arith, eq_iff jti jti) in
    (
      record r { revoked = true },
      rw (e, revoke) (get-put m.records jti jti (record r { revoked = true }) ∙ rw same refl),
      refl,
    )

Spent-revoke : (jti j : String) (m : JwtTokenManager) → Spent jti m → Spent jti (revoke m j)
unfolding revoke put_record
Spent-revoke jti j m (old, e, spent) = elim (Option-cases (get m.records j)) [
  | inl f ↦ rw (f, revoke) (old, e, spent)
  | inr (r, f) ↦
      let kept = get-put m.records j jti (record r { revoked = true }) in
      elim (Bool-cases (str_eq j jti)) [
        | inl same ↦ rw (f, revoke) (record r { revoked = true }, kept ∙ rw same refl, refl)
        | inr differs ↦ rw (f, revoke) (old, kept ∙ rw differs e, spent)
      ]
]

module _ (codec : Codec) where
  Spent-issue :
      (jti id id' subject : String) (m : JwtTokenManager) (now now' : ℕ) (tenant : Option String)
      (claims : Claims)
      → str_eq id' jti ≡ false
      → Spent jti m
      → Spent jti (issue_token_pair codec m now now' id id' subject tenant claims).1
  unfolding issue_token_pair
  Spent-issue jti id id' subject m now now' tenant claims ne spent = Spent-put jti id' m _ ne spent

  Spent-rotate :
      (jti token : String) (m : JwtTokenManager) (times : Times) (id id' : String)
      → str_eq id' jti ≡ false
      → Spent jti m
      → Spent jti (rotate_refresh_token codec m token times (id, id')).1
  unfolding rotate_refresh_token
  Spent-rotate jti token m times id id' ne spent =
      elim (Result-cases (refresh_jti codec m token times.validated)) [
        | inl (j, e) ↦
            rw (e, rotate_refresh_token)
              (elim (Option-cases (get m.records j)) [
                | inl f ↦ rw (f, rotate_record) spent
                | inr (r, f) ↦
                    let after = Spent-revoke jti j m spent in
                    rw (f, rotate_record)
                      (if_intro (λ (x : Result JwtError TokenPair × JwtTokenManager). Spent jti x.1)
                        r.revoked _ _ (λ a. spent)
                        (λ a.
                          if_intro
                            (λ (x : Result JwtError TokenPair × JwtTokenManager). Spent jti x.1)
                            (leb r.expires_at times.compared) _ _ (λ b. after)
                            (λ b.
                              Spent-issue jti id id' r.subject (revoke m j) times.access_issued
                                times.refresh_issued r.tenant_id [] ne after)))
              ])
        | inr (x, e) ↦ rw (e, rotate_refresh_token) spent
      ]

  Spent-revoke_refresh :
      (jti token : String) (m : JwtTokenManager) (now : ℕ)
      → Spent jti m
      → Spent jti (revoke_refresh_token codec m token now).1
  unfolding revoke_refresh_token
  Spent-revoke_refresh jti token m now spent = elim (Result-cases (refresh_jti codec m token now)) [
    | inl (j, e) ↦ rw (e, revoke_refresh_token) (Spent-revoke jti j m spent)
    | inr (x, e) ↦ rw (e, revoke_refresh_token) spent
  ]

  -- The managers that calls make of `m`, none of which draws the id `jti` for a new refresh token.
  pub data Later (jti : String) (m : JwtTokenManager) : JwtTokenManager → Type 0 where
    here : Later jti m m
    issued :
        (m' : JwtTokenManager) (now now' : ℕ) (id id' subject : String) (tenant : Option String)
        (claims : Claims)
        → Later jti m m'
        → str_eq id' jti ≡ false
        → Later jti m (issue_token_pair codec m' now now' id id' subject tenant claims).1
    rotated :
        (m' : JwtTokenManager) (token : String) (times : Times) (id id' : String)
        → Later jti m m'
        → str_eq id' jti ≡ false
        → Later jti m (rotate_refresh_token codec m' token times (id, id')).1
    revoked_token :
        (m' : JwtTokenManager) (token : String) (now : ℕ)
        → Later jti m m'
        → Later jti m (revoke_refresh_token codec m' token now).1

  Spent-Later :
      (jti : String) (m m' : JwtTokenManager) → Later jti m m' → Spent jti m → Spent jti m'
  Spent-Later jti m _ here s = s
  Spent-Later jti m _ (issued m' now now' id id' subject tenant claims l ne) s =
      Spent-issue jti id id' subject m' now now' tenant claims ne (Spent-Later jti m m' l s)
  Spent-Later jti m _ (rotated m' token times id id' l ne) s =
      Spent-rotate jti token m' times id id' ne (Spent-Later jti m m' l s)
  Spent-Later jti m _ (revoked_token m' token now l) s =
      Spent-revoke_refresh jti token m' now (Spent-Later jti m m' l s)

  Spent-rotation :
      (jti : String) (m : JwtTokenManager) (times : Times) (ids : String × String)
      → Spent jti m
      → rotate_record codec m jti (get m.records jti) times ids ≡ (err token_replay, m)
  unfolding rotate_record
  Spent-rotation jti m times ids (r, e, spent) = rw (e, spent) refl

  refused :
      (x : JwtError) (m m' : JwtTokenManager) (pair : TokenPair) (C : Type 0)
      → (let left : Result JwtError TokenPair × JwtTokenManager = (err x, m) in left)
        ≡ (ok pair, m')
      → C
  refused x m m' pair C e = let h : err x ≡ ok pair = ap (λ r. r.0) e in cc

  -- What a rotation that succeeds has found and left.
  rotation-Spent :
      (m m' : JwtTokenManager) (token jti id id' : String) (times : Times) (pair : TokenPair)
      → refresh_jti codec m token times.validated ≡ ok jti
      → str_eq id' jti ≡ false
      → rotate_refresh_token codec m token times (id, id') ≡ (ok pair, m')
      → Spent jti m'
  unfolding rotate_refresh_token rotate_record
  rotation-Spent m m' token jti id id' times pair valid ne e =
      let e' : rotate_record codec m jti (get m.records jti) times (id, id') ≡ (ok pair, m') =
        sym (
          let same : rotate_refresh_token codec m token times (id, id')
              ≡ rotate_record codec m jti (get m.records jti) times (id, id') =
            rw (valid, rotate_refresh_token) refl in
          same)
        ∙ e in
      elim (Option-cases (get m.records jti)) [
        | inl f ↦ refused token_replay m m' pair _ (sym (rw (f, rotate_record) refl) ∙ e')
        | inr (r, f) ↦
            let (pair', next) =
              issue_token_pair codec (revoke m jti) times.access_issued times.refresh_issued id id'
                r.subject r.tenant_id [] in
            elim (Bool-cases r.revoked) [
              | inl a ↦ refused token_replay m m' pair _ (sym (rw (f, rotate_record, a) refl) ∙ e')
              | inr a ↦ elim (Bool-cases (leb r.expires_at times.compared)) [
                | inl b ↦
                    refused session_expired (revoke m jti) m' pair _
                      (sym (rw (f, rotate_record, a, b) refl) ∙ e')
                | inr b ↦
                    let done : rotate_record codec m jti (get m.records jti) times (id, id')
                        ≡ (ok pair', next) =
                      rw (f, rotate_record, a, b) refl in
                    subst (Spent jti) (ap (λ x. x.1) (sym done ∙ e')) (
                      Spent-issue jti id id' r.subject (revoke m jti) times.access_issued
                        times.refresh_issued r.tenant_id [] ne (revoke-Spent jti m r f))
              ]
            ]
      ]

  -- After a rotation that succeeds, and any later calls that do not draw the id of the token again:
  -- a rotation of the same token returns no tokens and changes nothing, whenever it comes.
  pub rotate-SingleUse :
      (m m' later : JwtTokenManager) (token jti id id' : String) (times again : Times)
      (ids : String × String) (pair : TokenPair)
      → refresh_jti codec m token times.validated ≡ ok jti
      → str_eq id' jti ≡ false
      → rotate_refresh_token codec m token times (id, id') ≡ (ok pair, m')
      → Later jti m' later
      → (e : JwtError) × (rotate_refresh_token codec later token again ids ≡ (err e, later))
  unfolding rotate_refresh_token
  rotate-SingleUse m m' later token jti id id' times again ids pair valid ne e calls =
      let spent =
        Spent-Later jti m' later calls
          (rotation-Spent m m' token jti id id' times pair valid ne e) in
      elim (Result-cases (refresh_jti codec later token again.validated)) [
        | inl (j, f) ↦
            let same =
              refresh_jti-same codec m later token times.validated again.validated jti j valid f in
            (
              token_replay,
              rw (f, rotate_refresh_token, sym same) (Spent-rotation jti later again ids spent),
            )
        | inr (x, f) ↦ (x, rw (f, rotate_refresh_token) refl)
      ]
