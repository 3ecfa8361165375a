-- ===== src/Sessions/Keeps.antt =====
-- Creation and revocation keep the index in step with the records.
use eitoh_forge.Prelude.{
  ℕ, ◌≡◌, refl, sym, ap, ◌∙◌, String, str_eq, eq_iff, Bool, true, false, Option, none, some,
  is_some, List, [], ◌∷◌, if◌then◌else◌, arith, inl, inr, ◌⊎◌, Bool-cases, Option-cases, if_intro,
}
use eitoh_forge.Prelude.Dict.{Dict, get, put, get-put}
use eitoh_forge.Sessions.{
  SessionRecord, InMemorySessionStore, mem_id, index_of, put_session, revoked_record,
  revoke_session, revoke_each,
}
use eitoh_forge.Sessions.Revoke.{has_id, revoked_found, get-revoke_each}
use eitoh_forge.Sessions.Index.{Indexed, mem_id-add_id, index_of-put}

pub clash_none : {C : Type 0} (r : SessionRecord) → none ≡ some r → C
clash_none r e = cc

-- A session of a store with a new record is the new one, or was there.
found_after :
    (s : InMemorySessionStore) (r : SessionRecord) (id : String) (x : SessionRecord)
    → get (put s.records r.session_id r) id ≡ some x
    → ((r.session_id ≡ id) × (r ≡ x))
      ⊎ ((str_eq r.session_id id ≡ false) × (get s.records id ≡ some x))
found_after s r id x e =
    let found = get-put s.records r.session_id id r in
    elim (Bool-cases (str_eq r.session_id id)) [
      | inl same ↦
          let new : some r ≡ some x = sym (found ∙ rw same refl) ∙ e in
          inl (ground (arith, eq_iff r.session_id id), cc)
      | inr other ↦ inr (other, sym (found ∙ rw other refl) ∙ e)
    ]

mem_after :
    (s : InMemorySessionStore) (r : SessionRecord) (id subject : String)
    → mem_id id (index_of (put_session s r) subject) ≡ (
        if str_eq r.subject subject
        then (if mem_id id (index_of s r.subject) then true else str_eq r.session_id id)
        else mem_id id (index_of s subject))
mem_after s r id subject =
    ap (mem_id id) (index_of-put s r subject) ∙ elim (Bool-cases (str_eq r.subject subject)) [
      | inl same ↦ rw same (mem_id-add_id id r.session_id (index_of s r.subject))
      | inr other ↦ rw other refl
    ]

pub put_session-Indexed :
    (s : InMemorySessionStore) (r : SessionRecord)
    → get s.records r.session_id ≡ none
    → Indexed s
    → Indexed (put_session s r)
unfolding put_session
put_session-Indexed s r fresh i = record {
  keyed = λ id x e. elim (found_after s r id x e) [
    | inl (same, new) ↦ sym (ap (λ y. y.session_id) new) ∙ same
    | inr (other, old) ↦ i.keyed id x old
  ];
  complete = λ id x e. mem_after s r id x.subject ∙ elim (found_after s r id x e) [
    | inl (same, new) ↦
        ground (arith, eq_iff r.session_id id, eq_iff r.subject x.subject, ap (λ y. y.subject) new)
    | inr (other, old) ↦ ground (arith, i.complete id x old, eq_iff r.subject x.subject)
  ];
  sound = λ id subject m.
      let found = get-put s.records r.session_id id r in
      let named = sym (mem_after s r id subject) ∙ m in
      elim (Bool-cases (str_eq r.session_id id)) [
        | inl same ↦ elim (Bool-cases (str_eq r.subject subject)) [
          | inl mine ↦ (r, found ∙ rw same refl, ground (arith, eq_iff r.subject subject))
          | inr theirs ↦
              let (x, there, _) = i.sound id subject (ground (arith, named)) in
              clash_none x (
                let here : r.session_id ≡ id = ground (arith, eq_iff r.session_id id) in
                sym fresh ∙ ap (get s.records) here ∙ there)
        ]
        | inr other ↦
            let old : mem_id id (index_of s subject) ≡ true =
              ground (arith, named, eq_iff r.subject subject) in
            let (x, there, whose) = i.sound id subject old in (x, found ∙ rw other there, whose)
      ];
}

subject_index-revoke_each :
    (s : InMemorySessionStore) (rs : List SessionRecord) (now : ℕ)
    → (revoke_each s rs now).1.subject_index ≡ s.subject_index
unfolding revoke_each
subject_index-revoke_each s [] now = refl
subject_index-revoke_each s (r ∷ rs) now =
    subject_index-revoke_each (revoke_session s r.session_id now).1 rs now
    ∙ elim (Option-cases (get s.records r.session_id)) [
      | inl e ↦ rw (e, revoke_session) refl
      | inr (x, e) ↦ rw (e, revoke_session) refl
    ]

revoked_same :
    (now : ℕ) (x : SessionRecord) (f : SessionRecord → String)
    → ((t : Option ℕ) → f (record x { revoked_at = t }) ≡ f x)
    → f (revoked_record now x) ≡ f x
unfolding revoked_record
revoked_same now x f h =
    if_intro (λ y. f y ≡ f x) (is_some x.revoked_at) x (record x { revoked_at = some now })
      (λ e. refl) (λ e. h (some now))

-- A record after revocations, and the record that it was.
was :
    (now : ℕ) (b : Bool) (o : Option SessionRecord) (r : SessionRecord)
    → (if b then revoked_found now o else o) ≡ some r
    → (x : SessionRecord) × (o ≡ some x) × (r.session_id ≡ x.session_id) × (r.subject ≡ x.subject)
unfolding revoked_record
was now false none r e = clash_none r e
was now true none r e = clash_none r e
was now false (some x) r e = (
  x,
  refl,
  (let h : x ≡ r = cc in sym (ap (λ y. y.session_id) h)),
  (let h : x ≡ r = cc in sym (ap (λ y. y.subject) h)),
)
was now true (some x) r e =
    let h : revoked_record now x ≡ r = cc in
    (
      x,
      refl,
      sym (ap (λ y. y.session_id) h) ∙ revoked_same now x (λ y. y.session_id) (λ t. refl),
      sym (ap (λ y. y.subject) h) ∙ revoked_same now x (λ y. y.subject) (λ t. refl),
    )

pub revoke_each-Indexed :
    (s : InMemorySessionStore) (rs : List SessionRecord) (now : ℕ)
    → Indexed s
    → Indexed (revoke_each s rs now).1
unfolding index_of
revoke_each-Indexed s rs now i =
    let s' = (revoke_each s rs now).1 in
    let index = subject_index-revoke_each s rs now in
    let lists = λ (subject : String).
      ap
        (λ (d : Dict (List String)). elim (get d subject) as (λ x. List String) [
          | none ↦ []
          | some ids ↦ ids
        ])
        index in
    let before = λ (id : String) (r : SessionRecord) (e : get s'.records id ≡ some r).
      was now (has_id id rs) (get s.records id) r (sym (get-revoke_each s rs id now) ∙ e) in
    record {
      keyed = λ id r e. let (x, f, same, _) = before id r e in same ∙ i.keyed id x f;
      complete = λ id r e.
          let (x, f, _, whose) = before id r e in
          ap (mem_id id) (lists r.subject ∙ ap (index_of s) whose) ∙ i.complete id x f;
      sound = λ id subject m.
          let (x, f, whose) = i.sound id subject (sym (ap (mem_id id) (lists subject)) ∙ m) in
          elim (Bool-cases (has_id id rs)) [
            | inl b ↦ (
              revoked_record now x,
              get-revoke_each s rs id now ∙ rw (b, f) refl,
              revoked_same now x (λ y. y.subject) (λ t. refl) ∙ whose,
            )
            | inr b ↦ (x, get-revoke_each s rs id now ∙ rw (b, f) refl, whose)
          ];
    }
