-- ===== src/FeatureFlags/Audience.antt =====
-- Whom a flag is for and when, said of the definition's fields and not of the code's tests.
use eitoh_forge.Prelude.{
  ℕ, ◌≡◌, ◌↔◌, ◌⊎◌, ◌≤◌, ◌<◌, ◌%◌, inl, inr, refl, sym, ◌∙◌, String, str_append, true, Option, none,
  some, List, [], ◌∷◌, leb, ltb, arith, Bool-cases,
}
use eitoh_forge.Prelude.Int.{pos, ltℤ}
use eitoh_forge.Prelude.Text.{is_blank}
use eitoh_forge.Prelude.Given.{Given, Missing, Missing-none, Missing-some}
use eitoh_forge.Prelude.Sets.{has}
use eitoh_forge.FeatureFlags.{
  FeatureFlagDefinition, FeatureFlagTargetingContext, in_allowlist, passes_allowlist, in_window,
  or_else, subject_of,
}

-- Not before the start, and before the end, where the flag has them
abbrev pub InWindow : FeatureFlagDefinition → (now : ℕ) → Type 0
InWindow d now =
    ((start : ℕ) → d.starts_at ≡ some start → start ≤ now)
    × ((end : ℕ) → d.ends_at ≡ some end → now < end)

-- There is a value, and it is in the list.
abbrev pub Listed : Option String → List String → Type 0
Listed o allowlist = (s : String) × (o ≡ some s) × (has s allowlist ≡ true)

-- The actor, or else the tenant, or else "anonymous", where empty texts count as missing
abbrev pub IsSubject : FeatureFlagTargetingContext → String → Type 0
IsSubject c s =
    Given c.actor_id s
    ⊎ (Missing c.actor_id × (Given c.tenant_id s ⊎ (Missing c.tenant_id × (s ≡ "anonymous"))))

-- One of the flag's actors or tenants, or one with a listed environment and a listed cohort, where the
-- flag lists any, and a bucket below the percentage
abbrev pub Targets :
    (digest : String → ℕ) → FeatureFlagDefinition → FeatureFlagTargetingContext → Type 0
Targets digest d c =
    Listed c.actor_id d.actor_allowlist
    ⊎ (Listed c.tenant_id d.tenant_allowlist
        ⊎ (((d.environment_allowlist ≡ []) ⊎ Listed c.environment d.environment_allowlist)
            × ((d.cohort_allowlist ≡ []) ⊎ Listed c.cohort_id d.cohort_allowlist)
            × (s : String) × IsSubject c s
            × (ltℤ (pos (digest (str_append d.key (str_append ":" s)) % 100)) d.rollout_percentage
                ≡ true)))

begun :
    (o : Option ℕ) (now : ℕ)
    → (elim o [ none ↦ true | some at ↦ leb at now ] ≡ true)
      ↔ ((start : ℕ) → o ≡ some start → start ≤ now)
begun none now = ((λ h s e. absurd cc), λ h. refl)
begun (some at) now = ((λ h s e. ground (arith, h, e)), λ h. ground (arith, h at refl))

not_over :
    (o : Option ℕ) (now : ℕ)
    → (elim o [ none ↦ true | some at ↦ ltb now at ] ≡ true)
      ↔ ((end : ℕ) → o ≡ some end → now < end)
not_over none now = ((λ h s e. absurd cc), λ h. refl)
not_over (some at) now = ((λ h s e. ground (arith, h, e)), λ h. ground (arith, h at refl))

pub in_window-InWindow :
    (d : FeatureFlagDefinition) (now : ℕ) → (in_window d now ≡ true) ↔ InWindow d now
in_window-InWindow d now =
    let (a, b) = begun d.starts_at now in
    let (a', b') = not_over d.ends_at now in
    ((λ h. (a (ground (arith, h)), a' (ground (arith, h)))), λ (x, y). ground (arith, b x, b' y))

pub listed :
    (o : Option String) (allowlist : List String)
    → in_allowlist o allowlist ≡ true
    → Listed o allowlist
listed none allowlist h = absurd cc
listed (some s) allowlist h = (s, refl, h)

pub asked :
    (o : Option String) (allowlist : List String)
    → (passes_allowlist o allowlist ≡ true) ↔ ((allowlist ≡ []) ⊎ Listed o allowlist)
asked o [] = ((λ h. inl refl), λ h. refl)
asked o (x ∷ allowlist) = (
  (λ h. inr (listed o (x ∷ allowlist) h)),
  λ h. elim h [ inl e ↦ absurd cc | inr (s, e, i) ↦ rw e i ],
)

or_else-Missing : (o : Option String) (s : String) → Missing o → or_else o s ≡ s
or_else-Missing none s m = refl
or_else-Missing (some t) s m = ground (arith, m t refl)

or_else-Given : (o : Option String) (s t : String) → Given o t → or_else o s ≡ t
or_else-Given o s t (e, b) = rw e (ground (arith, b))

or_else_cases :
    (o : Option String) (s : String) → Given o (or_else o s) ⊎ (Missing o × (or_else o s ≡ s))
or_else_cases none s = inr (Missing-none, refl)
or_else_cases (some t) s = elim (Bool-cases (is_blank t)) [
  | inl e ↦ inr (Missing-some t e, ground (arith, e))
  | inr e ↦ inl (ground (arith, e))
]

pub subject_of-IsSubject : (c : FeatureFlagTargetingContext) → IsSubject c (subject_of c)
subject_of-IsSubject c =
    let rest = or_else c.tenant_id "anonymous" in
    elim (or_else_cases c.actor_id rest) [
      | inl g ↦ inl g
      | inr (m, e) ↦ elim (or_else_cases c.tenant_id "anonymous") [
        | inl g ↦ inr (m, inl (rw e g))
        | inr (m', e') ↦ inr (m, inr (m', e ∙ e'))
      ]
    ]

pub IsSubject-unique :
    (c : FeatureFlagTargetingContext) (s : String) → IsSubject c s → s ≡ subject_of c
IsSubject-unique c s (inl g) = sym (or_else-Given c.actor_id _ s g)
IsSubject-unique c s (inr (m, inl g)) =
    sym (or_else-Missing c.actor_id _ m ∙ or_else-Given c.tenant_id _ s g)
IsSubject-unique c s (inr (m, inr (m', e))) =
    e ∙ sym (or_else-Missing c.actor_id _ m ∙ or_else-Missing c.tenant_id _ m')
