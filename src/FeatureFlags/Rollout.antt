-- ===== src/FeatureFlags/Rollout.antt =====
-- When a flag is on, and that a rollout only adds subjects.
use eitoh_forge.Prelude.{
  ℕ, ◌≡◌, ◌↔◌, ◌⊎◌, ◌≤◌, inl, inr, refl, sym, subst, ◌∙◌, String, true, false, none, some, ltb,
  arith, ◌%◌, Option-cases,
}
use eitoh_forge.Prelude.Int.{ℤ, pos, negsuc, ltℤ}
use eitoh_forge.Prelude.Dict.{get}
use eitoh_forge.FeatureFlags.Audience.{
  InWindow, Targets, in_window-InWindow, listed, asked, subject_of-IsSubject, IsSubject-unique,
}
use eitoh_forge.FeatureFlags.{
  FeatureFlagDefinition, FeatureFlagTargetingContext, Flags, in_allowlist, passes_allowlist,
  in_window, clamped, subject_of, rollout_bucket, rolled_out, evaluate_definition, evaluate_flag,
}

bucket_below : (n : ℕ) → n % 100 ≤ 99
bucket_below n = omega arith

clamped_lem : (b : ℕ) (p : ℤ) → b ≤ 99 → ltb b (clamped p) ≡ ltℤ (pos b) p
clamped_lem b (pos n) h = ground (arith, h)
clamped_lem b (negsuc n) h = ground (arith, h)

clamped_mono : (a b : ℤ) → ltℤ b a ≡ false → clamped a ≤ clamped b
clamped_mono (pos a) (pos b) h = ground (arith, h)
clamped_mono (pos a) (negsuc b) h = absurd (ground (arith, h))
clamped_mono (negsuc a) b h = omega arith

module _ (digest : String → ℕ) where
  abbrev pub Admits : FeatureFlagDefinition → FeatureFlagTargetingContext → Type 0
  Admits d c =
      (in_allowlist c.actor_id d.actor_allowlist ≡ true)
      ⊎ ((in_allowlist c.tenant_id d.tenant_allowlist ≡ true)
          ⊎ ((passes_allowlist c.environment d.environment_allowlist ≡ true)
              × (passes_allowlist c.cohort_id d.cohort_allowlist ≡ true)
              × (ltb (rollout_bucket digest d.key (subject_of c)) (clamped d.rollout_percentage)
                  ≡ true)))

  rolled_out_lem :
      (d : FeatureFlagDefinition) (c : FeatureFlagTargetingContext)
      → rolled_out digest d c
        ≡ ltb (rollout_bucket digest d.key (subject_of c)) (clamped d.rollout_percentage)
  unfolding rollout_bucket
  rolled_out_lem d c = ground arith

  evaluate_definition-Admits :
      (d : FeatureFlagDefinition) (c : FeatureFlagTargetingContext) (now : ℕ)
      → (evaluate_definition digest d c now ≡ true)
        ↔ ((d.enabled ≡ true) × (in_window d now ≡ true) × Admits d c)
  unfolding evaluate_definition
  evaluate_definition-Admits d c now = ground (arith, rolled_out_lem d c)

  found_flag :
      (flags : Flags) (key : String) (c : FeatureFlagTargetingContext) (now : ℕ)
      (d : FeatureFlagDefinition)
      → get flags key ≡ some d
      → evaluate_flag digest flags key c now ≡ evaluate_definition digest d c now
  unfolding evaluate_flag
  found_flag flags key c now d e = rw (evaluate_flag, e) refl

  missing_flag :
      (flags : Flags) (key : String) (c : FeatureFlagTargetingContext) (now : ℕ)
      → get flags key ≡ none
      → evaluate_flag digest flags key c now ≡ false
  unfolding evaluate_flag
  missing_flag flags key c now e = rw (evaluate_flag, e) refl

  Admits→Targets :
      (d : FeatureFlagDefinition) (c : FeatureFlagTargetingContext)
      → Admits d c
      → Targets digest d c
  unfolding rollout_bucket
  Admits→Targets d c (inl a) = inl (listed _ _ a)
  Admits→Targets d c (inr (inl t)) = inr (inl (listed _ _ t))
  Admits→Targets d c (inr (inr (e, h, b))) = inr (
      inr (
        (asked _ _).0 e,
        (asked _ _).0 h,
        subject_of c,
        subject_of-IsSubject c,
        sym (clamped_lem _ d.rollout_percentage (bucket_below _)) ∙ b,
      ))

  Targets→Admits :
      (d : FeatureFlagDefinition) (c : FeatureFlagTargetingContext)
      → Targets digest d c
      → Admits d c
  unfolding rollout_bucket
  Targets→Admits d c (inl (a, e, h)) = inl (rw e h)
  Targets→Admits d c (inr (inl (t, e, h))) = inr (inl (rw e h))
  Targets→Admits d c (inr (inr (e, h, s, i, b))) = inr (
      inr (
        (asked _ _).1 e,
        (asked _ _).1 h,
        subst (λ t. ltb (rollout_bucket digest d.key t) (clamped d.rollout_percentage) ≡ true)
            (IsSubject-unique c s i) (clamped_lem _ d.rollout_percentage (bucket_below _) ∙ b),
      ))

  -- A flag is on for a context exactly if it is registered and enabled, the time is not before its
  -- start and before its end, where it has them, and the context has one of its actors or tenants, or
  -- else has a listed environment and a listed cohort, where the flag lists any, and a subject (its
  -- actor, or else its tenant, or else "anonymous") whose bucket, the digest of the key, a colon and
  -- the subject modulo 100, is below the percentage.
  pub evaluate_flag-Targets :
      (flags : Flags) (key : String) (c : FeatureFlagTargetingContext) (now : ℕ)
      → (evaluate_flag digest flags key c now ≡ true) ↔ (
          (d : FeatureFlagDefinition) × (get flags key ≡ some d)
          × (d.enabled ≡ true)
          × InWindow d now
          × Targets digest d c)
  evaluate_flag-Targets flags key c now = (
    (λ h. elim (Option-cases (get flags key)) [
      | inl e ↦ absurd (ground (arith, h, missing_flag flags key c now e))
      | inr (d, e) ↦
          let (a, b, t) =
            (evaluate_definition-Admits d c now).0 (sym (found_flag flags key c now d e) ∙ h) in
          (d, e, a, (in_window-InWindow d now).0 b, Admits→Targets d c t)
    ]),
    λ (d, e, a, b, t).
        found_flag flags key c now d e
        ∙ (evaluate_definition-Admits d c now).1
            (a, (in_window-InWindow d now).1 b, Targets→Admits d c t),
  )

  -- At one time, a flag that is on for a context stays on when its percentage is raised.
  pub evaluate_definition_mono :
      (d : FeatureFlagDefinition) (more : ℤ) (c : FeatureFlagTargetingContext) (now : ℕ)
      → ltℤ more d.rollout_percentage ≡ false
      → evaluate_definition digest d c now ≡ true
      → evaluate_definition digest (record d { rollout_percentage = more }) c now ≡ true
  evaluate_definition_mono d more c now h e =
      let d' = record d { rollout_percentage = more } in
      let wider = clamped_mono d.rollout_percentage more h in
      ground (
        arith,
        wider,
        (evaluate_definition-Admits d c now).0 e,
        (evaluate_definition-Admits d' c now).1,
      )
