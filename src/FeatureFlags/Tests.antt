-- ===== src/FeatureFlags/Tests.antt =====
-- A flag at a quarter of its rollout, and the theorems at it. Every digest is 37.
use eitoh_forge.Prelude.{ℕ, ◌≡◌, ◌↔◌, refl, String, true, false, none, some, [], ◌∷◌}
use eitoh_forge.Prelude.Int.{pos}
use eitoh_forge.Prelude.Dict.{get}
use eitoh_forge.Prelude.Text.{strip, lstrip, rstrip, isspace}
use eitoh_forge.Prelude.Sets.{has}
use eitoh_forge.FeatureFlags.{
  FeatureFlagDefinition, FeatureFlagTargetingContext, Flags, reload_flags, register_all,
  register_flag, rollout_bucket, evaluate_definition, evaluate_flag,
}
use eitoh_forge.FeatureFlags.Audience.{InWindow, Targets}
use eitoh_forge.FeatureFlags.Rollout.{evaluate_flag-Targets, evaluate_definition_mono}

abbrev digest : String → ℕ
digest s = 37

abbrev search_flag : FeatureFlagDefinition
search_flag = record {
  key = "search";
  enabled = true;
  rollout_percentage = pos 25;
  actor_allowlist = "ann" ∷ [];
  tenant_allowlist = [];
  environment_allowlist = "prod" ∷ [];
  cohort_allowlist = [];
  starts_at = some 10;
  ends_at = none;
}

abbrev flags : Flags
flags = ("search", search_flag) ∷ []

abbrev ann : FeatureFlagTargetingContext
ann = record { actor_id = some "ann"; tenant_id = none; environment = none; cohort_id = none }

abbrev bob : FeatureFlagTargetingContext
bob = record {
  actor_id = some "bob";
  tenant_id = none;
  environment = some "prod";
  cohort_id = none;
}

not_yet_bob : evaluate_flag digest flags "search" bob 20 ≡ false
unfolding evaluate_flag evaluate_definition rollout_bucket has get
not_yet_bob = refl

ann_is_on : evaluate_definition digest search_flag ann 20 ≡ true
unfolding evaluate_definition has
ann_is_on = refl

-- A definition without a key ends reload after the earlier flags are gone.
emptied : reload_flags flags (record search_flag { key = " " } ∷ []) ≡ (false, [])
unfolding register_all register_flag strip lstrip rstrip isspace
emptied = refl

evaluate_flag-Targets_example : (evaluate_flag digest flags "search" ann 20 ≡ true) ↔ (
    (d : FeatureFlagDefinition) × (get flags "search" ≡ some d)
    × (d.enabled ≡ true)
    × InWindow d 20
    × Targets digest d ann)
evaluate_flag-Targets_example = evaluate_flag-Targets digest flags "search" ann 20

evaluate_definition_mono_example :
    evaluate_definition digest (record search_flag { rollout_percentage = pos 50 }) ann 20 ≡ true
evaluate_definition_mono_example =
    evaluate_definition_mono digest search_flag (pos 50) ann 20 refl ann_is_on
