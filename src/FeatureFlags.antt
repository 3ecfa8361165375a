-- ===== src/FeatureFlags.antt =====
-- src/eitohforge_sdk/core/feature_flags.py: the flags of a service and their staged rollout. Times are
-- microseconds since the epoch. `digest` is the number that the first eight hex digits of SHA-256 of a
-- text make.
pub mod Audience
pub mod Rollout
mod Tests
use eitoh_forge.Prelude.{
  ℕ, ◌%◌, min, String, str_append, Bool, true, false, not, ◌&&◌, ◌||◌, Option, none, some, List, [],
  ◌∷◌, if◌then◌else◌, leb, ltb, is_empty,
}
use eitoh_forge.Prelude.Text.{is_blank, strip}
use eitoh_forge.Prelude.Int.{ℤ, pos, negsuc}
use eitoh_forge.Prelude.Dict.{Dict, get, put}
use eitoh_forge.Prelude.Sets.{has}
use eitoh_forge.Prelude.Sort.{sorted}

pub record FeatureFlagDefinition : Type 0 where
  pub key : String
  pub enabled : Bool
  pub rollout_percentage : ℤ
  pub actor_allowlist : List String
  pub tenant_allowlist : List String
  pub environment_allowlist : List String
  pub cohort_allowlist : List String
  pub starts_at : Option ℕ
  pub ends_at : Option ℕ

pub record FeatureFlagTargetingContext : Type 0 where
  pub actor_id : Option String
  pub tenant_id : Option String
  pub environment : Option String
  pub cohort_id : Option String

-- FeatureFlagService.flags
abbrev pub Flags : Type 0
Flags = Dict FeatureFlagDefinition

-- FeatureFlagService.register; `none` is the ValueError
unfoldable pub register_flag : Flags → FeatureFlagDefinition → Option Flags
unfolding put strip
register_flag flags definition =
    let key = strip definition.key in if is_blank key then none else some (put flags key definition)

-- The loop of reload, with the flags when it ends and whether it ended without an exception
unfoldable pub register_all : Flags → List FeatureFlagDefinition → Bool × Flags
unfolding register_flag
register_all flags [] = (true, flags)
register_all flags (definition ∷ definitions) = elim (register_flag flags definition) [
  | none ↦ (false, flags)
  | some flags' ↦ register_all flags' definitions
]

-- FeatureFlagService.reload
abbrev pub reload_flags : Flags → List FeatureFlagDefinition → Bool × Flags
reload_flags flags definitions = register_all [] definitions

abbrev pub in_allowlist : Option String → List String → Bool
in_allowlist none allowlist = false
in_allowlist (some s) allowlist = has s allowlist

-- A targeted flag asks for a value in the list, one without a list does not ask.
abbrev pub passes_allowlist : Option String → List String → Bool
passes_allowlist o allowlist = if is_empty allowlist then true else in_allowlist o allowlist

-- Not before the start, and before the end
abbrev pub in_window : FeatureFlagDefinition → (now : ℕ) → Bool
in_window d now =
    elim d.starts_at [ none ↦ true | some at ↦ leb at now ]
    && elim d.ends_at [ none ↦ true | some at ↦ ltb now at ]

-- max(0, min(100, rollout_percentage))
abbrev pub clamped : ℤ → ℕ
clamped (pos n) = min 100 n
clamped (negsuc n) = 0

abbrev pub or_else : Option String → String → String
or_else none s = s
or_else (some t) s = if is_blank t then s else t

-- resolved.actor_id or resolved.tenant_id or "anonymous"
abbrev pub subject_of : FeatureFlagTargetingContext → String
subject_of c = or_else c.actor_id (or_else c.tenant_id "anonymous")

module _ (digest : String → ℕ) where
  -- _rollout_bucket
  unfoldable pub rollout_bucket : (flag_key subject : String) → ℕ
  rollout_bucket flag_key subject = digest (str_append flag_key (str_append ":" subject)) % 100

  abbrev pub rolled_out : FeatureFlagDefinition → FeatureFlagTargetingContext → Bool
  rolled_out d c =
      let rollout = clamped d.rollout_percentage in
      if leb 100 rollout
      then true
      else if leb rollout 0
      then false
      else ltb (rollout_bucket d.key (subject_of c)) rollout

  -- What evaluate does with a definition
  unfoldable pub evaluate_definition :
      FeatureFlagDefinition → FeatureFlagTargetingContext → (now : ℕ) → Bool
  unfolding rollout_bucket has
  evaluate_definition d c now =
      if not d.enabled
      then false
      else if not (in_window d now)
      then false
      else if in_allowlist c.actor_id d.actor_allowlist
      then true
      else if in_allowlist c.tenant_id d.tenant_allowlist
      then true
      else if not (passes_allowlist c.environment d.environment_allowlist)
      then false
      else if not (passes_allowlist c.cohort_id d.cohort_allowlist)
      then false
      else rolled_out d c

  -- FeatureFlagService.evaluate
  unfoldable pub evaluate_flag : Flags → String → FeatureFlagTargetingContext → (now : ℕ) → Bool
  unfolding get evaluate_definition
  evaluate_flag flags key c now = elim (get flags key) [
    | none ↦ false
    | some d ↦ evaluate_definition d c now
  ]

  abbrev pub flag_names : Flags → List String
  flag_names [] = []
  flag_names ((key, d) ∷ flags) = key ∷ flag_names flags

  abbrev evaluate_each : Flags → List String → FeatureFlagTargetingContext → (now : ℕ) → Dict Bool
  evaluate_each flags [] c now = []
  evaluate_each flags (key ∷ keys) c now =
      (key, evaluate_flag flags key c now) ∷ evaluate_each flags keys c now

  -- FeatureFlagService.evaluate_many, where each flag reads the clock as the same time
  unfoldable pub evaluate_many : Flags → FeatureFlagTargetingContext → (now : ℕ) → Dict Bool
  unfolding evaluate_flag sorted
  evaluate_many flags c now = evaluate_each flags (sorted (flag_names flags)) c now
