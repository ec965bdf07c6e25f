-- ===== src/Settings/Steps.antt =====
-- The step limits that an accepted step configuration resolves to.
use maintune.Base.{ℕ, ◌≤◌, ◌≡◌, ◌≢◌, ◌⊎◌, String, Option, none, some, arith, string_eq, nat_eq}
use maintune.Base.Result.{ok}
use maintune.Settings.Schemas.{StepConfig, StepsMode, steps_auto, steps_fixed}
use maintune.Settings.Checks.{valid_limits, valid_steps}
use maintune.Settings.Resolve.{step_limits, auto_step_limits}

auto_step_limits_ordered :
    (id : String)
    → (1 ≤ (auto_step_limits id).0) × ((auto_step_limits id).0 ≤ (auto_step_limits id).1)
unfolding auto_step_limits
auto_step_limits_ordered id = ground arith

-- Exactly one of the two limits is set.
abbrev pub IsHalfSet : StepConfig → Type 0
IsHalfSet s =
    (s.mode ≡ steps_auto)
    × (((s.soft_limit ≡ none) × (s.hard_limit ≢ none))
        ⊎ ((s.soft_limit ≢ none) × (s.hard_limit ≡ none)))

limits_ordered :
    (mode : StepsMode) (fixed soft hard : Option ℕ) (e t : ℕ) (id : String)
    → let s : StepConfig = record {
      mode = mode;
      fixed_steps = fixed;
      soft_limit = soft;
      hard_limit = hard;
      extension = e;
      loop_threshold = t;
    } in
      valid_steps s ≡ ok tt
      → (1 ≤ (step_limits id s).0) × (((step_limits id s).0 ≤ (step_limits id s).1) ⊎ IsHalfSet s)
unfolding valid_steps valid_limits step_limits
limits_ordered steps_auto fixed none none e t id h = ground (arith, auto_step_limits_ordered id)
limits_ordered steps_auto fixed (some soft) none e t id h =
    ground (arith, auto_step_limits_ordered id)
limits_ordered steps_auto fixed none (some hard) e t id h =
    ground (arith, auto_step_limits_ordered id)
limits_ordered steps_auto none (some soft) (some hard) e t id h =
    ground (arith, auto_step_limits_ordered id)
limits_ordered steps_auto (some f) (some soft) (some hard) e t id h =
    ground (arith, auto_step_limits_ordered id)
limits_ordered steps_fixed none soft hard e t id h = ground arith
limits_ordered steps_fixed (some f) none none e t id h = ground arith
limits_ordered steps_fixed (some f) (some soft) none e t id h = ground arith
limits_ordered steps_fixed (some f) none (some hard) e t id h = ground arith
limits_ordered steps_fixed (some f) (some soft) (some hard) e t id h = ground arith

-- The limits that an accepted step configuration resolves to for an agent are ordered, and the soft one is
-- at least 1, unless the mode is auto and exactly one of the two limits is set.
pub step_limits_ordered :
    (id : String) (s : StepConfig)
    → valid_steps s ≡ ok tt
    → (1 ≤ (step_limits id s).0) × (((step_limits id s).0 ≤ (step_limits id s).1) ⊎ IsHalfSet s)
step_limits_ordered id s h =
    limits_ordered s.mode s.fixed_steps s.soft_limit s.hard_limit s.extension s.loop_threshold id h
