-- ===== src/Release.antt =====
-- vad/release: feature flags and the gates of a release.
pub mod Gates
use verified_agentic_develop.Prelude.{
  String, Bool, true, false, not, List, [], ◌∷◌, ◌++◌, Option, none, some, Result, ok, raise, ◌>>◌,
  value_error, runtime_error, ◌==◌, joined, if◌then◌else◌,
}
use verified_agentic_develop.Prelude.Float.{FloatOps}

-- `FeatureFlags`; the dictionary has its entries in the order of insertion
abbrev pub FeatureFlags : Type 0
FeatureFlags = List (String × Bool)

unfoldable pub set_flag : FeatureFlags → String → Bool → FeatureFlags
set_flag [] name value = (name, value) ∷ []
set_flag ((k, v) ∷ flags) name value =
    if k == name then (k, value) ∷ flags else (k, v) ∷ set_flag flags name value

unfoldable pub is_enabled : FeatureFlags → String → Bool → Bool
is_enabled [] name default = default
is_enabled ((k, v) ∷ flags) name default = if k == name then v else is_enabled flags name default

pub record RolloutGate (F : Type 0) : Type 0 where
  pub metric_name : String
  pub minimum_health_threshold : F

pub record ReleaseManager (F : Type 0) : Type 0 where
  pub flags : FeatureFlags
  pub gates : List (RolloutGate F)

-- a dictionary of metrics
unfoldable pub metric : {F : Type 0} → List (String × F) → String → Option F
metric [] name = none
metric ((k, v) ∷ metrics) name = if k == name then some v else metric metrics name

unfoldable pub add_gate : {F : Type 0} → ReleaseManager F → RolloutGate F → ReleaseManager F
add_gate m gate = record m { gates = m.gates ++ gate ∷ [] }

module _ {F : Type 0} ⦃fl : FloatOps F⦄ where
  rollback_error : RolloutGate F → F → String
  rollback_error gate val = joined (
      "Rollback triggered: '"
      ∷ gate.metric_name
      ∷ "' health ("
      ∷ fl.fshow val
      ∷ ") is below threshold ("
      ∷ fl.fshow gate.minimum_health_threshold
      ∷ ")."
      ∷ [])

  check_value : RolloutGate F → Option F → Result (Unit {0})
  unfolding rollback_error
  check_value gate none = ok tt
  check_value gate (some val) =
      if fl.flt val gate.minimum_health_threshold
      then raise (runtime_error (rollback_error gate val))
      else ok tt

  -- the loop over the gates; a gate whose metric is missing is passed over
  unfoldable pub check_gates : List (RolloutGate F) → List (String × F) → Result Bool
  unfolding check_value metric
  check_gates [] metrics = ok true
  check_gates (gate ∷ gates) metrics = do
    check_value gate (metric metrics gate.metric_name)
    check_gates gates metrics

  unfoldable pub evaluate_release :
      ReleaseManager F → String → List (String × F) → Bool → Result Bool
  unfolding check_gates
  evaluate_release m candidate_name metrics has_telemetry =
      if not has_telemetry
      then raise (
          value_error (
            joined (
              "Release candidate '" ∷ candidate_name ∷ "' rejected: Missing telemetry integration."
              ∷ [])))
      else if not (is_enabled m.flags candidate_name false)
      then raise (
          value_error (
            joined
              ("Release candidate '" ∷ candidate_name ∷ "' rejected: Feature flag is off." ∷ [])))
      else check_gates m.gates metrics
