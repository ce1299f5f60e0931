-- ===== src/Contracts.antt =====
-- vad/contracts/models.py: the Executable Intent Package. `F` is the type of floats.
pub mod Normalize
use verified_agentic_develop.Prelude.{
  ℕ, String, Bool, true, false, not, ◌&&◌, Option, List, Result, ok, raise, validation_error,
  if◌then◌else◌,
}

pub data RiskTier : Type 0 where
  low medium high : RiskTier

pub data AutonomyTier : Type 0 where
  manual assisted bounded autonomous : AutonomyTier

pub data ProofKind : Type 0 where
  unit_tests property contract security performance policy release telemetry manual_gate : ProofKind

unfoldable pub kind_value : ProofKind → String
kind_value unit_tests = "unit"
kind_value property = "property"
kind_value contract = "contract"
kind_value security = "security"
kind_value performance = "performance"
kind_value policy = "policy"
kind_value release = "release"
kind_value telemetry = "telemetry"
kind_value manual_gate = "manual_gate"

pub record Goal : Type 0 where
  pub description : String
  pub success_criteria : List String

pub record ProofObligation : Type 0 where
  pub id : String
  pub kind : ProofKind
  pub description : String

pub record Invariants : Type 0 where
  pub security : List String
  pub performance : List String
  pub functional : List String

pub record Constraints : Type 0 where
  pub security : List String
  pub privacy : List String
  pub operational : List String

pub record ToolPermissions : Type 0 where
  pub allowed : List String
  pub denied : List String

pub record MemoryRequirement : Type 0 where
  pub scope : String
  pub purpose : String
  pub max_payload_size : ℕ

pub record ModelBudget (F : Type 0) : Type 0 where
  pub max_tokens : ℕ
  pub max_cost : F
  pub max_loop_depth : ℕ

pub record ReleaseRequirements : Type 0 where
  pub required : Bool
  pub strategy : Option String
  pub gates : List String

pub record TelemetryRequirements : Type 0 where
  pub required : Bool
  pub signals : List String

pub record Eip (F : Type 0) : Type 0 where
  pub version : String
  pub name : String
  pub goal : Goal
  pub non_goals : List String
  pub risk_tier : RiskTier
  pub autonomy_tier : AutonomyTier
  pub scope_boundaries : List String
  pub invariants : Invariants
  pub constraints : Constraints
  pub proof_obligations : List ProofObligation
  pub tool_permissions : ToolPermissions
  pub memory_requirements : List MemoryRequirement
  pub model_budget : ModelBudget F
  pub release_requirements : ReleaseRequirements
  pub telemetry_requirements : TelemetryRequirements

-- the validator that runs after the fields of an EIP are read
unfoldable pub require_telemetry_for_release : {F : Type 0} → Eip F → Result (Eip F)
require_telemetry_for_release eip =
    if eip.release_requirements.required && not eip.telemetry_requirements.required
    then raise validation_error
    else ok eip
