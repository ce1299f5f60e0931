-- ===== src/Policy.antt =====
-- vad/policy: the decision record and the engine that asks the rules for it. The `opa` command that
-- `PolicyEngine.evaluate` runs is no part of the repository, so the answer to a query is a parameter.
pub mod Decisions
pub mod Deployment
use verified_agentic_develop.Prelude.Int.{ℤ, is_not_positive}
use verified_agentic_develop.Prelude.{
  ℕ, String, Bool, true, false, not, ◌&&◌, Option, none, some, List, [], ◌∷◌, ◌++◌, Result, ok,
  raise, ◌>>=◌, ◌==◌, eqb, if◌then◌else◌,
}

pub record PolicyDecision : Type 0 where
  pub allow : Bool
  pub reasons : List String
  pub denials : List String
  pub requires_human : Bool

-- a value that a query gives: `None`, a Boolean, or another value by its truth in a test
pub data Value : Type 0 where
  missing : Value
  boolean : Bool → Value
  other : Bool → Value

-- `value is True`
abbrev pub is_true : Value → Bool
is_true (boolean b) = b
is_true _ = false

-- the JSON object that is the input of a query
abbrev pub Input : Type 0
Input = List (String × String)

-- `PolicyEngine.evaluate` at a policy file: a query and an input give a value or an exception
abbrev pub Evaluate : Type 0
Evaluate = String → Input → Result Value

abbrev pub deny_queries : List (String × String)
deny_queries =
    ("data.vad.policy.deny_builder_self_approval", "builder may not self-approve")
    ∷ ("data.vad.policy.deny_unauthorized_tool", "tool access denied")
    ∷ ("data.vad.policy.deny_model_tier", "model tier denied")
    ∷ ("data.vad.policy.deny_memory_scope", "memory scope denied")
    ∷ ("data.vad.policy.deny_unauthorized_delegation", "delegation capability denied")
    ∷ []

abbrev pub allow_query : String
allow_query = "data.vad.policy.allow"

-- the list comprehension over the deny queries
unfoldable pub collect_denials : Evaluate → Input → List (String × String) → Result (List String)
collect_denials evaluate input [] = ok []
collect_denials evaluate input ((query, reason) ∷ queries) = do
  value ← evaluate query input
  rest ← collect_denials evaluate input queries
  ok (if is_true value then reason ∷ rest else rest)

-- what is decided once the denials are collected
unfoldable pub decide_allow : Evaluate → Input → List String → Result PolicyDecision
decide_allow evaluate input [] = do
  value ← evaluate allow_query input
  ok (record {
    allow = is_true value;
    reasons = if is_true value then "policy allow rule matched" ∷ [] else [];
    denials = if is_true value then [] else "no allow rule matched" ∷ [];
    requires_human = false;
  })
decide_allow evaluate input (d ∷ ds) =
    ok (record { allow = false; reasons = []; denials = d ∷ ds; requires_human = false })

unfoldable pub evaluate_decision : Evaluate → Input → Result PolicyDecision
evaluate_decision evaluate input = do
  denials ← collect_denials evaluate input deny_queries
  decide_allow evaluate input denials

unfoldable pub evaluate_dependency_change : Bool → Bool → PolicyDecision
evaluate_dependency_change has_dependency_changes approved =
    if has_dependency_changes && not approved
    then record {
      allow = false;
      reasons = [];
      denials = "dependency changes require explicit approval" ∷ [];
      requires_human = true;
    }
    else record {
      allow = true;
      reasons = "dependency change policy satisfied" ∷ [];
      denials = [];
      requires_human = false;
    }

-- the truth of an optional text: neither `None` nor empty
abbrev pub is_given : Option String → Bool
is_given none = false
is_given (some s) = not (s == "")

allowed_because : String → PolicyDecision
allowed_because reason = record {
  allow = true;
  reasons = reason ∷ [];
  denials = [];
  requires_human = false;
}

-- the denials of a production deployment, in the order in which they are appended
production_denials : Option String → ℤ → Bool → List String
production_denials approval_ref telemetry_count rollback_enabled =
    (if is_given approval_ref then [] else "production deployment requires approval" ∷ [])
    ++ ((if is_not_positive telemetry_count
          then "production deployment requires telemetry" ∷ []
          else [])
        ++ (if rollback_enabled then [] else "production deployment requires rollback" ∷ []))

apply_decision : List String → PolicyDecision
apply_decision [] = record {
  allow = true;
  reasons = "deployment policy satisfied" ∷ [];
  denials = [];
  requires_human = false;
}
apply_decision (d ∷ ds) = record {
  allow = false;
  reasons = [];
  denials = d ∷ ds;
  requires_human = true;
}

unfoldable pub evaluate_deployment :
    (action environment : String) (approval_ref : Option String) (telemetry_count : ℤ)
    (rollback_enabled : Bool) (rollback_approval_ref : Option String)
    → PolicyDecision
unfolding allowed_because production_denials apply_decision
evaluate_deployment action environment approval_ref telemetry_count rollback_enabled
      rollback_approval_ref =
    if action == "deploy_dry_run"
    then allowed_because "deployment dry-run is allowed"
    else if action == "deploy_rollback"
    then if is_given rollback_approval_ref
      then allowed_because "deployment rollback approval satisfied"
      else record {
        allow = false;
        reasons = [];
        denials = "deployment rollback requires rollback approval" ∷ [];
        requires_human = true;
      }
    else if action == "deploy_apply"
    then apply_decision (
        if environment == "production"
        then production_denials approval_ref telemetry_count rollback_enabled
        else [])
    else record {
      allow = false;
      reasons = [];
      denials = "unsupported deployment action" ∷ [];
      requires_human = false;
    }
