-- ===== src/Loop/Orchestrator.antt =====
-- vad/loop/orchestrator.py. The rules, the commands, the digest and the provider are parameters.
pub mod Run
pub mod Outcome
pub mod Verdict
pub mod Passed
use verified_agentic_develop.Prelude.{
  ℕ, ◌+◌, String, Bool, true, false, not, ◌&&◌, ◌||◌, List, [], ◌∷◌, Option, none, some, Result, ok,
  raise, validation_error, index_error, message, ◌==◌, eqb, ltb, min, joined, if◌then◌else◌,
}
use verified_agentic_develop.Prelude.Action.{Action, give, from_result, ◌>>=◌}
use verified_agentic_develop.Prelude.Float.{FloatOps}
use verified_agentic_develop.Contracts.{Eip}
use verified_agentic_develop.Effort.{EffortScore, DiffMetrics}
use verified_agentic_develop.Evidence.{Event, ReleaseEvent, RunEvidence}
use verified_agentic_develop.Policy.{PolicyDecision, Evaluate, Input, is_given, evaluate_decision}
use verified_agentic_develop.Proof.{ProofPlan}
use verified_agentic_develop.Release.{ReleaseManager, RolloutGate, add_gate, evaluate_release}
use verified_agentic_develop.Router.Models
use verified_agentic_develop.Router.Models.{TokenBudget, record_usage}
use verified_agentic_develop.Verify.{Commands, VerifierReport, verifier_run}
use verified_agentic_develop.Loop.State.{
  LoopStatus, LoopState, initial, transition, status_value, planned, policy_checked, verifying,
  releasing, passed, failed, blocked, needs_human,
}

pub record ProviderCompletionRequest : Type 0 where
  pub prompt : String
  pub model : String
  pub max_output_tokens : ℕ

pub record ProviderCompletionResult (F : Type 0) : Type 0 where
  pub allowed : Bool
  pub input_tokens : ℕ
  pub output_tokens : ℕ
  pub estimated_cost : F
  pub evidence : Event
  pub denial : Option String

-- the names of the inventory's models, and `complete`
pub record Provider (F : Type 0) : Type 0 where
  pub models : List String
  pub complete : ProviderCompletionRequest → Result (ProviderCompletionResult F)

-- what the orchestrator calls
pub record Services (F : Type 0) : Type 0 where
  pub evaluate : Evaluate
  pub commands : Commands
  pub json_sha256 : Eip F → String

pub record Orchestrator (F : Type 0) : Type 0 where
  pub effort_score : Option EffortScore
  pub effort_metrics : Option DiffMetrics
  pub effort_justification : Option String
  pub dependency_approval : Bool
  pub release_manager : ReleaseManager F
  pub release_metrics : List (String × F)
  pub provider : Option (Provider F)
  pub provider_model : Option String

-- `release_metrics or {"health": 1.0}`; `one` stands for 1.0
unfoldable pub default_metrics : {F : Type 0} → F → Option (List (String × F)) → List (String × F)
default_metrics one none = ("health", one) ∷ []
default_metrics one (some []) = ("health", one) ∷ []
default_metrics one (some (m ∷ ms)) = m ∷ ms

-- `release_manager or ReleaseManager()`
unfoldable pub default_manager : {F : Type 0} → Option (ReleaseManager F) → ReleaseManager F
default_manager none = record { flags = []; gates = [] }
default_manager (some manager) = manager

-- `VADOrchestrator(...)`
unfoldable pub new_orchestrator :
    {F : Type 0}
    → F
    → Option EffortScore
    → Option DiffMetrics
    → Option String
    → Bool
    → Option (ReleaseManager F)
    → Option (List (String × F))
    → Option (Provider F)
    → Option String
    → Orchestrator F
unfolding default_metrics default_manager
new_orchestrator one score metrics justification approval manager release_metrics provider model =
    record {
      effort_score = score;
      effort_metrics = metrics;
      effort_justification = justification;
      dependency_approval = approval;
      release_manager = default_manager manager;
      release_metrics = default_metrics one release_metrics;
      provider = provider;
      provider_model = model;
    }

pub record LoopResult : Type 0 where
  pub final_decision : LoopStatus
  pub state : LoopState
  pub evidence : RunEvidence

unfoldable pub score_under_50 : Option EffortScore → Bool
score_under_50 none = false
score_under_50 (some s) = ltb s.score 50

files_over_10 : Option DiffMetrics → Bool
files_over_10 none = false
files_over_10 (some m) = ltb 10 m.changed_files

has_new_dependency : Option DiffMetrics → Bool
has_new_dependency none = false
has_new_dependency (some m) = ltb 0 m.dependency_files_changed

abbrev denial_text : Option String → String
denial_text none = "None"
denial_text (some d) = d

-- `{**event, "event": ..., "denial": ...}`
set_key : Event → String → String → Event
set_key [] key value = (key, value) ∷ []
set_key ((k, v) ∷ event) key value =
    if k == key then (k, value) ∷ event else (k, v) ∷ set_key event key value

first_model : List String → Result String
first_model [] = raise index_error
first_model (m ∷ ms) = ok m

module _ {F : Type 0} where
  unfoldable pub effort_blocker : Orchestrator F → Option String
  unfolding score_under_50 files_over_10 has_new_dependency
  effort_blocker self =
      if score_under_50 self.effort_score
      then some "MEES under 50 requires human review"
      else if files_over_10 self.effort_metrics && not (is_given self.effort_justification)
      then some "changed files over 10 require justification"
      else if has_new_dependency self.effort_metrics && not self.dependency_approval
      then some "new dependency requires explicit approval"
      else none

  -- `self.provider_model or inventory.models[0].name`
  model_name : Option String → Provider F → Result String
  unfolding first_model
  model_name none p = first_model p.models
  model_name (some m) p = if m == "" then first_model p.models else ok m

  -- `ProviderCompletionRequest(...)`, whose prompt and token limit have least values
  completion_request : Eip F → String → Result ProviderCompletionRequest
  completion_request eip model =
      let limit = min 256 eip.model_budget.max_tokens in
      if (eip.goal.description == "") || eqb limit 0
      then raise validation_error
      else ok (record { prompt = eip.goal.description; model = model; max_output_tokens = limit })

module _ {F : Type 0} ⦃fl : FloatOps F⦄ where
  -- what a completion means for the run: a blocker or none, the routes and the budget
  judge_completion : Eip F → ProviderCompletionResult F → Option String × List Event × TokenBudget
  unfolding set_key
  judge_completion eip result =
      let token_budget =
        record_usage (Models.create eip.model_budget.max_tokens 0 [])
          (result.input_tokens + result.output_tokens) in
      if not result.allowed
      then (
        some (joined ("provider denied: " ∷ denial_text result.denial ∷ [])),
        result.evidence ∷ [],
        token_budget,
      )
      else if fl.flt eip.model_budget.max_cost result.estimated_cost
      then (
        some "provider cost exceeds budget",
        set_key (set_key result.evidence "event" "provider_denied") "denial"
              "provider cost exceeds budget"
            ∷ [],
        token_budget,
      )
      else (none, result.evidence ∷ [], token_budget)

  -- `_call_provider`
  unfoldable pub call_provider :
      Orchestrator F → Eip F → Provider F → Result (Option String × List Event × TokenBudget)
  unfolding model_name completion_request judge_completion
  call_provider self eip p = elim (model_name self.provider_model p) [
    | raise e ↦ raise e
    | ok model ↦ elim (completion_request eip model) [
      | raise e ↦ raise e
      | ok request ↦ elim (p.complete request) [
        | raise e ↦ raise e
        | ok result ↦ ok (judge_completion eip result)
      ]
    ]
  ]

  -- the gates of the EIP are added to the manager, at 0.95
  unfoldable pub add_gates : ReleaseManager F → List String → ReleaseManager F
  add_gates m [] = m
  add_gates m (gate ∷ gates) =
      add_gates
        (add_gate m (record { metric_name = gate; minimum_health_threshold = fl.gate_threshold }))
        gates

  unfoldable pub release_outcome : Eip F → Result Bool → ReleaseEvent × LoopStatus
  release_outcome eip (ok b) = (
    record {
      required = true;
      gates = eip.release_requirements.gates;
      decision = "passed";
      error = none;
    },
    passed,
  )
  release_outcome eip (raise e) = (
    record {
      required = true;
      gates = eip.release_requirements.gates;
      decision = "failed";
      error = some (message e);
    },
    failed,
  )

  -- `_evaluate_release`: the gates stay in the manager
  unfoldable pub evaluate_release_step : Eip F → Action (Orchestrator F) (ReleaseEvent × LoopStatus)
  unfolding add_gates release_outcome
  evaluate_release_step eip self =
      let manager = add_gates self.release_manager eip.release_requirements.gates in
      (
        ok (
            release_outcome eip (
              evaluate_release manager eip.name self.release_metrics
                eip.telemetry_requirements.required)),
        record self { release_manager = manager },
      )
