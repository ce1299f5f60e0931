-- ===== src/Evidence.antt =====
-- vad/evidence: the record of a run, without its random id and its time. The events of a provider
-- are JSON objects with text values; `none` for the routes stands for the event that the recorder
-- makes of the EIP's budget.
use verified_agentic_develop.Prelude.{
  ℕ, suc, zero, String, Bool, not, ◌&&◌, List, [], ◌∷◌, Option, none, some, Result, ok, raise,
  validation_error, ◌==◌, ltb, elem, if◌then◌else◌,
}
use verified_agentic_develop.Prelude.Int.{ℤ, pos, negsuc}
use verified_agentic_develop.Contracts.{Eip}
use verified_agentic_develop.Effort.{EffortScore, EffortType, feature, DiffMetrics, line_delta}
use verified_agentic_develop.Policy.{PolicyDecision}
use verified_agentic_develop.Proof.{ProofPlan, compute_eip_digest}
use verified_agentic_develop.Router.Models.{TokenBudget}
use verified_agentic_develop.Verify.{VerifierReport}

-- a JSON object with text values
abbrev pub Event : Type 0
Event = List (String × String)

pub record EffortEvidence : Type 0 where
  pub effort_type : EffortType
  pub mees : ℕ
  pub policy : String
  pub changed_files : ℕ
  pub line_delta : ℕ
  pub new_dependencies : ℕ
  pub complexity_delta : ℕ
  pub maintainability_delta : ℤ

pub record TokenEvidence : Type 0 where
  pub budget : ℕ
  pub estimated : Option ℕ
  pub used : Option ℕ
  pub remaining : Option ℕ
  pub optimization_notes : List String

pub record ReleaseEvent : Type 0 where
  pub required : Bool
  pub gates : List String
  pub decision : String
  pub error : Option String

pub record RunEvidence : Type 0 where
  pub eip : String
  pub proof_plan : String
  pub builder : String
  pub verifier : String
  pub policy_decisions : List PolicyDecision
  pub model_routes : Option (List Event)
  pub verification : Option VerifierReport
  pub release : ReleaseEvent
  pub effort : EffortEvidence
  pub tokens : TokenEvidence
  pub final_decision : String
  pub blocker : Option String

-- the optional arguments of the recorder, but for the two of the effort
pub record Gathered : Type 0 where
  pub policy_decisions : List PolicyDecision
  pub verification : Option VerifierReport
  pub blocker : Option String
  pub token_budget : Option TokenBudget
  pub model_routes : Option (List Event)
  pub release : Option ReleaseEvent

abbrev pub nothing_gathered : Gathered
nothing_gathered = record {
  policy_decisions = [];
  verification = none;
  blocker = none;
  token_budget = none;
  model_routes = none;
  release = none;
}

-- the validator `enforce_effort_policy`
unfoldable pub run_evidence : RunEvidence → Result RunEvidence
run_evidence e =
    let waits = elem e.final_decision ("needs_human" ∷ "blocked" ∷ []) in
    if ltb e.effort.mees 50 && not waits
    then raise validation_error
    else if (e.effort.policy == "block") && not waits
    then raise validation_error
    else ok e

negated : ℕ → ℤ
negated zero = pos 0
negated (suc n) = negsuc n

-- `metrics.field if metrics else 0`
of_metrics : Option DiffMetrics → (DiffMetrics → ℕ) → ℕ
of_metrics none field = 0
of_metrics (some m) field = field m

unfoldable pub effort_evidence : Option EffortScore → Option DiffMetrics → EffortEvidence
unfolding negated of_metrics
effort_evidence none metrics = record {
  effort_type = feature;
  mees = 100;
  policy = "pass";
  changed_files = 0;
  line_delta = 0;
  new_dependencies = 0;
  complexity_delta = 0;
  maintainability_delta = pos 0;
}
effort_evidence (some s) metrics = record {
  effort_type = s.effort_type;
  mees = s.score;
  policy = s.policy;
  changed_files = of_metrics metrics (λ m. m.changed_files);
  line_delta = of_metrics metrics line_delta;
  new_dependencies = of_metrics metrics (λ m. m.dependency_files_changed);
  complexity_delta = s.penalties.complexity;
  maintainability_delta = negated s.penalties.maintainability;
}

module _ {F : Type 0} where
  release_event : Eip F → String → ReleaseEvent
  release_event eip final_decision = record {
    required = eip.release_requirements.required;
    gates = eip.release_requirements.gates;
    decision = if eip.release_requirements.required then final_decision else "not_required";
    error = none;
  }

  -- without a budget nothing but the EIP's own is recorded
  token_evidence : Eip F → Option TokenBudget → TokenEvidence
  token_evidence eip none = record {
    budget = eip.model_budget.max_tokens;
    estimated = none;
    used = none;
    remaining = none;
    optimization_notes = "actual token usage unavailable in local reference loop" ∷ [];
  }
  token_evidence eip (some b) = record {
    budget = b.budget;
    estimated = some b.estimated;
    used = some b.used;
    remaining = some b.remaining;
    optimization_notes = b.optimization_notes;
  }

  or_release_event : Eip F → String → Option ReleaseEvent → ReleaseEvent
  unfolding release_event
  or_release_event eip final_decision none = release_event eip final_decision
  or_release_event eip final_decision (some event) = event

  -- the record that `EvidenceRecorder.create_run_evidence` constructs
  unfoldable pub evidence_of :
      (json_sha256 : Eip F → String) (eip : Eip F) (plan : ProofPlan)
      (builder verifier final_decision : String) (gathered : Gathered)
      (effort_score : Option EffortScore) (effort_metrics : Option DiffMetrics)
      → RunEvidence
  unfolding effort_evidence token_evidence or_release_event
  evidence_of json_sha256 eip plan builder verifier final_decision gathered effort_score
        effort_metrics =
      record {
        eip = compute_eip_digest json_sha256 eip;
        proof_plan = plan.eip_digest;
        builder = builder;
        verifier = verifier;
        policy_decisions = gathered.policy_decisions;
        model_routes = gathered.model_routes;
        verification = gathered.verification;
        release = or_release_event eip final_decision gathered.release;
        effort = effort_evidence effort_score effort_metrics;
        tokens = token_evidence eip gathered.token_budget;
        final_decision = final_decision;
        blocker = gathered.blocker;
      }

  -- `EvidenceRecorder.create_run_evidence`
  unfoldable pub create_run_evidence :
      (json_sha256 : Eip F → String) (eip : Eip F) (plan : ProofPlan)
      (builder verifier final_decision : String) (gathered : Gathered)
      (effort_score : Option EffortScore) (effort_metrics : Option DiffMetrics)
      → Result RunEvidence
  unfolding run_evidence evidence_of
  create_run_evidence json_sha256 eip plan builder verifier final_decision gathered effort_score
        effort_metrics =
      run_evidence (
        evidence_of json_sha256 eip plan builder verifier final_decision gathered effort_score
          effort_metrics)
