-- ===== src/Loop/Orchestrator/Run.antt =====
-- `VADOrchestrator.run` of vad/loop/orchestrator.py, phase by phase.
use verified_agentic_develop.Prelude.{
  String, Bool, ◌&&◌, ◌||◌, List, [], ◌∷◌, Option, none, some, eqb, if◌then◌else◌,
}
use verified_agentic_develop.Prelude.Action.{Action, give, from_result, ◌>>=◌}
use verified_agentic_develop.Prelude.Float.{FloatOps}
use verified_agentic_develop.Contracts.{Eip}
use verified_agentic_develop.Evidence.{Gathered, nothing_gathered, Event, create_run_evidence}
use verified_agentic_develop.Policy.{PolicyDecision, Input, evaluate_decision}
use verified_agentic_develop.Proof.{ProofPlan}
use verified_agentic_develop.Router.Models.{TokenBudget}
use verified_agentic_develop.Verify.{VerifierReport, verifier_run}
use verified_agentic_develop.Loop.State.{
  LoopStatus, LoopState, initial, transition, status_value, planned, policy_checked, verifying,
  releasing, passed, failed, blocked, needs_human,
}
use verified_agentic_develop.Loop.Orchestrator.{
  Orchestrator, Services, Provider, LoopResult, effort_blocker, call_provider,
  evaluate_release_step,
}

-- the arguments of a run
pub record Job (F : Type 0) : Type 0 where
  pub services : Services F
  pub eip : Eip F
  pub plan : ProofPlan
  pub builder : String
  pub verifier : String

abbrev pub build_input : {F : Type 0} → Job F → Input
build_input job = ("action", "build") ∷ ("builder", job.builder) ∷ ("approver", job.verifier) ∷ []

module _ {F : Type 0} ⦃fl : FloatOps F⦄ (job : Job F) where
  -- the evidence is created, and the result returned
  unfoldable pub conclude : LoopState → LoopStatus → Gathered → Action (Orchestrator F) LoopResult
  conclude state status gathered self =
      (do
        evidence ← from_result (
            create_run_evidence job.services.json_sha256 job.eip job.plan job.builder job.verifier
              (status_value status) gathered self.effort_score self.effort_metrics)
        give (record { final_decision = status; state = state; evidence = evidence }))
        self

  -- the run ends blocked
  unfoldable pub block : LoopState → Gathered → Action (Orchestrator F) LoopResult
  unfolding conclude
  block state gathered = do
    state ← from_result (transition state blocked)
    conclude state blocked gathered

  -- the report is in: a release, if one is required, decides a run that passed
  unfoldable pub settle : LoopState → Gathered → VerifierReport → Action (Orchestrator F) LoopResult
  unfolding conclude
  settle state gathered report =
      if report.passed && job.eip.release_requirements.required
      then (do
        state ← from_result (transition state releasing)
        released ← evaluate_release_step job.eip
        state ← from_result (transition state released.1)
        conclude state released.1
            (record gathered { verification = some report; release = some released.0 }))
      else (do
        let final_status = if report.passed then passed else failed
        state ← from_result (transition state final_status)
        conclude state final_status (record gathered { verification = some report }))

  unfoldable pub verify_phase : LoopState → Gathered → Action (Orchestrator F) LoopResult
  unfolding settle
  verify_phase state gathered = do
    state ← from_result (transition state policy_checked)
    state ← from_result (transition state verifying)
    settle state gathered
        (verifier_run job.services.commands job.services.json_sha256 job.eip job.plan)

  -- the provider has answered
  unfoldable pub after_provider :
      LoopState
      → Gathered
      → Option String × List Event × TokenBudget
      → Action (Orchestrator F) LoopResult
  unfolding verify_phase block
  after_provider state gathered (provider_blocker, routes, budget) =
      let gathered' = record gathered { token_budget = some budget; model_routes = some routes } in
      elim provider_blocker [
        | some b ↦ block state (record gathered' { blocker = some b })
        | none ↦ verify_phase state gathered'
      ]

  unfoldable pub provider_phase :
      LoopState → Gathered → Option (Provider F) → Action (Orchestrator F) LoopResult
  unfolding after_provider
  provider_phase state gathered none self = verify_phase state gathered self
  provider_phase state gathered (some p) self =
      (do answer ← from_result (call_provider self job.eip p); after_provider state gathered answer)
        self

  -- the rules have decided
  unfoldable pub after_decision : LoopState → PolicyDecision → Action (Orchestrator F) LoopResult
  unfolding provider_phase conclude
  after_decision state decision self =
      let gathered = record nothing_gathered { policy_decisions = decision ∷ [] } in
      if decision.allow
      then provider_phase state gathered self.provider self
      else (do
        state ← from_result (transition state policy_checked)
        state ← from_result (transition state needs_human)
        conclude state needs_human gathered)
          self

  unfoldable pub budget_exhausted : Bool
  budget_exhausted =
      eqb job.eip.model_budget.max_tokens 0 || fl.feq job.eip.model_budget.max_cost fl.fzero

  unfoldable pub plan_phase : Action (Orchestrator F) LoopResult
  unfolding after_decision
  plan_phase = do
    state ← from_result (transition initial planned)
    decision ← from_result (evaluate_decision job.services.evaluate (build_input job))
    after_decision state decision

  unfoldable pub run : Action (Orchestrator F) LoopResult
  unfolding block plan_phase budget_exhausted
  run self = elim (effort_blocker self) [
    | some b ↦ block initial (record nothing_gathered { blocker = some b }) self
    | none ↦
        if budget_exhausted
        then block initial (record nothing_gathered { blocker = some "budget exhausted" }) self
        else plan_phase self
  ]
