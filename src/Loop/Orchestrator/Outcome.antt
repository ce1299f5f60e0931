-- ===== src/Loop/Orchestrator/Outcome.antt =====
-- How a run of vad/loop/orchestrator.py ends.
use verified_agentic_develop.Prelude.{
  ◌≤◌, ◌≡◌, refl, true, false, List, [], ◌∷◌, Option, none, some, Result, ok, arith, elem, ◌==◌,
}
use verified_agentic_develop.Prelude.Float.{FloatOps}
use verified_agentic_develop.Effort.Scores.{policy_of_constructed}
use verified_agentic_develop.Effort.{DiffMetrics, DiffMetrics, EffortScore, effort_score}
use verified_agentic_develop.Evidence.{
  Gathered, evidence_of, RunEvidence, run_evidence, effort_evidence, create_run_evidence,
}
use verified_agentic_develop.Loop.State.{LoopStatus, LoopState, status_value, initialized}
use verified_agentic_develop.Loop.Orchestrator.{
  Orchestrator, LoopResult, effort_blocker, score_under_50,
}
use verified_agentic_develop.Loop.Orchestrator.Run.{Job, conclude}

-- `EffortScore` was constructed, so its validator has accepted it
abbrev pub IsConstructed : Option EffortScore → Type 0
IsConstructed none = Unit
IsConstructed (some s) = effort_score s ≡ ok s

abbrev pub Waits : LoopStatus → Type 0
Waits n = elem (status_value n) ("needs_human" ∷ "blocked" ∷ []) ≡ true

conforms_of_score :
    (o : Option EffortScore) (m : Option DiffMetrics)
    → IsConstructed o
    → score_under_50 o ≡ false
    → (50 ≤ (effort_evidence o m).mees) × (((effort_evidence o m).policy == "block") ≡ false)
unfolding effort_evidence score_under_50
conforms_of_score none m h b = (omega arith, refl)
conforms_of_score (some s) m h b = (ground arith, policy_of_constructed s h b)

run_evidence-Waits :
    (e : RunEvidence)
    → elem e.final_decision ("needs_human" ∷ "blocked" ∷ []) ≡ true
    → run_evidence e ≡ ok e
unfolding run_evidence
run_evidence-Waits e w = rw w (ground arith)

run_evidence-Conforms :
    (e : RunEvidence)
    → 50 ≤ e.effort.mees
    → (e.effort.policy == "block") ≡ false
    → run_evidence e ≡ ok e
unfolding run_evidence
run_evidence-Conforms e m p = rw p (ground arith)

module _ {F : Type 0} where
  -- the evidence of the run is within the effort policy
  pub record Conforms (self : Orchestrator F) : Type 0 where
    pub mees : 50 ≤ (effort_evidence self.effort_score self.effort_metrics).mees
    pub policy : ((effort_evidence self.effort_score self.effort_metrics).policy == "block") ≡ false

  pub effort-Conforms :
      (self : Orchestrator F)
      → IsConstructed self.effort_score
      → effort_blocker self ≡ none
      → Conforms self
  unfolding effort_blocker
  effort-Conforms self h b =
      let (mees, policy) =
        conforms_of_score self.effort_score self.effort_metrics h (ground arith) in
      record { mees = mees; policy = policy }

abbrev pub at : LoopStatus → List LoopStatus → LoopState
at status path = record { status = status; history = initialized ∷ path }

module _ {F : Type 0} ⦃fl : FloatOps F⦄ (job : Job F) where
  -- the action returns, with this decision as the state's status and this history behind it
  pub record Ends (status : LoopStatus) (path : List LoopStatus)
      (out : Result LoopResult × Orchestrator F) : Type 0 where
    pub result : LoopResult
    pub returned : out.0 ≡ ok result
    pub decided : result.final_decision ≡ status
    pub reached : result.state ≡ record { status = status; history = initialized ∷ path }

  abbrev evidence : Orchestrator F → LoopStatus → Gathered → RunEvidence
  evidence self status gathered =
      evidence_of job.services.json_sha256 job.eip job.plan job.builder job.verifier
        (status_value status) gathered self.effort_score self.effort_metrics

  conclude-Ends :
      (status : LoopStatus) (path : List LoopStatus) (gathered : Gathered) (self : Orchestrator F)
      → run_evidence (evidence self status gathered) ≡ ok (evidence self status gathered)
      → Ends status path (conclude job (at status path) status gathered self)
  unfolding conclude
  conclude-Ends status path gathered self h = record {
    result = record {
      final_decision = status;
      state = at status path;
      evidence = evidence self status gathered;
    };
    returned = unfold create_run_evidence in rw h refl;
    decided = refl;
    reached = refl;
  }

  pub conclude-Waits :
      (status : LoopStatus) (path : List LoopStatus) (gathered : Gathered) (self : Orchestrator F)
      → Waits status
      → Ends status path (conclude job (at status path) status gathered self)
  conclude-Waits status path gathered self w =
      conclude-Ends status path gathered self
        (run_evidence-Waits (evidence self status gathered) (unfold evidence_of in w))

  pub conclude-Conforms :
      (status : LoopStatus) (path : List LoopStatus) (gathered : Gathered) (self : Orchestrator F)
      → Conforms self
      → Ends status path (conclude job (at status path) status gathered self)
  conclude-Conforms status path gathered self c = conclude-Ends status path gathered self (
      run_evidence-Conforms (evidence self status gathered) (unfold evidence_of in c.mees)
        (unfold evidence_of in c.policy))
