-- ===== src/Loop/Orchestrator/Verdict.antt =====
-- The decision of a run of vad/loop/orchestrator.py, from its inputs.
use verified_agentic_develop.Prelude.{
  Option-cases, elem, refl, inl, ap, inr, if_true, Bool-cases, arith, if_false, ◌&&◌, ◌≡◌, String,
  Bool, true, false, not, ◌||◌, List, [], ◌∷◌, Option, none, some, Result, ok, raise, if◌then◌else◌,
  is_some,
}
use verified_agentic_develop.Prelude.Float.{FloatOps}
use verified_agentic_develop.Evidence.{nothing_gathered, Event, Gathered}
use verified_agentic_develop.Policy.{PolicyDecision}
use verified_agentic_develop.Release.{evaluate_release}
use verified_agentic_develop.Router.Models.{TokenBudget}
use verified_agentic_develop.Verify.{VerifierReport, verifier_run}
use verified_agentic_develop.Loop.State.{
  LoopStatus, LoopState, transition, planned, policy_checked, verifying, releasing, passed, failed,
  blocked, needs_human,
}
use verified_agentic_develop.Loop.Orchestrator.{
  evaluate_decision, initial, Orchestrator, Provider, effort_blocker, call_provider, add_gates,
  evaluate_release_step,
}
use verified_agentic_develop.Loop.Orchestrator.Run.{
  after_provider, provider_phase, build_input, plan_phase, after_decision, verify_phase, run, block,
  Job, settle, budget_exhausted,
}
use verified_agentic_develop.Loop.Orchestrator.Outcome.{
  IsConstructed, effort-Conforms, IsConstructed, conclude-Waits, Conforms, Ends, conclude-Conforms,
  at,
}

abbrev pub Answer : Type 0
Answer = Option String × List Event × TokenBudget

module _ {F : Type 0} ⦃fl : FloatOps F⦄ (job : Job F) where
  abbrev pub report : VerifierReport
  report = verifier_run job.services.commands job.services.json_sha256 job.eip job.plan

  -- what the release manager says once it has the gates of the EIP
  abbrev pub release_result : Orchestrator F → Result Bool
  release_result self =
      evaluate_release (add_gates self.release_manager job.eip.release_requirements.gates)
        job.eip.name self.release_metrics job.eip.telemetry_requirements.required

  abbrev succeeds : Result Bool → LoopStatus
  succeeds (ok b) = passed
  succeeds (raise e) = failed

  -- of a run whose commands have run
  unfoldable pub verified_verdict : Orchestrator F → LoopStatus × List LoopStatus
  verified_verdict self =
      let end = succeeds (release_result self) in
      if not report.passed
      then (failed, planned ∷ policy_checked ∷ verifying ∷ failed ∷ [])
      else if job.eip.release_requirements.required
      then (end, planned ∷ policy_checked ∷ verifying ∷ releasing ∷ end ∷ [])
      else (passed, planned ∷ policy_checked ∷ verifying ∷ passed ∷ [])

  -- of a run that the rules allow
  unfoldable pub answered_verdict : Orchestrator F → Option Answer → LoopStatus × List LoopStatus
  unfolding verified_verdict
  answered_verdict self none = verified_verdict self
  answered_verdict self (some (none, routes, budget)) = verified_verdict self
  answered_verdict self (some (some b, routes, budget)) = (blocked, planned ∷ blocked ∷ [])

  -- the last status and the statuses on the way to it
  unfoldable pub verdict :
      Orchestrator F → PolicyDecision → Option Answer → LoopStatus × List LoopStatus
  unfolding answered_verdict
  verdict self d answer =
      if is_some (effort_blocker self) || budget_exhausted job
      then (blocked, blocked ∷ [])
      else if not d.allow
      then (needs_human, planned ∷ policy_checked ∷ needs_human ∷ [])
      else answered_verdict self answer

  -- the provider, if there is one, answers
  abbrev pub Answers : Orchestrator F → Option (Provider F) → Option Answer → Type 0
  Answers self none answer = answer ≡ none
  Answers self (some p) answer =
      (a : Answer) × (call_provider self job.eip p ≡ ok a) × (answer ≡ some a)

  abbrev verified : LoopState
  verified = at verifying (planned ∷ policy_checked ∷ verifying ∷ [])

  settle-failed :
      (self : Orchestrator F) (gathered : Gathered) (r : VerifierReport)
      → Conforms self
      → r.passed ≡ false
      → Ends job failed
          (planned ∷ policy_checked ∷ verifying ∷ failed ∷ [])
          (settle job verified gathered r self)
  unfolding settle transition
  settle-failed self gathered r c e = simp e (conclude-Conforms job failed _ _ self c)

  settle-passed :
      (self : Orchestrator F) (gathered : Gathered) (r : VerifierReport)
      → Conforms self
      → r.passed ≡ true
      → job.eip.release_requirements.required ≡ false
      → Ends job passed
          (planned ∷ policy_checked ∷ verifying ∷ passed ∷ [])
          (settle job verified gathered r self)
  unfolding settle transition
  settle-passed self gathered r c e n = simp (e, n) (conclude-Conforms job passed _ _ self c)

  settle-released :
      (self : Orchestrator F) (gathered : Gathered) (r : VerifierReport) (x : Result Bool)
      → Conforms self
      → r.passed ≡ true
      → job.eip.release_requirements.required ≡ true
      → release_result self ≡ x
      → Ends job
          (succeeds x)
          (planned ∷ policy_checked ∷ verifying ∷ releasing ∷ succeeds x ∷ [])
          (settle job verified gathered r self)
  unfolding settle transition evaluate_release_step
  settle-released self gathered r (ok b) c e y h =
      let both : (r.passed && job.eip.release_requirements.required) ≡ true = ground arith in
      rw (if_true _ _ both, h)
        (conclude-Conforms job passed _ _ _ (record { mees = c.mees; policy = c.policy }))
  settle-released self gathered r (raise z) c e y h =
      let both : (r.passed && job.eip.release_requirements.required) ≡ true = ground arith in
      rw (if_true _ _ both, h)
        (conclude-Conforms job failed _ _ _ (record { mees = c.mees; policy = c.policy }))

  abbrev started : LoopState
  started = at planned (planned ∷ [])

  abbrev decided_by : PolicyDecision → Gathered
  decided_by d = record nothing_gathered { policy_decisions = d ∷ [] }

  stop-Ends :
      (gathered : Gathered) (self : Orchestrator F)
      → Ends job blocked (blocked ∷ []) (block job initial gathered self)
  unfolding block transition elem
  stop-Ends gathered self = conclude-Waits job blocked _ _ self refl

  block-Ends :
      (gathered : Gathered) (self : Orchestrator F)
      → Ends job blocked (planned ∷ blocked ∷ []) (block job started gathered self)
  unfolding block transition elem
  block-Ends gathered self = conclude-Waits job blocked _ _ self refl

  refuse-Ends :
      (d : PolicyDecision) (self : Orchestrator F)
      → d.allow ≡ false
      → Ends job needs_human
          (planned ∷ policy_checked ∷ needs_human ∷ [])
          (after_decision job started d self)
  unfolding after_decision transition elem
  refuse-Ends d self e = rw (if_false _ _ e) (conclude-Waits job needs_human _ _ self refl)

  -- the run gets to the provider
  run-eq-plan_phase :
      (self : Orchestrator F)
      → effort_blocker self ≡ none
      → budget_exhausted job ≡ false
      → run job self ≡ plan_phase job self
  unfolding run
  run-eq-plan_phase self e b = rw (e, run) (if_false _ _ b)

  -- the run gets to the decision
  run-eq-after_decision :
      (d : PolicyDecision) (self : Orchestrator F)
      → effort_blocker self ≡ none
      → budget_exhausted job ≡ false
      → evaluate_decision job.services.evaluate (build_input job) ≡ ok d
      → run job self ≡ after_decision job started d self
  run-eq-after_decision d self e b h =
      rw (run-eq-plan_phase self e b) (unfold plan_phase transition in rw h refl)

  run-eq-stop :
      (b : String) (self : Orchestrator F)
      → effort_blocker self ≡ some b
      → run job self ≡ block job initial (record nothing_gathered { blocker = some b }) self
  unfolding run
  run-eq-stop b self e = rw (e, run) refl

  run-eq-exhausted :
      (self : Orchestrator F)
      → effort_blocker self ≡ none
      → budget_exhausted job ≡ true
      → run job self
        ≡ block job initial (record nothing_gathered { blocker = some "budget exhausted" }) self
  unfolding run
  run-eq-exhausted self e b = rw (e, run) (if_true _ _ b)

  verify_phase-Ends :
      (self : Orchestrator F) (gathered : Gathered)
      → Conforms self
      → Ends job
          (verified_verdict self).0
          (verified_verdict self).1
          (verify_phase job started gathered self)
  unfolding verify_phase transition verified_verdict
  verify_phase-Ends self gathered c = elim (Bool-cases report.passed) [
    | inr f ↦ rw (if_true _ _ (ap not f)) (settle-failed self gathered report c f)
    | inl p ↦ elim (Bool-cases job.eip.release_requirements.required) [
      | inr n ↦
          rw (if_false _ _ (ap not p), if_false _ _ n) (settle-passed self gathered report c p n)
      | inl y ↦
          rw (if_false _ _ (ap not p), if_true _ _ y)
            (settle-released self gathered report (release_result self) c p y refl)
    ]
  ]

  provider_phase-Ends :
      (gathered : Gathered) (self : Orchestrator F) (p : Option (Provider F))
      (answer : Option Answer)
      → Conforms self
      → Answers self p answer
      → Ends job
          (answered_verdict self answer).0
          (answered_verdict self answer).1
          (provider_phase job started gathered p self)
  unfolding provider_phase answered_verdict after_provider
  provider_phase-Ends gathered self none answer c a = rw a (verify_phase-Ends self gathered c)
  provider_phase-Ends gathered self (some p) answer c ((none, routes, budget), h, e) =
      rw (e, h)
        (verify_phase-Ends self
          (record gathered { token_budget = some budget; model_routes = some routes }) c)
  provider_phase-Ends gathered self (some p) answer c ((some b, routes, budget), h, e) =
      rw (e, h) (block-Ends _ self)

  -- A run with a constructed effort score, whose rules answer and whose provider (if there is one)
  -- answers, returns a result whose decision and status are those of the verdict, and whose history
  -- is `initialized` followed by the verdict's path.
  pub run-Ends :
      (self : Orchestrator F) (d : PolicyDecision) (answer : Option Answer)
      → IsConstructed self.effort_score
      → evaluate_decision job.services.evaluate (build_input job) ≡ ok d
      → Answers self self.provider answer
      → Ends job (verdict self d answer).0 (verdict self d answer).1 (run job self)
  unfolding verdict
  run-Ends self d answer s h a = elim (Option-cases (effort_blocker self)) [
    | inr (b, e) ↦ rw (run-eq-stop b self e, e) (stop-Ends _ self)
    | inl e ↦ elim (Bool-cases (budget_exhausted job)) [
      | inl x ↦ rw (run-eq-exhausted self e x, e, x) (stop-Ends _ self)
      | inr x ↦
          rw (run-eq-after_decision d self e x h, e, x)
            (elim (Bool-cases d.allow) [
              | inr n ↦ rw (if_true _ _ (ap not n)) (refuse-Ends d self n)
              | inl y ↦ rw (if_false _ _ (ap not y)) (
                  unfold after_decision in
                  rw (if_true _ _ y)
                    (provider_phase-Ends _ self self.provider answer (effort-Conforms self s e) a))
            ])
    ]
  ]
