-- ===== src/Loop/Orchestrator/Passed.antt =====
-- When `VADOrchestrator.run` of vad/loop/orchestrator.py passes.
use verified_agentic_develop.Prelude.{
  Bool, false, not, ◌&&◌, ◌||◌, is_some, none, some, raise, Result, arith, Option, ok, ◌≡◌, true,
  ◌↔◌, sym, ◌∙◌,
}
use verified_agentic_develop.Prelude.Float.{FloatOps}
use verified_agentic_develop.Policy.{PolicyDecision, evaluate_decision}
use verified_agentic_develop.Loop.State.{passed}
use verified_agentic_develop.Loop.Orchestrator.{effort_blocker, Orchestrator, LoopResult}
use verified_agentic_develop.Loop.Orchestrator.Run.{budget_exhausted, Job, build_input, run}
use verified_agentic_develop.Loop.Orchestrator.Outcome.{IsConstructed}
use verified_agentic_develop.Loop.Orchestrator.Verdict.{
  verified_verdict, answered_verdict, report, release_result, verdict, Answer, Answers, run-Ends,
}

module _ {F : Type 0} ⦃fl : FloatOps F⦄ (job : Job F) where
  abbrev pub unblocked : Option Answer → Bool
  unblocked none = true
  unblocked (some (none, routes, budget)) = true
  unblocked (some (some b, routes, budget)) = false

  abbrev pub is_ok : Result Bool → Bool
  is_ok (ok b) = true
  is_ok (raise e) = false

  -- everything that a run needs to pass
  unfoldable pub passes : Orchestrator F → PolicyDecision → Option Answer → Bool
  passes self d answer =
      not (is_some (effort_blocker self))
      && not (budget_exhausted job)
      && d.allow
      && unblocked answer
      && (report job).passed
      && (not job.eip.release_requirements.required || is_ok (release_result job self))

  verified_verdict-passed_iff :
      (self : Orchestrator F)
      → ((verified_verdict job self).0 ≡ passed) ↔ (
          ((report job).passed
            && (not job.eip.release_requirements.required || is_ok (release_result job self)))
          ≡ true)
  unfolding verified_verdict
  verified_verdict-passed_iff self = elim (release_result job self) [
    | ok b ↦ ground arith
    | raise e ↦ ground arith
  ]

  pub verdict-passed_iff :
      (self : Orchestrator F) (d : PolicyDecision) (answer : Option Answer)
      → ((verdict job self d answer).0 ≡ passed) ↔ (passes self d answer ≡ true)
  unfolding verdict passes answered_verdict verified_verdict
  verdict-passed_iff self d none = let h = verified_verdict-passed_iff self in ground arith
  verdict-passed_iff self d (some (none, routes, budget)) =
      let h = verified_verdict-passed_iff self in ground arith
  verdict-passed_iff self d (some (some b, routes, budget)) = ground arith

  -- A run with a constructed effort score, whose rules answer and whose provider (if there is one)
  -- answers, returns a result, and the result's decision is `passed` exactly when no effort rule
  -- blocks, the model budget is not zero, the rules allow, the provider does not block, the
  -- verifier's report passed and a required release is let through.
  pub run-passed_iff :
      (self : Orchestrator F) (d : PolicyDecision) (answer : Option Answer)
      → IsConstructed self.effort_score
      → evaluate_decision job.services.evaluate (build_input job) ≡ ok d
      → Answers job self self.provider answer
      → (result : LoopResult) × ((run job self).0 ≡ ok result)
        × ((result.final_decision ≡ passed) ↔ (passes self d answer ≡ true))
  run-passed_iff self d answer s h a =
      let ends = run-Ends job self d answer s h a in
      let iff = verdict-passed_iff self d answer in
      (
        ends.result,
        ends.returned,
        ((λ e. iff.0 (sym ends.decided ∙ e)), λ e. ends.decided ∙ iff.1 e),
      )
