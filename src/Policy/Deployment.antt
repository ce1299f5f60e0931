-- ===== src/Policy/Deployment.antt =====
-- Which deployment actions vad/policy/engine.py lets through.
use verified_agentic_develop.Prelude.{
  zero, suc, ◌⊎◌, ◌<◌, String, ◌≡◌, ◌≢◌, refl, ◌↔◌, inl, inr, Bool, true, false, Option, ◌==◌,
  eq_iff, arith, Bool-cases,
}
use verified_agentic_develop.Prelude.Int.{ℤ, pos, negsuc, pos_part, is_not_positive}
use verified_agentic_develop.Policy.{PolicyDecision, is_given, evaluate_deployment}

positive_iff : (z : ℤ) → (is_not_positive z ≡ false) ↔ (0 < pos_part z)
positive_iff (pos zero) = (λ h. cc, λ h. absurd (omega arith))
positive_iff (pos (suc n)) = (λ h. omega arith, λ h. refl)
positive_iff (negsuc n) = (λ h. cc, λ h. absurd (omega arith))

-- The approvals that an action needs: a dry run none, a rollback its own approval, and an apply to
-- production an approval, telemetry and a rollback policy.
pub data IsCleared (action environment : String) (approval_ref : Option String)
    (telemetry_count : ℤ) (rollback_enabled : Bool) (rollback_approval_ref : Option String)
    : Type 0 where
  dry_run :
      action ≡ "deploy_dry_run"
      → IsCleared action environment approval_ref telemetry_count rollback_enabled
          rollback_approval_ref
  rollback :
      action ≡ "deploy_rollback"
      → is_given rollback_approval_ref ≡ true
      → IsCleared action environment approval_ref telemetry_count rollback_enabled
          rollback_approval_ref
  elsewhere :
      action ≡ "deploy_apply"
      → environment ≢ "production"
      → IsCleared action environment approval_ref telemetry_count rollback_enabled
          rollback_approval_ref
  production :
      action ≡ "deploy_apply"
      → is_given approval_ref ≡ true
      → 0 < pos_part telemetry_count
      → rollback_enabled ≡ true
      → IsCleared action environment approval_ref telemetry_count rollback_enabled
          rollback_approval_ref

module _ (action environment : String) (approval_ref : Option String) (telemetry_count : ℤ)
    (rollback_enabled : Bool) (rollback_approval_ref : Option String) where
  abbrev decision : PolicyDecision
  decision =
      evaluate_deployment action environment approval_ref telemetry_count rollback_enabled
        rollback_approval_ref

  abbrev Cleared : Type 0
  Cleared =
      IsCleared action environment approval_ref telemetry_count rollback_enabled
        rollback_approval_ref

  cleared_of_allow : decision.allow ≡ true → Cleared
  unfolding evaluate_deployment
  cleared_of_allow h = elim (Bool-cases (action == "deploy_dry_run")) [
    | inl d ↦ dry_run ((eq_iff action "deploy_dry_run").0 d)
    | inr nd ↦ elim (Bool-cases (action == "deploy_rollback")) [
      | inl r ↦ rollback ((eq_iff action "deploy_rollback").0 r) (ground arith)
      | inr nr ↦ elim (Bool-cases (action == "deploy_apply")) [
        | inl a ↦ elim (Bool-cases (environment == "production")) [
          | inl p ↦
              production ((eq_iff action "deploy_apply").0 a) (ground arith)
                ((positive_iff telemetry_count).0 (ground arith)) (ground arith)
          | inr np ↦
              elsewhere ((eq_iff action "deploy_apply").0 a)
                (λ e. ground (arith, eq_iff environment "production"))
        ]
        | inr na ↦ absurd (ground arith)
      ]
    ]
  ]

  allow_of_cleared : Cleared → decision.allow ≡ true
  unfolding evaluate_deployment
  allow_of_cleared (dry_run e) = rw e refl
  allow_of_cleared (rollback e g) = rw e (ground arith)
  allow_of_cleared (elsewhere e n) = rw e (ground (arith, eq_iff environment "production"))
  allow_of_cleared (production e g t r) = rw e (ground (arith, (positive_iff telemetry_count).1 t))

  human_of_denied :
      (decision.requires_human ≡ true)
      ↔ ((decision.allow ≡ false) × ((action ≡ "deploy_apply") ⊎ (action ≡ "deploy_rollback")))
  unfolding evaluate_deployment
  human_of_denied = ground (
    arith,
    eq_iff action "deploy_dry_run",
    eq_iff action "deploy_rollback",
    eq_iff action "deploy_apply",
    eq_iff environment "production",
  )

  -- A deployment action is allowed exactly if it has the approvals that it needs, and asks for a human
  -- exactly if it is an apply or a rollback that is denied.
  pub evaluate_deployment-allow_iff :
      ((decision.allow ≡ true) ↔ Cleared)
      × ((decision.requires_human ≡ true)
          ↔ ((decision.allow ≡ false) × ((action ≡ "deploy_apply") ⊎ (action ≡ "deploy_rollback"))))
  evaluate_deployment-allow_iff = ((cleared_of_allow, allow_of_cleared), human_of_denied)
