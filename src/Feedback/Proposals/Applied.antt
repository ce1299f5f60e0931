-- ===== src/Feedback/Proposals/Applied.antt =====
-- vad/feedback/proposals.py: what the approved proposals make of an EIP.
use verified_agentic_develop.Prelude.{
  String, true, false, not, List, Memᴰ, All, ◌≡◌, ◌⊎◌, Result, validation_error, not, ◌&&◌, keep_if,
  keep_if, ◌&&◌,
}
use verified_agentic_develop.Contracts.{Eip, ProofKind}
use verified_agentic_develop.Swarm.Tasks.{Outcome, done, failed, out_of_fuel}
use verified_agentic_develop.Feedback.Proposals.{FeedbackProposal}
use verified_agentic_develop.Feedback.Proposals.Extends.{IsExtended}
use verified_agentic_develop.Feedback.Proposals.Steps.{IsTidy, IsHonoured, Refuses}

module _ (read_kind : String → Result ProofKind)
    (other_attribute : String → String → Result (Unit {0})) where
  module _ {F : Type 0} where
    Ends : Eip F → List FeedbackProposal → Outcome (Eip F) → Type 0
    Ends before ps (done after) =
        IsTidy before after
        × All
            (λ p. p.approved ≡ true → IsHonoured read_kind other_attribute p.proposal_type p after)
            ps
    Ends before ps (failed problem) =
        (p : FeedbackProposal) × Memᴰ p ps
        × (p.approved ≡ true)
        × Refuses read_kind other_attribute p.proposal_type p problem
    Ends before ps out_of_fuel = ⊥

    -- the end of `apply_approved_proposals`
    unfoldable pub IsApplied : Eip F → List FeedbackProposal → Outcome (Eip F) → Type 0
    IsApplied before ps (done after) =
        IsExtended before after
        × IsTidy before after
        × All
            (λ p. p.approved ≡ true → IsHonoured read_kind other_attribute p.proposal_type p after)
            ps
        × ((before.release_requirements.required ≡ false)
            ⊎ (before.telemetry_requirements.required ≡ true))
    IsApplied before ps (failed problem) =
        ((p : FeedbackProposal) × Memᴰ p ps
          × (p.approved ≡ true)
          × Refuses read_kind other_attribute p.proposal_type p problem)
        ⊎ ((problem ≡ validation_error)
            × (before.release_requirements.required ≡ true)
            × (before.telemetry_requirements.required ≡ false))
    IsApplied before ps out_of_fuel = ⊥

    Begins : FeedbackProposal → Eip F → Outcome (Eip F) → Type 0
    Begins p before (done middle) =
        IsTidy before middle
        × (p.approved ≡ true → IsHonoured read_kind other_attribute p.proposal_type p middle)
    Begins p before (failed problem) =
        (p.approved ≡ true) × Refuses read_kind other_attribute p.proposal_type p problem
    Begins p before out_of_fuel = ⊥
