-- ===== src/Feedback/Proposals.antt =====
-- vad/feedback/proposals.py. `show` stands for `str` on an int. Payload values that are no texts are
-- not modelled.
pub mod Fresh
pub mod Extends
pub mod Distinct
pub mod Steps
pub mod Applied
use verified_agentic_develop.Prelude.{
  ℕ, zero, suc, String, Bool, true, false, Option, none, some, List, [], ◌∷◌, ◌++◌, map, Result, ok,
  raise, if◌then◌else◌, elem, joined, length, ◌==◌,
}
use verified_agentic_develop.Contracts.{
  Eip, Invariants, ProofObligation, ProofKind, require_telemetry_for_release,
}
use verified_agentic_develop.Swarm.Tasks.{Outcome, done, failed, out_of_fuel, ◌>>=◌}

pub data ProposalType : Type 0 where
  add_invariant strengthen_invariant add_proof_obligation reduce_autonomy restrict_tool
        change_model_tier adjust_budget add_release_gate :
      ProposalType

pub record Payload : Type 0 where
  pub category : Option String
  pub description : Option String
  pub id : Option String
  pub kind : Option String

pub record FeedbackProposal : Type 0 where
  pub proposal_type : ProposalType
  pub reason : String
  pub payload : Payload
  pub approved : Bool

-- `payload.get(key, default)`
unfoldable pub get_or : String → Option String → String
get_or default none = default
get_or default (some t) = t

-- an exception, or a value that is at hand
unfoldable pub of_result : {A : Type 0} → Result A → Outcome A
of_result (raise problem) = failed problem
of_result (ok a) = done a

unfoldable pub add_missing : String → List String → List String
add_missing d xs = if elem d xs then xs else xs ++ d ∷ []

unfoldable pub ids_of : List ProofObligation → List String
ids_of obligations = map (λ o. o.id) obligations

unfoldable pub with_kind :
    {F : Type 0} → Result ProofKind → String → FeedbackProposal → Eip F → Result (Eip F)
unfolding get_or
with_kind (raise problem) id p eip = raise problem
with_kind (ok kind) id p eip = ok (record eip {
  proof_obligations =
      eip.proof_obligations
      ++ record { id = id; kind = kind; description = get_or p.reason p.payload.description } ∷ [];
})

unfoldable pub after_attribute : {F : Type 0} → Result (Unit {0}) → Eip F → Result (Eip F)
after_attribute (raise problem) eip = raise problem
after_attribute (ok _) eip = ok eip

module _ (show : ℕ → String) where
  unfoldable pub numbered : ℕ → String
  numbered index = joined ("po-" ∷ show index ∷ [])

  -- the loop of `_next_obligation_id`, where the fuel bounds its rounds
  unfoldable pub find_free : ℕ → ℕ → List String → Outcome String
  unfolding numbered
  find_free zero index existing_ids = out_of_fuel
  find_free (suc fuel) index existing_ids =
      let rest = find_free fuel (suc index) existing_ids in
      if elem (numbered index) existing_ids then rest else done (numbered index)

  unfoldable pub next_obligation_id : List String → Outcome String
  unfolding find_free
  next_obligation_id existing_ids = find_free (suc (length existing_ids)) 1 existing_ids

  -- `payload.get("id") or _next_obligation_id(existing_ids)`
  unfoldable pub chosen_id : Option String → List String → Outcome String
  unfolding next_obligation_id
  chosen_id none existing_ids = next_obligation_id existing_ids
  chosen_id (some t) existing_ids = if t == "" then next_obligation_id existing_ids else done t

  -- `read_kind` is the reading of a `ProofKind`; `other_attribute category description` is what the
  -- test and the append do where the category is no list of invariants
  module _ (read_kind : String → Result ProofKind)
      (other_attribute : String → String → Result (Unit {0})) {F : Type 0} where
    unfoldable pub append_obligation : String → FeedbackProposal → Eip F → Result (Eip F)
    unfolding get_or with_kind
    append_obligation id p eip = with_kind (read_kind (get_or "unit" p.payload.kind)) id p eip

    unfoldable pub apply_proof_obligation : FeedbackProposal → Eip F → Outcome (Eip F)
    unfolding chosen_id append_obligation of_result ids_of
    apply_proof_obligation p eip = chosen_id p.payload.id (ids_of eip.proof_obligations) >>= λ id.
        if elem id (ids_of eip.proof_obligations)
        then done eip
        else of_result (append_obligation id p eip)

    unfoldable pub add_to_category : String → String → Eip F → Result (Eip F)
    unfolding add_missing after_attribute
    add_to_category category d eip =
        let i = eip.invariants in
        if category == "security"
        then ok (record eip { invariants = record i { security = add_missing d i.security } })
        else if category == "performance"
        then ok (record eip { invariants = record i { performance = add_missing d i.performance } })
        else if category == "functional"
        then ok (record eip { invariants = record i { functional = add_missing d i.functional } })
        else after_attribute (other_attribute category d) eip

    unfoldable pub apply_invariant : FeedbackProposal → Eip F → Outcome (Eip F)
    unfolding add_to_category get_or of_result
    apply_invariant p eip = of_result (
        add_to_category (get_or "functional" p.payload.category)
          (get_or p.reason p.payload.description) eip)

    unfoldable pub apply_typed : ProposalType → FeedbackProposal → Eip F → Outcome (Eip F)
    unfolding apply_invariant apply_proof_obligation
    apply_typed add_invariant p eip = apply_invariant p eip
    apply_typed strengthen_invariant p eip = apply_invariant p eip
    apply_typed add_proof_obligation p eip = apply_proof_obligation p eip
    apply_typed _ p eip = done eip

    unfoldable pub apply_all : List FeedbackProposal → Eip F → Outcome (Eip F)
    unfolding apply_typed
    apply_all [] eip = done eip
    apply_all (p ∷ ps) eip =
        (if p.approved then apply_typed p.proposal_type p eip else done eip) >>= apply_all ps

    -- the constructor at the end validates the EIP again
    unfoldable pub apply_approved_proposals : Eip F → List FeedbackProposal → Outcome (Eip F)
    unfolding apply_all require_telemetry_for_release of_result
    apply_approved_proposals eip proposals =
        apply_all proposals eip >>= λ updated. of_result (require_telemetry_for_release updated)
