-- ===== src/Proof/Mapper.antt =====
-- vad/proof/mapper.py: a plan for an EIP.
pub mod Coverage
use verified_agentic_develop.Prelude.{
  ◌+◌, String, Bool, ◌&&◌, ◌||◌, List, [], ◌∷◌, Option, none, some, Result, ok, raise, ◌>>=◌, ◌>>◌,
  value_error, eqb, ltb, length, text_leb, if◌then◌else◌,
}
use verified_agentic_develop.Prelude.Sort.{sort}
use verified_agentic_develop.Contracts.{
  Eip, ProofObligation, ProofKind, unit_tests, property, contract, security, performance, policy,
  release, telemetry, manual_gate,
}
use verified_agentic_develop.Proof.{ProofMapping, ProofPlan, proof_plan, compute_eip_digest}

-- `COMMANDS_BY_KIND.get(kind)`: all kinds but a manual gate have a command
unfoldable pub command_for : ProofKind → Option String
command_for unit_tests = some "pytest"
command_for property = some "pytest"
command_for contract = some "pytest -m contract"
command_for security = some "pytest -m security"
command_for performance = some "pytest -m performance"
command_for policy = some "pytest -m policy"
command_for release = some "pytest -m release"
command_for telemetry = some "pytest -m telemetry"
command_for manual_gate = none

unfoldable pub ensure_proof_coverage : {F : Type 0} → Eip F → Result (Unit {0})
ensure_proof_coverage eip =
    let invariant_count =
      length eip.invariants.security
      + length eip.invariants.performance
      + length eip.invariants.functional in
    let success_count = length eip.goal.success_criteria in
    if (ltb 0 invariant_count || ltb 0 success_count) && eqb (length eip.proof_obligations) 0
    then raise (value_error "EIP has success criteria or invariants but no proof obligations.")
    else ok tt

unfoldable pub by_id : ProofObligation → ProofObligation → Bool
by_id a b = text_leb a.id b.id

-- the body of the loop: a manual gate is set apart, any other kind is mapped to its command
unfoldable pub place :
    ProofObligation
    → ProofKind
    → Option String
    → List ProofMapping × List String
    → Result (List ProofMapping × List String)
place o manual_gate command (mappings, gates) = ok (mappings, o.id ∷ gates)
place o kind (some command) (mappings, gates) =
    ok (record { obligation_id = o.id; test_command = command } ∷ mappings, gates)
place o kind none (mappings, gates) = raise (value_error "Unsupported proof kind")

-- the mappings and the manual gates, in the order of the obligations
unfoldable pub place_all : List ProofObligation → Result (List ProofMapping × List String)
unfolding place command_for
place_all [] = ok ([], [])
place_all (o ∷ os) = do rest ← place_all os; place o o.kind (command_for o.kind) rest

unfoldable pub map_proofs : {F : Type 0} → (Eip F → String) → Eip F → Result ProofPlan
map_proofs json_sha256 eip = do
  ensure_proof_coverage eip
  placed ← place_all (sort by_id eip.proof_obligations)
  proof_plan (record {
    eip_version = eip.version;
    eip_digest = compute_eip_digest json_sha256 eip;
    mappings = placed.0;
    required_manual_gates = placed.1;
  })
