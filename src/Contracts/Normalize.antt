-- ===== src/Contracts/Normalize.antt =====
-- vad/contracts/normalize.py: the order of the lists of an EIP is forgotten.
use verified_agentic_develop.Prelude.{String, Bool, List, leb, text_leb, if◌then◌else◌, ◌==◌}
use verified_agentic_develop.Prelude.Sort.{sort}
use verified_agentic_develop.Contracts.{Eip, ProofObligation, MemoryRequirement, kind_value}

-- `_sorted_scalars`
unfoldable pub sorted_scalars : List String → List String
sorted_scalars = sort text_leb

-- tuples compare by their first difference
obligation_leb : ProofObligation → ProofObligation → Bool
obligation_leb a b =
    if a.id == b.id
    then if kind_value a.kind == kind_value b.kind
      then text_leb a.description b.description
      else text_leb (kind_value a.kind) (kind_value b.kind)
    else text_leb a.id b.id

memory_leb : MemoryRequirement → MemoryRequirement → Bool
memory_leb a b =
    if a.scope == b.scope
    then if a.purpose == b.purpose
      then leb a.max_payload_size b.max_payload_size
      else text_leb a.purpose b.purpose
    else text_leb a.scope b.scope

unfoldable pub normalize_eip : {F : Type 0} → Eip F → Eip F
unfolding sorted_scalars obligation_leb memory_leb
normalize_eip eip = record eip {
  non_goals = sorted_scalars eip.non_goals;
  scope_boundaries = sorted_scalars eip.scope_boundaries;
  invariants = record {
    security = sorted_scalars eip.invariants.security;
    performance = sorted_scalars eip.invariants.performance;
    functional = sorted_scalars eip.invariants.functional;
  };
  constraints = record {
    security = sorted_scalars eip.constraints.security;
    privacy = sorted_scalars eip.constraints.privacy;
    operational = sorted_scalars eip.constraints.operational;
  };
  proof_obligations = sort obligation_leb eip.proof_obligations;
  tool_permissions = record {
    allowed = sorted_scalars eip.tool_permissions.allowed;
    denied = sorted_scalars eip.tool_permissions.denied;
  };
  memory_requirements = sort memory_leb eip.memory_requirements;
  release_requirements = record eip.release_requirements {
    gates = sorted_scalars eip.release_requirements.gates;
  };
  telemetry_requirements = record eip.telemetry_requirements {
    signals = sorted_scalars eip.telemetry_requirements.signals;
  };
}
