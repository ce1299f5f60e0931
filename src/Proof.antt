-- ===== src/Proof.antt =====
-- vad/proof: the plan that says how each proof obligation of an EIP is checked.
pub mod Mapper
use verified_agentic_develop.Prelude.{
  String, Bool, true, false, ◌||◌, List, [], ◌∷◌, map, Option, none, some, Result, ok, raise,
  validation_error, ◌==◌, find_first, is_some, elem, if◌then◌else◌,
}
use verified_agentic_develop.Contracts.{Eip}
use verified_agentic_develop.Contracts.Normalize.{normalize_eip}

pub record ProofMapping : Type 0 where
  pub obligation_id : String
  pub test_command : String

pub record ProofPlan : Type 0 where
  pub eip_version : String
  pub eip_digest : String
  pub mappings : List ProofMapping
  pub required_manual_gates : List String

-- `len(ids) != len(set(ids))`
unfoldable pub has_duplicates : List String → Bool
has_duplicates [] = false
has_duplicates (x ∷ xs) = elem x xs || has_duplicates xs

-- `ProofPlan(...)` with its validator `reject_duplicate_mappings`
unfoldable pub proof_plan : ProofPlan → Result ProofPlan
unfolding has_duplicates
proof_plan p =
    if has_duplicates (map (λ m. m.obligation_id) p.mappings) then raise validation_error else ok p

unfoldable pub get_mapping : ProofPlan → String → Option ProofMapping
get_mapping p obligation_id = find_first (λ m. m.obligation_id == obligation_id) p.mappings

unfoldable pub covers_obligation : ProofPlan → String → Bool
unfolding get_mapping
covers_obligation p obligation_id =
    is_some (get_mapping p obligation_id) || elem obligation_id p.required_manual_gates

-- The digest of an EIP is that of its normal form; `json_sha256` stands for `json.dumps` and `hashlib`.
unfoldable pub compute_eip_digest : {F : Type 0} → (Eip F → String) → Eip F → String
compute_eip_digest json_sha256 eip = json_sha256 (normalize_eip eip)
