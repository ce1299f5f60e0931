-- ===== src/Swarm/Agents.antt =====
-- vad/swarm/agents.py: the roles of agents and the cards that describe them.
use verified_agentic_develop.Prelude.{
  String, Bool, true, false, not, List, [], ◌∷◌, Result, ok, raise, validation_error, ltb, leb, eqb,
  length, text_length, elem, all_of, if◌then◌else◌, ◌&&◌, ℕ,
}

pub data AgentRole : Type 0 where
  planner builder verifier auditor release_guardian : AgentRole

unfoldable pub role_value : AgentRole → String
role_value planner = "planner"
role_value builder = "builder"
role_value verifier = "verifier"
role_value auditor = "auditor"
role_value release_guardian = "release_guardian"

unfoldable pub role_capabilities : AgentRole → List String
role_capabilities planner = "plan" ∷ "decompose" ∷ []
role_capabilities builder = "modify_code" ∷ "run_tests" ∷ []
role_capabilities verifier = "run_tests" ∷ "verify" ∷ []
role_capabilities auditor = "audit_evidence" ∷ "verify" ∷ []
role_capabilities release_guardian = "approve_release" ∷ "rollback" ∷ []

pub record AgentCard : Type 0 where
  pub agent_id : String
  pub role : AgentRole
  pub capabilities : List String
  pub model_tiers : List String
  pub memory_scopes : List String
  pub autonomy_limit : ℕ

-- `role in {BUILDER, RELEASE_GUARDIAN}`
unfoldable pub needs_autonomy : AgentRole → Bool
needs_autonomy builder = true
needs_autonomy release_guardian = true
needs_autonomy _ = false

-- the fields' limits and `validate_role_capabilities`
unfoldable pub agent_card : AgentCard → Result AgentCard
unfolding role_capabilities needs_autonomy
agent_card a =
    if ltb 0 (text_length a.agent_id)
      && ltb 0 (length a.capabilities)
      && ltb 0 (length a.model_tiers)
      && leb a.autonomy_limit 5
      && all_of (λ c. elem c (role_capabilities a.role)) a.capabilities
      && not (needs_autonomy a.role && eqb a.autonomy_limit 0)
    then ok a
    else raise validation_error
