-- ===== src/Router/Routing.antt =====
-- `Router` of vad/router/routing.py and its records of vad/router/models.py. The provider's models are an
-- argument, and the answers of the policy rules are the parameter `evaluate`.
pub mod Safe
use verified_agentic_develop.Prelude.{
  ℕ, zero, suc, ◌+◌, String, Bool, true, false, not, List, [], ◌∷◌, ◌++◌, Option, none, some,
  Result, ok, raise, value_error, validation_error, ◌==◌, ◌&&◌, ◌||◌, if◌then◌else◌, keep_if, eqb,
}
use verified_agentic_develop.Prelude.Float.{FloatOps}
use verified_agentic_develop.Prelude.Sort.{sort}
use verified_agentic_develop.Policy.{PolicyDecision, Evaluate, evaluate_decision}
use verified_agentic_develop.Router.Budget.{BudgetManager, charge, increment_depth}

pub record ModelInfo (F : Type 0) : Type 0 where
  pub name : String
  pub tier : String
  pub cost_per_1k_tokens : F
  pub max_tokens : ℕ

pub record RouteRequest (F : Type 0) : Type 0 where
  pub task : String
  pub max_budget : F
  pub max_depth : ℕ
  pub risk_tier : String
  pub purpose : String
  pub current_depth : ℕ
  pub metadata : List (String × String)

pub record RouteDecision (F : Type 0) : Type 0 where
  pub selected_model : String
  pub selected_tier : String
  pub estimated_tokens : ℕ
  pub estimated_cost : F
  pub reason : String

pub record RouteEvidenceEvent (F : Type 0) : Type 0 where
  pub event : String
  pub selected_model : Option String
  pub selected_tier : Option String
  pub estimated_tokens : ℕ
  pub estimated_cost : F
  pub reason : String
  pub policy_decision : Option PolicyDecision

-- the router's lists, and the budget that it is given
pub record Router (F : Type 0) : Type 0 where
  pub log : List (String × String)
  pub decisions : List (RouteDecision F)
  pub evidence_events : List (RouteEvidenceEvent F)
  pub budget : BudgetManager F

unfoldable pub needs_tier2 : {F : Type 0} → RouteRequest F → Bool
needs_tier2 request = (request.risk_tier == "high") || (request.purpose == "verification")

unfoldable pub route_reason : {F : Type 0} → RouteRequest F → ℕ → String
unfolding needs_tier2
route_reason request index =
    if needs_tier2 request
    then "verifier-approved tier required"
    else if request.purpose == "formatting"
    then "low-risk formatting uses cheapest allowed tier"
    else if eqb index 0
    then "within budget"
    else "fallback due to budget"

-- `expected_tokens`
abbrev pub expected_tokens : ℕ
expected_tokens = 1000

module _ {F : Type 0} ⦃fl : FloatOps F⦄ where
  unfoldable pub cheaper : ModelInfo F → ModelInfo F → Bool
  cheaper a b = fl.fle a.cost_per_1k_tokens b.cost_per_1k_tokens

  unfoldable pub dearer : ModelInfo F → ModelInfo F → Bool
  dearer a b = fl.fle b.cost_per_1k_tokens a.cost_per_1k_tokens

  unfoldable pub ordered_candidates : List (ModelInfo F) → RouteRequest F → List (ModelInfo F)
  unfolding needs_tier2
  ordered_candidates models request =
      if needs_tier2 request
      then sort dearer (keep_if (λ m. m.tier == "tier2") models)
      else if request.purpose == "formatting"
      then sort cheaper models
      else sort dearer models

  unfoldable pub estimated_cost_of : ModelInfo F → F
  estimated_cost_of m = fl.fmul (fl.thousandths expected_tokens) m.cost_per_1k_tokens

  unfoldable pub denied_event : ModelInfo F → PolicyDecision → RouteEvidenceEvent F
  denied_event m decision = record {
    event = "route_denied";
    selected_model = some m.name;
    selected_tier = some m.tier;
    estimated_tokens = 0;
    estimated_cost = fl.fzero;
    reason = "model tier denied by policy";
    policy_decision = some decision;
  }

  unfoldable pub exhausted_event : RouteEvidenceEvent F
  exhausted_event = record {
    event = "route_exhausted";
    selected_model = none;
    selected_tier = none;
    estimated_tokens = 0;
    estimated_cost = fl.fzero;
    reason = "Token budget exhausted";
    policy_decision = none;
  }

  -- the decision and the event of a chosen model
  unfoldable pub record_choice :
      RouteRequest F → ℕ → ModelInfo F → PolicyDecision → Router F → Router F
  unfolding estimated_cost_of
  record_choice request index m decision s = record s {
    decisions =
        s.decisions
        ++ record {
          selected_model = m.name;
          selected_tier = m.tier;
          estimated_tokens = expected_tokens;
          estimated_cost = estimated_cost_of m;
          reason = route_reason request index;
        }
          ∷ [];
    evidence_events =
        s.evidence_events
        ++ record {
          event = "route_decision";
          selected_model = some m.name;
          selected_tier = some m.tier;
          estimated_tokens = expected_tokens;
          estimated_cost = estimated_cost_of m;
          reason = route_reason request index;
          policy_decision = some decision;
        }
          ∷ [];
  }

  -- what follows `budget.charge`: `RouteDecision` refuses a negative cost, after the log was written
  unfoldable pub after_charge :
      RouteRequest F
      → ℕ
      → ModelInfo F
      → PolicyDecision
      → Result (Unit {0})
      → Router F
      → Result String × Router F
  unfolding record_choice
  after_charge request index m decision (raise problem) s = (raise problem, s)
  after_charge request index m decision (ok done) s =
      let logged : Router F = record s { log = s.log ++ ("route", m.name) ∷ [] } in
      if fl.fle fl.fzero (estimated_cost_of m)
      then (ok m.name, record_choice request index m decision logged)
      else (raise validation_error, logged)

  unfoldable pub choose :
      RouteRequest F → ℕ → ModelInfo F → PolicyDecision → Router F → Result String × Router F
  unfolding after_charge estimated_cost_of charge
  choose request index m decision s =
      let (charged, budget) = charge (estimated_cost_of m) s.budget in
      after_charge request index m decision charged (record s { budget = budget })

  -- the body of the loop, with the later rounds
  unfoldable pub consider :
      RouteRequest F
      → ℕ
      → ModelInfo F
      → (Router F → Result String × Router F)
      → Result PolicyDecision
      → Router F
      → Result String × Router F
  unfolding choose denied_event
  consider request index m later (raise problem) s = (raise problem, s)
  consider request index m later (ok decision) s =
      if not decision.allow
      then later (record s { evidence_events = s.evidence_events ++ denied_event m decision ∷ [] })
      else if fl.fle (fl.fadd s.budget.spent (estimated_cost_of m)) s.budget.max_budget
      then choose request index m decision s
      else later s

  module _ (evaluate : Evaluate) (request : RouteRequest F) where
    unfoldable pub decision_for : ModelInfo F → Result PolicyDecision
    decision_for m =
        evaluate_decision evaluate (("action", "use_model") ∷ ("model_tier", m.tier) ∷ [])

    unfoldable pub try_models : ℕ → List (ModelInfo F) → Router F → Result String × Router F
    unfolding consider exhausted_event
    try_models index [] s = (
      raise (value_error "Token budget exhausted"),
      record s { evidence_events = s.evidence_events ++ exhausted_event ∷ [] },
    )
    try_models index (m ∷ ms) s =
        consider request index m (try_models (index + 1) ms) (decision_for m) s

    unfoldable pub route_over : List (ModelInfo F) → Router F → Result String × Router F
    unfolding try_models
    route_over [] s = (raise (value_error "No registered models available"), s)
    route_over (m ∷ ms) s = try_models 0 (m ∷ ms) s

    unfoldable pub after_depth :
        List (ModelInfo F) → Result (Unit {0}) → Router F → Result String × Router F
    unfolding route_over
    after_depth models (raise problem) s = (raise problem, s)
    after_depth models (ok done) s = route_over (ordered_candidates models request) s

    unfoldable pub route : List (ModelInfo F) → Router F → Result String × Router F
    unfolding after_depth increment_depth
    route models s =
        let (counted, budget) = increment_depth s.budget in
        after_depth models counted (record s { budget = budget })
