-- ===== src/Router/Models.antt =====
-- `TokenBudget` of vad/router/models.py. `max(0, a - b)` is the difference on ℕ, which stops at 0.
use verified_agentic_develop.Prelude.{
  ℕ, ◌+◌, ◌-◌, ◌≡◌, ◌↔◌, ◌<◌, Bool, true, String, List, [], ◌∷◌, ltb, arith, min,
}

pub record TokenBudget : Type 0 where
  pub budget : ℕ
  pub estimated : ℕ
  pub used : ℕ
  pub remaining : ℕ
  pub optimization_notes : List String
  pub approval_required : Bool

unfoldable pub create : ℕ → ℕ → List String → TokenBudget
create budget estimated optimization_notes = record {
  budget = budget;
  estimated = estimated;
  used = 0;
  remaining = budget - estimated;
  optimization_notes = optimization_notes;
  approval_required = ltb budget estimated;
}

unfoldable pub record_usage : TokenBudget → ℕ → TokenBudget
record_usage b used =
    let total_used = b.used + used in
    record b {
      used = total_used;
      remaining = b.budget - total_used;
      approval_required = ltb b.budget total_used;
    }

-- the uses of a list, one after the other
pub record_all : TokenBudget → List ℕ → TokenBudget
record_all b [] = b
record_all b (u ∷ us) = record_all (record_usage b u) us

pub sum_of : List ℕ → ℕ
sum_of [] = 0
sum_of (u ∷ us) = u + sum_of us

-- After any uses, at least one, the budget has counted their sum, the rest and the uses that fit in the
-- budget make up the budget, and approval is required exactly if the sum passes the budget.
pub record_usage_all :
    (b : TokenBudget) (u : ℕ) (us : List ℕ)
    → let after = record_all (record_usage b u) us in
      (after.budget ≡ b.budget)
      × (after.used ≡ b.used + u + sum_of us)
      × (after.remaining + min after.used after.budget ≡ after.budget)
      × ((after.approval_required ≡ true) ↔ (b.budget < b.used + u + sum_of us))
unfolding record_usage record_all sum_of
record_usage_all b u [] = ground arith
record_usage_all b u (v ∷ us) = ground (arith, record_usage_all (record_usage b u) v us)
