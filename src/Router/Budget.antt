-- ===== src/Router/Budget.antt =====
-- `BudgetManager` of vad/router/budget.py: an object with the money spent and the depth reached.
use verified_agentic_develop.Prelude.{ℕ, ◌+◌, ok, raise, value_error, ltb, if◌then◌else◌}
use verified_agentic_develop.Prelude.Action.{Action}
use verified_agentic_develop.Prelude.Float.{FloatOps}

pub record BudgetManager (F : Type 0) : Type 0 where
  pub max_budget : F
  pub max_depth : ℕ
  pub spent : F
  pub current_depth : ℕ

module _ {F : Type 0} ⦃fl : FloatOps F⦄ where
  unfoldable pub budget_manager : F → ℕ → BudgetManager F
  budget_manager max_budget max_depth = record {
    max_budget = max_budget;
    max_depth = max_depth;
    spent = fl.fzero;
    current_depth = 0;
  }

  -- the amount stays spent where the call raises
  unfoldable pub charge : F → Action (BudgetManager F) (Unit {0})
  charge amount b =
      let spent = fl.fadd b.spent amount in
      (
        (if fl.flt b.max_budget spent then raise (value_error "Token budget exhausted") else ok tt),
        record b { spent = spent },
      )

module _ {F : Type 0} where
  unfoldable pub increment_depth : Action (BudgetManager F) (Unit {0})
  increment_depth b =
      let depth = b.current_depth + 1 in
      (
        (if ltb b.max_depth depth then raise (value_error "Loop depth exhausted") else ok tt),
        record b { current_depth = depth },
      )
