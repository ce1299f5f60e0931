-- ===== src/Router.antt =====
-- vad/router: budgets, and the choice of a model.
pub mod Models
pub mod Budget
pub mod Routing
pub mod Privacy
pub mod Drift
