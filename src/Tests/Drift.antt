-- ===== src/Tests/Drift.antt =====
-- A provider that dropped a model.
use verified_agentic_develop.Prelude.{◌≤◌, some, ℕ, String, true, List, [], ◌∷◌, ◌≡◌, ◌↔◌}
use verified_agentic_develop.Router.Drift.{ProviderModel, ProviderInventory, detect_provider_drift}
use verified_agentic_develop.Router.Drift.Allowed.{last_named, detect_provider_drift-allow_iff}

abbrev model : String → ℕ → ProviderModel ℕ
model name limit = record {
  name = name;
  tier = "tier1";
  capabilities = "code" ∷ [];
  cost_per_1k_input_tokens = 1;
  cost_per_1k_output_tokens = 2;
  context_limit = limit;
}

abbrev offers : List (ProviderModel ℕ) → ProviderInventory ℕ
offers models = record {
  provider_name = "local";
  provider_version = "1";
  capabilities = "code" ∷ [];
  models = models;
}

detect_provider_drift-allow_iff_example :
    ((detect_provider_drift
        (offers (model "a" 8 ∷ model "b" 4 ∷ []))
        (offers (model "a" 9 ∷ []))).allow
      ≡ true)
    ↔ ((name : String) (m : ProviderModel ℕ)
        → last_named name (model "a" 8 ∷ model "b" 4 ∷ []) ≡ some m
        → (a : ProviderModel ℕ) × (last_named name (model "a" 9 ∷ []) ≡ some a)
          × (m.context_limit ≤ a.context_limit))
detect_provider_drift-allow_iff_example =
    detect_provider_drift-allow_iff (offers (model "a" 8 ∷ model "b" 4 ∷ []))
      (offers (model "a" 9 ∷ []))
