-- ===== src/Router/Drift.antt =====
-- vad/router/drift.py, and the inventories of vad/router/providers/interface.py that it compares.
pub mod Allowed
use verified_agentic_develop.Prelude.{
  ℕ, String, Bool, true, false, not, ◌||◌, Option, none, some, List, [], ◌∷◌, ◌++◌, ltb, elem,
  joined, all_of, if◌then◌else◌, ◌==◌, ◌&&◌,
}
use verified_agentic_develop.Deploy.Provider.{get, put}

pub record ProviderModel (F : Type 0) : Type 0 where
  pub name : String
  pub tier : String
  pub capabilities : List String
  pub cost_per_1k_input_tokens : F
  pub cost_per_1k_output_tokens : F
  pub context_limit : ℕ

pub record ProviderInventory (F : Type 0) : Type 0 where
  pub provider_name : String
  pub provider_version : String
  pub capabilities : List String
  pub models : List (ProviderModel F)

pub record DriftReport : Type 0 where
  pub event : String
  pub provider : String
  pub allow : Bool
  pub warnings : List String
  pub denials : List String

-- `set(a) == set(b)`
unfoldable pub same_set : List String → List String → Bool
same_set a b = all_of (λ x. elem x b) a && all_of (λ x. elem x a) b

unfoldable pub is_empty : List String → Bool
is_empty [] = true
is_empty (x ∷ xs) = false

module _ {F : Type 0} where
  -- `{model.name: model for model in models}`: a later model takes the place of one of its name
  unfoldable pub add_models :
      List (String × ProviderModel F) → List (ProviderModel F) → List (String × ProviderModel F)
  unfolding put
  add_models models [] = models
  add_models models (m ∷ ms) = add_models (put models m.name m) ms

  unfoldable pub denials_of : String → ProviderModel F → Option (ProviderModel F) → List String
  denials_of name expected none = joined ("model removed: " ∷ name ∷ []) ∷ []
  denials_of name expected (some actual) =
      if ltb actual.context_limit expected.context_limit
      then joined ("context limit decreased for " ∷ name ∷ []) ∷ []
      else []

  unfoldable pub warnings_of : String → ProviderModel F → Option (ProviderModel F) → List String
  unfolding same_set
  warnings_of name expected none = []
  warnings_of name expected (some actual) =
      (if actual.tier == expected.tier then [] else joined ("tier changed for " ∷ name ∷ []) ∷ [])
      ++ (if same_set actual.capabilities expected.capabilities
          then []
          else joined ("capabilities changed for " ∷ name ∷ []) ∷ [])

  unfoldable pub all_denials :
      List (String × ProviderModel F) → List (String × ProviderModel F) → List String
  unfolding denials_of get
  all_denials actual [] = []
  all_denials actual ((name, m) ∷ rest) =
      denials_of name m (get actual name) ++ all_denials actual rest

  unfoldable pub all_warnings :
      List (String × ProviderModel F) → List (String × ProviderModel F) → List String
  unfolding warnings_of get
  all_warnings actual [] = []
  all_warnings actual ((name, m) ∷ rest) =
      warnings_of name m (get actual name) ++ all_warnings actual rest

  unfoldable pub detect_provider_drift : ProviderInventory F → ProviderInventory F → DriftReport
  unfolding all_denials all_warnings add_models is_empty
  detect_provider_drift expected actual =
      let expected_models = add_models [] expected.models in
      let actual_models = add_models [] actual.models in
      let denials = all_denials actual_models expected_models in
      record {
        event = "provider_metadata_drift";
        provider = actual.provider_name;
        allow = is_empty denials;
        warnings = all_warnings actual_models expected_models;
        denials = denials;
      }
