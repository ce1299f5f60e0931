-- ===== src/Deploy.antt =====
-- vad/deploy/models.py: what is deployed where, and the validators of these records.
pub mod Provider
use verified_agentic_develop.Prelude.{
  ℕ, zero, suc, ◌+◌, String, Bool, true, false, not, ◌&&◌, ◌||◌, List, [], ◌∷◌, Option, none, some,
  Result, ok, raise, validation_error, ltb, leb, eqb, length, text_length, contains, contains_any,
  has_prefix, any_of, is_digest, if◌then◌else◌,
}
use verified_agentic_develop.Prelude.Float.{FloatOps}
use verified_agentic_develop.Prelude.Lines.{codes, starts_with, drop}

pub data DeploymentEnvironment : Type 0 where
  development staging production : DeploymentEnvironment

pub data DeploymentStrategy : Type 0 where
  dry_run blue_green canary rolling : DeploymentStrategy

-- `[A-Za-z0-9_-]`
unfoldable pub is_key_char : ℕ → Bool
is_key_char c =
    (leb 65 c && leb c 90)
    || (leb 97 c && leb c 122)
    || (leb 48 c && leb c 57)
    || eqb c 95
    || eqb c 45

-- so many characters of a key stand here
unfoldable pub key_chars : ℕ → List ℕ → Bool
unfolding is_key_char
key_chars zero cs = true
key_chars (suc n) [] = false
key_chars (suc n) (c ∷ cs) = is_key_char c && key_chars n cs

-- `re.search(r"sk-[A-Za-z0-9_-]{16,}", value)`
unfoldable pub has_key : List ℕ → Bool
unfolding key_chars
has_key [] = false
has_key (c ∷ cs) =
    (starts_with (codes "sk-") (c ∷ cs) && key_chars 16 (drop 3 (c ∷ cs))) || has_key cs

pub record SecretReference : Type 0 where
  pub name : String
  pub ref : String

pub record TelemetryRequirement (F : Type 0) : Type 0 where
  pub name : String
  pub query : String
  pub minimum_health : F
  pub window_seconds : ℕ

pub record RollbackPolicy (F : Type 0) : Type 0 where
  pub enabled : Bool
  pub strategy : DeploymentStrategy
  pub trigger_metric : String
  pub threshold : F
  pub max_wait_seconds : ℕ

pub record DeploymentTarget (F : Type 0) : Type 0 where
  pub target_id : String
  pub environment : DeploymentEnvironment
  pub provider : String
  pub region : Option String
  pub strategy : DeploymentStrategy
  pub artifact_digest : String
  pub endpoint : Option String
  pub secret_refs : List SecretReference
  pub telemetry : List (TelemetryRequirement F)
  pub rollback : RollbackPolicy F

pub record DeploymentPlan (F : Type 0) : Type 0 where
  pub plan_id : String
  pub target : DeploymentTarget F
  pub approval_ref : Option String
  pub evidence_ref : Option String

-- a text of 1 to `limit` characters
unfoldable pub fits : ℕ → String → Bool
fits limit s = ltb 0 (text_length s) && leb (text_length s) limit

unfoldable pub fits_optional : ℕ → Option String → Bool
fits_optional limit none = true
fits_optional limit (some s) = leb (text_length s) limit

unfoldable pub is_dry_run : DeploymentStrategy → Bool
is_dry_run dry_run = true
is_dry_run _ = false

unfoldable pub is_production : DeploymentEnvironment → Bool
is_production production = true
is_production _ = false

-- `any(value.startswith(prefix))`
abbrev pub schemes : List String
schemes = "env:" ∷ "secret:" ∷ "vault:" ∷ "aws-sm:" ∷ "gcp-sm:" ∷ "azure-kv:" ∷ []

-- `lower` stands for `str.lower`
module _ (lower : String → String) where
  -- `_reject_inline_secret` raises
  unfoldable pub has_inline_secret : String → Bool
  unfolding has_key
  has_inline_secret value =
      contains_any (lower value)
        ("api_key=" ∷ "token=" ∷ "password=" ∷ "secret=" ∷ "private_key" ∷ [])
      || has_key (codes value)

  unfoldable pub has_secret : Option String → Bool
  has_secret none = false
  has_secret (some value) = has_inline_secret value

  unfoldable pub secret_reference : SecretReference → Result SecretReference
  unfolding fits
  secret_reference s =
      if fits 120 s.name
        && fits 300 s.ref
        && not (has_inline_secret s.ref)
        && (contains s.ref "://" || any_of (has_prefix s.ref) schemes)
      then ok s
      else raise validation_error

  module _ {F : Type 0} ⦃fl : FloatOps F⦄ where
    -- `Field(ge=0.0, le=1.0)`
    unfoldable pub is_share : F → Bool
    is_share x = fl.fle fl.fzero x && fl.fle x fl.fone

    unfoldable pub telemetry_requirement : TelemetryRequirement F → Result (TelemetryRequirement F)
    unfolding fits is_share
    telemetry_requirement t =
        if fits 120 t.name
          && fits 500 t.query
          && is_share t.minimum_health
          && ltb 0 t.window_seconds
          && leb t.window_seconds 86400
        then ok t
        else raise validation_error

    unfoldable pub rollback_policy : RollbackPolicy F → Result (RollbackPolicy F)
    unfolding fits is_share
    rollback_policy r =
        if fits 120 r.trigger_metric
          && is_share r.threshold
          && ltb 0 r.max_wait_seconds
          && leb r.max_wait_seconds 86400
          && not (r.enabled && is_dry_run r.strategy)
        then ok r
        else raise validation_error

  module _ {F : Type 0} where
    -- `production_requires_telemetry_and_rollback`
    unfoldable pub production_ready : DeploymentTarget F → Bool
    production_ready t =
        not (is_production t.environment) || (ltb 0 (length t.telemetry) && t.rollback.enabled)

    -- the records inside a target are validated when they are made
    unfoldable pub deployment_target : DeploymentTarget F → Result (DeploymentTarget F)
    unfolding fits fits_optional has_secret production_ready
    deployment_target t =
        if fits 120 t.target_id
          && fits 80 t.provider
          && fits_optional 80 t.region
          && is_digest t.artifact_digest
          && fits_optional 300 t.endpoint
          && not (has_secret t.endpoint || has_inline_secret t.provider || has_secret t.region)
          && production_ready t
        then ok t
        else raise validation_error

    unfoldable pub deployment_plan : DeploymentPlan F → Result (DeploymentPlan F)
    unfolding fits fits_optional has_secret
    deployment_plan p =
        if fits 120 p.plan_id
          && fits_optional 300 p.approval_ref
          && fits_optional 300 p.evidence_ref
          && not (has_secret p.approval_ref || has_secret p.evidence_ref)
        then ok p
        else raise validation_error
