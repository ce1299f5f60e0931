-- ===== src/Deploy/Provider.antt =====
-- vad/deploy/providers/fake.py: a provider that keeps its targets and deployments in dictionaries. `show`
-- stands for the f-string of a deployment's number.
pub mod Undo
use verified_agentic_develop.Prelude.{
  ℕ, ◌+◌, String, Bool, true, false, not, List, [], ◌∷◌, Option, none, some, ◌==◌, if◌then◌else◌,
}
use verified_agentic_develop.Deploy.{DeploymentEnvironment, DeploymentStrategy, DeploymentPlan}

-- a dictionary
unfoldable pub get {ℓ} : {V : Type ℓ} → List (String × V) → String → Option V
get [] key = none
get ((k, v) ∷ rest) key = if k == key then some v else get rest key

unfoldable pub put {ℓ} : {V : Type ℓ} → List (String × V) → String → V → List (String × V)
put [] key value = (key, value) ∷ []
put ((k, v) ∷ rest) key value = if k == key then (k, value) ∷ rest else (k, v) ∷ put rest key value

-- `d.pop(key, None)`; a key occurs once
unfoldable pub pop {ℓ} : {V : Type ℓ} → List (String × V) → String → List (String × V)
pop [] key = []
pop ((k, v) ∷ rest) key = let others = pop rest key in if k == key then others else (k, v) ∷ others

pub data DeploymentStatus : Type 0 where
  applied rolled_back : DeploymentStatus

pub record DeploymentRecord : Type 0 where
  pub deployment_id : String
  pub plan_id : String
  pub target_id : String
  pub environment : DeploymentEnvironment
  pub strategy : DeploymentStrategy
  pub prior_artifact_digest : Option String
  pub artifact_digest : String
  pub status : DeploymentStatus
  pub rollback_enabled : Bool

pub record FakeDeploymentProvider : Type 0 where
  pub targets : List (String × String)
  pub deployments : List (String × DeploymentRecord)
  pub counter : ℕ

pub record DryRun : Type 0 where
  pub plan_id : String
  pub target_id : String
  pub environment : DeploymentEnvironment
  pub strategy : DeploymentStrategy
  pub artifact_digest : String
  pub would_replace_artifact : Option String
  pub side_effects : Bool

unfoldable pub dry_run : {F : Type 0} → DeploymentPlan F → FakeDeploymentProvider → DryRun
unfolding get
dry_run plan p = record {
  plan_id = plan.plan_id;
  target_id = plan.target.target_id;
  environment = plan.target.environment;
  strategy = plan.target.strategy;
  artifact_digest = plan.target.artifact_digest;
  would_replace_artifact = get p.targets plan.target.target_id;
  side_effects = false;
}

-- the answer of a rollback, by its status
pub data RollbackAnswer : Type 0 where
  not_found : String → RollbackAnswer
  disabled : String → String → RollbackAnswer
  restored : String → String → Option String → RollbackAnswer

-- the artifact of a target is put back, or the target is removed
unfoldable pub put_back : List (String × String) → String → Option String → List (String × String)
unfolding put pop
put_back targets target_id none = pop targets target_id
put_back targets target_id (some prior) = put targets target_id prior

unfoldable pub roll_back_record :
    String
    → Option DeploymentRecord
    → FakeDeploymentProvider
    → RollbackAnswer × FakeDeploymentProvider
unfolding put_back
roll_back_record deployment_id none p = (not_found deployment_id, p)
roll_back_record deployment_id (some r) p =
    if not r.rollback_enabled then (disabled deployment_id r.target_id, p) else (
      restored deployment_id r.target_id r.prior_artifact_digest,
      record p {
        targets = put_back p.targets r.target_id r.prior_artifact_digest;
        deployments = put p.deployments deployment_id (record r { status = rolled_back });
      },
    )

unfoldable pub rollback : String → FakeDeploymentProvider → RollbackAnswer × FakeDeploymentProvider
unfolding roll_back_record
rollback deployment_id p = roll_back_record deployment_id (get p.deployments deployment_id) p

module _ (show : ℕ → String) {F : Type 0} where
  abbrev pub record_of : DeploymentPlan F → FakeDeploymentProvider → DeploymentRecord
  record_of plan p = record {
    deployment_id = show (p.counter + 1);
    plan_id = plan.plan_id;
    target_id = plan.target.target_id;
    environment = plan.target.environment;
    strategy = plan.target.strategy;
    prior_artifact_digest = get p.targets plan.target.target_id;
    artifact_digest = plan.target.artifact_digest;
    status = applied;
    rollback_enabled = plan.target.rollback.enabled;
  }

  unfoldable pub apply :
      DeploymentPlan F → FakeDeploymentProvider → DeploymentRecord × FakeDeploymentProvider
  unfolding put
  apply plan p = (
    record_of plan p,
    record {
      targets = put p.targets plan.target.target_id plan.target.artifact_digest;
      deployments = put p.deployments (show (p.counter + 1)) (record_of plan p);
      counter = p.counter + 1;
    },
  )
