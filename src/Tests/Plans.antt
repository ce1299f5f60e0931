-- ===== src/Tests/Plans.antt =====
-- Deployments, routes and the life of the control plane at concrete inputs.
use verified_agentic_develop.Prelude.{
  ℕ, zero, suc, ◌+◌, ◌*◌, ◌/◌, String, true, List, [], ◌∷◌, none, ok, ◌≡◌, refl, arith, ap, eqb,
  leb, ltb, ◌==◌, inl,
}
use verified_agentic_develop.Prelude.Float.{FloatOps}
use verified_agentic_develop.Prelude.Lines.{strip}
use verified_agentic_develop.Policy.{boolean, Evaluate, allow_query}
use verified_agentic_develop.Deploy.{DeploymentPlan, staging, blue_green}
use verified_agentic_develop.Deploy.Provider.{FakeDeploymentProvider}
use verified_agentic_develop.Deploy.Provider.Undo.{nested, IsUndone, nested-IsUndone}
use verified_agentic_develop.Router.Routing.{ModelInfo, RouteRequest, Router, route}
use verified_agentic_develop.Router.Routing.Safe.{IsRouted, route-IsRouted}
use verified_agentic_develop.ControlPlane.Lifecycle.{
  ControlPlaneLifecycle, Stamp, mark_ready, stop, fail, perform_all, start_lifecycle,
  lifecycle_event, event_of, first_event, has_text, starting,
}
use verified_agentic_develop.ControlPlane.Lifecycle.Trace.{IsRecorded, perform_all-IsRecorded}

-- a number as so many strokes
abbrev strokes : ℕ → String
strokes zero = ""
strokes (suc n) = String.◌∷◌ "1" (strokes n)

abbrev tail : String → String
tail String.[] = ""
tail (String.◌∷◌ c s) = s

strokes_differ : (m n : ℕ) → strokes m ≡ strokes n → m ≡ n
strokes_differ zero zero h = refl
strokes_differ zero (suc n) h = cc
strokes_differ (suc m) zero h = cc
strokes_differ (suc m) (suc n) h = ap suc (strokes_differ m n (ap tail h))

abbrev plan : String → DeploymentPlan ℕ
plan artifact = record {
  plan_id = "plan";
  target = record {
    target_id = "web";
    environment = staging;
    provider = "fake";
    region = none;
    strategy = blue_green;
    artifact_digest = artifact;
    endpoint = none;
    secret_refs = [];
    telemetry = [];
    rollback = record {
      enabled = true;
      strategy = blue_green;
      trigger_metric = "errors";
      threshold = 10;
      max_wait_seconds = 60;
    };
  };
  approval_ref = none;
  evidence_ref = none;
}

abbrev provider : FakeDeploymentProvider
provider = record { targets = ("db", "old") ∷ []; deployments = []; counter = 0 }

nested-IsUndone_example :
    IsUndone strokes provider (nested strokes (plan "first" ∷ plan "second" ∷ []) provider)
nested-IsUndone_example =
    nested-IsUndone strokes strokes_differ (λ s. s) (plan "first" ∷ plan "second" ∷ []) provider
      (inl refl, (inl refl, tt))

instance thousandths_of : FloatOps ℕ
thousandths_of = record {
  fle = leb;
  flt = ltb;
  feq = eqb;
  fadd = λ a b. a + b;
  fmul = λ a b. a * b / 1000;
  thousandths = λ n. n;
  fzero = 0;
  fone = 1000;
  gate_threshold = 950;
  fshow = λ n. "x";
  not-flt_of_fle = λ a b h. ground arith;
}

abbrev permit : Evaluate
permit query input = ok (boolean (query == allow_query))

abbrev models : List (ModelInfo ℕ)
models =
    record { name = "expensive-model"; tier = "tier2"; cost_per_1k_tokens = 100; max_tokens = 8192 }
    ∷ record { name = "cheap-model"; tier = "tier1"; cost_per_1k_tokens = 10; max_tokens = 4096 }
    ∷ []

abbrev request : RouteRequest ℕ
request = record {
  task = "write";
  max_budget = 50;
  max_depth = 3;
  risk_tier = "low";
  purpose = "general";
  current_depth = 0;
  metadata = [];
}

abbrev router : Router ℕ
router = record {
  log = [];
  decisions = [];
  evidence_events = [];
  budget = record { max_budget = 50; max_depth = 3; spent = 20; current_depth = 0 };
}

route-IsRouted_example : IsRouted permit request models router (route permit request models router)
route-IsRouted_example = route-IsRouted permit request models router

abbrev stamp : Stamp
stamp = record { event_id = "event"; created_at = "now" }

abbrev started : ControlPlaneLifecycle
started = record {
  state = starting;
  events = event_of stamp none starting "start" "control-plane" ∷ [];
}

perform_all-IsRecorded_example : IsRecorded (
    perform_all
      ((stamp, mark_ready "up") ∷ (stamp, stop "down") ∷ (stamp, fail "broken" "operator") ∷ [])
      started)
unfolding start_lifecycle lifecycle_event first_event event_of has_text strip
perform_all-IsRecorded_example =
    perform_all-IsRecorded stamp "start" started
      ((stamp, mark_ready "up") ∷ (stamp, stop "down") ∷ (stamp, fail "broken" "operator") ∷ [])
      refl
