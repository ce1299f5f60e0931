-- ===== src/Tests/Runs.antt =====
-- Runs of the orchestrator, the verifier and the rules at concrete inputs. A float is a number of
-- thousandths.
use verified_agentic_develop.Prelude.Sort.{sort}
use verified_agentic_develop.Prelude.Int.{ℤ, pos}
use verified_agentic_develop.Prelude.{
  contains_any, contains, elem, joined, ℕ, ◌+◌, ◌*◌, ◌/◌, String, true, false, [], ◌∷◌, none, some,
  ok, ◌≡◌, ◌≢◌, refl, ◌↔◌, All, leb, ltb, eqb, arith, ◌==◌,
}
use verified_agentic_develop.Prelude.Float.{FloatOps}
use verified_agentic_develop.Contracts.{Eip}
use verified_agentic_develop.Contracts
use verified_agentic_develop.Guards
use verified_agentic_develop.Guards.{
  ExecutionResult, CompletedProcess, RunCommand, default_executables, check, contains_shell_control,
}
use verified_agentic_develop.Guards.Safety.{IsSafe, run-IsSafe}
use verified_agentic_develop.Release.{ReleaseManager, is_enabled, evaluate_release}
use verified_agentic_develop.Release.Gates.{IsHealthy, evaluate_release-ok_iff}
use verified_agentic_develop.Proof.Mapper.{map_proofs, place_all, ensure_proof_coverage}
use verified_agentic_develop.Proof.Mapper.Coverage.{map_proofs-covers}
use verified_agentic_develop.Loop.Orchestrator.{Orchestrator, Provider, LoopResult, call_provider}
use verified_agentic_develop.Loop.Orchestrator.Outcome.{Ends}
use verified_agentic_develop.Loop.Orchestrator.Passed.{passes, run-passed_iff}
use verified_agentic_develop.Loop.Orchestrator.Run.{Job, build_input, run}
use verified_agentic_develop.Loop.Orchestrator.Verdict.{Answer, verdict, run-Ends}
use verified_agentic_develop.Loop.State.{passed}
use verified_agentic_develop.Policy.{
  PolicyDecision, boolean, Evaluate, evaluate_decision, allow_query, collect_denials, decide_allow,
}
use verified_agentic_develop.Policy.Decisions.{IsPermitted, evaluate_decision-allow_iff}
use verified_agentic_develop.Proof.{covers_obligation, proof_plan, ProofPlan, compute_eip_digest}
use verified_agentic_develop.Router.Models
use verified_agentic_develop.Router.Models.{record_usage, TokenBudget}
use verified_agentic_develop.Verify.{Commands, verifier_run}
use verified_agentic_develop.Verify.Passed.{IsDischarged, verifier_run-passed_iff}

instance milli : FloatOps ℕ
milli = record {
  fle = leb;
  flt = ltb;
  feq = eqb;
  fadd = λ a b. a + b;
  fmul = λ a b. a * b / 1000;
  thousandths = λ n. n;
  fzero = 0;
  fone = 1000;
  gate_threshold = 950;
  fshow = λ n. "x";
  not-flt_of_fle = λ a b h. ground arith;
}

abbrev rules : Evaluate
rules query input = ok (boolean (query == allow_query))

abbrev exits_with : ℤ → ExecutionResult
exits_with n = record {
  command = "pytest" ∷ [];
  allowed = true;
  exit_code = some n;
  stdout = "";
  stderr = "";
  decision = record { allow = true; reasons = []; denials = []; requires_human = false };
}

abbrev commands : Commands
commands = record { split = λ text. ok (text ∷ []); guard_run = λ command. ok (exits_with (pos 0)) }

abbrev digest : Eip ℕ → String
digest eip = eip.name

abbrev pub eip : Eip ℕ
eip = record {
  version = "1";
  name = "demo";
  goal = record { description = "build"; success_criteria = [] };
  non_goals = [];
  risk_tier = Contracts.low;
  autonomy_tier = Contracts.bounded;
  scope_boundaries = [];
  invariants = record { security = []; performance = []; functional = [] };
  constraints = record { security = []; privacy = []; operational = [] };
  proof_obligations =
      record { id = "PO-1"; kind = Contracts.unit_tests; description = "tests" } ∷ [];
  tool_permissions = record { allowed = []; denied = [] };
  memory_requirements = [];
  model_budget = record { max_tokens = 1000; max_cost = 500; max_loop_depth = 3 };
  release_requirements = record { required = false; strategy = none; gates = [] };
  telemetry_requirements = record { required = false; signals = [] };
}

abbrev plan : ProofPlan
plan = record {
  eip_version = "1";
  eip_digest = "demo";
  mappings = record { obligation_id = "PO-1"; test_command = "pytest" } ∷ [];
  required_manual_gates = [];
}

verifier_run-passed_iff_example : ((verifier_run commands digest eip plan).passed ≡ true) ↔ (
    (plan.eip_version ≡ eip.version)
    × (plan.eip_digest ≡ compute_eip_digest digest eip)
    × All (IsDischarged commands plan) eip.proof_obligations)
verifier_run-passed_iff_example = verifier_run-passed_iff digest eip plan commands

abbrev permitted : PolicyDecision
permitted = record {
  allow = true;
  reasons = "policy allow rule matched" ∷ [];
  denials = [];
  requires_human = false;
}

abbrev job : Job ℕ
job = record {
  services = record { evaluate = rules; commands = commands; json_sha256 = digest };
  eip = eip;
  plan = plan;
  builder = "ada";
  verifier = "bob";
}

rules_permit : evaluate_decision rules (build_input job) ≡ ok permitted
unfolding evaluate_decision collect_denials decide_allow
rules_permit = refl

evaluate_decision-allow_iff_example :
    ((permitted.allow ≡ true) ↔ IsPermitted rules (build_input job))
    × ((permitted.allow ≡ false) ↔ (permitted.denials ≢ []))
evaluate_decision-allow_iff_example =
    evaluate_decision-allow_iff rules (build_input job) permitted rules_permit

abbrev model : Provider ℕ
model = record {
  models = "small" ∷ [];
  complete = λ request. ok (record {
    allowed = true;
    input_tokens = 10;
    output_tokens = 20;
    estimated_cost = 5;
    evidence = [];
    denial = none;
  });
}

abbrev self : Orchestrator ℕ
self = record {
  effort_score = none;
  effort_metrics = none;
  effort_justification = none;
  dependency_approval = false;
  release_manager = record { flags = []; gates = [] };
  release_metrics = ("health", 1000) ∷ [];
  provider = some model;
  provider_model = none;
}

abbrev answered : Answer
answered = (
  none,
  [] ∷ [],
  record {
    budget = 1000;
    estimated = 0;
    used = 30;
    remaining = 970;
    optimization_notes = [];
    approval_required = false;
  },
)

model_answers : call_provider self eip model ≡ ok answered
unfolding call_provider milli Models.create record_usage
model_answers = refl

run-Ends_example :
    Ends job
      (verdict job self permitted (some answered)).0
      (verdict job self permitted (some answered)).1
      (run job self)
run-Ends_example =
    run-Ends job self permitted (some answered) tt rules_permit (answered, model_answers, refl)

run-passed_iff_example :
    (result : LoopResult) × ((run job self).0 ≡ ok result)
    × ((result.final_decision ≡ passed) ↔ (passes job self permitted (some answered) ≡ true))
run-passed_iff_example =
    run-passed_iff job self permitted (some answered) tt rules_permit
      (answered, model_answers, refl)

abbrev manager : ReleaseManager ℕ
manager = record {
  flags = ("demo", true) ∷ [];
  gates = record { metric_name = "health"; minimum_health_threshold = 950 } ∷ [];
}

evaluate_release-ok_iff_example :
    (evaluate_release manager "demo" (("health", 970) ∷ []) true ≡ ok true) ↔ (
      (true ≡ true)
      × (is_enabled manager.flags "demo" false ≡ true)
      × All (IsHealthy (("health", 970) ∷ [])) manager.gates)
evaluate_release-ok_iff_example = evaluate_release-ok_iff manager "demo" (("health", 970) ∷ []) true

abbrev exits : RunCommand
exits command = ok (record { returncode = pos 1; stdout = "out"; stderr = "" })

abbrev pytest_result : ExecutionResult
pytest_result = record {
  command = "pytest" ∷ "-q" ∷ [];
  allowed = true;
  exit_code = some (pos 1);
  stdout = "out";
  stderr = "";
  decision = record {
    allow = true;
    reasons = "executable allowed: pytest" ∷ [];
    denials = [];
    requires_human = false;
  };
}

pytest_runs : Guards.run rules exits default_executables ("pytest" ∷ "-q" ∷ []) ≡ ok pytest_result
unfolding Guards.run check contains_shell_control contains_any contains elem joined
    evaluate_decision collect_denials decide_allow
pytest_runs = refl

run-IsSafe_example :
    IsSafe default_executables ("pytest" ∷ "-q" ∷ [])
    × (p : CompletedProcess) × (exits ("pytest" ∷ "-q" ∷ []) ≡ ok p)
    × (pytest_result.exit_code ≡ some p.returncode)
run-IsSafe_example =
    run-IsSafe rules exits default_executables ("pytest" ∷ "-q" ∷ []) pytest_result pytest_runs refl

abbrev mapped_plan : ProofPlan
mapped_plan = record plan { eip_digest = compute_eip_digest digest eip }

plan_is_mapped : map_proofs digest eip ≡ ok mapped_plan
unfolding map_proofs proof_plan place_all ensure_proof_coverage sort elem
plan_is_mapped = refl

map_proofs-covers_example :
    All (λ o. covers_obligation mapped_plan o.id ≡ true) eip.proof_obligations
    × (mapped_plan.eip_version ≡ eip.version)
    × (mapped_plan.eip_digest ≡ compute_eip_digest digest eip)
map_proofs-covers_example = map_proofs-covers digest eip mapped_plan plan_is_mapped
