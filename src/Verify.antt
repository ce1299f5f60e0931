-- ===== src/Verify.antt =====
-- vad/verify: a plan is run against the obligations of an EIP. `shlex.split` is a parameter.
pub mod Passed
use verified_agentic_develop.Prelude.Int.{ℤ, pos, is_zero}
use verified_agentic_develop.Prelude.{
  ℕ, String, Bool, true, false, not, ◌&&◌, List, [], ◌∷◌, ◌++◌, map, Option, none, some, Result, ok,
  raise, ◌>>=◌, message, ◌==◌, eqb, length, joined, if◌then◌else◌,
}
use verified_agentic_develop.Contracts.{Eip, ProofObligation}
use verified_agentic_develop.Proof.{
  ProofMapping, ProofPlan, get_mapping, covers_obligation, compute_eip_digest,
}
use verified_agentic_develop.Guards.{ExecutionResult}

pub data VerifyStatus : Type 0 where
  pass fail pending unmapped : VerifyStatus

pub record VerifierResult : Type 0 where
  pub obligation_id : String
  pub status : VerifyStatus
  pub output : String
  pub error : Option String
  pub tool_call : Option ExecutionResult

pub record VerifierReport : Type 0 where
  pub results : List VerifierResult
  pub passed : Bool

-- what a runner calls: `shlex.split` and the `run` of its execution guard
pub record Commands : Type 0 where
  pub split : String → Result (List String)
  pub guard_run : List String → Result ExecutionResult

-- `result.allowed and result.exit_code == 0`
unfoldable pub succeeded : ExecutionResult → Bool
succeeded r = r.allowed && (elim r.exit_code [ none ↦ false | some code ↦ is_zero code ])

plan_failure : String → VerifierResult
plan_failure error = record {
  obligation_id = "proof-plan";
  status = fail;
  output = "";
  error = some error;
  tool_call = none;
}

-- `_check_plan_matches_eip`
unfoldable pub check_plan_matches_eip :
    {F : Type 0} → (Eip F → String) → Eip F → ProofPlan → List VerifierResult
unfolding plan_failure
check_plan_matches_eip json_sha256 eip plan =
    (if plan.eip_version == eip.version
      then []
      else plan_failure "ProofPlan EIP version does not match EIP version." ∷ [])
    ++ (if plan.eip_digest == compute_eip_digest json_sha256 eip
        then []
        else plan_failure "ProofPlan EIP digest does not match EIP content." ∷ [])

-- `_check_unmapped`
unfoldable pub check_unmapped : ProofPlan → List ProofObligation → List VerifierResult
check_unmapped plan [] = []
check_unmapped plan (o ∷ os) =
    let rest = check_unmapped plan os in
    if covers_obligation plan o.id
    then rest
    else record {
      obligation_id = o.id;
      status = unmapped;
      output = "";
      error = some (joined ("Obligation " ∷ o.id ∷ " is unmapped in ProofPlan." ∷ []));
      tool_call = none;
    }
      ∷ rest

-- the command of a mapping, split and run; either may raise
unfoldable pub execute : Commands → ProofMapping → Result ExecutionResult
execute commands mapping = do
  command ← commands.split mapping.test_command
  commands.guard_run command

-- what the `try` gives, an exception included
unfoldable pub outcome : ProofObligation → Result ExecutionResult → VerifierResult
outcome o (ok r) = record {
  obligation_id = o.id;
  status = if succeeded r then pass else fail;
  output = r.stdout;
  error = if succeeded r then none else some r.stderr;
  tool_call = some r;
}
outcome o (raise e) = record {
  obligation_id = o.id;
  status = fail;
  output = "";
  error = some (message e);
  tool_call = none;
}

is_pass : VerifyStatus → Bool
is_pass pass = true
is_pass _ = false

-- one round of the loop: an obligation that has no mapping leaves the report as it is
unfoldable pub verify_one :
    Commands → ProofObligation → Option ProofMapping → VerifierReport → VerifierReport
unfolding outcome is_pass
verify_one commands o none report = report
verify_one commands o (some mapping) report =
    let result = outcome o (execute commands mapping) in
    record {
      results = report.results ++ result ∷ [];
      passed = report.passed && is_pass result.status;
    }

unfoldable pub verify_all :
    Commands → ProofPlan → List ProofObligation → VerifierReport → VerifierReport
unfolding verify_one
verify_all commands plan [] report = report
verify_all commands plan (o ∷ os) report =
    verify_all commands plan os (verify_one commands o (get_mapping plan o.id) report)

is_clean : List VerifierResult → Bool
is_clean [] = true
is_clean (r ∷ rs) = false

-- `VerifierRunner(eip, plan).run()`
unfoldable pub verifier_run :
    {F : Type 0} → Commands → (Eip F → String) → Eip F → ProofPlan → VerifierReport
unfolding is_clean
verifier_run commands json_sha256 eip plan =
    let results =
      check_plan_matches_eip json_sha256 eip plan ++ check_unmapped plan eip.proof_obligations in
    verify_all commands plan eip.proof_obligations
      (record { results = results; passed = is_clean results })
