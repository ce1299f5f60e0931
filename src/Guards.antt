-- ===== src/Guards.antt =====
-- vad/guards/execution.py: which commands may run. `subprocess.run` is a parameter.
pub mod Safety
pub mod Filesystem
use verified_agentic_develop.Prelude.Int.{ℤ, pos, is_zero}
use verified_agentic_develop.Prelude.{
  ℕ, String, Bool, true, false, not, List, [], ◌∷◌, Option, none, some, Result, ok, ◌>>=◌, elem,
  contains_any, any_of, joined, join, if◌then◌else◌,
}
use verified_agentic_develop.Policy.{PolicyDecision, Evaluate, evaluate_decision}

pub record CompletedProcess : Type 0 where
  pub returncode : ℤ
  pub stdout : String
  pub stderr : String

-- `subprocess.run(command, ...)`, which may raise
abbrev pub RunCommand : Type 0
RunCommand = List String → Result CompletedProcess

pub record ExecutionResult : Type 0 where
  pub command : List String
  pub allowed : Bool
  pub exit_code : Option ℤ
  pub stdout : String
  pub stderr : String
  pub decision : PolicyDecision

abbrev pub default_executables : List String
default_executables = "pytest" ∷ "python" ∷ "python3" ∷ []

abbrev denied_because : String → PolicyDecision
denied_because denial = record {
  allow = false;
  reasons = [];
  denials = denial ∷ [];
  requires_human = false;
}

unfoldable pub contains_shell_control : String → Bool
contains_shell_control value =
    contains_any value (";" ∷ "&&" ∷ "||" ∷ "|" ∷ "$(" ∷ "`" ∷ ">" ∷ "<" ∷ [])

-- the engine's denial stands; otherwise the allow list decides
allow_unless_denied : String → PolicyDecision → PolicyDecision
allow_unless_denied executable decision = elim decision.denials [
  | [] ↦ record {
    allow = true;
    reasons = joined ("executable allowed: " ∷ executable ∷ []) ∷ [];
    denials = [];
    requires_human = false;
  }
  | d ∷ ds ↦ decision
]

unfoldable pub check : Evaluate → List String → List String → Result PolicyDecision
unfolding allow_unless_denied
check evaluate allowed_executables [] = ok (denied_because "empty command")
check evaluate allowed_executables (executable ∷ arguments) =
    if not (elem executable allowed_executables)
    then ok (denied_because (joined ("executable not allowed: " ∷ executable ∷ [])))
    else if any_of contains_shell_control (executable ∷ arguments)
    then ok (denied_because "shell control syntax is not allowed")
    else (do
      let policy_tool =
          if elem executable ("sh" ∷ "bash" ∷ "powershell" ∷ "cmd" ∷ [])
          then "shell"
          else executable
      decision ← evaluate_decision evaluate (("action", "use_tool") ∷ ("tool", policy_tool) ∷ [])
      ok (allow_unless_denied executable decision))

-- the command runs only if it is allowed
run_if_allowed : RunCommand → List String → PolicyDecision → Result ExecutionResult
run_if_allowed run_command command decision =
    if not decision.allow
    then ok (record {
      command = command;
      allowed = false;
      exit_code = none;
      stdout = "";
      stderr = join "; " decision.denials;
      decision = decision;
    })
    else (do
      proc ← run_command command
      ok (record {
        command = command;
        allowed = true;
        exit_code = some proc.returncode;
        stdout = proc.stdout;
        stderr = proc.stderr;
        decision = decision;
      }))

unfoldable pub run : Evaluate → RunCommand → List String → List String → Result ExecutionResult
unfolding run_if_allowed
run evaluate run_command allowed_executables command = do
  decision ← check evaluate allowed_executables command
  run_if_allowed run_command command decision
