-- ===== src/Guards/Safety.antt =====
-- What vad/guards/execution.py runs.
use verified_agentic_develop.Prelude.{
  String, true, false, not, List, [], ◌∷◌, some, ok, ◌≡◌, >>=-eq-ok, Bool-cases, if_true, if_false,
  inl, inr, ap, arith, ◌∙◌, sym, elem, any_of, ok_eq,
}
use verified_agentic_develop.Policy.{PolicyDecision, Evaluate}
use verified_agentic_develop.Guards.{
  CompletedProcess, RunCommand, ExecutionResult, contains_shell_control, check, run_if_allowed, run,
}

-- a command whose executable is listed, and which has no shell control in any part
pub data IsSafe (allowed_executables : List String) : List String → Type 0 where
  safe :
      (executable : String) (arguments : List String)
      → elem executable allowed_executables ≡ true
      → any_of contains_shell_control (executable ∷ arguments) ≡ false
      → IsSafe allowed_executables (executable ∷ arguments)

check-IsSafe :
    (evaluate : Evaluate) (allowed_executables command : List String) (d : PolicyDecision)
    → check evaluate allowed_executables command ≡ ok d
    → d.allow ≡ true
    → IsSafe allowed_executables command
unfolding check
check-IsSafe evaluate allowed_executables [] d h a = absurd (ground (arith, h, a))
check-IsSafe evaluate allowed_executables (executable ∷ arguments) d h a =
    elim (Bool-cases (elem executable allowed_executables)) [
      | inr lost ↦ absurd (
          let e = ap (λ x. x.allow) (ok_eq (sym (if_true _ _ (ap not lost)) ∙ h)) in
          ground (arith, e, a))
      | inl held ↦ elim (Bool-cases (any_of contains_shell_control (executable ∷ arguments))) [
        | inl bad ↦ absurd (
            let e =
              ap (λ x. x.allow) (ok_eq (sym (if_false _ _ (ap not held) ∙ if_true _ _ bad) ∙ h)) in
            ground (arith, e, a))
        | inr good ↦ safe executable arguments held good
      ]
    ]

run_if_allowed-ran :
    (run_command : RunCommand) (command : List String) (d : PolicyDecision) (r : ExecutionResult)
    → run_if_allowed run_command command d ≡ ok r
    → r.allowed ≡ true
    → (d.allow ≡ true)
      × (p : CompletedProcess) × (run_command command ≡ ok p)
      × (r.exit_code ≡ some p.returncode)
unfolding run_if_allowed
run_if_allowed-ran run_command command d r h a = elim (Bool-cases d.allow) [
  | inr lost ↦ absurd (
      let e = ap (λ x. x.allowed) (ok_eq (sym (if_true _ _ (ap not lost)) ∙ h)) in
      ground (arith, e, a))
  | inl held ↦
      let (p, e, made) = >>=-eq-ok (run_command command) _ (sym (if_false _ _ (ap not held)) ∙ h) in
      (held, p, e, ap (λ x. x.exit_code) (ok_eq made))
]

-- A result that says it was allowed comes from a command whose executable is on the list and that has
-- no shell control in any part, and it holds the exit code with which that very command ran.
pub run-IsSafe :
    (evaluate : Evaluate) (run_command : RunCommand) (allowed_executables command : List String)
    (r : ExecutionResult)
    → run evaluate run_command allowed_executables command ≡ ok r
    → r.allowed ≡ true
    → IsSafe allowed_executables command
      × (p : CompletedProcess) × (run_command command ≡ ok p)
      × (r.exit_code ≡ some p.returncode)
unfolding run
run-IsSafe evaluate run_command allowed_executables command r h a =
    let (d, checked, ran) = >>=-eq-ok (check evaluate allowed_executables command) _ h in
    let (held, p, e, code) = run_if_allowed-ran run_command command d r ran a in
    (check-IsSafe evaluate allowed_executables command d checked held, p, e, code)
