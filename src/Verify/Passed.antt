-- ===== src/Verify/Passed.antt =====
-- What it takes for a report of vad/verify/runner.py to pass.
use verified_agentic_develop.Prelude.{
  String, true, ◌≡◌, refl, ◌↔◌, List, [], ◌∷◌, ◌++◌, Option, none, some, Result, ok, raise, All,
  arith, Bool-cases, inl, inr, eq_iff,
}
use verified_agentic_develop.Contracts.{Eip, ProofObligation}
use verified_agentic_develop.Proof.{
  ProofMapping, ProofPlan, get_mapping, covers_obligation, compute_eip_digest,
}
use verified_agentic_develop.Guards.{ExecutionResult}
use verified_agentic_develop.Verify.{
  VerifierReport, VerifierResult, Commands, succeeded, check_plan_matches_eip, check_unmapped,
  execute, verify_one, verify_all, verifier_run, is_clean,
}

module _ (commands : Commands) (plan : ProofPlan) where
  -- the command of a mapping ran and succeeded
  abbrev pub RunsClean : Option ProofMapping → Type 0
  RunsClean none = Unit
  RunsClean (some mapping) =
      (r : ExecutionResult) × (execute commands mapping ≡ ok r) × (succeeded r ≡ true)

  -- the plan covers the obligation, and its command, if it has one, succeeds
  pub record IsDischarged (o : ProofObligation) : Type 0 where
    pub covered : covers_obligation plan o.id ≡ true
    pub clean : RunsClean (get_mapping plan o.id)

  verify_one-passed :
      (o : ProofObligation) (m : Option ProofMapping) (report : VerifierReport)
      → ((verify_one commands o m report).passed ≡ true) ↔ ((report.passed ≡ true) × RunsClean m)
  unfolding verify_one
  verify_one-passed o none report = ((λ h. (h, tt)), (λ h. h.0))
  verify_one-passed o (some m) report = split (execute commands m) refl
    where
      split :
          (x : Result ExecutionResult)
          → execute commands m ≡ x
          → ((verify_one commands o (some m) report).passed ≡ true)
            ↔ ((report.passed ≡ true) × RunsClean (some m))
      split (ok r) e = elim (Bool-cases (succeeded r)) [
        | inl s ↦ ((λ h. (ground (arith, e, s), (r, e, s))), (λ h. ground (arith, e, s, h.0)))
        | inr f ↦ (
          (λ h. absurd (ground (arith, e, f))),
          (λ h. let (r', e', s') = h.1 in absurd (ground (arith, e, f, e', s'))),
        )
      ]
      split (raise x) e = (
        (λ h. absurd (ground (arith, e))),
        (λ h. let (r', e', s') = h.1 in absurd (ground (arith, e, e'))),
      )

  verify_all-passed :
      (os : List ProofObligation) (report : VerifierReport)
      → ((verify_all commands plan os report).passed ≡ true)
        ↔ ((report.passed ≡ true) × All (λ o. RunsClean (get_mapping plan o.id)) os)
  unfolding verify_all
  verify_all-passed [] report = ((λ h. (h, tt)), (λ h. h.0))
  verify_all-passed (o ∷ os) report =
      let next = verify_one commands o (get_mapping plan o.id) report in
      let rest = verify_all-passed os next in
      let one = verify_one-passed o (get_mapping plan o.id) report in
      (
        (λ h. let (p, c) = rest.0 h in let (p', c') = one.0 p in (p', (c', c))),
        (λ h. rest.1 (one.1 (h.0, h.1.0), h.1.1)),
      )

  check_unmapped-nil :
      (os : List ProofObligation)
      → (check_unmapped plan os ≡ []) ↔ All (λ o. covers_obligation plan o.id ≡ true) os
  unfolding check_unmapped
  check_unmapped-nil [] = ((λ h. tt), (λ h. refl))
  check_unmapped-nil (o ∷ os) = elim (Bool-cases (covers_obligation plan o.id)) [
    | inl c ↦ (
      (λ h. (c, (check_unmapped-nil os).0 (ground (arith, c)))),
      (λ h. rw c ((check_unmapped-nil os).1 h.1)),
    )
    | inr n ↦ ((λ h. absurd (ground (arith, n))), (λ h. absurd (ground arith)))
  ]

  IsDischarged-iff :
      (os : List ProofObligation)
      → All IsDischarged os ↔ (
          All (λ o. covers_obligation plan o.id ≡ true) os
          × All (λ o. RunsClean (get_mapping plan o.id)) os)
  IsDischarged-iff [] = ((λ h. (tt, tt)), (λ h. tt))
  IsDischarged-iff (o ∷ os) =
      let rest = IsDischarged-iff os in
      (
        (λ h. let (c, r) = rest.0 h.1 in ((h.0.covered, c), (h.0.clean, r))),
        (λ h. (record { covered = h.0.0; clean = h.1.0 }, rest.1 (h.0.1, h.1.1))),
      )

is_clean_iff :
    (xs ys : List VerifierResult) → (is_clean (xs ++ ys) ≡ true) ↔ ((xs ≡ []) × (ys ≡ []))
unfolding is_clean
is_clean_iff [] [] = ground arith
is_clean_iff [] (y ∷ ys) = ground arith
is_clean_iff (x ∷ xs) ys = ground arith

module _ {F : Type 0} (json_sha256 : Eip F → String) (eip : Eip F) (plan : ProofPlan) where
  matches_iff :
      (check_plan_matches_eip json_sha256 eip plan ≡ [])
      ↔ ((plan.eip_version ≡ eip.version) × (plan.eip_digest ≡ compute_eip_digest json_sha256 eip))
  unfolding check_plan_matches_eip
  matches_iff = ground (
    arith,
    eq_iff plan.eip_version eip.version,
    eq_iff plan.eip_digest (compute_eip_digest json_sha256 eip),
  )

  -- The runner always returns a report, and it passes exactly if the plan names the version and the
  -- digest of the EIP, covers each of its obligations, and each command that the plan has for an
  -- obligation is allowed and exits with 0; a command that raises fails.
  pub verifier_run-passed_iff :
      (commands : Commands)
      → ((verifier_run commands json_sha256 eip plan).passed ≡ true) ↔ (
          (plan.eip_version ≡ eip.version)
          × (plan.eip_digest ≡ compute_eip_digest json_sha256 eip)
          × All (IsDischarged commands plan) eip.proof_obligations)
  unfolding verifier_run
  verifier_run-passed_iff commands =
      let os = eip.proof_obligations in
      let all = verify_all-passed commands plan os _ in
      let clean =
        is_clean_iff (check_plan_matches_eip json_sha256 eip plan) (check_unmapped plan os) in
      let covered = check_unmapped-nil commands plan os in
      let discharged = IsDischarged-iff commands plan os in
      (
        (λ h.
            let (c, r) = all.0 h in
            let (m, u) = clean.0 c in
            let (v, d) = matches_iff.0 m in (v, d, discharged.1 (covered.0 u, r))),
        (λ h.
            let (c, r) = discharged.0 h.2 in
            all.1 (clean.1 (matches_iff.1 (h.0, h.1), covered.1 c), r)),
      )
