-- ===== src/Effort/GitDiff.antt =====
-- `collect_git_diff_metrics` of vad/effort/scoring.py. The `git` command is a parameter: it gives a
-- finished process, or is not found.
use verified_agentic_develop.Prelude.{
  Result, ok, raise, ℕ, String, Bool, true, false, not, ◌||◌, ◌&&◌, Option, none, some, List, [],
  ◌∷◌, length, keep_if, any_of, map, eqb, ◌==◌, if◌then◌else◌,
}
use verified_agentic_develop.Prelude.Lines.{codes, splitlines, strip}
use verified_agentic_develop.Effort.{DiffMetrics}
use verified_agentic_develop.Effort.Numstat.{Digits, parse_numstat}
use verified_agentic_develop.Prelude.Int.{ℤ, is_zero}

pub record Process : Type 0 where
  pub returncode : ℤ
  pub stdout : List ℕ

-- `runner(command, ...)`; `none` is a `FileNotFoundError`
abbrev pub Runner : Type 0
Runner = List String → Option Process

abbrev same_text : List ℕ → List ℕ → Bool
same_text [] [] = true
same_text (c ∷ cs) (d ∷ ds) = eqb c d && same_text cs ds
same_text _ _ = false

-- what follows the last separator, or the whole text
last_part : ℕ → List ℕ → List ℕ → List ℕ
last_part separator part [] = part
last_part separator part (c ∷ cs) = last_part separator (if eqb c separator then cs else part) cs

abbrev pub dependency_manifests : List String
dependency_manifests =
    "package.json" ∷ "package-lock.json" ∷ "pnpm-lock.yaml" ∷ "yarn.lock" ∷ "requirements.txt"
    ∷ "pyproject.toml" ∷ "poetry.lock" ∷ "Cargo.toml" ∷ "Cargo.lock" ∷ "go.mod" ∷ "go.sum" ∷ []

-- `_is_dependency_manifest`; 47 is `/` and 92 the backslash
unfoldable pub is_dependency_manifest : List ℕ → Bool
unfolding last_part
is_dependency_manifest path =
    let file = last_part 47 path path in
    let name = last_part 92 file file in any_of (λ m. same_text name (codes m)) dependency_manifests

is_empty : List ℕ → Bool
is_empty [] = true
is_empty (c ∷ cs) = false

-- the paths of the lines that are not blank
changed_paths : List ℕ → List (List ℕ)
unfolding is_empty
changed_paths output = keep_if (λ line. not (is_empty line)) (map strip (splitlines output))

no_metrics : String → DiffMetrics
no_metrics warning = record {
  changed_files = 0;
  insertions = 0;
  deletions = 0;
  dependency_files_changed = 0;
  warnings = warning ∷ [];
}

diff_range : String → String → List String
diff_range before after = if after == "WORKTREE" then before ∷ [] else before ∷ after ∷ []

-- the lines are counted, which raises on a numeral that `int` refuses
with_lines : Result (ℕ × ℕ) → List (List ℕ) → Result DiffMetrics
unfolding is_dependency_manifest
with_lines (raise problem) changed = raise problem
with_lines (ok (insertions, deletions)) changed = ok (record {
  changed_files = length changed;
  insertions = insertions;
  deletions = deletions;
  dependency_files_changed = length (keep_if is_dependency_manifest changed);
  warnings = [];
})

module _ (d : Digits) where
  -- both commands have run
  metrics_of : Process → Process → Result DiffMetrics
  unfolding no_metrics with_lines changed_paths
  metrics_of numstat status =
      if not (is_zero numstat.returncode) || not (is_zero status.returncode)
      then ok (no_metrics "git diff metrics unavailable")
      else with_lines (parse_numstat d numstat.stdout) (changed_paths status.stdout)

  -- the second command runs only if the first was found
  status_after : Runner → String → String → Option Process → Result DiffMetrics
  unfolding no_metrics diff_range metrics_of
  status_after runner before after none = ok (no_metrics "git unavailable")
  status_after runner before after (some numstat) =
      elim (runner ("git" ∷ "diff" ∷ "--name-only" ∷ diff_range before after)) [
        | none ↦ ok (no_metrics "git unavailable")
        | some status ↦ metrics_of numstat status
      ]

  unfoldable pub collect_git_diff_metrics : String → String → Runner → Result DiffMetrics
  unfolding status_after diff_range
  collect_git_diff_metrics before after runner =
      status_after runner before after
        (runner ("git" ∷ "diff" ∷ "--numstat" ∷ diff_range before after))
