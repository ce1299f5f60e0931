-- ===== src/Tests/Scores.antt =====
-- Scores, budgets, reports and deployments at concrete inputs.
use verified_agentic_develop.Prelude.Lines.{strip}
use verified_agentic_develop.Prelude.{
  if◌then◌else◌, ℕ, leb, raise, value_error, joined, ◌≢◌, none, ◌&&◌, ◌-◌, ◌+◌, ◌≤◌, ◌<◌, min,
  String, true, false, List, [], ◌∷◌, none, some, ok, ◌≡◌, refl, ◌↔◌, ◌⊎◌, arith, length,
}
use verified_agentic_develop.Effort.{
  effort_value, EffortType, MeesPenalties, EffortScore, score_effort, no_penalties,
}
use verified_agentic_develop.Effort.Scores.{IsScored, score_effort-outcome}
use verified_agentic_develop.Effort.Numstat.{
  Row, Digits, IsAscii, IsCount, parse_numstat, format_rows, sum_added, sum_removed,
  parse-format_rows,
}
use verified_agentic_develop.Prelude.Int.{pos}
use verified_agentic_develop.Effort.GitDiff.{Runner, collect_git_diff_metrics}
use verified_agentic_develop.Policy.{evaluate_deployment}
use verified_agentic_develop.Policy.Deployment.{IsCleared, evaluate_deployment-allow_iff}
use verified_agentic_develop.Router.Models
use verified_agentic_develop.Router.Models.{
  TokenBudget, record_usage, record_all, sum_of, record_usage_all,
}
use verified_agentic_develop.Loop.State.{
  LoopStatus, initialized, planned, policy_checked, verifying, passed, transition,
}
use verified_agentic_develop.Loop.History.{follow, follow-bounded}

abbrev heavy : MeesPenalties
heavy = record no_penalties { complexity = 30; diff = 30 }

abbrev light : MeesPenalties
light = record no_penalties { complexity = 10 }

score_effort-outcome_example :
    ((t : EffortType) × (effort_value t ≡ "bugfix")
      × (s : EffortScore) × (score_effort "bugfix" (some heavy) [] ≡ ok s)
      × IsScored t (some heavy) s)
    ⊎ (((t : EffortType) → effort_value t ≢ "bugfix")
        × (score_effort "bugfix" (some heavy) []
            ≡ raise (value_error (joined ("'" ∷ "bugfix" ∷ "' is not a valid EffortType" ∷ [])))))
score_effort-outcome_example = score_effort-outcome "bugfix" (some heavy) []

-- two rows, `12<tab>3<tab>a` and `-<tab>-<tab>b`
abbrev two_rows : List Row
two_rows =
    record { added = some (1 ∷ 2 ∷ []); removed = some (3 ∷ []); path = 97 ∷ [] }
    ∷ record { added = none; removed = none; path = 98 ∷ [] }
    ∷ []

-- the digits of ASCII
abbrev ascii_digits : Digits
ascii_digits = record {
  is_digit = λ c. leb 48 c && leb c 57;
  decimal = λ c. if leb 48 c && leb c 57 then some (c - 48) else none;
  readable = λ n. leb n 4300;
}

digit_low : (n : ℕ) → leb 48 (48 + n) ≡ true
digit_low n = ground arith

digit_high : (n : ℕ) → n ≤ 9 → leb (48 + n) 57 ≡ true
digit_high n h = ground arith

digit_value : (n : ℕ) → (48 + n) - 48 ≡ n
digit_value n = omega arith

ascii_digits-IsAscii : IsAscii ascii_digits
ascii_digits-IsAscii = record {
  digit = λ n h. rw (digit_low n, digit_high n h) refl;
  value = λ n h. rw (digit_low n, digit_high n h, digit_value n) refl;
  dash = refl;
}

parse-format_rows_example :
    parse_numstat ascii_digits (format_rows two_rows)
    ≡ ok (sum_added two_rows, sum_removed two_rows)
unfolding IsCount
parse-format_rows_example = parse-format_rows ascii_digits ascii_digits-IsAscii two_rows (
  record {
    added = ((omega arith, (omega arith, tt)), refl);
    removed = ((omega arith, tt), refl);
    one_line = (refl, tt);
  },
  (record { added = tt; removed = tt; one_line = (refl, tt) }, tt),
)

-- the output of both commands is `go.mod`, which has no counts
abbrev one_manifest : Runner
one_manifest command =
    some (record { returncode = pos 0; stdout = 103 ∷ 111 ∷ 46 ∷ 109 ∷ 111 ∷ 100 ∷ 10 ∷ [] })

one_manifest_counts :
    collect_git_diff_metrics ascii_digits "HEAD~1" "HEAD" one_manifest
    ≡ ok (record {
      changed_files = 1;
      insertions = 0;
      deletions = 0;
      dependency_files_changed = 1;
      warnings = [];
    })
unfolding collect_git_diff_metrics parse_numstat strip
one_manifest_counts = refl

abbrev the_action : String
the_action = "deploy_apply"

evaluate_deployment-allow_iff_example :
    (((evaluate_deployment "deploy_apply" "production" (some "A-1") (pos 2) false none).allow
        ≡ true)
      ↔ IsCleared "deploy_apply" "production" (some "A-1") (pos 2) false none)
    × (((evaluate_deployment "deploy_apply" "production"
            (some "A-1")
            (pos 2)
            false
            none).requires_human
          ≡ true)
        ↔ (((evaluate_deployment "deploy_apply" "production" (some "A-1") (pos 2) false none).allow
              ≡ false)
            × (((the_action ≡ "deploy_apply")) ⊎ (the_action ≡ "deploy_rollback"))))
evaluate_deployment-allow_iff_example =
    evaluate_deployment-allow_iff "deploy_apply" "production" (some "A-1") (pos 2) false none

abbrev used_up : TokenBudget
used_up = record_all (record_usage (Models.create 100 20 []) 70) (50 ∷ [])

record_usage_all_example :
    (used_up.budget ≡ (Models.create 100 20 []).budget)
    × (used_up.used ≡ (Models.create 100 20 []).used + 70 + sum_of (50 ∷ []))
    × (used_up.remaining + min used_up.used used_up.budget ≡ used_up.budget)
    × ((used_up.approval_required ≡ true) ↔ (
        (Models.create 100 20 []).budget < (Models.create 100 20 []).used + 70 + sum_of (50 ∷ [])))
record_usage_all_example = record_usage_all (Models.create 100 20 []) 70 (50 ∷ [])

abbrev short_path : List LoopStatus
short_path = planned ∷ policy_checked ∷ verifying ∷ passed ∷ []

follow-bounded_example :
    (length short_path ≤ 8) × (initialized ∷ short_path ≡ initialized ∷ short_path)
unfolding follow transition
follow-bounded_example =
    follow-bounded (record { status = passed; history = initialized ∷ short_path }) short_path refl
