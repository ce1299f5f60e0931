-- ===== src/Effort.antt =====
-- vad/effort/scoring.py: the MEES score, its policy, and the penalties that go into it.
pub mod Numstat
pub mod GitDiff
pub mod Scores
use verified_agentic_develop.Prelude.{
  ℕ, ◌+◌, ◌-◌, ◌*◌, String, Bool, true, false, not, ◌&&◌, ◌||◌, Option, none, some, List, [], ◌∷◌,
  ◌++◌, Result, ok, raise, validation_error, value_error, joined, ◌>>=◌, ◌==◌, ltb, leb,
  if◌then◌else◌,
}
use verified_agentic_develop.Prelude.Int.{ℤ, pos, pos_part, neg_part}

pub data EffortType : Type 0 where
  bugfix feature refactor greenfield test migration : EffortType

-- the value of a member, which is a text too
pub effort_value : EffortType → String
effort_value bugfix = "bugfix"
effort_value feature = "feature"
effort_value refactor = "refactor"
effort_value greenfield = "greenfield"
effort_value test = "test"
effort_value migration = "migration"

-- `EffortType(effort_type)`, on a member's value or on another text
unfoldable pub read_effort_type : String → Result EffortType
read_effort_type text =
    if text == "bugfix"
    then ok bugfix
    else if text == "feature"
    then ok feature
    else if text == "refactor"
    then ok refactor
    else if text == "greenfield"
    then ok greenfield
    else if text == "test"
    then ok test
    else if text == "migration"
    then ok migration
    else raise (value_error (joined ("'" ∷ text ∷ "' is not a valid EffortType" ∷ [])))

pub record MeesPenalties : Type 0 where
  pub complexity : ℕ
  pub maintainability : ℕ
  pub diff : ℕ
  pub spread : ℕ
  pub dependency : ℕ
  pub novelty : ℕ
  pub risk : ℕ

-- `MeesPenalties()`
abbrev pub no_penalties : MeesPenalties
no_penalties = record {
  complexity = 0;
  maintainability = 0;
  diff = 0;
  spread = 0;
  dependency = 0;
  novelty = 0;
  risk = 0;
}

unfoldable pub total : MeesPenalties → ℕ
total p = p.complexity + p.maintainability + p.diff + p.spread + p.dependency + p.novelty + p.risk

unfoldable pub policy_for_score : ℕ → String
policy_for_score score = if ltb score 50 then "block" else if ltb score 70 then "warn" else "pass"

pub record EffortScore : Type 0 where
  pub effort_type : EffortType
  pub score : ℕ
  pub policy : String
  pub penalties : MeesPenalties
  pub warnings : List String
  pub requires_human : Bool

-- `EffortScore(...)`: the bound of the field and the validator `align_policy`
unfoldable pub effort_score : EffortScore → Result EffortScore
unfolding policy_for_score
effort_score s =
    if ltb 100 s.score
    then raise validation_error
    else if not (s.policy == policy_for_score s.score)
    then raise validation_error
    else if (s.policy == "block") && not s.requires_human
    then raise validation_error
    else ok s

abbrev fallback_warning : String
fallback_warning = "MEES scored from explicit zero-penalty fallback; no metric tool output supplied"

-- `penalties or MeesPenalties()`
abbrev pub resolved_penalties : Option MeesPenalties → MeesPenalties
resolved_penalties none = no_penalties
resolved_penalties (some p) = p

unfoldable pub warnings_for : Option MeesPenalties → List String → List String
warnings_for none warnings = warnings ++ fallback_warning ∷ []
warnings_for (some p) warnings = warnings

-- `max(0, 100 - total)` is the difference on ℕ, which stops at 0
unfoldable pub score_typed : EffortType → Option MeesPenalties → List String → Result EffortScore
unfolding total effort_score warnings_for
score_typed effort_type penalties metric_warnings =
    let score = 100 - total (resolved_penalties penalties) in
    let policy = policy_for_score score in
    effort_score (record {
      effort_type = effort_type;
      score = score;
      policy = policy;
      penalties = resolved_penalties penalties;
      warnings = warnings_for penalties metric_warnings;
      requires_human = policy == "block";
    })

unfoldable pub score_effort : String → Option MeesPenalties → List String → Result EffortScore
unfolding read_effort_type score_typed
score_effort effort_type penalties metric_warnings = do
  resolved_type ← read_effort_type effort_type
  score_typed resolved_type penalties metric_warnings

pub record DiffMetrics : Type 0 where
  pub changed_files : ℕ
  pub insertions : ℕ
  pub deletions : ℕ
  pub dependency_files_changed : ℕ
  pub warnings : List String

unfoldable pub line_delta : DiffMetrics → ℕ
line_delta m = m.insertions + m.deletions

pub record QualityMetrics : Type 0 where
  pub cyclomatic_delta : Option ℤ
  pub cognitive_delta : Option ℤ
  pub maintainability_delta : Option ℤ
  pub warnings : List String

unfoldable pub penalties_from_diff_metrics : DiffMetrics → MeesPenalties
unfolding line_delta
penalties_from_diff_metrics m = record no_penalties {
  diff = line_delta m;
  spread = m.changed_files;
  dependency = m.dependency_files_changed * 10;
}

warn_if_none : Option ℤ → String → List String
warn_if_none none warning = warning ∷ []
warn_if_none (some z) warning = []

unfoldable pub quality_metrics_from_supplied : Option ℤ → Option ℤ → Option ℤ → QualityMetrics
unfolding warn_if_none
quality_metrics_from_supplied cyclomatic cognitive maintainability = record {
  cyclomatic_delta = cyclomatic;
  cognitive_delta = cognitive;
  maintainability_delta = maintainability;
  warnings =
      warn_if_none cyclomatic "cyclomatic complexity metric unavailable"
      ++ (warn_if_none cognitive "cognitive complexity metric unavailable"
          ++ warn_if_none maintainability "maintainability metric unavailable");
}

-- `delta or 0`
abbrev or_zero : Option ℤ → ℤ
or_zero none = pos 0
or_zero (some z) = z

unfoldable pub penalties_from_quality_metrics : QualityMetrics → MeesPenalties
penalties_from_quality_metrics m = record no_penalties {
  complexity = pos_part (or_zero m.cyclomatic_delta) + pos_part (or_zero m.cognitive_delta);
  maintainability = neg_part (or_zero m.maintainability_delta);
}
