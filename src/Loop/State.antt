-- ===== src/Loop/State.antt =====
-- vad/loop/state.py: the status of a run, the table of allowed transitions and `LoopState`.
use verified_agentic_develop.Prelude.{
  List, [], ◌∷◌, ◌++◌, String, Result, ok, raise, value_error, is_in, joined, if◌then◌else◌,
}

pub data LoopStatus : Type 0 where
  initialized assessed planned policy_checked building verifying releasing feedback passed failed
        blocked needs_human :
      LoopStatus

unfoldable pub LoopStatus-discrete : Discrete LoopStatus
LoopStatus-discrete = hlevel

unfoldable pub status_value : LoopStatus → String
status_value initialized = "initialized"
status_value assessed = "assessed"
status_value planned = "planned"
status_value policy_checked = "policy_checked"
status_value building = "building"
status_value verifying = "verifying"
status_value releasing = "releasing"
status_value feedback = "feedback"
status_value passed = "passed"
status_value failed = "failed"
status_value blocked = "blocked"
status_value needs_human = "needs_human"

-- `ALLOWED_TRANSITIONS`
unfoldable pub allowed_transitions : LoopStatus → List LoopStatus
allowed_transitions initialized = assessed ∷ planned ∷ blocked ∷ []
allowed_transitions assessed = planned ∷ needs_human ∷ blocked ∷ []
allowed_transitions planned = policy_checked ∷ blocked ∷ []
allowed_transitions policy_checked = building ∷ verifying ∷ needs_human ∷ blocked ∷ []
allowed_transitions building = verifying ∷ failed ∷ blocked ∷ []
allowed_transitions verifying = releasing ∷ feedback ∷ passed ∷ failed ∷ blocked ∷ []
allowed_transitions releasing = feedback ∷ passed ∷ failed ∷ blocked ∷ []
allowed_transitions feedback = passed ∷ failed ∷ blocked ∷ []
allowed_transitions passed = []
allowed_transitions failed = []
allowed_transitions blocked = []
allowed_transitions needs_human = []

pub record LoopState : Type 0 where
  pub status : LoopStatus
  pub history : List LoopStatus

-- `LoopState()`
abbrev pub initial : LoopState
initial = record { status = initialized; history = initialized ∷ [] }

unfoldable pub transition : LoopState → LoopStatus → Result LoopState
unfolding LoopStatus-discrete allowed_transitions status_value
transition s next_status =
    if is_in LoopStatus-discrete next_status (allowed_transitions s.status)
    then ok (record { status = next_status; history = s.history ++ next_status ∷ [] })
    else raise (
        value_error (
          joined (
            "Invalid loop transition: "
            ∷ status_value s.status
            ∷ " -> "
            ∷ status_value next_status
            ∷ [])))
