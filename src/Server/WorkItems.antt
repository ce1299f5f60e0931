-- ===== src/Server/WorkItems.antt =====
-- vad/server/api/work_items.py: `WorkItemService` over the store.
pub mod Transitions
pub mod Outcome
pub mod Calls
use verified_agentic_develop.Prelude.{
  ℕ, ◌+◌, String, List, [], ◌∷◌, Option, none, some, ◌==◌, length, is_in, joined, join,
  if◌then◌else◌,
}
use verified_agentic_develop.Prelude.Action.{Action, give, from_result, ◌>>=◌}
use verified_agentic_develop.ControlPlane.Events.{
  ControlPlaneEvent, ControlPlaneEventKind, ControlPlaneEventStatus, control_plane_event,
}
use verified_agentic_develop.ControlPlane.Events
use verified_agentic_develop.ControlPlane.WorkItems.{
  WorkItem, WorkItemStatus, WorkItemStatus-discrete, WorkItemChange, status_value, from_work_item,
  planned, queued, assigned, running, blocked, waiting_for_human, verifying, approved, completed,
  failed, cancelled, requeued,
}
use verified_agentic_develop.ControlPlane.WorkItems
use verified_agentic_develop.Policy.{PolicyDecision}
use verified_agentic_develop.Server.Leases.{Moment, allowed, denied}
use verified_agentic_develop.Server.Store.{
  ServerStore, load_work_item, save_work_item, update_work_item, upsert_run_task_state,
  append_control_plane_event,
}

-- `ALLOWED_WORK_ITEM_TRANSITIONS`
unfoldable pub allowed_work_item_transitions : WorkItemStatus → List WorkItemStatus
allowed_work_item_transitions planned = queued ∷ cancelled ∷ []
allowed_work_item_transitions queued = assigned ∷ blocked ∷ waiting_for_human ∷ cancelled ∷ []
allowed_work_item_transitions assigned =
    running ∷ blocked ∷ waiting_for_human ∷ requeued ∷ cancelled ∷ []
allowed_work_item_transitions running =
    blocked ∷ waiting_for_human ∷ verifying ∷ completed ∷ failed ∷ cancelled ∷ requeued ∷ []
allowed_work_item_transitions blocked = queued ∷ requeued ∷ waiting_for_human ∷ cancelled ∷ []
allowed_work_item_transitions waiting_for_human =
    queued ∷ assigned ∷ running ∷ requeued ∷ cancelled ∷ []
allowed_work_item_transitions verifying =
    approved ∷ failed ∷ blocked ∷ waiting_for_human ∷ requeued ∷ []
allowed_work_item_transitions approved = completed ∷ []
allowed_work_item_transitions failed = requeued ∷ cancelled ∷ []
allowed_work_item_transitions requeued = queued ∷ assigned ∷ cancelled ∷ []
allowed_work_item_transitions completed = []
allowed_work_item_transitions cancelled = []

pub record WorkItemTransitionResult : Type 0 where
  pub status_code : ℕ
  pub work_item : WorkItem
  pub event : ControlPlaneEvent
  pub decision : PolicyDecision

-- who calls
pub record Caller : Type 0 where
  pub actor : String
  pub role : String
  pub client_id : String

-- `_event_status`
unfoldable pub event_status : WorkItemStatus → ControlPlaneEventStatus
event_status completed = Events.passed
event_status approved = Events.passed
event_status failed = Events.failed
event_status cancelled = Events.failed
event_status blocked = Events.blocked
event_status waiting_for_human = Events.needs_human
event_status _ = Events.active

-- `_transition_decision`
unfoldable pub transition_decision : WorkItemStatus → WorkItemStatus → PolicyDecision
unfolding WorkItemStatus-discrete allowed_work_item_transitions status_value
transition_decision source target =
    let edge = joined (status_value source ∷ "->" ∷ status_value target ∷ []) in
    if is_in WorkItemStatus-discrete target (allowed_work_item_transitions source)
    then allowed (joined ("work item transition " ∷ edge ∷ " allowed" ∷ []))
    else denied (joined ("work item transition " ∷ edge ∷ " is not allowed" ∷ []) ∷ [])

unfoldable pub append_item_event :
    Moment
    → Caller
    → WorkItem
    → ControlPlaneEventKind
    → ControlPlaneEventStatus
    → Option String
    → String
    → Action ServerStore ControlPlaneEvent
unfolding control_plane_event append_control_plane_event
append_item_event m caller item kind status digest summary s =
    (do
      event ← from_result (
          control_plane_event (record {
            event_id = m.event_id;
            sequence = length s.control_plane_events + 1;
            created_at = m.now;
            client_id = caller.client_id;
            run_id = some item.run_id;
            task_id = some item.work_item_id;
            kind = kind;
            status = status;
            actor = caller.actor;
            role = caller.role;
            evidence_digest = digest;
            summary = summary;
          }))
      append_control_plane_event event)
      s

-- `_append_event`
unfoldable pub append_event :
    Moment → Caller → WorkItem → String → Action ServerStore ControlPlaneEvent
append_event m caller item summary =
    append_item_event m caller item Events.work_item (event_status item.status) item.evidence_digest
      summary

-- `_append_denial_event`
unfoldable pub append_denial_event :
    Moment
    → Caller
    → WorkItem
    → WorkItemStatus
    → PolicyDecision
    → Action ServerStore ControlPlaneEvent
append_denial_event m caller item target_status decision =
    append_item_event m caller item Events.policy_denied Events.blocked none (
      joined (
        "Policy denied work_item transition to "
        ∷ status_value target_status
        ∷ ": "
        ∷ join "; " decision.denials
        ∷ []))

-- `summary or default`
abbrev pub summary_or : Option String → String → String
summary_or none default = default
summary_or (some s) default = if s == "" then default else s

-- the state of the task is written once more, and the event after it
unfoldable pub record_saved :
    Moment
    → Caller
    → ℕ
    → PolicyDecision
    → String
    → WorkItem
    → Action ServerStore WorkItemTransitionResult
record_saved m caller status_code decision summary saved = do
  state ← from_result (from_work_item saved)
  state ← upsert_run_task_state state
  event ← append_event m caller saved summary
  give (record { status_code = status_code; work_item = saved; event = event; decision = decision })

unfoldable pub create :
    Moment → Caller → WorkItem → Option String → Action ServerStore WorkItemTransitionResult
create m caller item summary = do
  saved ← save_work_item item
  record_saved m caller 201 (allowed "work item created")
      (summary_or summary (
        joined (
          "Work item "
          ∷ saved.work_item_id
          ∷ " created as "
          ∷ status_value saved.status
          ∷ "."
          ∷ [])))
      saved

-- a requeued item has no client and no lease
unfoldable pub clear_if_requeued : WorkItemStatus → WorkItem → WorkItem
clear_if_requeued requeued item = record item { assigned_client_id = none; lease_id = none }
clear_if_requeued _ item = item

unfoldable pub transition_allowed :
    Moment
    → Caller
    → WorkItem
    → WorkItemStatus
    → WorkItemChange
    → Option String
    → PolicyDecision
    → Action ServerStore WorkItemTransitionResult
transition_allowed m caller current status change summary decision = do
  updated ← from_result (WorkItems.update_work_item current status change m.now)
  saved ← update_work_item (clear_if_requeued status updated)
  record_saved m caller 200 decision
      (summary_or summary (
        joined (
          "Work item "
          ∷ saved.work_item_id
          ∷ " transitioned to "
          ∷ status_value saved.status
          ∷ "."
          ∷ [])))
      saved

unfoldable pub transition_denied :
    Moment
    → Caller
    → WorkItem
    → WorkItemStatus
    → PolicyDecision
    → Action ServerStore WorkItemTransitionResult
transition_denied m caller current status decision = do
  event ← append_denial_event m caller current status decision
  give (record { status_code = 409; work_item = current; event = event; decision = decision })

unfoldable pub transition :
    Moment
    → Caller
    → String
    → WorkItemStatus
    → WorkItemChange
    → Option String
    → Action ServerStore WorkItemTransitionResult
transition m caller work_item_id status change summary = do
  current ← load_work_item work_item_id
  let decision = transition_decision current.status status
  (if decision.allow
      then transition_allowed m caller current status change summary decision
      else transition_denied m caller current status decision)

abbrev pub no_change : WorkItemChange
no_change = record {
  assigned_client_id = none;
  lease_id = none;
  evidence_digest = none;
  blocked_reason = none;
}

unfoldable pub assign :
    Moment
    → Caller
    → String
    → String
    → Option String
    → Option String
    → Action ServerStore WorkItemTransitionResult
assign m caller work_item_id assigned_client_id lease_id summary =
    transition m caller work_item_id assigned
      (record no_change { assigned_client_id = some assigned_client_id; lease_id = lease_id })
      (some (
        summary_or summary
          (joined ("Work item " ∷ work_item_id ∷ " assigned to " ∷ assigned_client_id ∷ "." ∷ []))))

unfoldable pub block :
    Moment → Caller → String → String → Action ServerStore WorkItemTransitionResult
block m caller work_item_id reason =
    transition m caller work_item_id blocked (record no_change { blocked_reason = some reason })
      (some (joined ("Work item " ∷ work_item_id ∷ " blocked: " ∷ reason ∷ [])))

unfoldable pub complete :
    Moment → Caller → String → Option String → Action ServerStore WorkItemTransitionResult
complete m caller work_item_id evidence_digest =
    transition m caller work_item_id completed
      (record no_change { evidence_digest = evidence_digest }) none

-- `start`, `wait_for_human`, `verify`, `approve`, `fail` and `cancel`: a status and nothing else
abbrev pub move :
    WorkItemStatus → Moment → Caller → String → Action ServerStore WorkItemTransitionResult
move status m caller work_item_id = transition m caller work_item_id status no_change none

unfoldable pub start : Moment → Caller → String → Action ServerStore WorkItemTransitionResult
start = move running

unfoldable pub wait_for_human :
    Moment → Caller → String → Action ServerStore WorkItemTransitionResult
wait_for_human = move waiting_for_human

unfoldable pub verify : Moment → Caller → String → Action ServerStore WorkItemTransitionResult
verify = move verifying

unfoldable pub approve : Moment → Caller → String → Action ServerStore WorkItemTransitionResult
approve = move approved

unfoldable pub fail : Moment → Caller → String → Action ServerStore WorkItemTransitionResult
fail = move failed

unfoldable pub cancel : Moment → Caller → String → Action ServerStore WorkItemTransitionResult
cancel = move cancelled

unfoldable pub requeue :
    Moment → Caller → String → Option String → Action ServerStore WorkItemTransitionResult
requeue m caller work_item_id summary = transition m caller work_item_id requeued no_change summary
