-- ===== src/ControlPlane/WorkItems.antt =====
-- vad/control_plane/work_items.py and run_task_state.py.
use verified_agentic_develop.Prelude.{
  false, true, ℕ, String, Bool, not, ◌&&◌, ◌||◌, Option, none, some, Result, ok, raise,
  validation_error, leb, ltb, text_length, if◌then◌else◌,
}
use verified_agentic_develop.ControlPlane.{
  false, true, is_identifier, is_optional_identifier, is_optional_text, is_optional_digest,
}
use verified_agentic_develop.Policy.{is_given}

pub data WorkItemStatus : Type 0 where
  planned queued assigned running blocked waiting_for_human verifying approved completed failed
        cancelled requeued :
      WorkItemStatus

unfoldable pub WorkItemStatus-discrete : Discrete WorkItemStatus
WorkItemStatus-discrete = hlevel

unfoldable pub status_value : WorkItemStatus → String
status_value planned = "planned"
status_value queued = "queued"
status_value assigned = "assigned"
status_value running = "running"
status_value blocked = "blocked"
status_value waiting_for_human = "waiting_for_human"
status_value verifying = "verifying"
status_value approved = "approved"
status_value completed = "completed"
status_value failed = "failed"
status_value cancelled = "cancelled"
status_value requeued = "requeued"

pub record WorkItemGovernance : Type 0 where
  pub effort_type : String
  pub mees_estimate : ℕ
  pub token_budget : ℕ
  pub approval_required : Bool
  pub live_service_opt_in : Bool
  pub high_risk : Bool
  pub operator_intent_ref : Option String
  pub approval_ref : Option String

-- the fields' limits, `governance_text_must_be_safe` and `enforce_governance_controls`
unfoldable pub work_item_governance : WorkItemGovernance → Result WorkItemGovernance
unfolding is_identifier is_optional_identifier
work_item_governance g =
    if not (
      is_identifier 80 g.effort_type
      && leb g.mees_estimate 100
      && is_optional_identifier 200 g.operator_intent_ref
      && is_optional_identifier 200 g.approval_ref)
    then raise validation_error
    else if ltb g.mees_estimate 50 && not g.approval_required
    then raise validation_error
    else if g.live_service_opt_in && not g.approval_required
    then raise validation_error
    else if g.high_risk && not g.approval_required
    then raise validation_error
    else if (g.live_service_opt_in || g.high_risk) && not (is_given g.operator_intent_ref)
    then raise validation_error
    else ok g

pub record WorkItem : Type 0 where
  pub work_item_id : String
  pub run_id : String
  pub title : String
  pub description : String
  pub role : String
  pub requested_capability : Option String
  pub priority : ℕ
  pub status : WorkItemStatus
  pub created_at : ℕ
  pub updated_at : ℕ
  pub assigned_client_id : Option String
  pub lease_id : Option String
  pub evidence_digest : Option String
  pub blocked_reason : Option String
  pub governance : Option WorkItemGovernance

is_governed : Option WorkItemGovernance → Bool
unfolding work_item_governance
is_governed none = true
is_governed (some g) = elim (work_item_governance g) [ ok _ ↦ true | raise _ ↦ false ]

-- the constructor of `WorkItem`: its fields' limits and its validators
unfoldable pub work_item : WorkItem → Result WorkItem
unfolding is_identifier is_optional_identifier is_optional_text is_optional_digest is_governed
work_item i =
    if is_identifier 160 i.work_item_id
      && is_identifier 160 i.run_id
      && leb 1 (text_length i.title)
      && is_optional_text 200 (some i.title)
      && is_optional_text 2000 (some i.description)
      && is_identifier 80 i.role
      && is_optional_identifier 120 i.requested_capability
      && leb i.priority 1000
      && is_optional_identifier 160 i.assigned_client_id
      && is_optional_identifier 160 i.lease_id
      && is_optional_digest i.evidence_digest
      && is_optional_text 500 i.blocked_reason
      && is_governed i.governance
    then ok i
    else raise validation_error

-- `if value is not None: data[key] = value`
abbrev pub set_if_given : Option String → Option String → Option String
set_if_given none old = old
set_if_given (some new) old = some new

-- what a transition may change beside the status
pub record WorkItemChange : Type 0 where
  pub assigned_client_id : Option String
  pub lease_id : Option String
  pub evidence_digest : Option String
  pub blocked_reason : Option String

unfoldable pub update_work_item : WorkItem → WorkItemStatus → WorkItemChange → ℕ → Result WorkItem
unfolding work_item
update_work_item item status change now = work_item (record item {
  status = status;
  assigned_client_id = set_if_given change.assigned_client_id item.assigned_client_id;
  lease_id = set_if_given change.lease_id item.lease_id;
  evidence_digest = set_if_given change.evidence_digest item.evidence_digest;
  blocked_reason = set_if_given change.blocked_reason item.blocked_reason;
  updated_at = now;
})

pub record RunTaskState : Type 0 where
  pub run_id : String
  pub task_id : String
  pub work_item_id : Option String
  pub status : WorkItemStatus
  pub assigned_client_id : Option String
  pub lease_id : Option String
  pub blocked_reason : Option String
  pub evidence_digest : Option String
  pub updated_at : ℕ

-- the constructor of `RunTaskState`
unfoldable pub run_task_state : RunTaskState → Result RunTaskState
unfolding is_identifier is_optional_identifier is_optional_digest
run_task_state r =
    let reason_fits : Bool = elim r.blocked_reason [
      | none ↦ true
      | some s ↦ leb (text_length s) 500
    ] in
    if is_identifier 160 r.run_id
      && is_identifier 160 r.task_id
      && is_optional_identifier 160 r.work_item_id
      && is_optional_identifier 160 r.assigned_client_id
      && is_optional_identifier 160 r.lease_id
      && reason_fits
      && is_optional_digest r.evidence_digest
    then ok r
    else raise validation_error

abbrev pub state_of : WorkItem → RunTaskState
state_of item = record {
  run_id = item.run_id;
  task_id = item.work_item_id;
  work_item_id = some item.work_item_id;
  status = item.status;
  assigned_client_id = item.assigned_client_id;
  lease_id = item.lease_id;
  blocked_reason = item.blocked_reason;
  evidence_digest = item.evidence_digest;
  updated_at = item.updated_at;
}

-- `RunTaskState.from_work_item`
unfoldable pub from_work_item : WorkItem → Result RunTaskState
unfolding run_task_state
from_work_item item = run_task_state (state_of item)
