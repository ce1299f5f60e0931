-- ===== src/ControlPlane/Events.antt =====
-- vad/control_plane/events.py.
use verified_agentic_develop.Prelude.{
  ℕ, String, ◌&&◌, Option, Result, ok, raise, validation_error, leb, text_length, if◌then◌else◌,
}
use verified_agentic_develop.ControlPlane.{
  is_identifier, is_optional_identifier, is_optional_digest,
}

pub data ControlPlaneEventKind : Type 0 where
  heartbeat tool_call_started tool_call_finished file_change_proposed file_change_applied
        proof_started proof_finished policy_denied approval_requested approval_recorded signer_event
        deployment_event message blocker recovery_action swarm provider signing deployment work_item
        task_lease :
      ControlPlaneEventKind

pub data ControlPlaneEventStatus : Type 0 where
  active passed failed blocked needs_human stale : ControlPlaneEventStatus

-- `client_label`, which nothing here sets, is left out
pub record ControlPlaneEvent : Type 0 where
  pub event_id : String
  pub sequence : ℕ
  pub created_at : ℕ
  pub client_id : String
  pub run_id : Option String
  pub task_id : Option String
  pub kind : ControlPlaneEventKind
  pub status : ControlPlaneEventStatus
  pub actor : String
  pub role : String
  pub evidence_digest : Option String
  pub summary : String

-- the fields' limits and `identifiers_must_be_safe`; a generated event id is not validated
unfoldable pub control_plane_event : ControlPlaneEvent → Result ControlPlaneEvent
unfolding is_identifier is_optional_identifier is_optional_digest
control_plane_event e =
    if is_identifier 160 e.client_id
      && is_optional_identifier 160 e.run_id
      && is_optional_identifier 160 e.task_id
      && is_identifier 160 e.actor
      && is_identifier 80 e.role
      && is_optional_digest e.evidence_digest
      && leb 1 (text_length e.summary)
      && leb (text_length e.summary) 500
    then ok e
    else raise validation_error
