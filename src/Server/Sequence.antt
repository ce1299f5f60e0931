-- ===== src/Server/Sequence.antt =====
-- The sequence numbers of the events that vad/server/api appends.
pub mod LeaseCalls
pub mod ItemCalls
pub mod Calls
use verified_agentic_develop.Prelude.{
  joined, join, ◌⊎◌, ℕ, suc, ◌+◌, String, not, ◌||◌, List, [], ◌∷◌, ◌++◌, Option, none, some,
  is_some, Result, ok, raise, ◌≡◌, refl, inl, inr, ◌==◌, Bool-cases, if_true, if_false, arith,
  length, any_of, checked-cases, validation_error,
}
use verified_agentic_develop.Prelude.Action.{
  Keeps, Keeps-bind, Keeps-bind_result, from_result, give, ◌>>=◌,
}
use verified_agentic_develop.ControlPlane.Events
use verified_agentic_develop.ControlPlane.Events.{
  ControlPlaneEvent, ControlPlaneEventKind, ControlPlaneEventStatus, control_plane_event,
}
use verified_agentic_develop.ControlPlane.Leases.{
  TaskLease, new_task_lease, is_active, TaskLeaseAcquireRequest, TaskLeaseRenewRequest,
  TaskLeaseReleaseRequest,
}
use verified_agentic_develop.ControlPlane.Leases
use verified_agentic_develop.ControlPlane.WorkItems.{
  WorkItem, WorkItemStatus, WorkItemChange, RunTaskState, from_work_item,
}
use verified_agentic_develop.ControlPlane.WorkItems
use verified_agentic_develop.Policy.{PolicyDecision}
use verified_agentic_develop.Server.Table.{upsert, lookup}
use verified_agentic_develop.Server.Store.{
  ServerStore, same_id, lease_key, load_task_lease, save_task_lease, load_client_manifest,
  append_control_plane_event, load_work_item, insert_work_item, save_work_item, write_work_item,
  update_work_item, upsert_run_task_state, keys_hold, item_key,
}
use verified_agentic_develop.Server.Store.Keeps.{load-cases as lease-cases}
use verified_agentic_develop.Server.Leases.{
  Moment, append_event, answer, require_holder, acquire, acquire_over, acquire_new, renew, release,
  expire, or_none,
}
use verified_agentic_develop.Server.WorkItems.{
  Caller, append_item_event, append_denial_event, record_saved, create, transition,
  transition_allowed, transition_denied, transition_decision, clear_if_requeued, event_status,
}
use verified_agentic_develop.Server.WorkItems as Items
use verified_agentic_develop.Server.WorkItems.Transitions.{load-cases as item-cases}

-- the events count on from this number, in the order of the table
NumberedFrom : ℕ → List ControlPlaneEvent → Type 0
NumberedFrom n [] = Unit
NumberedFrom n (e ∷ es) = (e.sequence ≡ n) × NumberedFrom (suc n) es

-- the events are numbered 1, 2, 3 and so on
unfoldable pub IsNumbered : ServerStore → Type 0
unfolding NumberedFrom
IsNumbered s = NumberedFrom 1 s.control_plane_events

append-NumberedFrom :
    (n : ℕ) (es : List ControlPlaneEvent) (e : ControlPlaneEvent)
    → NumberedFrom n es
    → e.sequence ≡ n + length es
    → NumberedFrom n (es ++ e ∷ [])
unfolding NumberedFrom
append-NumberedFrom n [] e h q = (omega (arith, q), tt)
append-NumberedFrom n (x ∷ es) e h q =
    (h.0, append-NumberedFrom (suc n) es e h.1 (omega (arith, q)))

event-cases :
    (e : ControlPlaneEvent) (s : ServerStore)
    → e.sequence ≡ length s.control_plane_events + 1
    → IsNumbered s
    → IsNumbered (append_control_plane_event e s).1
unfolding append_control_plane_event IsNumbered
event-cases e s q h =
    elim (Bool-cases (any_of (λ x. x.event_id == e.event_id) s.control_plane_events)) [
      | inl b ↦ rw (if_true _ _ b) h
      | inr b ↦
          rw (if_false _ _ b) (append-NumberedFrom 1 s.control_plane_events e h (omega (arith, q)))
    ]

control_plane_event-cases :
    (e : ControlPlaneEvent)
    → (control_plane_event e ≡ ok e) ⊎ (control_plane_event e ≡ raise validation_error)
unfolding control_plane_event
control_plane_event-cases e = checked-cases _ e validation_error

-- a new event has the next number
pub event-IsNumbered :
    (e : ControlPlaneEvent) (s : ServerStore)
    → e.sequence ≡ length s.control_plane_events + 1
    → IsNumbered s
    → IsNumbered ((from_result (control_plane_event e) >>= append_control_plane_event) s).1
event-IsNumbered e s q h = elim (control_plane_event-cases e) [
  | inl v ↦ rw v (event-cases e s q h)
  | inr v ↦ rw v h
]
