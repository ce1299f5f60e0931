-- ===== src/Server/Leases.antt =====
-- vad/server/api/leases.py: `TaskLeaseService` over the store.
pub mod Holder
pub mod Approval
use verified_agentic_develop.Prelude.{
  ℕ, ◌+◌, String, Bool, true, false, not, List, [], ◌∷◌, ◌++◌, Option, none, some, Result, ok,
  raise, Error, key_error, value_error, permission_error, message, ◌==◌, length, joined,
  if◌then◌else◌,
}
use verified_agentic_develop.Prelude.Action.{Action, give, from_result, continue, ◌>>=◌}
use verified_agentic_develop.ControlPlane.Events.{
  ControlPlaneEvent, ControlPlaneEventKind, ControlPlaneEventStatus, control_plane_event,
}
use verified_agentic_develop.ControlPlane.Events
use verified_agentic_develop.ControlPlane.Leases.{
  TaskLease, TaskLeaseStatus, is_active, expired, status_value, new_task_lease,
  TaskLeaseAcquireRequest, TaskLeaseRenewRequest, TaskLeaseReleaseRequest, TaskLeaseApprovalCheck,
  assert_approval_transition_allowed,
}
use verified_agentic_develop.ControlPlane.Leases
use verified_agentic_develop.Policy.{PolicyDecision}
use verified_agentic_develop.Server.Store.{
  ServerStore, load_client_manifest, load_task_lease, save_task_lease, append_control_plane_event,
}

-- what a call takes from the clock and the generator of ids
pub record Moment : Type 0 where
  pub now : ℕ
  pub event_id : String

pub record TaskLeaseResult : Type 0 where
  pub status_code : ℕ
  pub lease : TaskLease
  pub event : ControlPlaneEvent
  pub decision : PolicyDecision

abbrev pub allowed : String → PolicyDecision
allowed reason = record {
  allow = true;
  reasons = reason ∷ [];
  denials = [];
  requires_human = false;
}

abbrev pub denied : List String → PolicyDecision
denied denials = record { allow = false; reasons = []; denials = denials; requires_human = true }

-- `try: load; except KeyError: None`
abbrev pub or_none {ℓ} : {A : Type ℓ} → Result A → Result (Option A)
or_none (ok a) = ok (some a)
or_none (raise (key_error k)) = ok none
or_none (raise e) = raise e

unfoldable pub append_event :
    Moment → TaskLease → String → ControlPlaneEventStatus → Action ServerStore ControlPlaneEvent
unfolding control_plane_event append_control_plane_event
append_event m lease summary status s =
    (do
      event ← from_result (
          control_plane_event (record {
            event_id = m.event_id;
            sequence = length s.control_plane_events + 1;
            created_at = m.now;
            client_id = lease.client_id;
            run_id = some lease.run_id;
            task_id = some lease.task_id;
            kind = Events.task_lease;
            status = status;
            actor = lease.actor;
            role = lease.role;
            evidence_digest = none;
            summary = summary;
          }))
      append_control_plane_event event)
      s

-- the event of an operation, and its result
unfoldable pub answer :
    Moment
    → ℕ
    → TaskLease
    → String
    → ControlPlaneEventStatus
    → PolicyDecision
    → Action ServerStore TaskLeaseResult
unfolding append_event
answer m status_code lease summary status decision = do
  event ← append_event m lease summary status
  give (record { status_code = status_code; lease = lease; event = event; decision = decision })

-- `_require_holder`
unfoldable pub require_holder : TaskLease → String → Result (Unit {0})
unfolding status_value
require_holder lease client_id =
    if not (lease.client_id == client_id)
    then raise (permission_error (joined ("task lease is held by " ∷ lease.client_id ∷ [])))
    else if not (is_active lease.status)
    then raise (value_error (joined ("task lease is " ∷ status_value lease.status ∷ [])))
    else ok tt

unfoldable pub acquire_new : Moment → TaskLeaseAcquireRequest → Action ServerStore TaskLeaseResult
unfolding new_task_lease save_task_lease answer
acquire_new m request = do
  lease ← from_result (new_task_lease request m.now)
  lease ← save_task_lease lease
  answer m 201 lease "Task lease acquired." Events.active (allowed "task lease acquired")

unfoldable pub acquire_over :
    Moment → TaskLeaseAcquireRequest → Option TaskLease → Action ServerStore TaskLeaseResult
unfolding acquire_new answer
acquire_over m request none = acquire_new m request
acquire_over m request (some existing) =
    if is_active existing.status
    then answer m 409 existing "Lease acquire denied because task is already active." Events.blocked
        (denied (
          joined ("task " ∷ request.task_id ∷ " already leased by " ∷ existing.client_id ∷ [])
          ∷ []))
    else acquire_new m request

unfoldable pub acquire : Moment → TaskLeaseAcquireRequest → Action ServerStore TaskLeaseResult
unfolding acquire_over
acquire m request = do
  manifest ← load_client_manifest request.client_id
  existing ← λ s. (or_none (load_task_lease request.task_id s).0, s)
  acquire_over m request existing

unfoldable pub renew : Moment → String → TaskLeaseRenewRequest → Action ServerStore TaskLeaseResult
unfolding load_task_lease require_holder Leases.renew save_task_lease answer
renew m task_id request = do
  lease ← load_task_lease task_id
  held ← from_result (require_holder lease request.client_id)
  lease ← from_result (Leases.renew lease m.now request.ttl_seconds)
  lease ← save_task_lease lease
  answer m 200 lease "Task lease renewed." Events.active (allowed "task lease renewed")

unfoldable pub release :
    Moment → String → TaskLeaseReleaseRequest → Action ServerStore TaskLeaseResult
unfolding load_task_lease require_holder Leases.release save_task_lease answer
release m task_id request = do
  lease ← load_task_lease task_id
  held ← from_result (require_holder lease request.client_id)
  lease ← from_result (Leases.release lease request.reason)
  lease ← save_task_lease lease
  answer m 200 lease "Task lease released." Events.passed (allowed "task lease released")

unfoldable pub expire : Moment → String → Action ServerStore TaskLeaseResult
expire m task_id = do
  lease ← load_task_lease task_id
  let lease' = record lease { status = expired; release_reason = some "lease expired" }
  lease' ← save_task_lease lease'
  answer m 200 lease' "Task lease expired." Events.stale (allowed "task lease expired")

abbrev pub texts_of : Result (Unit {0}) → List String
texts_of (ok x) = []
texts_of (raise e) = message e ∷ []

abbrev pub decide : String → List String → PolicyDecision
decide reason [] = allowed reason
decide reason (d ∷ ds) = denied (d ∷ ds)

unfoldable pub approval_decision : TaskLease → TaskLeaseApprovalCheck → PolicyDecision
unfolding assert_approval_transition_allowed message
approval_decision lease request = decide "lease approval transition allowed" (
    (if request.action == "approve_release" then [] else "unsupported lease approval action" ∷ [])
    ++ texts_of (assert_approval_transition_allowed lease request.actor request.role))

unfoldable pub check_approval_transition :
    String → TaskLeaseApprovalCheck → Action ServerStore PolicyDecision
unfolding load_task_lease approval_decision
check_approval_transition task_id request = do
  lease ← load_task_lease task_id
  give (approval_decision lease request)
