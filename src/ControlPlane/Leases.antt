-- ===== src/ControlPlane/Leases.antt =====
-- vad/control_plane/leases.py.
use verified_agentic_develop.Prelude.{
  text_length, false, true, ℕ, ◌+◌, ◌*◌, String, Bool, not, ◌&&◌, ◌||◌, Option, none, some, Result,
  ok, raise, validation_error, value_error, leb, ◌==◌, if◌then◌else◌,
}
use verified_agentic_develop.ControlPlane.{
  false, text_length, true, is_identifier, is_optional_text,
}

pub data TaskLeaseStatus : Type 0 where
  active released expired blocked : TaskLeaseStatus

abbrev pub is_active : TaskLeaseStatus → Bool
is_active active = true
is_active _ = false

unfoldable pub status_value : TaskLeaseStatus → String
status_value active = "active"
status_value released = "released"
status_value expired = "expired"
status_value blocked = "blocked"

pub record TaskLease : Type 0 where
  pub task_id : String
  pub run_id : String
  pub client_id : String
  pub role : String
  pub actor : String
  pub acquired_at : ℕ
  pub expires_at : ℕ
  pub status : TaskLeaseStatus
  pub release_reason : Option String

-- the constructor of `TaskLease`: its fields' limits and its two validators
unfoldable pub task_lease : TaskLease → Result TaskLease
unfolding is_identifier is_optional_text
task_lease l =
    if is_identifier 160 l.task_id
      && is_identifier 160 l.run_id
      && is_identifier 160 l.client_id
      && is_identifier 80 l.role
      && is_identifier 160 l.actor
      && is_optional_text 300 l.release_reason
    then ok l
    else raise validation_error

abbrev pub seconds : ℕ → ℕ
seconds n = n * 1000000

unfoldable pub renew : TaskLease → ℕ → ℕ → Result TaskLease
renew l now ttl_seconds =
    if not (is_active l.status)
    then raise (value_error "only active leases can be renewed")
    else ok (record l { expires_at = now + seconds ttl_seconds })

unfoldable pub release : TaskLease → Option String → Result TaskLease
release l reason =
    if not (is_active l.status)
    then raise (value_error "only active leases can be released")
    else ok (record l { status = released; release_reason = reason })

unfoldable pub expire : TaskLease → ℕ → TaskLease
expire l now =
    if not (is_active l.status)
    then l
    else if leb l.expires_at now
    then record l { status = expired; release_reason = some "lease expired" }
    else l

unfoldable pub assert_approval_transition_allowed : TaskLease → String → String → Result (Unit {0})
assert_approval_transition_allowed l actor role =
    if not (role == "release_guardian")
    then raise (value_error "lease approval transition requires release_guardian role")
    else if (actor == l.actor) || (actor == l.client_id)
    then raise (value_error "builder cannot approve own work through lease transition")
    else ok tt

pub record TaskLeaseAcquireRequest : Type 0 where
  pub task_id : String
  pub run_id : String
  pub client_id : String
  pub role : String
  pub actor : String
  pub ttl_seconds : ℕ

pub record TaskLeaseRenewRequest : Type 0 where
  pub client_id : String
  pub ttl_seconds : ℕ

pub record TaskLeaseReleaseRequest : Type 0 where
  pub client_id : String
  pub reason : Option String

-- the constructor of `TaskLeaseReleaseRequest`: a reason's control characters are not refused
unfoldable pub task_lease_release_request : TaskLeaseReleaseRequest → Result TaskLeaseReleaseRequest
unfolding is_identifier
task_lease_release_request r =
    let reason_fits : Bool = elim r.reason [ none ↦ true | some s ↦ leb (text_length s) 300 ] in
    if is_identifier 160 r.client_id && reason_fits then ok r else raise validation_error

pub record TaskLeaseApprovalCheck : Type 0 where
  pub actor : String
  pub role : String
  pub action : String

unfoldable pub new_task_lease : TaskLeaseAcquireRequest → ℕ → Result TaskLease
unfolding task_lease
new_task_lease request acquired_at = task_lease (record {
  task_id = request.task_id;
  run_id = request.run_id;
  client_id = request.client_id;
  role = request.role;
  actor = request.actor;
  acquired_at = acquired_at;
  expires_at = acquired_at + seconds request.ttl_seconds;
  status = active;
  release_reason = none;
})
