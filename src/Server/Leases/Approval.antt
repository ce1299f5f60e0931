-- ===== src/Server/Leases/Approval.antt =====
-- vad/server/api/leases.py: who may approve a release over a lease.
use verified_agentic_develop.Prelude.{true, false, ◌≡◌, ◌↔◌, ◌==◌, arith}
use verified_agentic_develop.ControlPlane.Leases.{TaskLease, TaskLeaseApprovalCheck}
use verified_agentic_develop.Server.Leases.{approval_decision}

-- The decision on an approval over a lease allows exactly the action `approve_release`, in the role
-- `release_guardian`, by an actor who is neither the actor nor the client of the lease.
pub approval_decision-allow_iff :
    (lease : TaskLease) (request : TaskLeaseApprovalCheck)
    → ((approval_decision lease request).allow ≡ true) ↔ (
        ((request.action == "approve_release") ≡ true)
        × ((request.role == "release_guardian") ≡ true)
        × ((request.actor == lease.actor) ≡ false)
        × ((request.actor == lease.client_id) ≡ false))
unfolding approval_decision
approval_decision-allow_iff lease request = ground arith
