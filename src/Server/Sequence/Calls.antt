-- ===== src/Server/Sequence/Calls.antt =====
-- Calls of vad/server/api/leases.py and work_items.py in any order.
use verified_agentic_develop.Prelude.{String, List, [], ◌∷◌, Option}
use verified_agentic_develop.ControlPlane.Leases.{
  TaskLease, new_task_lease, is_active, TaskLeaseAcquireRequest, TaskLeaseRenewRequest,
  TaskLeaseReleaseRequest,
}
use verified_agentic_develop.ControlPlane.Leases
use verified_agentic_develop.ControlPlane.WorkItems.{WorkItem, WorkItemStatus, WorkItemChange}
use verified_agentic_develop.Server.Store.{ServerStore}
use verified_agentic_develop.Server.Leases.{Moment, acquire, renew, release, expire}
use verified_agentic_develop.Server.WorkItems.{Caller, create, transition}
use verified_agentic_develop.Server.Sequence.{IsNumbered}
use verified_agentic_develop.Server.Sequence.LeaseCalls.{acquire-Keeps, change-Keeps, expire-Keeps}
use verified_agentic_develop.Server.Sequence.ItemCalls.{create-Keeps, transition-Keeps}

-- the calls of both services
pub data ServiceCall : Type 0 where
  acquire_call : TaskLeaseAcquireRequest → ServiceCall
  renew_call : String → TaskLeaseRenewRequest → ServiceCall
  release_call : String → TaskLeaseReleaseRequest → ServiceCall
  expire_call : String → ServiceCall
  create_call : Caller → WorkItem → Option String → ServiceCall
  transition_call : Caller → String → WorkItemStatus → WorkItemChange → Option String → ServiceCall

-- the store after a call
unfoldable pub serve : Moment × ServiceCall → ServerStore → ServerStore
serve (m, acquire_call r) s = (acquire m r s).1
serve (m, renew_call k r) s = (renew m k r s).1
serve (m, release_call k r) s = (release m k r s).1
serve (m, expire_call k) s = (expire m k s).1
serve (m, create_call c i summary) s = (create m c i summary s).1
serve (m, transition_call c k status change summary) s =
    (transition m c k status change summary s).1

unfoldable pub serve_all : List (Moment × ServiceCall) → ServerStore → ServerStore
unfolding serve
serve_all [] s = s
serve_all (call ∷ calls) s = serve_all calls (serve call s)

serve-IsNumbered :
    (call : Moment × ServiceCall) (s : ServerStore) → IsNumbered s → IsNumbered (serve call s)
unfolding serve renew release
serve-IsNumbered (m, acquire_call r) s h = (acquire-Keeps m r).at s h
serve-IsNumbered (m, renew_call k r) s h =
    (change-Keeps (λ l. Leases.renew l m.now r.ttl_seconds) k r.client_id m 200 _ _ _).at s h
serve-IsNumbered (m, release_call k r) s h =
    (change-Keeps (λ l. Leases.release l r.reason) k r.client_id m 200 _ _ _).at s h
serve-IsNumbered (m, expire_call k) s h = (expire-Keeps m k).at s h
serve-IsNumbered (m, create_call c i summary) s h = (create-Keeps m c i summary).at s h
serve-IsNumbered (m, transition_call c k status change summary) s h =
    (transition-Keeps m c k status change summary).at s h

-- If the events are numbered 1, 2, 3 and so on in the order of the table, they still are after any
-- sequence of calls of the lease service and the work item service, whether the calls succeed or
-- raise.
pub serve_all-IsNumbered :
    (calls : List (Moment × ServiceCall)) (s : ServerStore)
    → IsNumbered s
    → IsNumbered (serve_all calls s)
unfolding serve_all
serve_all-IsNumbered [] s h = h
serve_all-IsNumbered (call ∷ calls) s h =
    serve_all-IsNumbered calls (serve call s) (serve-IsNumbered call s h)
