-- ===== src/Server/Sequence/LeaseCalls.antt =====
-- Every method of vad/server/api/leases.py, for the sequence numbers.
use verified_agentic_develop.Prelude.{
  ℕ, ◌+◌, String, Option, none, some, Result, ok, refl, inl, inr, Bool-cases, if_true, if_false,
  length,
}
use verified_agentic_develop.Prelude.Action.{
  Keeps, Keeps-bind, Keeps-bind_result, from_result, ◌>>=◌,
}
use verified_agentic_develop.ControlPlane.Events
use verified_agentic_develop.ControlPlane.Events.{
  ControlPlaneEvent, ControlPlaneEventKind, ControlPlaneEventStatus, control_plane_event,
}
use verified_agentic_develop.ControlPlane.Leases.{
  TaskLease, new_task_lease, is_active, TaskLeaseAcquireRequest, TaskLeaseRenewRequest,
  TaskLeaseReleaseRequest,
}
use verified_agentic_develop.ControlPlane.Leases
use verified_agentic_develop.Policy.{PolicyDecision}
use verified_agentic_develop.Server.Table.{upsert}
use verified_agentic_develop.Server.Store.{
  same_id, lease_key, load_task_lease, save_task_lease, load_client_manifest,
}
use verified_agentic_develop.Server.Store.Keeps.{load-cases as lease-cases}
use verified_agentic_develop.Server.Leases.{
  Moment, append_event, answer, require_holder, acquire, acquire_over, acquire_new, expire, or_none,
}
use verified_agentic_develop.Server.Sequence.{IsNumbered, event-IsNumbered}

answer-Keeps :
    (m : Moment) (code : ℕ) (l : TaskLease) (summary : String) (status : ControlPlaneEventStatus)
    (d : PolicyDecision)
    → Keeps IsNumbered (answer m code l summary status d)
unfolding answer append_event
answer-Keeps m code l summary status d =
    Keeps-bind (append_event m l summary status) _
      (record {
        at = λ s h.
            event-IsNumbered
              (record {
                event_id = m.event_id;
                sequence = length s.control_plane_events + 1;
                created_at = m.now;
                client_id = l.client_id;
                run_id = some l.run_id;
                task_id = some l.task_id;
                kind = Events.task_lease;
                status = status;
                actor = l.actor;
                role = l.role;
                evidence_digest = none;
                summary = summary;
              })
              s refl h;
      })
      (λ event. record { at = λ _ x. x })

save_task_lease-Keeps : (l : TaskLease) → Keeps IsNumbered (save_task_lease l)
unfolding save_task_lease load_client_manifest IsNumbered
save_task_lease-Keeps l =
    Keeps-bind (load_client_manifest l.client_id)
      (λ manifest s. (ok l, record s { task_leases = upsert same_id lease_key l s.task_leases }))
      (record { at = λ _ x. x }) (λ _. record { at = λ s x. x })

load_task_lease-Keeps : (k : String) → Keeps IsNumbered (load_task_lease k)
load_task_lease-Keeps k = record {
  at = λ s h. elim (lease-cases k s) [ inl (r, f, v) ↦ rw v h | inr (e, v) ↦ rw v h ];
}

write-Keeps :
    (r : Result TaskLease) (m : Moment) (code : ℕ) (summary : String)
    (status : ControlPlaneEventStatus) (d : PolicyDecision)
    → Keeps IsNumbered
        (do l ← from_result r; l ← save_task_lease l; answer m code l summary status d)
write-Keeps r m code summary status d = Keeps-bind_result r _ (λ l _.
    Keeps-bind (save_task_lease l) _ (save_task_lease-Keeps l)
      (λ l. answer-Keeps m code l summary status d))

pub change-Keeps :
    (g : TaskLease → Result TaskLease) (k client : String) (m : Moment) (code : ℕ)
    (summary : String) (status : ControlPlaneEventStatus) (d : PolicyDecision)
    → Keeps IsNumbered (do
      l ← load_task_lease k
      held ← from_result (require_holder l client)
      l ← from_result (g l)
      l ← save_task_lease l
      answer m code l summary status d)
change-Keeps g k client m code summary status d =
    Keeps-bind (load_task_lease k) _ (load_task_lease-Keeps k) (λ l.
      Keeps-bind_result (require_holder l client) _
        (λ held _. write-Keeps (g l) m code summary status d))

acquire_over-Keeps :
    (m : Moment) (r : TaskLeaseAcquireRequest) (existing : Option TaskLease)
    → Keeps IsNumbered (acquire_over m r existing)
unfolding acquire_over acquire_new
acquire_over-Keeps m r none = write-Keeps (new_task_lease r m.now) m 201 _ _ _
acquire_over-Keeps m r (some x) = elim (Bool-cases (is_active x.status)) [
  | inl y ↦ rw (if_true _ _ y) (answer-Keeps m 409 x _ _ _)
  | inr n ↦ rw (if_false _ _ n) (write-Keeps (new_task_lease r m.now) m 201 _ _ _)
]

pub acquire-Keeps : (m : Moment) (r : TaskLeaseAcquireRequest) → Keeps IsNumbered (acquire m r)
unfolding acquire
acquire-Keeps m r =
    Keeps-bind (load_client_manifest r.client_id) _
      (unfold load_client_manifest in record { at = λ _ x. x })
      (λ manifest.
        Keeps-bind (λ s. (or_none (load_task_lease r.task_id s).0, s)) (acquire_over m r)
          (record { at = λ _ x. x }) (λ existing. acquire_over-Keeps m r existing))

pub expire-Keeps : (m : Moment) (k : String) → Keeps IsNumbered (expire m k)
unfolding expire
expire-Keeps m k = Keeps-bind (load_task_lease k) _ (load_task_lease-Keeps k) (λ l.
    let l' : TaskLease = record l {
      status = Leases.expired;
      release_reason = some "lease expired";
    } in
    Keeps-bind (save_task_lease l') _ (save_task_lease-Keeps l') (λ l. answer-Keeps m 200 l _ _ _))
