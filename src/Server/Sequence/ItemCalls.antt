-- ===== src/Server/Sequence/ItemCalls.antt =====
-- Every method of vad/server/api/work_items.py, for the sequence numbers.
use verified_agentic_develop.Prelude.{
  joined, join, ℕ, ◌+◌, String, not, ◌||◌, [], ◌∷◌, Option, none, some, is_some, refl, inl, inr,
  Bool-cases, if_true, if_false, length,
}
use verified_agentic_develop.Prelude.Action.{
  Keeps, Keeps-bind, Keeps-bind_result, from_result, give, ◌>>=◌,
}
use verified_agentic_develop.ControlPlane.Events
use verified_agentic_develop.ControlPlane.Events.{
  ControlPlaneEvent, ControlPlaneEventKind, ControlPlaneEventStatus, control_plane_event,
}
use verified_agentic_develop.ControlPlane.WorkItems.{
  WorkItem, WorkItemStatus, WorkItemChange, RunTaskState, from_work_item,
}
use verified_agentic_develop.ControlPlane.WorkItems
use verified_agentic_develop.Policy.{PolicyDecision}
use verified_agentic_develop.Server.Table.{lookup}
use verified_agentic_develop.Server.Store.{
  same_id, load_work_item, insert_work_item, save_work_item, write_work_item, update_work_item,
  upsert_run_task_state, keys_hold, item_key,
}
use verified_agentic_develop.Server.Leases.{Moment}
use verified_agentic_develop.Server.WorkItems.{
  Caller, append_item_event, append_denial_event, record_saved, create, transition,
  transition_allowed, transition_denied, transition_decision, clear_if_requeued, event_status,
}
use verified_agentic_develop.Server.WorkItems as Items
use verified_agentic_develop.Server.WorkItems.Transitions.{load-cases as item-cases}
use verified_agentic_develop.Server.Sequence.{IsNumbered, event-IsNumbered}

append_item_event-Keeps :
    (m : Moment) (c : Caller) (i : WorkItem) (kind : ControlPlaneEventKind)
    (status : ControlPlaneEventStatus) (digest : Option String) (summary : String)
    → Keeps IsNumbered (append_item_event m c i kind status digest summary)
unfolding append_item_event
append_item_event-Keeps m c i kind status digest summary = record {
  at = λ s h.
      event-IsNumbered
        (record {
          event_id = m.event_id;
          sequence = length s.control_plane_events + 1;
          created_at = m.now;
          client_id = c.client_id;
          run_id = some i.run_id;
          task_id = some i.work_item_id;
          kind = kind;
          status = status;
          actor = c.actor;
          role = c.role;
          evidence_digest = digest;
          summary = summary;
        })
        s refl h;
}

upsert-Keeps : (r : RunTaskState) → Keeps IsNumbered (upsert_run_task_state r)
unfolding upsert_run_task_state IsNumbered
upsert-Keeps r = record { at = λ _ x. x }

load_work_item-Keeps : (k : String) → Keeps IsNumbered (load_work_item k)
load_work_item-Keeps k = record {
  at = λ s h. elim (item-cases k s) [ inl (r, f, v) ↦ rw v h | inr (e, v) ↦ rw v h ];
}

insert_work_item-Keeps : (i : WorkItem) → Keeps IsNumbered (insert_work_item i)
unfolding insert_work_item IsNumbered
insert_work_item-Keeps i = record {
  at = λ s h.
      elim (Bool-cases
        (is_some (lookup same_id item_key i.work_item_id s.work_items) || not (keys_hold s i))) [
          | inl b ↦ rw (if_true _ _ b) h
          | inr b ↦ rw (if_false _ _ b) h
        ];
}

write_work_item-Keeps : (i : WorkItem) → Keeps IsNumbered (write_work_item i)
unfolding write_work_item IsNumbered
write_work_item-Keeps i = record {
  at = λ s h. elim (Bool-cases (keys_hold s i)) [
    | inl b ↦ rw (if_true _ _ b) h
    | inr b ↦ rw (if_false _ _ b) h
  ];
}

state-Keeps :
    (i : WorkItem)
    → Keeps IsNumbered
        (do state ← from_result (from_work_item i); state ← upsert_run_task_state state; give i)
state-Keeps i = Keeps-bind_result (from_work_item i) _ (λ state _.
    Keeps-bind (upsert_run_task_state state) (λ state. give i) (upsert-Keeps state)
      (λ _. record { at = λ _ x. x }))

save_work_item-Keeps : (i : WorkItem) → Keeps IsNumbered (save_work_item i)
unfolding save_work_item
save_work_item-Keeps i =
    Keeps-bind (insert_work_item i) _ (insert_work_item-Keeps i) (λ _. state-Keeps i)

update_work_item-Keeps : (i : WorkItem) → Keeps IsNumbered (update_work_item i)
unfolding update_work_item
update_work_item-Keeps i =
    Keeps-bind (load_work_item i.work_item_id) _ (load_work_item-Keeps i.work_item_id)
      (λ _. Keeps-bind (write_work_item i) _ (write_work_item-Keeps i) (λ _. state-Keeps i))

record_saved-Keeps :
    (m : Moment) (c : Caller) (code : ℕ) (d : PolicyDecision) (summary : String) (i : WorkItem)
    → Keeps IsNumbered (record_saved m c code d summary i)
unfolding record_saved Items.append_event
record_saved-Keeps m c code d summary i = Keeps-bind_result (from_work_item i) _ (λ state _.
    Keeps-bind (upsert_run_task_state state) _ (upsert-Keeps state) (λ _.
      Keeps-bind (Items.append_event m c i summary) _
        (append_item_event-Keeps m c i Events.work_item (event_status i.status) i.evidence_digest
          summary)
        (λ e. record { at = λ _ x. x })))

pub create-Keeps :
    (m : Moment) (c : Caller) (i : WorkItem) (summary : Option String)
    → Keeps IsNumbered (create m c i summary)
unfolding create
create-Keeps m c i summary =
    Keeps-bind (save_work_item i) _ (save_work_item-Keeps i)
      (λ saved. record_saved-Keeps m c 201 _ _ saved)

transition_denied-Keeps :
    (m : Moment) (c : Caller) (i : WorkItem) (status : WorkItemStatus) (d : PolicyDecision)
    → Keeps IsNumbered (transition_denied m c i status d)
unfolding transition_denied append_denial_event
transition_denied-Keeps m c i status d =
    Keeps-bind (append_denial_event m c i status d)
      (λ event. give (record { status_code = 409; work_item = i; event = event; decision = d }))
      (append_item_event-Keeps m c i Events.policy_denied Events.blocked none (
        joined (
          "Policy denied work_item transition to "
          ∷ WorkItems.status_value status
          ∷ ": "
          ∷ join "; " d.denials
          ∷ [])))
      (λ e. record { at = λ _ x. x })

pub transition-Keeps :
    (m : Moment) (c : Caller) (k : String) (status : WorkItemStatus) (change : WorkItemChange)
    (summary : Option String)
    → Keeps IsNumbered (transition m c k status change summary)
unfolding transition transition_allowed
transition-Keeps m c k status change summary =
    Keeps-bind (load_work_item k) _ (load_work_item-Keeps k) (λ i.
      elim (Bool-cases (transition_decision i.status status).allow) [
        | inr n ↦ rw (if_false _ _ n) (transition_denied-Keeps m c i status _)
        | inl y ↦ rw (if_true _ _ y) (
            Keeps-bind_result (WorkItems.update_work_item i status change m.now) _ (λ u e.
              Keeps-bind (update_work_item (clear_if_requeued status u)) _
                (update_work_item-Keeps (clear_if_requeued status u))
                (λ saved. record_saved-Keeps m c 200 _ _ saved)))
      ])
