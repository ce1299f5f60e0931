-- ===== src/Server/WorkItems/Outcome.antt =====
-- vad/server/api/work_items.py: what a transition that returns has written.
use verified_agentic_develop.Prelude.{
  subst, checked-ok, validation_error, none, arith, none, ok_eq, ℕ, String, true, false, List,
  Option, some, ok, ◌≡◌, refl, sym, ap, ◌∙◌, eq_iff, Bool-cases, if_true, if_false, inl, inr, is_in,
  ◌⊎◌,
}
use verified_agentic_develop.Prelude.Action.{
  Ensures, Ensures-bind, Ensures-from_result, Ensures-Keeps, from_result, give,
}
use verified_agentic_develop.ControlPlane.WorkItems.{
  requeued, work_item, WorkItem, WorkItemStatus, WorkItemStatus-discrete, WorkItemChange,
  RunTaskState, from_work_item, requeued, work_item,
}
use verified_agentic_develop.ControlPlane.WorkItems
use verified_agentic_develop.Policy.{PolicyDecision}
use verified_agentic_develop.Server.Leases.{Moment}
use verified_agentic_develop.Server.Table.{lookup-upsert}
use verified_agentic_develop.Server.Store.{
  ServerStore, WorkItemRow, same_id, item_key, row_of, keys_hold, load_work_item, write_work_item,
  update_work_item, upsert_run_task_state,
}
use verified_agentic_develop.Server.WorkItems.{
  requeue, no_change, append_denial_event, Caller, append_event, record_saved, transition,
  transition_allowed, transition_denied, transition_decision, allowed_work_item_transitions,
  WorkItemTransitionResult, clear_if_requeued,
}
use verified_agentic_develop.Server.WorkItems.Transitions.{
  find_item, load-cases, decision-edge, record_saved-Keeps, upsert_run_task_state-Keeps,
  append_denial_event-Keeps,
}

abbrev Any : ServerStore → Type 0
Any s = Unit

write_work_item-Ensures :
    (i : WorkItem)
    → Ensures Any (λ _ s. find_item i.work_item_id s ≡ some (row_of i)) (write_work_item i)
unfolding write_work_item
write_work_item-Ensures i = record {
  at = λ s p a. elim (Bool-cases (keys_hold s i)) [
    | inl b ↦
        rw (if_true _ _ b) (λ h. lookup-upsert same_id item_key eq_iff (row_of i) s.work_items)
    | inr b ↦ rw (if_false _ _ b) (λ h. cc)
  ];
}

-- the row of the item is the one that was given
update_work_item-Ensures :
    (i : WorkItem)
    → Ensures Any
        (λ saved s. (saved ≡ i) × (find_item i.work_item_id s ≡ some (row_of i)))
        (update_work_item i)
unfolding update_work_item
update_work_item-Ensures i =
    Ensures-bind {Q = λ _. Any} (load_work_item i.work_item_id) _ (record { at = λ _ _ _ _. tt })
      (λ _. Ensures-bind (write_work_item i) _ (write_work_item-Ensures i) (λ _.
        Ensures-bind (from_result (from_work_item i)) _ (Ensures-from_result (from_work_item i))
          (λ state.
            Ensures-bind {Q = λ _ s. find_item i.work_item_id s ≡ some (row_of i)}
              (upsert_run_task_state state) (λ state. give i)
              (record {
                at = λ s h _ _.
                    (upsert_run_task_state-Keeps i.work_item_id (row_of i) state).at s h.0;
              })
              (λ _. record { at = λ s h a e. (ok_eq e, h) }))))

abbrev IsDone : ℕ → WorkItem → WorkItemTransitionResult → Type 0
IsDone code i r = (r.status_code ≡ code) × (r.work_item ≡ i)

-- a result with this code and this item
record_saved-IsDone :
    (m : Moment) (c : Caller) (code : ℕ) (d : PolicyDecision) (summary : String) (i : WorkItem)
    → Ensures Any (λ r _. IsDone code i r) (record_saved m c code d summary i)
unfolding record_saved
record_saved-IsDone m c code d summary i =
    Ensures-bind {Q = λ _. Any} (from_result (from_work_item i)) _ (record { at = λ _ _ _ _. tt })
      (λ state.
        Ensures-bind {Q = λ _. Any} (upsert_run_task_state state) _ (record { at = λ _ _ _ _. tt })
          (λ _.
            Ensures-bind {Q = λ _. Any} (append_event m c i summary)
              (λ event.
                give (record { status_code = code; work_item = i; event = event; decision = d }))
              (record { at = λ _ _ _ _. tt })
              (λ event. record {
                at = λ s _ r h.
                    let e : r ≡ record {
                      status_code = code;
                      work_item = i;
                      event = event;
                      decision = d;
                    } =
                      ok_eq h in
                    (ap (λ x. x.status_code) e, ap (λ x. x.work_item) e);
              })))

-- an allowed transition that returns: the changed item, cleared if it is requeued, is the answer and
-- the row
pub record Moved (m : Moment) (current : WorkItem) (status : WorkItemStatus)
    (change : WorkItemChange) (r : WorkItemTransitionResult) (s : ServerStore) : Type 0 where
  pub code : r.status_code ≡ 200
  pub updated : WorkItem
  pub computed : WorkItems.update_work_item current status change m.now ≡ ok updated
  pub answered : r.work_item ≡ clear_if_requeued status updated
  pub written :
      find_item (clear_if_requeued status updated).work_item_id s
      ≡ some (row_of (clear_if_requeued status updated))

transition_allowed-Ensures :
    (m : Moment) (c : Caller) (i : WorkItem) (status : WorkItemStatus) (change : WorkItemChange)
    (summary : Option String) (d : PolicyDecision)
    → Ensures Any (Moved m i status change) (transition_allowed m c i status change summary d)
unfolding transition_allowed
transition_allowed-Ensures m c i status change summary d =
    Ensures-bind (from_result (WorkItems.update_work_item i status change m.now)) _
      (Ensures-from_result _)
      (λ u.
        let v = clear_if_requeued status u in
        Ensures-bind
          {Q = λ saved s.
            (saved ≡ v)
            × (find_item v.work_item_id s ≡ some (row_of v))
            × (WorkItems.update_work_item i status change m.now ≡ ok u)}
          (update_work_item v) _
          (record {
            at = λ s p saved h.
                let (e, w) = (update_work_item-Ensures v).at s tt saved h in (e, w, p.1);
          })
          (λ saved. record {
            at = λ s p r h.
                let (code, item) = (record_saved-IsDone m c 200 d _ saved).at s tt r h in
                record {
                  code = code;
                  updated = u;
                  computed = p.2;
                  answered = item ∙ p.0;
                  written =
                      (record_saved-Keeps v.work_item_id (row_of v) m c 200 d _ saved).at s p.1;
                };
          }))

-- a denied transition that returns
pub record Denied (current : WorkItem) (before : List WorkItemRow) (r : WorkItemTransitionResult)
    (s : ServerStore) : Type 0 where
  pub code : r.status_code ≡ 409
  pub answered : r.work_item ≡ current
  pub unwritten : s.work_items ≡ before

transition_denied-Ensures :
    (m : Moment) (c : Caller) (i : WorkItem) (status : WorkItemStatus) (d : PolicyDecision)
    (before : List WorkItemRow)
    → Ensures (λ s. s.work_items ≡ before) (Denied i before) (transition_denied m c i status d)
unfolding transition_denied
transition_denied-Ensures m c i status d before =
    Ensures-bind {Q = λ _ s. s.work_items ≡ before} (append_denial_event m c i status d)
      (λ event. give (record { status_code = 409; work_item = i; event = event; decision = d }))
      (Ensures-Keeps
        (append_denial_event-Keeps (λ s. s.work_items ≡ before) (λ _ _ x. x) m c i status d))
      (λ event. record {
        at = λ s w r h.
            let e : r ≡ record { status_code = 409; work_item = i; event = event; decision = d } =
              ok_eq h in
            record {
              code = ap (λ x. x.status_code) e;
              answered = ap (λ x. x.work_item) e;
              unwritten = w;
            };
      })

-- A transition that returns answers for the row that the table had under the id. If the table of
-- transitions has the edge, the answer is 200 with the item that `update_work_item` computes
-- (without client and lease if it is requeued), and that item is the row; if not, the answer is 409
-- with the item as it was, and no work item is written.
pub transition-outcome :
    (m : Moment) (c : Caller) (k : String) (status : WorkItemStatus) (change : WorkItemChange)
    (summary : Option String) (s : ServerStore) (r : WorkItemTransitionResult)
    → (transition m c k status change summary s).0 ≡ ok r
    → let s' = (transition m c k status change summary s).1 in
      (row : WorkItemRow) × (find_item k s ≡ some row)
      × let edge =
          is_in WorkItemStatus-discrete status (allowed_work_item_transitions row.payload.status) in
        ((edge ≡ true) × Moved m row.payload status change r s')
        ⊎ ((edge ≡ false) × Denied row.payload s.work_items r s')
unfolding transition
transition-outcome m c k status change summary s r = elim (load-cases k s) [
  | inr (e, v) ↦ rw v (λ h. cc)
  | inl (row, f, v) ↦
      rw v (elim (Bool-cases (transition_decision row.payload.status status).allow) [
        | inl y ↦ rw (if_true _ _ y) (λ h. (
          row,
          f,
          inl (
            sym (decision-edge row.payload.status status) ∙ y,
            (transition_allowed-Ensures m c row.payload status change summary _).at s tt r h,
          ),
        ))
        | inr n ↦ rw (if_false _ _ n) (λ h. (
          row,
          f,
          inr (
            sym (decision-edge row.payload.status status) ∙ n,
            (transition_denied-Ensures m c row.payload status _ s.work_items).at s refl r h,
          ),
        ))
      ])
]

updated-status :
    (i u : WorkItem) (status : WorkItemStatus) (change : WorkItemChange) (now : ℕ)
    → WorkItems.update_work_item i status change now ≡ ok u
    → u.status ≡ status
unfolding WorkItems.update_work_item work_item
updated-status i u status change now h = ap (λ x. x.status) (checked-ok _ _ u validation_error h)

-- A requeue that answers 200 returns an item that is requeued and has neither client nor lease, and
-- the item's row is that item, with both columns empty.
pub requeue-clears :
    (m : Moment) (c : Caller) (k : String) (summary : Option String) (s : ServerStore)
    (r : WorkItemTransitionResult)
    → (requeue m c k summary s).0 ≡ ok r
    → r.status_code ≡ 200
    → (r.work_item.status ≡ requeued)
      × (r.work_item.assigned_client_id ≡ none)
      × (r.work_item.lease_id ≡ none)
      × (find_item r.work_item.work_item_id (requeue m c k summary s).1 ≡ some (row_of r.work_item))
unfolding requeue clear_if_requeued
requeue-clears m c k summary s r h code =
    let (row, f, either) = transition-outcome m c k requeued no_change summary s r h in
    elim either [
      | inr (e, denied) ↦ absurd (omega (arith, denied.code, code))
      | inl (e, moved) ↦ (
        ap (λ x. x.status) moved.answered
            ∙ updated-status row.payload moved.updated requeued no_change m.now moved.computed,
        ap (λ x. x.assigned_client_id) moved.answered,
        ap (λ x. x.lease_id) moved.answered,
        subst
            (λ x.
              find_item x.work_item_id (transition m c k requeued no_change summary s).1
              ≡ some (row_of x))
            (sym moved.answered) moved.written,
      )
    ]
