-- ===== src/Server/WorkItems/Transitions.antt =====
-- vad/server/api/work_items.py: which transitions happen, and what they write.
use verified_agentic_develop.Prelude.{
  checked-ok, checked-cases, Option-cases, key_error, validation_error, ℕ, String, true, false, [],
  Option, none, some, ok, raise, Error, ◌≡◌, refl, sym, ap, ◌∙◌, ◌⊎◌, inl, inr, eq_iff, Bool-cases,
  if_true, if_false, is_in,
}
use verified_agentic_develop.Prelude.Action.{Keeps, Keeps-bind, Keeps-bind_result, give}
use verified_agentic_develop.ControlPlane.Events
use verified_agentic_develop.ControlPlane.Events.{ControlPlaneEventStatus, ControlPlaneEventKind}
use verified_agentic_develop.ControlPlane.WorkItems.{
  requeued, RunTaskState, from_work_item, WorkItem, work_item, WorkItemStatus,
  WorkItemStatus-discrete, WorkItemChange, completed, cancelled,
}
use verified_agentic_develop.ControlPlane.WorkItems
use verified_agentic_develop.Policy.{PolicyDecision}
use verified_agentic_develop.Server.Leases.{Moment}
use verified_agentic_develop.Server.Table.{lookup, lookup-key, lookup-upsert_other}
use verified_agentic_develop.Server.Store.{
  write_work_item, keys_hold, row_of, upsert_run_task_state, ServerStore, WorkItemRow, same_id,
  item_key, load_work_item, update_work_item,
}
use verified_agentic_develop.Server.Store.Keeps.{append-Keeps, IgnoresEvents}
use verified_agentic_develop.Server.WorkItems.{
  append_event, event_status, Caller, append_item_event, append_denial_event, record_saved,
  transition, transition_allowed, transition_denied, transition_decision,
  allowed_work_item_transitions, clear_if_requeued,
}

abbrev pub find_item : String → ServerStore → Option WorkItemRow
find_item k s = lookup same_id item_key k s.work_items

module _ (P : ServerStore → Type 0) (ig : IgnoresEvents P) where
  append_item_event-Keeps :
      (m : Moment) (c : Caller) (i : WorkItem) (kind : ControlPlaneEventKind)
      (status : ControlPlaneEventStatus) (digest : Option String) (summary : String)
      → Keeps P (append_item_event m c i kind status digest summary)
  unfolding append_item_event
  append_item_event-Keeps m c i kind status digest summary = record {
    at = λ s h. (Keeps-bind_result _ _ (λ e _. append-Keeps P e ig)).at s h;
  }

  pub append_denial_event-Keeps :
      (m : Moment) (c : Caller) (i : WorkItem) (status : WorkItemStatus) (d : PolicyDecision)
      → Keeps P (append_denial_event m c i status d)
  unfolding append_denial_event
  append_denial_event-Keeps m c i status d =
      append_item_event-Keeps m c i Events.policy_denied Events.blocked none _

  pub transition_denied-Keeps :
      (m : Moment) (c : Caller) (i : WorkItem) (status : WorkItemStatus) (d : PolicyDecision)
      → Keeps P (transition_denied m c i status d)
  unfolding transition_denied
  transition_denied-Keeps m c i status d =
      Keeps-bind (append_denial_event m c i status d)
        (λ event. give (record { status_code = 409; work_item = i; event = event; decision = d }))
        (append_denial_event-Keeps m c i status d) (λ e. record { at = λ _ x. x })

work_item-ok : (i r : WorkItem) → work_item i ≡ ok r → r ≡ i
unfolding work_item
work_item-ok i r h = checked-ok _ i r validation_error h

work_item-cases : (i : WorkItem) → (work_item i ≡ ok i) ⊎ (work_item i ≡ raise validation_error)
unfolding work_item
work_item-cases i = checked-cases _ i validation_error

-- a load reads the row, or raises
pub load-cases :
    (k : String) (s : ServerStore)
    → ((row : WorkItemRow) × (find_item k s ≡ some row)
        × (load_work_item k s ≡ (ok row.payload, s)))
      ⊎ ((e : Error) × (load_work_item k s ≡ (raise e, s)))
unfolding load_work_item
load-cases k s = elim (Option-cases (find_item k s)) [
  | inl n ↦ inr (key_error k, rw n refl)
  | inr (row, e) ↦ elim (work_item-cases row.payload) [
    | inl v ↦ inl (row, e, rw (e, v) refl)
    | inr v ↦ inr (validation_error, rw (e, v) refl)
  ]
]

clear_if_requeued-id :
    (status : WorkItemStatus) (i : WorkItem)
    → (clear_if_requeued status i).work_item_id ≡ i.work_item_id
unfolding clear_if_requeued
clear_if_requeued-id requeued i = refl
clear_if_requeued-id _ i = refl

pub updated-id :
    (i u : WorkItem) (status : WorkItemStatus) (change : WorkItemChange) (now : ℕ)
    → WorkItems.update_work_item i status change now ≡ ok u
    → u.work_item_id ≡ i.work_item_id
unfolding WorkItems.update_work_item work_item
updated-id i u status change now h = ap (λ x. x.work_item_id) (checked-ok _ _ u validation_error h)

-- a transition is allowed along the edges of the table
pub decision-edge :
    (a b : WorkItemStatus)
    → (transition_decision a b).allow
      ≡ is_in WorkItemStatus-discrete b (allowed_work_item_transitions a)
unfolding transition_decision
decision-edge a b =
    elim (Bool-cases (is_in WorkItemStatus-discrete b (allowed_work_item_transitions a))) [
      | inl y ↦ rw (if_true _ _ y) (sym y)
      | inr n ↦ rw (if_false _ _ n) (sym n)
    ]

no_way :
    (a b : WorkItemStatus)
    → allowed_work_item_transitions a ≡ []
    → (transition_decision a b).allow ≡ false
no_way a b h = decision-edge a b ∙ ap (is_in WorkItemStatus-discrete b) h

module _ (k : String) (row : WorkItemRow) where
  abbrev pub Stored : ServerStore → Type 0
  Stored s = find_item k s ≡ some row

  pub upsert_run_task_state-Keeps : (r : RunTaskState) → Keeps Stored (upsert_run_task_state r)
  unfolding upsert_run_task_state
  upsert_run_task_state-Keeps r = record { at = λ _ x. x }

  pub record_saved-Keeps :
      (m : Moment) (c : Caller) (code : ℕ) (d : PolicyDecision) (summary : String) (i : WorkItem)
      → Keeps Stored (record_saved m c code d summary i)
  unfolding record_saved append_event
  record_saved-Keeps m c code d summary i = Keeps-bind_result (from_work_item i) _ (λ state _.
      Keeps-bind (upsert_run_task_state state) _ (upsert_run_task_state-Keeps state) (λ _.
        Keeps-bind (append_event m c i summary) _
          (append_item_event-Keeps Stored (λ _ _ x. x) m c i Events.work_item
            (event_status i.status) i.evidence_digest summary)
          (λ e. record { at = λ _ x. x })))

  write_work_item-Keeps :
      (i : WorkItem) → same_id i.work_item_id k ≡ false → Keeps Stored (write_work_item i)
  unfolding write_work_item
  write_work_item-Keeps i h = record {
    at = λ s x. elim (Bool-cases (keys_hold s i)) [
      | inl b ↦
          rw (if_true _ _ b)
            (lookup-upsert_other same_id item_key eq_iff (row_of i) k s.work_items h ∙ x)
      | inr b ↦ rw (if_false _ _ b) x
    ];
  }

  pub load_work_item-Keeps : (j : String) → Keeps Stored (load_work_item j)
  load_work_item-Keeps j = record {
    at = λ s h. elim (load-cases j s) [ inl (r, f, v) ↦ rw v h | inr (e, v) ↦ rw v h ];
  }

  update_work_item-Keeps :
      (i : WorkItem) → same_id i.work_item_id k ≡ false → Keeps Stored (update_work_item i)
  unfolding update_work_item
  update_work_item-Keeps i h =
      Keeps-bind (load_work_item i.work_item_id) _ (load_work_item-Keeps i.work_item_id) (λ _.
        Keeps-bind (write_work_item i) _ (write_work_item-Keeps i h) (λ _.
          Keeps-bind_result (from_work_item i) _ (λ state _.
            Keeps-bind (upsert_run_task_state state) (λ state. give i)
              (upsert_run_task_state-Keeps state) (λ _. record { at = λ _ x. x }))))

  transition_allowed-Keeps :
      (m : Moment) (c : Caller) (i : WorkItem) (status : WorkItemStatus) (change : WorkItemChange)
      (summary : Option String) (d : PolicyDecision)
      → same_id i.work_item_id k ≡ false
      → Keeps Stored (transition_allowed m c i status change summary d)
  unfolding transition_allowed
  transition_allowed-Keeps m c i status change summary d h =
      Keeps-bind_result (WorkItems.update_work_item i status change m.now) _ (λ u e.
        Keeps-bind (update_work_item (clear_if_requeued status u)) _
          (update_work_item-Keeps (clear_if_requeued status u)
            (rw (clear_if_requeued-id status u ∙ updated-id i u status change m.now e) h))
          (λ saved. record_saved-Keeps m c 200 d _ saved))

  -- an item that has no way on stays as it is
  pub transition-Keeps :
      (m : Moment) (c : Caller) (j : String) (status : WorkItemStatus) (change : WorkItemChange)
      (summary : Option String)
      → allowed_work_item_transitions row.payload.status ≡ []
      → Keeps Stored (transition m c j status change summary)
  unfolding transition
  transition-Keeps m c j status change summary final = record {
    at = λ s h. elim (load-cases j s) [
      | inr (e, v) ↦ rw v h
      | inl (r, f, v) ↦
          rw v (elim (Bool-cases (transition_decision r.payload.status status).allow) [
            | inr n ↦
                rw (if_false _ _ n)
                  ((transition_denied-Keeps Stored (λ _ _ x. x) m c r.payload status _).at s h)
            | inl y ↦ elim (Bool-cases (same_id r.payload.work_item_id k)) [
              | inr other ↦
                  rw (if_true _ _ y)
                    ((transition_allowed-Keeps m c r.payload status change summary _ other).at s h)
              | inl same ↦
                  let e : r.payload.work_item_id ≡ k = (eq_iff r.payload.work_item_id k).0 same in
                  let e' = lookup-key same_id item_key eq_iff j s.work_items r f in
                  let f' : find_item k s ≡ some r = ap (λ x. find_item x s) (sym e ∙ e') ∙ f in
                  let g : some r ≡ some row = sym f' ∙ h in
                  let r_eq : r ≡ row = cc in
                  let n = no_way row.payload.status status final in
                  let y' : (transition_decision row.payload.status status).allow ≡ true =
                    ap (λ (x : WorkItemRow). (transition_decision x.payload.status status).allow)
                      (sym r_eq)
                    ∙ y in
                  cc
            ]
          ])
    ];
  }
