-- ===== src/Server/WorkItems/Calls.antt =====
-- vad/server/api/work_items.py: sequences of calls.
use verified_agentic_develop.Prelude.{
  String, not, ◌||◌, List, [], ◌∷◌, Option, some, is_some, ◌≡◌, inl, inr, Bool-cases, if_true,
  if_false,
}
use verified_agentic_develop.Prelude.Action.{Keeps, Keeps-bind, Keeps-bind_result, give}
use verified_agentic_develop.ControlPlane.WorkItems.{
  WorkItem, WorkItemStatus, WorkItemChange, from_work_item,
}
use verified_agentic_develop.Server.Leases.{Moment}
use verified_agentic_develop.Server.Table.{lookup-append}
use verified_agentic_develop.Server.Store.{
  ServerStore, WorkItemRow, same_id, item_key, keys_hold, insert_work_item, save_work_item,
  upsert_run_task_state,
}
use verified_agentic_develop.Server.WorkItems.{
  Caller, create, transition, allowed_work_item_transitions,
}
use verified_agentic_develop.Server.WorkItems.Transitions.{
  find_item, Stored, record_saved-Keeps, upsert_run_task_state-Keeps, transition-Keeps,
}

module _ (k : String) (row : WorkItemRow) where
  insert_work_item-Keeps : (i : WorkItem) → Keeps (Stored k row) (insert_work_item i)
  unfolding insert_work_item
  insert_work_item-Keeps i = record {
    at = λ s h. elim (Bool-cases (is_some (find_item i.work_item_id s) || not (keys_hold s i))) [
      | inl b ↦ rw (if_true _ _ b) h
      | inr b ↦ rw (if_false _ _ b) (lookup-append same_id item_key k s.work_items _ row h)
    ];
  }

  save_work_item-Keeps : (i : WorkItem) → Keeps (Stored k row) (save_work_item i)
  unfolding save_work_item
  save_work_item-Keeps i = Keeps-bind (insert_work_item i) _ (insert_work_item-Keeps i) (λ _.
      Keeps-bind_result (from_work_item i) _ (λ state _.
        Keeps-bind (upsert_run_task_state state) (λ state. give i)
          (upsert_run_task_state-Keeps k row state) (λ _. record { at = λ _ x. x })))

  create-Keeps :
      (m : Moment) (c : Caller) (i : WorkItem) (summary : Option String)
      → Keeps (Stored k row) (create m c i summary)
  unfolding create
  create-Keeps m c i summary =
      Keeps-bind (save_work_item i) _ (save_work_item-Keeps i)
        (λ saved. record_saved-Keeps k row m c 201 _ _ saved)

-- the calls of `WorkItemService`: its other methods are transitions
pub data WorkItemCall : Type 0 where
  create_call : WorkItem → Option String → WorkItemCall
  transition_call : String → WorkItemStatus → WorkItemChange → Option String → WorkItemCall

-- the store after a call
unfoldable pub perform : Moment × Caller × WorkItemCall → ServerStore → ServerStore
perform (m, c, create_call i summary) s = (create m c i summary s).1
perform (m, c, transition_call k status change summary) s =
    (transition m c k status change summary s).1

unfoldable pub perform_all : List (Moment × Caller × WorkItemCall) → ServerStore → ServerStore
unfolding perform
perform_all [] s = s
perform_all (call ∷ calls) s = perform_all calls (perform call s)

perform-Stored :
    (k : String) (row : WorkItemRow) (call : Moment × Caller × WorkItemCall) (s : ServerStore)
    → allowed_work_item_transitions row.payload.status ≡ []
    → find_item k s ≡ some row
    → find_item k (perform call s) ≡ some row
unfolding perform
perform-Stored k row (m, c, create_call i summary) s final h =
    (create-Keeps k row m c i summary).at s h
perform-Stored k row (m, c, transition_call j status change summary) s final h =
    (transition-Keeps k row m c j status change summary final).at s h

-- A work item whose status has no way on in the table of transitions (it is completed or cancelled)
-- is the same row after any sequence of creations and transitions of any items, whether the calls
-- succeed or raise.
pub perform_all-keeps_final :
    (k : String) (row : WorkItemRow) (calls : List (Moment × Caller × WorkItemCall))
    (s : ServerStore)
    → allowed_work_item_transitions row.payload.status ≡ []
    → find_item k s ≡ some row
    → find_item k (perform_all calls s) ≡ some row
unfolding perform_all
perform_all-keeps_final k row [] s final h = h
perform_all-keeps_final k row (call ∷ calls) s final h =
    perform_all-keeps_final k row calls (perform call s) final (perform-Stored k row call s final h)
