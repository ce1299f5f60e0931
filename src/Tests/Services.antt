-- ===== src/Tests/Services.antt =====
-- Leases and work items of the server at concrete inputs.
use verified_agentic_develop.Prelude.{
  text_length, has_separator, has_control, joined, String, true, false, List, [], ◌∷◌, none, some,
  ok, ◌≡◌, refl, ◌↔◌, ◌⊎◌, ◌==◌, is_in,
}
use verified_agentic_develop.ControlPlane.Events
use verified_agentic_develop.ControlPlane.Leases.{TaskLease, active}
use verified_agentic_develop.ControlPlane.WorkItems.{
  WorkItem, WorkItemStatus, WorkItemStatus-discrete, running, cancelled, assigned, requeued,
}
use verified_agentic_develop.ControlPlane.WorkItems
use verified_agentic_develop.Server.Sequence.{IsNumbered}
use verified_agentic_develop.Server.Sequence.Calls.{
  ServiceCall, transition_call as serve_transition, expire_call, serve_all, serve_all-IsNumbered,
}
use verified_agentic_develop.Server.Store.{
  ServerStore, ClientManifest, trusted, WorkItemRow, row_of, load_work_item, update_work_item,
}
use verified_agentic_develop.Server.Store.Keeps.{find_lease}
use verified_agentic_develop.Server.Leases.{Moment, approval_decision}
use verified_agentic_develop.Server.Leases.Holder.{
  LeaseCall, acquire_call, release_call, expire_call, perform_all, perform_all-keeps_lease,
}
use verified_agentic_develop.Server.Leases.Approval.{approval_decision-allow_iff}
use verified_agentic_develop.Server.WorkItems.{
  transition_decision, transition_allowed, clear_if_requeued, record_saved, append_event,
  append_item_event, event_status, Caller, transition, requeue, WorkItemTransitionResult, no_change,
  allowed_work_item_transitions,
}
use verified_agentic_develop.Server.WorkItems.Transitions.{find_item}
use verified_agentic_develop.Server.WorkItems.Outcome.{
  Moved, Denied, transition-outcome, requeue-clears,
}
use verified_agentic_develop.Server.WorkItems.Calls.{
  WorkItemCall, create_call, transition_call, perform_all-keeps_final,
}
use verified_agentic_develop.Server.WorkItems.Calls

abbrev at_noon : Moment
at_noon = record { now = 5; event_id = "event-1" }

abbrev later : Moment
later = record { now = 9; event_id = "event-2" }

abbrev client : String → ClientManifest
client k = record {
  client_id = k;
  display_name = k;
  supported_capabilities = "build" ∷ [];
  trust_state = trusted;
}

abbrev held : TaskLease
held = record {
  task_id = "T-1";
  run_id = "R-1";
  client_id = "ada";
  role = "builder";
  actor = "ada-agent";
  acquired_at = 1;
  expires_at = 300;
  status = active;
  release_reason = none;
}

abbrev item : WorkItem
item = record {
  work_item_id = "W-1";
  run_id = "R-1";
  title = "build";
  description = "";
  role = "builder";
  requested_capability = none;
  priority = 100;
  status = assigned;
  created_at = 1;
  updated_at = 2;
  assigned_client_id = some "ada";
  lease_id = some "T-1";
  evidence_digest = none;
  blocked_reason = none;
  governance = none;
}

abbrev store_with : WorkItem → ServerStore
store_with i = record {
  client_manifests = client "ada" ∷ client "bob" ∷ [];
  task_leases = held ∷ [];
  work_items = row_of i ∷ [];
  run_task_states = [];
  control_plane_events = [];
}

abbrev bobs_calls : List (Moment × LeaseCall)
bobs_calls =
    (
      at_noon,
      acquire_call (record {
        task_id = "T-1";
        run_id = "R-1";
        client_id = "bob";
        role = "builder";
        actor = "bob-agent";
        ttl_seconds = 300;
      }),
    )
    ∷ (later, release_call "T-1" (record { client_id = "bob"; reason = none }))
    ∷ (later, expire_call "T-2")
    ∷ []

perform_all-keeps_lease_example :
    find_lease "T-1" (perform_all bobs_calls (store_with item)) ≡ some held
perform_all-keeps_lease_example =
    perform_all-keeps_lease "T-1" held bobs_calls (store_with item) refl (tt, (refl, (refl, tt)))
      (unfold verified_agentic_develop.Server.Table.lookup in refl)

approval_decision-allow_iff_example :
    ((approval_decision held
        (record { actor = "eve"; role = "release_guardian"; action = "approve_release" })).allow
      ≡ true)
    ↔ ((("approve_release" == "approve_release") ≡ true)
        × (("release_guardian" == "release_guardian") ≡ true)
        × (("eve" == "ada-agent") ≡ false)
        × (("eve" == "ada") ≡ false))
approval_decision-allow_iff_example =
    approval_decision-allow_iff held
      (record { actor = "eve"; role = "release_guardian"; action = "approve_release" })

abbrev operator : Caller
operator = record { actor = "op"; role = "operator"; client_id = "control-plane" }

abbrev finished : WorkItem
finished = record item { status = cancelled }

abbrev calls : List (Moment × Caller × WorkItemCall)
calls =
    (at_noon, operator, transition_call "W-1" requeued no_change none)
    ∷ (later, operator, create_call (record item { work_item_id = "W-2" }) none)
    ∷ []

perform_all-keeps_final_example :
    find_item "W-1" (Calls.perform_all calls (store_with finished)) ≡ some (row_of finished)
perform_all-keeps_final_example =
    perform_all-keeps_final "W-1" (row_of finished) calls (store_with finished)
      (unfold allowed_work_item_transitions in refl)
      (unfold verified_agentic_develop.Server.Table.lookup in refl)

abbrev requeue_result : WorkItemTransitionResult
requeue_result = record {
  status_code = 200;
  work_item = record item {
    status = requeued;
    assigned_client_id = none;
    lease_id = none;
    updated_at = 5;
  };
  event = record {
    event_id = "event-1";
    sequence = 1;
    created_at = 5;
    client_id = "control-plane";
    run_id = some "R-1";
    task_id = some "W-1";
    kind = Events.work_item;
    status = Events.active;
    actor = "op";
    role = "operator";
    evidence_digest = none;
    summary = "Work item W-1 transitioned to requeued.";
  };
  decision = record {
    allow = true;
    reasons = "work item transition assigned->requeued allowed" ∷ [];
    denials = [];
    requires_human = false;
  };
}

requeue_runs : (requeue at_noon operator "W-1" none (store_with item)).0 ≡ ok requeue_result
unfolding requeue transition load_work_item text_length has_separator has_control
    transition_decision transition_allowed WorkItems.update_work_item update_work_item
    clear_if_requeued record_saved append_event append_item_event joined event_status
requeue_runs = refl

abbrev after_requeue : ServerStore
after_requeue = (requeue at_noon operator "W-1" none (store_with item)).1

requeue-clears_example :
    (requeue_result.work_item.status ≡ requeued)
    × (requeue_result.work_item.assigned_client_id ≡ none)
    × (requeue_result.work_item.lease_id ≡ none)
    × (find_item requeue_result.work_item.work_item_id after_requeue
        ≡ some (row_of requeue_result.work_item))
requeue-clears_example =
    requeue-clears at_noon operator "W-1" none (store_with item) requeue_result requeue_runs refl

abbrev after_transition : ServerStore
after_transition = (transition at_noon operator "W-1" requeued no_change none (store_with item)).1

transition-outcome_example :
    (row : WorkItemRow) × (find_item "W-1" (store_with item) ≡ some row)
    × let edge =
        is_in WorkItemStatus-discrete requeued (allowed_work_item_transitions row.payload.status) in
      ((edge ≡ true) × Moved at_noon row.payload requeued no_change requeue_result after_transition)
      ⊎ ((edge ≡ false)
          × Denied row.payload (store_with item).work_items requeue_result after_transition)
transition-outcome_example =
    transition-outcome at_noon operator "W-1" requeued no_change none (store_with item)
      requeue_result (unfold requeue in requeue_runs)

abbrev service_calls : List (Moment × ServiceCall)
service_calls =
    (at_noon, serve_transition operator "W-1" requeued no_change none)
    ∷ (later, expire_call "T-1")
    ∷ []

serve_all-IsNumbered_example : IsNumbered (serve_all service_calls (store_with item))
unfolding IsNumbered
serve_all-IsNumbered_example = serve_all-IsNumbered service_calls (store_with item) tt
