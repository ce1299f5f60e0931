-- ===== src/Server/Store.antt =====
-- vad/server/db/store.py: the tables of clients, leases, work items, task states and events. An
-- exception of a statement rolls the statement back, and no other.
pub mod Keeps
use verified_agentic_develop.Prelude.{
  ◌||◌, String, Bool, true, false, not, ◌&&◌, List, [], ◌∷◌, ◌++◌, map, Option, none, some, is_some,
  Result, ok, raise, key_error, integrity_error, ◌==◌, keep_if, any_of, if◌then◌else◌,
}
use verified_agentic_develop.Prelude.Action.{Action, give, from_result, ◌>>=◌}
use verified_agentic_develop.ControlPlane.Events.{ControlPlaneEvent}
use verified_agentic_develop.ControlPlane.Leases.{TaskLease, task_lease}
use verified_agentic_develop.ControlPlane.WorkItems.{
  WorkItem, work_item, RunTaskState, from_work_item,
}
use verified_agentic_develop.Server.Table.{lookup, upsert}

pub data ClientTrustState : Type 0 where
  untrusted trusted quarantined : ClientTrustState

-- the fields of `ClientManifest` that the services read
pub record ClientManifest : Type 0 where
  pub client_id : String
  pub display_name : String
  pub supported_capabilities : List String
  pub trust_state : ClientTrustState

-- A row of `work_items`. The two columns are foreign keys of their own: a deleted client or lease
-- clears them, and leaves `payload_json` as it is.
pub record WorkItemRow : Type 0 where
  pub payload : WorkItem
  pub assigned_client_id : Option String
  pub lease_id : Option String

pub record ServerStore : Type 0 where
  pub client_manifests : List ClientManifest
  pub task_leases : List TaskLease
  pub work_items : List WorkItemRow
  pub run_task_states : List RunTaskState
  pub control_plane_events : List ControlPlaneEvent

abbrev pub same_id : String → String → Bool
same_id a b = a == b

abbrev pub same_pair : String × String → String × String → Bool
same_pair a b = (a.0 == b.0) && (a.1 == b.1)

abbrev pub client_key : ClientManifest → String
client_key m = m.client_id

abbrev pub lease_key : TaskLease → String
lease_key l = l.task_id

abbrev pub item_key : WorkItemRow → String
item_key r = r.payload.work_item_id

abbrev pub state_key : RunTaskState → String × String
state_key r = (r.run_id, r.task_id)

-- what a row's key is not found raises
abbrev pub found {ℓ} : {A : Type ℓ} → String → Option A → Result A
found k none = raise (key_error k)
found k (some a) = ok a

abbrev pub refers {ℓ} : {A : Type ℓ} → (String → Option A) → Option String → Bool
refers find none = true
refers find (some k) = is_some (find k)

unfoldable pub register_client_manifest : ClientManifest → Action ServerStore ClientManifest
unfolding lookup
register_client_manifest m s =
    if is_some (lookup same_id client_key m.client_id s.client_manifests)
    then (raise integrity_error, s)
    else (ok m, record s { client_manifests = s.client_manifests ++ m ∷ [] })

unfoldable pub load_client_manifest : String → Action ServerStore ClientManifest
unfolding lookup
load_client_manifest k s = (found k (lookup same_id client_key k s.client_manifests), s)

-- `ON DELETE SET NULL`
abbrev pub clear_if : Bool → Option String → Option String
clear_if true o = none
clear_if false o = o

abbrev pub names : Option String → String → Bool
names none k = false
names (some j) k = j == k

clear_keys : String → List TaskLease → WorkItemRow → WorkItemRow
clear_keys k gone r = record r {
  assigned_client_id = clear_if (names r.assigned_client_id k) r.assigned_client_id;
  lease_id = clear_if (any_of (λ l. names r.lease_id l.task_id) gone) r.lease_id;
}

-- the rows that refer to a deleted client go, or are cleared
unfoldable pub delete_client : String → ServerStore → ServerStore
unfolding clear_keys
delete_client k s =
    let gone = keep_if (λ l. l.client_id == k) s.task_leases in
    record s {
      client_manifests = keep_if (λ m. not (m.client_id == k)) s.client_manifests;
      task_leases = keep_if (λ l. not (l.client_id == k)) s.task_leases;
      work_items = map (clear_keys k gone) s.work_items;
    }

unfoldable pub unregister_client_manifest : String → Action ServerStore ClientManifest
unfolding load_client_manifest delete_client
unregister_client_manifest k = do
  manifest ← load_client_manifest k
  λ s. (ok manifest, delete_client k s)

unfoldable pub save_task_lease : TaskLease → Action ServerStore TaskLease
unfolding load_client_manifest upsert
save_task_lease l = do
  manifest ← load_client_manifest l.client_id
  λ s. (ok l, record s { task_leases = upsert same_id lease_key l s.task_leases })

-- a row is read back through the constructor
unfoldable pub load_task_lease : String → Action ServerStore TaskLease
unfolding lookup task_lease
load_task_lease k = do
  row ← λ s. (found k (lookup same_id lease_key k s.task_leases), s)
  from_result (task_lease row)

unfoldable pub upsert_run_task_state : RunTaskState → Action ServerStore RunTaskState
unfolding upsert
upsert_run_task_state r s =
    (ok r, record s { run_task_states = upsert same_pair state_key r s.run_task_states })

abbrev pub row_of : WorkItem → WorkItemRow
row_of item = record {
  payload = item;
  assigned_client_id = item.assigned_client_id;
  lease_id = item.lease_id;
}

-- the foreign keys of a row that is written
unfoldable pub keys_hold : ServerStore → WorkItem → Bool
unfolding lookup
keys_hold s item =
    refers (λ k. lookup same_id client_key k s.client_manifests) item.assigned_client_id
    && refers (λ k. lookup same_id lease_key k s.task_leases) item.lease_id

unfoldable pub insert_work_item : WorkItem → Action ServerStore (Unit {0})
unfolding keys_hold lookup
insert_work_item item s =
    if is_some (lookup same_id item_key item.work_item_id s.work_items) || not (keys_hold s item)
    then (raise integrity_error, s)
    else (ok tt, record s { work_items = s.work_items ++ row_of item ∷ [] })

unfoldable pub save_work_item : WorkItem → Action ServerStore WorkItem
save_work_item item = do
  done ← insert_work_item item
  state ← from_result (from_work_item item)
  state ← upsert_run_task_state state
  give item

unfoldable pub load_work_item : String → Action ServerStore WorkItem
unfolding lookup work_item
load_work_item k = do
  row ← λ s. (found k (lookup same_id item_key k s.work_items), s)
  from_result (work_item row.payload)

unfoldable pub write_work_item : WorkItem → Action ServerStore (Unit {0})
unfolding keys_hold upsert
write_work_item item s =
    if keys_hold s item
    then (ok tt, record s { work_items = upsert same_id item_key (row_of item) s.work_items })
    else (raise integrity_error, s)

unfoldable pub update_work_item : WorkItem → Action ServerStore WorkItem
unfolding write_work_item upsert_run_task_state from_work_item
update_work_item item = do
  old ← load_work_item item.work_item_id
  done ← write_work_item item
  state ← from_result (from_work_item item)
  state ← upsert_run_task_state state
  give item

-- an event's id is a primary key
unfoldable pub append_control_plane_event : ControlPlaneEvent → Action ServerStore ControlPlaneEvent
append_control_plane_event e s =
    if any_of (λ x. x.event_id == e.event_id) s.control_plane_events
    then (raise integrity_error, s)
    else (ok e, record s { control_plane_events = s.control_plane_events ++ e ∷ [] })
