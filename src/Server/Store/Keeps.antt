-- ===== src/Server/Store/Keeps.antt =====
-- What the writes of vad/server/db/store.py leave alone.
use verified_agentic_develop.Prelude.{
  validation_error, key_error, String, List, Option, some, ok, raise, Error, ◌≡◌, refl, ◌⊎◌, inl,
  inr, ◌==◌, Bool-cases, Option-cases, if_true, if_false, arith, any_of,
}
use verified_agentic_develop.Prelude.Action.{Keeps}
use verified_agentic_develop.ControlPlane.Events.{ControlPlaneEvent}
use verified_agentic_develop.ControlPlane.Leases.{TaskLease, task_lease}
use verified_agentic_develop.Server.Table.{lookup}
use verified_agentic_develop.Server.Store.{
  ServerStore, same_id, lease_key, load_task_lease, append_control_plane_event,
}

abbrev pub find_lease : String → ServerStore → Option TaskLease
find_lease t s = lookup same_id lease_key t s.task_leases

-- the predicate does not read the events
abbrev pub IgnoresEvents : (ServerStore → Type 0) → Type 0
IgnoresEvents P =
    (s : ServerStore) (events : List ControlPlaneEvent)
    → P s
    → P (record s { control_plane_events = events })

pub append-Keeps :
    (P : ServerStore → Type 0) (e : ControlPlaneEvent)
    → IgnoresEvents P
    → Keeps P (append_control_plane_event e)
unfolding append_control_plane_event
append-Keeps P e ig = record {
  at = λ s h. elim (Bool-cases (any_of (λ x. x.event_id == e.event_id) s.control_plane_events)) [
    | inl b ↦ rw (if_true _ _ b) h
    | inr b ↦ rw (if_false _ _ b) (ig s _ h)
  ];
}

pub task_lease-ok : (l r : TaskLease) → task_lease l ≡ ok r → r ≡ l
unfolding task_lease
task_lease-ok l r h = ground arith

task_lease-cases : (l : TaskLease) → (task_lease l ≡ ok l) ⊎ (task_lease l ≡ raise validation_error)
unfolding task_lease
task_lease-cases l = ground arith

-- the load of a row that is there
pub load_found :
    (k : String) (s : ServerStore) (row : TaskLease)
    → find_lease k s ≡ some row
    → (load_task_lease k s ≡ (ok row, s)) ⊎ (load_task_lease k s ≡ (raise validation_error, s))
unfolding load_task_lease
load_found k s row e = elim (task_lease-cases row) [
  | inl v ↦ inl (rw (e, v) refl)
  | inr v ↦ inr (rw (e, v) refl)
]

-- a load reads the row, or raises
pub load-cases :
    (k : String) (s : ServerStore)
    → ((row : TaskLease) × (find_lease k s ≡ some row) × (load_task_lease k s ≡ (ok row, s)))
      ⊎ ((e : Error) × (load_task_lease k s ≡ (raise e, s)))
load-cases k s = elim (Option-cases (find_lease k s)) [
  | inl n ↦ inr (key_error k, unfold load_task_lease in rw n refl)
  | inr (row, e) ↦ elim (load_found k s row e) [
    | inl v ↦ inl (row, e, v)
    | inr v ↦ inr (validation_error, v)
  ]
]
