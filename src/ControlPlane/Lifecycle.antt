-- ===== src/ControlPlane/Lifecycle.antt =====
-- vad/control_plane/lifecycle.py: the states of the control plane and their events. The id and the time of
-- an event are arguments.
pub mod Trace
use verified_agentic_develop.Prelude.{
  String, Bool, true, false, not, List, [], ◌∷◌, ◌++◌, Option, none, some, Result, ok, raise,
  value_error, validation_error, is_in, joined, if◌then◌else◌, ◌&&◌, ltb, length,
}
use verified_agentic_develop.Prelude.Action.{Action, give, ◌>>=◌}
use verified_agentic_develop.Prelude.Lines.{codes, strip}

pub data ControlPlaneState : Type 0 where
  starting ready draining stopped failed : ControlPlaneState

unfoldable pub ControlPlaneState-discrete : Discrete ControlPlaneState
ControlPlaneState-discrete = hlevel

unfoldable pub state_value : ControlPlaneState → String
state_value starting = "starting"
state_value ready = "ready"
state_value draining = "draining"
state_value stopped = "stopped"
state_value failed = "failed"

unfoldable pub allowed_transitions : ControlPlaneState → List ControlPlaneState
allowed_transitions starting = ready ∷ failed ∷ stopped ∷ []
allowed_transitions ready = draining ∷ failed ∷ []
allowed_transitions draining = stopped ∷ failed ∷ []
allowed_transitions stopped = []
allowed_transitions failed = []

pub record ControlPlaneLifecycleEvent : Type 0 where
  pub event_id : String
  pub from_state : Option ControlPlaneState
  pub to_state : ControlPlaneState
  pub reason : String
  pub actor : String
  pub created_at : String

-- `value.strip()` is not empty
unfoldable pub has_text : String → Bool
has_text value = ltb 0 (length (strip (codes value)))

unfoldable pub lifecycle_event : ControlPlaneLifecycleEvent → Result ControlPlaneLifecycleEvent
lifecycle_event e = if has_text e.reason && has_text e.actor then ok e else raise validation_error

pub record ControlPlaneLifecycle : Type 0 where
  pub state : ControlPlaneState
  pub events : List ControlPlaneLifecycleEvent

-- the id and the time of an event
pub record Stamp : Type 0 where
  pub event_id : String
  pub created_at : String

unfoldable pub event_of :
    Stamp
    → Option ControlPlaneState
    → ControlPlaneState
    → String
    → String
    → ControlPlaneLifecycleEvent
event_of stamp from_state to_state reason actor = record {
  event_id = stamp.event_id;
  from_state = from_state;
  to_state = to_state;
  reason = reason;
  actor = actor;
  created_at = stamp.created_at;
}

unfoldable pub first_event : Result ControlPlaneLifecycleEvent → Result ControlPlaneLifecycle
first_event (raise problem) = raise problem
first_event (ok event) = ok (record { state = starting; events = event ∷ [] })

-- `ControlPlaneLifecycle.start`
unfoldable pub start_lifecycle : Stamp → String → Result ControlPlaneLifecycle
unfolding lifecycle_event event_of first_event
start_lifecycle stamp reason =
    first_event (lifecycle_event (event_of stamp none starting reason "control-plane"))

-- `self.state = to_state; self.events.append(event)`
unfoldable pub enter_state :
    ControlPlaneState
    → Result ControlPlaneLifecycleEvent
    → Action ControlPlaneLifecycle ControlPlaneLifecycleEvent
enter_state to_state (raise problem) l = (raise problem, l)
enter_state to_state (ok event) l =
    (ok event, record { state = to_state; events = l.events ++ event ∷ [] })

unfoldable pub transition :
    Stamp
    → ControlPlaneState
    → String
    → String
    → Action ControlPlaneLifecycle ControlPlaneLifecycleEvent
unfolding ControlPlaneState-discrete allowed_transitions enter_state lifecycle_event event_of
transition stamp to_state reason actor l =
    if is_in ControlPlaneState-discrete to_state (allowed_transitions l.state)
    then enter_state to_state
        (lifecycle_event (event_of stamp (some l.state) to_state reason actor)) l
    else (
      raise (
          value_error (
            joined (
              "invalid control-plane transition: "
              ∷ state_value l.state
              ∷ " -> "
              ∷ state_value to_state
              ∷ []))),
      l,
    )

-- the four methods that call `transition`, with the arguments that they take
pub data LifecycleCall : Type 0 where
  mark_ready : String → LifecycleCall
  request_shutdown : String → String → LifecycleCall
  stop : String → LifecycleCall
  fail : String → String → LifecycleCall

unfoldable pub perform :
    Stamp → LifecycleCall → Action ControlPlaneLifecycle ControlPlaneLifecycleEvent
unfolding transition
perform stamp (mark_ready reason) = transition stamp ready reason "control-plane"
perform stamp (request_shutdown reason actor) = transition stamp draining reason actor
perform stamp (stop reason) = transition stamp stopped reason "control-plane"
perform stamp (fail reason actor) = transition stamp failed reason actor

-- calls one after another, whether they raise or not
unfoldable pub perform_all :
    List (Stamp × LifecycleCall) → ControlPlaneLifecycle → ControlPlaneLifecycle
unfolding perform
perform_all [] l = l
perform_all ((stamp, call) ∷ calls) l = perform_all calls (perform stamp call l).1
