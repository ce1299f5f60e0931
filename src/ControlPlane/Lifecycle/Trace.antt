-- ===== src/ControlPlane/Lifecycle/Trace.antt =====
-- vad/control_plane/lifecycle.py: the events are the path that the state took.
use verified_agentic_develop.Prelude.{
  clash, subst, checked-ok, validation_error, ok_eq, ℕ, ◌+◌, ◌≤◌, suc, true, List, [], ◌∷◌, ◌++◌,
  Option, none, some, Result, ok, raise, ◌≡◌, refl, is_in, length, length-append, Bool-cases,
  if_true, if_false, inl, inr, arith, String, sym, ◌∙◌,
}
use verified_agentic_develop.ControlPlane.Lifecycle.{
  ControlPlaneState, starting, ready, draining, stopped, failed, ControlPlaneState-discrete,
  allowed_transitions, ControlPlaneLifecycleEvent, lifecycle_event, ControlPlaneLifecycle, Stamp,
  event_of, first_event, start_lifecycle, enter_state, transition, LifecycleCall, mark_ready,
  request_shutdown, stop, fail, perform, perform_all,
}

-- a state that may follow another, or be the first
abbrev pub MayFollow : Option ControlPlaneState → ControlPlaneState → Type 0
MayFollow none next = next ≡ starting
MayFollow (some state) next =
    is_in ControlPlaneState-discrete next (allowed_transitions state) ≡ true

-- the events lead from one state to another, each along the table
abbrev pub IsTrace :
    Option ControlPlaneState → List ControlPlaneLifecycleEvent → ControlPlaneState → Type 0
IsTrace from [] last = from ≡ some last
IsTrace from (e ∷ es) last =
    (e.from_state ≡ from) × MayFollow from e.to_state × IsTrace (some e.to_state) es last

-- how many transitions may still follow
pub steps_left : ControlPlaneState → ℕ
steps_left starting = 3
steps_left ready = 2
steps_left draining = 1
steps_left _ = 0

pub record IsRecorded (l : ControlPlaneLifecycle) : Type 0 where
  pub trace : IsTrace none l.events l.state
  pub short : length l.events + steps_left l.state ≤ 4

IsTrace-append :
    (from : Option ControlPlaneState) (es : List ControlPlaneLifecycleEvent)
    (last : ControlPlaneState) (e : ControlPlaneLifecycleEvent)
    → IsTrace from es last
    → e.from_state ≡ some last
    → MayFollow (some last) e.to_state
    → IsTrace from (es ++ e ∷ []) e.to_state
IsTrace-append from [] last e at start follows =
    (start ∙ sym at, subst (λ k. MayFollow k e.to_state) (sym at) follows, refl)
IsTrace-append from (x ∷ es) last e (start, follows, rest) s f =
    (start, follows, IsTrace-append (some x.to_state) es last e rest s f)

lowers : (a b : ControlPlaneState) → MayFollow (some a) b → suc (steps_left b) ≤ steps_left a
unfolding steps_left allowed_transitions ControlPlaneState-discrete
lowers starting ready h = omega arith
lowers starting stopped h = omega arith
lowers starting failed h = omega arith
lowers ready draining h = omega arith
lowers ready failed h = omega arith
lowers draining stopped h = omega arith
lowers draining failed h = omega arith
lowers _ _ h = absurd (clash h refl)

entered-IsRecorded :
    (l : ControlPlaneLifecycle) (to_state : ControlPlaneState) (stamp : Stamp)
    (reason actor : String) (made : Result ControlPlaneLifecycleEvent)
    → lifecycle_event (event_of stamp (some l.state) to_state reason actor) ≡ made
    → MayFollow (some l.state) to_state
    → IsRecorded l
    → IsRecorded (enter_state to_state made l).1
unfolding enter_state event_of lifecycle_event
entered-IsRecorded l to_state stamp reason actor (raise problem) e follows h = h
entered-IsRecorded l to_state stamp reason actor (ok event) e follows h =
    let same : event ≡ event_of stamp (some l.state) to_state reason actor =
      checked-ok _ _ event validation_error e in
    rw same (record {
      trace = IsTrace-append none l.events l.state _ h.trace refl follows;
      short = omega (
        arith,
        length-append l.events (event_of stamp (some l.state) to_state reason actor ∷ []),
        lowers l.state to_state follows,
        h.short,
      );
    })

transition-IsRecorded :
    (stamp : Stamp) (to_state : ControlPlaneState) (reason actor : String)
    (l : ControlPlaneLifecycle)
    → IsRecorded l
    → IsRecorded (transition stamp to_state reason actor l).1
unfolding transition
transition-IsRecorded stamp to_state reason actor l h =
    elim (Bool-cases (is_in ControlPlaneState-discrete to_state (allowed_transitions l.state))) [
      | inl e ↦
          rw
            (if_true {b = is_in ControlPlaneState-discrete to_state (allowed_transitions l.state)} _
              _ e)
            (entered-IsRecorded l to_state stamp reason actor _ refl e h)
      | inr e ↦
          rw
            (if_false {b = is_in ControlPlaneState-discrete to_state (allowed_transitions l.state)}
              _ _ e)
            h
    ]

perform-IsRecorded :
    (stamp : Stamp) (call : LifecycleCall) (l : ControlPlaneLifecycle)
    → IsRecorded l
    → IsRecorded (perform stamp call l).1
unfolding perform
perform-IsRecorded stamp (mark_ready reason) l = transition-IsRecorded stamp ready reason _ l
perform-IsRecorded stamp (request_shutdown reason actor) l =
    transition-IsRecorded stamp draining reason actor l
perform-IsRecorded stamp (stop reason) l = transition-IsRecorded stamp stopped reason _ l
perform-IsRecorded stamp (fail reason actor) l = transition-IsRecorded stamp failed reason actor l

calls-IsRecorded :
    (calls : List (Stamp × LifecycleCall)) (l : ControlPlaneLifecycle)
    → IsRecorded l
    → IsRecorded (perform_all calls l)
unfolding perform_all
calls-IsRecorded [] l h = h
calls-IsRecorded ((stamp, call) ∷ calls) l h =
    calls-IsRecorded calls (perform stamp call l).1 (perform-IsRecorded stamp call l h)

first-IsRecorded :
    (stamp : Stamp) (reason : String) (l : ControlPlaneLifecycle)
    (made : Result ControlPlaneLifecycleEvent)
    → lifecycle_event (event_of stamp none starting reason "control-plane") ≡ made
    → first_event made ≡ ok l
    → IsRecorded l
unfolding first_event lifecycle_event event_of steps_left
first-IsRecorded stamp reason l (raise problem) e h = cc
first-IsRecorded stamp reason l (ok event) e h =
    let same : event ≡ event_of stamp none starting reason "control-plane" =
      checked-ok _ _ event validation_error e in
    rw (ok_eq h, same) (record { trace = (refl, refl, refl); short = omega arith })

started-IsRecorded :
    (stamp : Stamp) (reason : String) (l : ControlPlaneLifecycle)
    → start_lifecycle stamp reason ≡ ok l
    → IsRecorded l
unfolding start_lifecycle
started-IsRecorded stamp reason l h = first-IsRecorded stamp reason l _ refl h

-- After a start that returns and any calls, whether they raise or not, the events are the path of the state:
-- the first enters the starting state, each leaves the state that the one before entered along the table of
-- transitions, and the last entered the present state. There are at most 4 events.
pub perform_all-IsRecorded :
    (stamp : Stamp) (reason : String) (l : ControlPlaneLifecycle)
    (calls : List (Stamp × LifecycleCall))
    → start_lifecycle stamp reason ≡ ok l
    → IsRecorded (perform_all calls l)
perform_all-IsRecorded stamp reason l calls h =
    calls-IsRecorded calls l (started-IsRecorded stamp reason l h)
