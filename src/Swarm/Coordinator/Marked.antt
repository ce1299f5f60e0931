-- ===== src/Swarm/Coordinator/Marked.antt =====
-- vad/swarm/state.py: marking a task as completed.
use verified_agentic_develop.Prelude.{
  ◌↔◌, All, ◌++◌, clash, ◌⊎◌, String, Bool, true, false, List, [], ◌∷◌, ok, raise, value_error,
  joined, ◌≡◌, refl, ◌==◌, eq_iff, elem, inl, inr, arith, Bool-cases, if_true, if_false,
  if◌then◌else◌, ap, ◌∙◌, sym,
}
use verified_agentic_develop.Swarm.Tasks.{SwarmTaskStatus, SwarmTask, completed, is_completed, ids}
use verified_agentic_develop.Swarm.Coordinator.{mark_completed}

eq_swap : (a b : String) → (a == b) ≡ (b == a)
eq_swap a b = ground (arith, eq_iff a b, eq_iff b a)

-- whether an id is among those of a graph, by its first task
elem-first :
    (x : String) (t : SwarmTask) (ts : List SwarmTask)
    → elem x (ids (t ∷ ts)) ≡ (if t.task_id == x then true else elem x (ids ts))
unfolding elem
elem-first x t ts = rw (eq_swap x t.task_id) refl

-- What marking `x` does where the graph has it: the first task with the id is completed and no other
-- changes, and the answer is false exactly if it was completed before.
pub record IsMarked (x : String) (ts : List SwarmTask) : Type 0 where
  pub before : List SwarmTask
  pub task : SwarmTask
  pub rest : List SwarmTask
  pub marked : Bool
  pub parts : ts ≡ before ++ task ∷ rest
  pub earlier : All (λ t. (t.task_id == x) ≡ false) before
  pub here : task.task_id ≡ x
  pub answer_iff : (marked ≡ false) ↔ (task.status ≡ completed)
  pub marks : mark_completed x ts ≡ (ok marked, before ++ record task { status = completed } ∷ rest)
  pub again :
      mark_completed x (before ++ record task { status = completed } ∷ rest)
      ≡ (ok false, before ++ record task { status = completed } ∷ rest)

completed-eq : (s : SwarmTaskStatus) → is_completed s ≡ true → s ≡ completed
unfolding is_completed
completed-eq completed h = refl
completed-eq SwarmTaskStatus.pending h = cc
completed-eq SwarmTaskStatus.running h = cc
completed-eq SwarmTaskStatus.blocked h = cc

incomplete : (s : SwarmTaskStatus) → is_completed s ≡ false → s ≡ completed → ⊥
unfolding is_completed
incomplete s h e = clash (ap is_completed e) h

mark_old :
    (x : String) (t : SwarmTask) (ts : List SwarmTask)
    → (t.task_id == x) ≡ true
    → is_completed t.status ≡ true
    → mark_completed x (t ∷ ts) ≡ (ok false, record t { status = completed } ∷ ts)
unfolding mark_completed
mark_old x t ts e old =
    if_true {b = t.task_id == x} _ _ e
    ∙ if_true {b = is_completed t.status} _ _ old
    ∙ ap (λ s. (ok false, record t { status = s } ∷ ts)) (completed-eq t.status old)

mark_later :
    (x : String) (t : SwarmTask) (ts after : List SwarmTask) (b : Bool)
    → (t.task_id == x) ≡ false
    → mark_completed x ts ≡ (ok b, after)
    → mark_completed x (t ∷ ts) ≡ (ok b, t ∷ after)
unfolding mark_completed
mark_later x t ts after b e h = if_false {b = t.task_id == x} _ _ e ∙ ap (λ p. (p.0, t ∷ p.1)) h

IsMarked-later :
    (x : String) (t : SwarmTask) (ts : List SwarmTask)
    → (t.task_id == x) ≡ false
    → IsMarked x ts
    → IsMarked x (t ∷ ts)
IsMarked-later x t ts e m = record {
  before = t ∷ m.before;
  task = m.task;
  rest = m.rest;
  marked = m.marked;
  parts = ap (λ l. t ∷ l) m.parts;
  earlier = (e, m.earlier);
  here = m.here;
  answer_iff = m.answer_iff;
  marks = mark_later x t ts _ m.marked e m.marks;
  again = mark_later x t _ _ false e m.again;
}

mark_here :
    (x : String) (t : SwarmTask) (ts : List SwarmTask)
    → (t.task_id == x) ≡ true
    → IsMarked x (t ∷ ts)
unfolding mark_completed is_completed
mark_here x t ts e = elim (Bool-cases (is_completed t.status)) [
  | inl old ↦ record {
    before = [];
    task = t;
    rest = ts;
    marked = false;
    parts = refl;
    earlier = tt;
    here = (eq_iff t.task_id x).0 e;
    answer_iff = (λ h. completed-eq t.status old, λ h. refl);
    marks = mark_old x t ts e old;
    again = rw e refl;
  }
  | inr new ↦ record {
    before = [];
    task = t;
    rest = ts;
    marked = true;
    parts = refl;
    earlier = tt;
    here = (eq_iff t.task_id x).0 e;
    answer_iff = (λ h. cc, λ h. absurd (incomplete t.status new h));
    marks = rw (e, new) refl;
    again = rw e refl;
  }
]

mark_known : (x : String) (ts : List SwarmTask) → elem x (ids ts) ≡ true → IsMarked x ts
unfolding mark_completed elem
mark_known x [] = λ h. cc
mark_known x (t ∷ ts) = elim (Bool-cases (t.task_id == x)) [
  | inl e ↦ λ h. mark_here x t ts e
  | inr e ↦
      λ h. IsMarked-later x t ts e (mark_known x ts (sym (elem-first x t ts ∙ if_false _ _ e) ∙ h))
]

mark_unknown :
    (x : String) (ts : List SwarmTask)
    → elem x (ids ts) ≡ false
    → mark_completed x ts ≡ (raise (value_error (joined ("unknown task id: " ∷ x ∷ []))), ts)
unfolding mark_completed elem
mark_unknown x [] = λ h. refl
mark_unknown x (t ∷ ts) = elim (Bool-cases (t.task_id == x)) [
  | inl e ↦ λ h. absurd (clash (elem-first x t ts ∙ if_true _ _ e) h)
  | inr e ↦ λ h. rw (e, mark_unknown x ts (sym (elem-first x t ts ∙ if_false _ _ e) ∙ h)) refl
]

-- Marking an id of the graph completes the first task that has it and changes no other, and answers
-- false exactly if that task was completed before; marking it again answers false and changes nothing.
-- An id that the graph does not have raises a ValueError and changes nothing.
pub mark_completed-outcome :
    (x : String) (ts : List SwarmTask)
    → ((elem x (ids ts) ≡ true) × IsMarked x ts)
      ⊎ ((elem x (ids ts) ≡ false)
          × (mark_completed x ts
              ≡ (raise (value_error (joined ("unknown task id: " ∷ x ∷ []))), ts)))
mark_completed-outcome x ts = elim (Bool-cases (elem x (ids ts))) [
  | inl here ↦ inl (here, mark_known x ts here)
  | inr absent ↦ inr (absent, mark_unknown x ts absent)
]
