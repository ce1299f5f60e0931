-- ===== src/Swarm/Coordinator/Ready.antt =====
-- vad/swarm/coordinator.py: in a graph without cycles a task is ready as long as some task is open.
use verified_agentic_develop.Prelude.{
  clash, All-map, All-zip, String, Bool, true, false, List, [], ◌∷◌, ◌≡◌, refl, elem, All, ℕ, zero,
  suc, ◌+◌, ◌≤◌, ◌<◌, ◌⊎◌, inl, inr, arith, Bool-cases, if_true, if_false, length, keep_if,
  if◌then◌else◌, sym, subst, map, all_of, ◌&&◌, ◌==◌, eq_iff,
}
use verified_agentic_develop.Swarm.Agents.{AgentCard}
use verified_agentic_develop.Swarm.Tasks.{
  SwarmTask, SwarmTaskStatus, completed, is_completed, is_ready, is_pending, completed_ids,
  ready_tasks, ids,
}
use verified_agentic_develop.Swarm.Tasks.Accepted.{AllDistinct}
use verified_agentic_develop.Swarm.Coordinator.Rounds.{HasAgent, mark_if, promote}

abbrev pub IsCompleted : SwarmTask → Type 0
IsCompleted t = is_completed t.status ≡ true

abbrev pub IsOpen : SwarmTask → Type 0
IsOpen t = (is_pending t.status ≡ true) ⊎ (is_completed t.status ≡ true)

-- what the rounds keep of a graph
pub record IsRunning (agents : List AgentCard) (rank : String → ℕ) (tasks : List SwarmTask)
    : Type 0 where
  pub distinct : AllDistinct (ids tasks)
  pub known : All (λ t. All (λ d. elem d (ids tasks) ≡ true) t.depends_on) tasks
  pub ranked : All (λ t. All (λ d. rank d < rank t.task_id) t.depends_on) tasks
  pub open_tasks : All IsOpen tasks
  pub served : All (HasAgent agents) tasks

unfoldable pub count_completed : List SwarmTask → ℕ
count_completed [] = 0
count_completed (t ∷ ts) =
    if is_completed t.status then suc (count_completed ts) else count_completed ts

-- a round over the tasks, with `f` for the test of readiness
module _ (f : SwarmTask → Bool) where
  abbrev pub step : List SwarmTask → List SwarmTask
  step = map (λ t. mark_if (f t) t)

  pub ids-step : (ts : List SwarmTask) → ids (step ts) ≡ ids ts
  ids-step [] = refl
  ids-step (t ∷ ts) = elim (Bool-cases (f t)) [
    | inl e ↦ rw (e, ids-step ts) refl
    | inr e ↦ rw (e, ids-step ts) refl
  ]

  -- what does not depend on the status stays true
  pub step-All :
      (P : SwarmTask → Type 0) (ts : List SwarmTask)
      → ((t : SwarmTask) → P t → P (record t { status = completed }))
      → All P ts
      → All P (step ts)
  step-All P [] keep all = tt
  step-All P (t ∷ ts) keep all = (one (f t), step-All P ts keep all.1)
    where
      one : (b : Bool) → P (mark_if b t)
      one true = keep t all.0
      one false = all.0

  count-step :
      (ts : List SwarmTask)
      → All (λ t. f t ≡ true → is_completed t.status ≡ false) ts
      → count_completed (step ts) ≡ count_completed ts + length (keep_if f ts)
  unfolding count_completed is_completed
  count-step [] fresh = omega arith
  count-step (t ∷ ts) fresh = elim (Bool-cases (f t)) [
    | inl e ↦ rw (e, fresh.0 e, count-step ts fresh.1) (omega arith)
    | inr e ↦ rw (e, count-step ts fresh.1) (ground arith)
  ]

pub count-le : (ts : List SwarmTask) → count_completed ts ≤ length ts
unfolding count_completed
count-le [] = omega arith
count-le (t ∷ ts) = ground (arith, count-le ts)

pub all_completed : (ts : List SwarmTask) → length ts ≤ count_completed ts → All IsCompleted ts
unfolding count_completed
all_completed [] h = tt
all_completed (t ∷ ts) h = elim (Bool-cases (is_completed t.status)) [
  | inl e ↦ (e, all_completed ts (ground (arith, e)))
  | inr e ↦ absurd (ground (arith, e, count-le ts))
]

none_picked :
    (f : SwarmTask → Bool) (ts : List SwarmTask)
    → length (keep_if f ts) ≡ 0
    → All (λ t. f t ≡ false) ts
none_picked f [] h = tt
none_picked f (t ∷ ts) h = elim (Bool-cases (f t)) [
  | inl e ↦ absurd (ground (arith, e))
  | inr e ↦ (e, none_picked f ts (ground (arith, e)))
]

All-each :
    (P : ℕ → SwarmTask → Type 0) (ts : List SwarmTask)
    → ((n : ℕ) → All (P n) ts)
    → All (λ t. (n : ℕ) → P n t) ts
All-each P [] all = tt
All-each P (t ∷ ts) all = (λ n. (all n).0, All-each P ts (λ n. (all n).1))

all_of-true : (g : String → Bool) (ds : List String) → All (λ d. g d ≡ true) ds → all_of g ds ≡ true
all_of-true g [] h = refl
all_of-true g (d ∷ ds) h = rw (h.0, all_of-true g ds h.1) refl

-- completed tasks are listed as completed
listed :
    (rank : String → ℕ) (n : ℕ) (us : List SwarmTask) (d : String)
    → All (λ t. rank t.task_id < n → IsCompleted t) us
    → rank d < n
    → elem d (ids us) ≡ true
    → elem d (completed_ids us) ≡ true
unfolding completed_ids elem
listed rank n [] d all low = λ h. h
listed rank n (t ∷ us) d all low = elim (Bool-cases (d == t.task_id)) [
  | inl e ↦ λ h.
      let same = (eq_iff d t.task_id).0 e in
      rw (all.0 (subst (λ k. rank k < n) same low)) (if_true _ _ e)
  | inr e ↦
      rw (if_false {b = d == t.task_id} _ _ e) (λ h. ground (arith, listed rank n us d all.1 low h))
]

-- an open task that waits for nothing and is not ready is completed
settled :
    (done_ids : List String) (t : SwarmTask)
    → all_of (λ d. elem d done_ids) t.depends_on ≡ true
    → IsOpen t
    → is_ready done_ids t ≡ false
    → IsCompleted t
unfolding is_ready
settled done_ids t met (inl p) r = absurd (clash (rw (p, met) refl) r)
settled done_ids t met (inr c) r = c

completed_lem : is_completed completed ≡ true
unfolding is_completed
completed_lem = refl

keep_if-All :
    (f : SwarmTask → Bool) (P : SwarmTask → Type 0) (ts : List SwarmTask)
    → All P ts
    → All P (keep_if f ts)
keep_if-All f P [] all = tt
keep_if-All f P (t ∷ ts) all = elim (Bool-cases (f t)) [
  | inl e ↦ rw e (all.0, keep_if-All f P ts all.1)
  | inr e ↦ rw e (keep_if-All f P ts all.1)
]

-- a task that is ready is not completed
ready-open :
    (done_ids : List String) (t : SwarmTask)
    → is_ready done_ids t ≡ true
    → is_completed t.status ≡ false
unfolding is_ready is_completed is_pending
ready-open done_ids t = open_state t.status _
  where
    open_state :
        (s : SwarmTaskStatus) (b : Bool) → (is_pending s && b) ≡ true → is_completed s ≡ false
    open_state completed b h = absurd (cc)
    open_state _ b h = refl

module _ {agents : List AgentCard} {rank : String → ℕ} {ts : List SwarmTask}
    (run : IsRunning agents rank ts) where
  -- where no task is ready, the tasks up to each rank are completed
  idle : length (ready_tasks ts) ≡ 0 → (n : ℕ) → All (λ t. rank t.task_id < n → IsCompleted t) ts
  unfolding ready_tasks
  idle none_ready zero = All-map ts (λ t s h. absurd (omega arith)) run.open_tasks
  idle none_ready (suc n) =
      let before = idle none_ready n in
      let deps : All
          (λ t. All (λ d. (elem d (ids ts) ≡ true) × (rank d < rank t.task_id)) t.depends_on) ts =
        All-zip ts run.known run.ranked (λ t k r. All-zip t.depends_on k r (λ d a b. (a, b))) in
      let states : All (λ t. IsOpen t × (is_ready (completed_ids ts) t ≡ false)) ts =
        All-zip ts run.open_tasks (none_picked _ ts none_ready) (λ t o r. (o, r)) in
      All-zip ts deps states (λ t ds (state, not_ready) below.
        settled (completed_ids ts) t
          (all_of-true (λ d. elem d (completed_ids ts)) t.depends_on
            (All-map t.depends_on (λ d (k, l). listed rank n ts d before (omega arith) k) ds))
          state not_ready)

  pub all_idle : length (ready_tasks ts) ≡ 0 → All IsCompleted ts
  all_idle none_ready =
      All-map ts (λ t each. each (suc (rank t.task_id)) (omega arith))
        (All-each _ ts (idle none_ready))

  -- a round keeps what the rounds rely on
  pub promote-IsRunning : IsRunning agents rank (promote ts)
  promote-IsRunning =
      let f = is_ready (completed_ids ts) in
      let same = ids-step f ts in
      record {
        distinct = subst AllDistinct (sym same) run.distinct;
        known =
            step-All f _ ts (λ t k. k)
              (subst (λ l. All (λ t. All (λ d. elem d l ≡ true) t.depends_on) ts) (sym same)
                run.known);
        ranked = step-All f _ ts (λ t r. r) run.ranked;
        open_tasks = step-All f IsOpen ts (λ t o. inr completed_lem) run.open_tasks;
        served = step-All f (HasAgent agents) ts (λ t a. a) run.served;
      }

  pub promote-count : count_completed (promote ts) ≡ count_completed ts + length (ready_tasks ts)
  unfolding ready_tasks
  promote-count =
      count-step (is_ready (completed_ids ts)) ts
        (All-map ts (λ t o. ready-open (completed_ids ts) t) run.open_tasks)

  pub ready-served : All (HasAgent agents) (ready_tasks ts)
  unfolding ready_tasks
  ready-served = keep_if-All (is_ready (completed_ids ts)) (HasAgent agents) ts run.served
