-- ===== src/Swarm/Coordinator/Rounds.antt =====
-- vad/swarm/coordinator.py: what one round of the coordinator does.
use verified_agentic_develop.Prelude.{
  All-zip, String, Bool, true, false, List, [], ◌∷◌, ◌++◌, ok, ◌≡◌, refl, ◌==◌, eq_refl, eq_iff,
  elem, All, inl, inr, arith, Bool-cases, Memᴰ, if_true, if_false, length, keep_if, if◌then◌else◌,
  sym, subst, ap, ◌∙◌, map, ok_eq,
}
use mathlib.Core.List.{append-nil, append_assoc}
use verified_agentic_develop.Swarm.Agents.{
  AgentRole, planner, builder, verifier, auditor, release_guardian, AgentCard,
}
use verified_agentic_develop.Swarm.Tasks.{
  SwarmTask, completed, is_ready, completed_ids, ready_tasks, ids,
}
use verified_agentic_develop.Swarm.Tasks.Accepted.{AllDistinct, not_elem}
use verified_agentic_develop.Swarm.Coordinator.{
  allowed_message_types, SwarmMessage, Surroundings, Swarm, message_of, publish,
  message_type_for_role, same_role, agent_for_role, complete_task, set_completed, run_task,
  run_tasks, run_ready_tasks,
}

if_same : {A : Type 0} (b : Bool) (x : A) → (if b then x else x) ≡ x
if_same true x = refl
if_same false x = refl

same_role-eq : (a b : AgentRole) → same_role a b ≡ true → a ≡ b
unfolding same_role
same_role-eq planner planner h = refl
same_role-eq builder builder h = refl
same_role-eq verifier verifier h = refl
same_role-eq auditor auditor h = refl
same_role-eq release_guardian release_guardian h = refl
same_role-eq _ _ h = cc

agent_for_role-role :
    (agents : List AgentCard) (role : AgentRole) (a : AgentCard)
    → agent_for_role agents role ≡ ok a
    → a.role ≡ role
unfolding agent_for_role
agent_for_role-role [] role a = λ h. cc
agent_for_role-role (b ∷ agents) role a = elim (Bool-cases (same_role b.role role)) [
  | inl e ↦ rw (if_true _ _ e) (λ h. rw (ok_eq h) (same_role-eq b.role role e))
  | inr e ↦ rw (if_false {b = same_role b.role role} _ _ e) (agent_for_role-role agents role a)
]

-- The coordinator's message is one that its agent may send.
own_type_allowed :
    (role : AgentRole) → elem (message_type_for_role role) (allowed_message_types role) ≡ true
unfolding elem message_type_for_role allowed_message_types
own_type_allowed planner = refl
own_type_allowed builder = refl
own_type_allowed verifier = refl
own_type_allowed auditor = refl
own_type_allowed release_guardian = refl

abbrev pub HasAgent : List AgentCard → SwarmTask → Type 0
HasAgent agents t = (a : AgentCard) × (agent_for_role agents t.role ≡ ok a)

-- the message of the agent for a task
abbrev sent : Surroundings → AgentCard → SwarmTask → Swarm → SwarmMessage
sent env a t s = message_of env (length s.messages) (record {
  sender_id = a.agent_id;
  sender_role = a.role;
  message_type = message_type_for_role t.role;
  task_id = t.task_id;
  payload = ("status", "completed") ∷ ("description", t.description) ∷ [];
})

abbrev after : SwarmMessage → SwarmTask → Swarm → Swarm
after m t s = record { messages = s.messages ++ m ∷ []; tasks = complete_task t.task_id s.tasks }

may_send :
    (a : AgentCard) (role : AgentRole)
    → a.role ≡ role
    → elem (message_type_for_role role) (allowed_message_types a.role) ≡ true
may_send a role e =
    subst (λ r. elem (message_type_for_role role) (allowed_message_types r) ≡ true) (sym e)
      (own_type_allowed role)

run_task-ok :
    (env : Surroundings) (agents : List AgentCard) (t : SwarmTask) (s : Swarm) (a : AgentCard)
    → agent_for_role agents t.role ≡ ok a
    → run_task env agents t s ≡ (ok (sent env a t s), after (sent env a t s) t s)
unfolding run_task publish set_completed
run_task-ok env agents t s a found =
    rw found (rw (may_send a t.role (agent_for_role-role agents t.role a found)) refl)

-- all the given ids are completed
abbrev pub mark_if : Bool → SwarmTask → SwarmTask
mark_if b t = if b then record t { status = completed } else t

abbrev mark : List String → List SwarmTask → List SwarmTask
mark done_ids = map (λ t. mark_if (elem t.task_id done_ids) t)

mark-complete_task :
    (x : String) (xs : List String) (ts : List SwarmTask)
    → mark xs (complete_task x ts) ≡ mark (x ∷ xs) ts
unfolding complete_task elem
mark-complete_task x xs [] = refl
mark-complete_task x xs (t ∷ ts) = elim (Bool-cases (t.task_id == x)) [
  | inl e ↦
      rw (e, mark-complete_task x xs ts)
        (ap (λ h. h ∷ mark (x ∷ xs) ts)
          (if_same (elem t.task_id xs) (record t { status = completed })))
  | inr e ↦ rw (e, mark-complete_task x xs ts) refl
]

mark-nil : (ts : List SwarmTask) → mark [] ts ≡ ts
unfolding elem
mark-nil [] = refl
mark-nil (t ∷ ts) = rw (mark-nil ts) refl

picked_out :
    (f : SwarmTask → Bool) (x : String) (ts : List SwarmTask)
    → elem x (ids ts) ≡ false
    → elem x (ids (keep_if f ts)) ≡ false
unfolding elem
picked_out f x [] out = refl
picked_out f x (t ∷ ts) out = ground (arith, picked_out f x ts)

others :
    (x : String) (ts : List SwarmTask) → ¬ Memᴰ x (ids ts) → All (λ t. (t.task_id == x) ≡ false) ts
others x [] absent = tt
others x (t ∷ ts) absent = (
  elim (Bool-cases (t.task_id == x)) [
    | inl e ↦ absurd (absent (Memᴰ.head (sym ((eq_iff _ _).0 e))))
    | inr e ↦ e
  ],
  others x ts (λ m. absent (Memᴰ.tail m)),
)

-- The tasks of a list that pass a test are those whose ids are among the ids of such tasks.
picked :
    (f : SwarmTask → Bool) (ts : List SwarmTask)
    → AllDistinct (ids ts)
    → All (λ t. elem t.task_id (ids (keep_if f ts)) ≡ f t) ts
unfolding elem
picked f [] distinct = tt
picked f (t ∷ ts) (absent, distinct) =
    let Right : List SwarmTask → Type 0 = λ l. All (λ u. elem u.task_id (ids l) ≡ f u) (t ∷ ts) in
    elim (Bool-cases (f t)) [
      | inl e ↦ subst Right (sym (if_true {b = f t} (t ∷ keep_if f ts) (keep_if f ts) e)) (
        if_true _ _ (eq_refl t.task_id) ∙ sym e,
        All-zip ts (others t.task_id ts absent) (picked f ts distinct)
            (λ u differs right. if_false _ _ differs ∙ right),
      )
      | inr e ↦
          subst Right (sym (if_false {b = f t} (t ∷ keep_if f ts) (keep_if f ts) e))
            (picked_out f t.task_id ts (not_elem _ _ absent) ∙ sym e, picked f ts distinct)
    ]

mark-All :
    (f : SwarmTask → Bool) (xs : List String) (ts : List SwarmTask)
    → All (λ t. elem t.task_id xs ≡ f t) ts
    → mark xs ts ≡ map (λ t. mark_if (f t) t) ts
mark-All f xs [] all = refl
mark-All f xs (t ∷ ts) all = rw (all.0, mark-All f xs ts all.1) refl

-- the tasks after a round
abbrev pub promote : List SwarmTask → List SwarmTask
promote ts = map (λ t. mark_if (is_ready (completed_ids ts) t) t) ts

module _ (env : Surroundings) (agents : List AgentCard) where
  run_tasks-ok :
      (ts : List SwarmTask) (s : Swarm)
      → All (HasAgent agents) ts
      → (ms : List SwarmMessage) × (run_tasks env agents ts s ≡ (
        ok (record { messages = ms; completed_task_ids = ids ts }),
        record { messages = s.messages ++ ms; tasks = mark (ids ts) s.tasks },
      ))
  unfolding run_tasks
  run_tasks-ok [] s all = ([], rw (append-nil s.messages, mark-nil s.tasks) refl)
  run_tasks-ok (t ∷ ts) s ((a, found), all) =
      let m = sent env a t s in
      let (ms, rest) = run_tasks-ok ts (after m t s) all in
      (
        m ∷ ms,
        rw (run_task-ok env agents t s a found) (
            rw rest (
              rw
                (append_assoc s.messages (m ∷ []) ms, mark-complete_task t.task_id (ids ts) s.tasks)
                refl)),
      )

  -- A round over a graph with distinct ids completes the tasks that are ready, and no other.
  pub run_ready_tasks-ok :
      (s : Swarm)
      → AllDistinct (ids s.tasks)
      → All (HasAgent agents) (ready_tasks s.tasks)
      → (ms : List SwarmMessage) × (run_ready_tasks env agents s ≡ (
        ok (record { messages = ms; completed_task_ids = ids (ready_tasks s.tasks) }),
        record { messages = s.messages ++ ms; tasks = promote s.tasks },
      ))
  unfolding run_ready_tasks ready_tasks
  run_ready_tasks-ok s distinct served =
      let f = is_ready (completed_ids s.tasks) in
      let (ms, e) = run_tasks-ok (keep_if f s.tasks) s served in
      (ms, rw e (rw (mark-All f _ s.tasks (picked f s.tasks distinct)) refl))
