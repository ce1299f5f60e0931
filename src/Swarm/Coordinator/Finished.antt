-- ===== src/Swarm/Coordinator/Finished.antt =====
-- vad/swarm/demo.py: a graph that the validator accepts is worked off.
use verified_agentic_develop.Prelude.{
  All-map, String, List, [], ◌∷◌, ◌++◌, some, ok, ◌≡◌, refl, All, ℕ, zero, suc, ◌+◌, ◌<◌, inl, inr,
  arith, Bool-cases, if_true, if_false, length, length-append, sym, ap, ◌∙◌, map, ltb, eqb,
}
use verified_agentic_develop.Swarm.Agents.{AgentCard}
use verified_agentic_develop.Swarm.Tasks.{
  SwarmTask, pending, is_completed, is_pending, ready_tasks, ids, validate_graph, done,
}
use verified_agentic_develop.Swarm.Tasks.Accepted.{validate_graph-cases, to_members}
use verified_agentic_develop.Swarm.Coordinator.{
  SwarmMessage, Surroundings, Swarm, SwarmCoordinatorResult, Progress, advance, run_rounds,
}
use verified_agentic_develop.Swarm.Coordinator.Rounds.{HasAgent, promote, run_ready_tasks-ok}
use verified_agentic_develop.Swarm.Coordinator.Ready.{
  IsCompleted, IsOpen, IsRunning, count_completed, count-le, all_completed, all_idle,
  promote-IsRunning, promote-count, ready-served, ids-step,
}

length-map {ℓ κ} :
    {A : Type ℓ} {B : Type κ} (f : A → B) (xs : List A) → length (map f xs) ≡ length xs
length-map f [] = refl
length-map f (x ∷ xs) = ap suc (length-map f xs)

-- The loop has completed all tasks of the graph, which are otherwise as they were, and has recorded as
-- many completions as there are tasks.
pub record IsDone (start : Swarm) (p : Progress) (s : Swarm) : Type 0 where
  pub same : ids s.tasks ≡ ids start.tasks
  pub finished : All IsCompleted s.tasks
  pub recorded : length p.completed ≡ length start.tasks

count-eq : (ts : List SwarmTask) → All IsCompleted ts → count_completed ts ≡ length ts
unfolding count_completed
count-eq [] all = refl
count-eq (t ∷ ts) all = rw (all.0, count-eq ts all.1) refl

module _ (env : Surroundings) (agents : List AgentCard) (rank : String → ℕ) where
  run_rounds-IsDone :
      (fuel : ℕ) (p : Progress) (s : Swarm)
      → IsRunning agents rank s.tasks
      → length p.completed ≡ count_completed s.tasks
      → length s.tasks < fuel + count_completed s.tasks
      → (q : Progress) × (s' : Swarm) × (run_rounds env agents fuel p s ≡ (ok (some q), s'))
        × IsDone s q s'
  unfolding run_rounds
  run_rounds-IsDone zero p s run counted enough = absurd (omega (arith, count-le s.tasks))
  run_rounds-IsDone (suc fuel) p s run counted enough =
      elim (Bool-cases (ltb (length p.completed) (length s.tasks))) [
        | inr e ↦ (
          p,
          s,
          if_false _ _ e,
          record {
            same = refl;
            finished = all_completed s.tasks (ground (arith, e, counted));
            recorded = ground (arith, e, counted, count-le s.tasks);
          },
        )
        | inl e ↦ rw (if_true {b = ltb (length p.completed) (length s.tasks)} _ _ e) (
            let (ms, round) = run_ready_tasks-ok env agents s run.distinct (ready-served run) in
            let r : SwarmCoordinatorResult = record {
              messages = ms;
              completed_task_ids = ids (ready_tasks s.tasks);
            } in
            let s1 : Swarm = record { messages = s.messages ++ ms; tasks = promote s.tasks } in
            rw (round, length-map (λ (t : SwarmTask). t.task_id) (ready_tasks s.tasks))
              (elim (Bool-cases (eqb (length (ready_tasks s.tasks)) 0)) [
                | inl stop ↦ absurd (
                    ground (
                      arith,
                      e,
                      stop,
                      counted,
                      count-eq s.tasks (all_idle run (ground (arith, stop))),
                    ))
                | inr on ↦ rw on (
                    let mapped = length-map (λ (t : SwarmTask). t.task_id) (ready_tasks s.tasks) in
                    let stepped : length (promote s.tasks) ≡ length s.tasks =
                      length-map _ s.tasks in
                    let ready_some : 0 < length (ready_tasks s.tasks) = ground (arith, on) in
                    let (q, s', returned, is_done) =
                      run_rounds-IsDone fuel (advance p r) s1 (promote-IsRunning run)
                        (omega (
                          arith,
                          length-append p.completed (ids (ready_tasks s.tasks)),
                          mapped,
                          promote-count run,
                          counted,
                        ))
                        (omega (arith, stepped, promote-count run, ready_some)) in
                    let whole : IsDone s q s' = record {
                      same = is_done.same ∙ ids-step _ s.tasks;
                      finished = is_done.finished;
                      recorded = is_done.recorded ∙ stepped;
                    } in
                    (q, s', returned, whole))
              ]))
      ]

abbrev pub start_of : List SwarmMessage → List SwarmTask → Swarm
start_of messages tasks = record { messages = messages; tasks = tasks }

none_completed : (ts : List SwarmTask) → All (λ t. t.status ≡ pending) ts → count_completed ts ≡ 0
unfolding count_completed is_completed
none_completed [] all = refl
none_completed (t ∷ ts) all = rw (all.0, none_completed ts all.1) refl

pending-IsOpen : (t : SwarmTask) → t.status ≡ pending → IsOpen t
unfolding is_pending
pending-IsOpen t e = inl (rw e refl)

-- If the validator accepts a graph, all of its tasks are pending and each task's role has an agent, then
-- the loop of rounds raises nothing, ends within one round more than there are tasks, and has completed
-- every task and recorded as many completions as there are tasks.
pub run_rounds-finishes :
    (env : Surroundings) (agents : List AgentCard) (messages : List SwarmMessage)
    (tasks : List SwarmTask)
    → validate_graph tasks ≡ done tasks
    → All (λ t. t.status ≡ pending) tasks
    → All (HasAgent agents) tasks
    → (p : Progress) × (s : Swarm) × (run_rounds env agents
          (suc (length tasks))
          (record { messages = []; completed = [] })
          (start_of messages tasks)
        ≡ (ok (some p), s))
      × IsDone (start_of messages tasks) p s
run_rounds-finishes env agents messages tasks accepted waiting served =
    elim (validate_graph-cases tasks) [
      | inl (e, graph) ↦
          run_rounds-IsDone env agents graph.rank (suc (length tasks)) _ (start_of messages tasks)
            (record {
              distinct = graph.distinct;
              known = (to_members tasks (ids tasks)).1 graph.known;
              ranked = graph.ranked;
              open_tasks = All-map tasks pending-IsOpen waiting;
              served = served;
            })
            (sym (none_completed tasks waiting)) (omega (arith, none_completed tasks waiting))
      | inr (problem, e, no_graph) ↦ cc
    ]
