-- ===== src/Tests/Swarm.antt =====
-- The demonstration swarm of vad/swarm/demo.py, and leases.
use verified_agentic_develop.Prelude.{
  ◌+◌, ◌<◌, min, String, true, false, List, [], ◌∷◌, none, some, ok, raise, value_error, joined,
  ◌≡◌, refl, ◌↔◌, ◌⊎◌, arith, elem, text_length, Error, map,
}
use verified_agentic_develop.Prelude.Int.{pos}
use verified_agentic_develop.Swarm.Agents.{
  AgentRole, planner, builder, verifier, auditor, AgentCard, agent_card,
}
use verified_agentic_develop.Swarm.Tasks.{
  SwarmTask, pending, done, failed, validate_graph, has_duplicates, check_known, reject_cycles,
  visit, visit_all, enter, finish, deps_of, remove, ids,
}
use verified_agentic_develop.Swarm.Tasks.Accepted.{IsGraph, validate_graph-cases}
use verified_agentic_develop.Swarm.Coordinator.{
  Surroundings, Swarm, Progress, run_rounds, agent_for_role, mark_completed,
}
use verified_agentic_develop.Swarm.Coordinator.Finished.{IsDone, start_of, run_rounds-finishes}
use verified_agentic_develop.Swarm.Coordinator.Marked.{IsMarked, mark_completed-outcome}
use verified_agentic_develop.Swarm.Leases.{TaskLease, supervise, beat, perform_all}
use verified_agentic_develop.Swarm.Leases.Misses.{IsCounted, perform_all-IsCounted, misses-block}

abbrev card : String → AgentRole → String → AgentCard
card agent_id role capability = record {
  agent_id = agent_id;
  role = role;
  capabilities = capability ∷ [];
  model_tiers = "tier1" ∷ [];
  memory_scopes = [];
  autonomy_limit = 1;
}

abbrev demo_agents : List AgentCard
demo_agents =
    card "demo-planner" planner "plan"
    ∷ card "demo-builder" builder "modify_code"
    ∷ card "demo-verifier" verifier "verify"
    ∷ card "demo-auditor" auditor "audit_evidence"
    ∷ []

planner_card :
    agent_card (card "demo-planner" planner "plan") ≡ ok (card "demo-planner" planner "plan")
unfolding agent_card text_length elem
planner_card = refl

abbrev task : String → AgentRole → List String → SwarmTask
task task_id role depends_on = record {
  task_id = task_id;
  role = role;
  description = "a step of the demonstration";
  depends_on = depends_on;
  status = pending;
}

abbrev demo_tasks : List SwarmTask
demo_tasks =
    task "plan" planner []
    ∷ task "build" builder ("plan" ∷ [])
    ∷ task "verify" verifier ("build" ∷ [])
    ∷ task "audit" auditor ("verify" ∷ [])
    ∷ []

demo_accepted : validate_graph demo_tasks ≡ done demo_tasks
unfolding validate_graph has_duplicates check_known reject_cycles visit visit_all enter finish
    deps_of remove
demo_accepted = refl

abbrev ring : List SwarmTask
ring = task "a" planner ("b" ∷ []) ∷ task "b" builder ("a" ∷ []) ∷ []

ring_refused : validate_graph ring ≡ failed (value_error "cycle detected at task a")
unfolding validate_graph has_duplicates check_known reject_cycles visit visit_all enter finish
    deps_of remove joined
ring_refused = refl

validate_graph-cases_example :
    ((validate_graph ring ≡ done ring) × IsGraph ring)
    ⊎ ((problem : Error) × (validate_graph ring ≡ failed problem) × ¬ IsGraph ring)
validate_graph-cases_example = validate_graph-cases ring

abbrev somewhere : Surroundings
somewhere = record {
  new_id = λ n. "id";
  now = λ n. "now";
  compute_hash = λ content. content.task_id;
}

run_rounds-finishes_example :
    (p : Progress) × (s : Swarm) × (run_rounds somewhere demo_agents 5
        (record { messages = []; completed = [] })
        (start_of [] demo_tasks)
      ≡ (ok (some p), s))
    × IsDone (start_of [] demo_tasks) p s
unfolding agent_for_role
run_rounds-finishes_example =
    run_rounds-finishes somewhere demo_agents [] demo_tasks demo_accepted
      (refl, (refl, (refl, (refl, tt)))) ((_, refl), ((_, refl), ((_, refl), ((_, refl), tt))))

mark_completed-outcome_example :
    ((elem "plan" (ids demo_tasks) ≡ true) × IsMarked "plan" demo_tasks)
    ⊎ ((elem "plan" (ids demo_tasks) ≡ false)
        × (mark_completed "plan" demo_tasks
            ≡ (raise (value_error (joined ("unknown task id: " ∷ "plan" ∷ []))), demo_tasks)))
mark_completed-outcome_example = mark_completed-outcome "plan" demo_tasks

abbrev fresh_lease : TaskLease
fresh_lease = record {
  task_id = "plan";
  holder_id = "demo-planner";
  expires_at = 10;
  retry_count = 0;
  max_retries = 1;
  blocked = false;
  blocker = none;
}

fresh_lease-IsCounted : IsCounted fresh_lease
fresh_lease-IsCounted = record {
  bounded = omega arith;
  at_limit = λ b. cc;
  below_limit = λ low. absurd (omega arith);
}

misses-block_example :
    ((perform_all (map supervise (11 ∷ 12 ∷ [])) fresh_lease).retry_count ≡ min (0 + 2) (1 + 1))
    × (((perform_all (map supervise (11 ∷ 12 ∷ [])) fresh_lease).blocked ≡ true) ↔ (1 < 0 + 2))
misses-block_example = misses-block (11 ∷ 12 ∷ []) fresh_lease fresh_lease-IsCounted (omega arith)

perform_all-IsCounted_example :
    IsCounted (perform_all (supervise 11 ∷ beat 12 (pos 30) ∷ supervise 13 ∷ []) fresh_lease)
perform_all-IsCounted_example =
    perform_all-IsCounted (supervise 11 ∷ beat 12 (pos 30) ∷ supervise 13 ∷ []) fresh_lease
      fresh_lease-IsCounted
