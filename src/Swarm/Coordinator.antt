-- ===== src/Swarm/Coordinator.antt =====
-- vad/swarm/transport.py, coordinator.py, state.py and the loop of demo.py: the tasks that are ready
-- are given to agents, and each sends a message. The tasks of a graph have different ids, so an
-- object of the graph is known by its id.
pub mod Rounds
pub mod Ready
pub mod Finished
pub mod Marked
use verified_agentic_develop.Prelude.{
  String, Bool, true, false, List, [], ◌∷◌, ◌++◌, Option, none, some, Error, Result, ok, raise,
  value_error, permission_error, ltb, eqb, length, elem, find_first, joined, if◌then◌else◌, ◌==◌,
  ◌&&◌, ℕ, zero, suc,
}
use verified_agentic_develop.Prelude.Action.{Action, give, from_result, ◌>>=◌}
use verified_agentic_develop.Swarm.Agents.{
  AgentRole, planner, builder, verifier, auditor, release_guardian, role_value, AgentCard,
}
use verified_agentic_develop.Swarm.Tasks.{SwarmTask, completed, is_completed, ready_tasks}

unfoldable pub allowed_message_types : AgentRole → List String
allowed_message_types planner = "task_planned" ∷ []
allowed_message_types builder = "build_completed" ∷ []
allowed_message_types verifier = "verification_completed" ∷ []
allowed_message_types auditor = "audit_completed" ∷ []
allowed_message_types release_guardian = "release_decision" ∷ []

-- a payload is a dictionary of texts
pub record MessagePayload : Type 0 where
  pub sender_id : String
  pub sender_role : AgentRole
  pub message_type : String
  pub task_id : String
  pub payload : List (String × String)

pub record SwarmMessage : Type 0 where
  pub message_id : String
  pub content : MessagePayload
  pub evidence_digest : String
  pub created_at : String

-- `uuid4`, `utcnow` and `EvidenceBundle(...).compute_hash`: the id and the time of the n-th message of a
-- transport, and the digest of a payload
pub record Surroundings : Type 0 where
  pub new_id : ℕ → String
  pub now : ℕ → String
  pub compute_hash : MessagePayload → String

-- the transport's messages and the graph's tasks
pub record Swarm : Type 0 where
  pub messages : List SwarmMessage
  pub tasks : List SwarmTask

unfoldable pub message_of : Surroundings → ℕ → MessagePayload → SwarmMessage
message_of env count content = record {
  message_id = env.new_id count;
  content = content;
  evidence_digest = env.compute_hash content;
  created_at = env.now count;
}

unfoldable pub publish :
    Surroundings → AgentCard → String → String → List (String × String) → Action Swarm SwarmMessage
unfolding message_of
publish env sender message_type task_id payload s =
    let message = message_of env (length s.messages) (record {
      sender_id = sender.agent_id;
      sender_role = sender.role;
      message_type = message_type;
      task_id = task_id;
      payload = payload;
    }) in
    if elem message_type (allowed_message_types sender.role)
    then (ok message, record s { messages = s.messages ++ message ∷ [] })
    else (
      raise (
          permission_error (joined (role_value sender.role ∷ " cannot send " ∷ message_type ∷ []))),
      s,
    )

unfoldable pub message_type_for_role : AgentRole → String
message_type_for_role planner = "task_planned"
message_type_for_role builder = "build_completed"
message_type_for_role verifier = "verification_completed"
message_type_for_role auditor = "audit_completed"
message_type_for_role release_guardian = "release_decision"

-- `agent.role == role`
unfoldable pub same_role : AgentRole → AgentRole → Bool
same_role planner planner = true
same_role builder builder = true
same_role verifier verifier = true
same_role auditor auditor = true
same_role release_guardian release_guardian = true
same_role _ _ = false

unfoldable pub agent_for_role : List AgentCard → AgentRole → Result AgentCard
unfolding same_role
agent_for_role [] role =
    raise (value_error (joined ("no agent available for role " ∷ role_value role ∷ [])))
agent_for_role (a ∷ agents) role =
    if same_role a.role role then ok a else agent_for_role agents role

-- `task.status = COMPLETED` for the task with this id
unfoldable pub complete_task : String → List SwarmTask → List SwarmTask
complete_task task_id [] = []
complete_task task_id (t ∷ ts) =
    (if t.task_id == task_id then record t { status = completed } else t) ∷ complete_task task_id ts

unfoldable pub set_completed : String → Action Swarm (Unit {0})
unfolding complete_task
set_completed task_id s = (ok tt, record s { tasks = complete_task task_id s.tasks })

-- the body of the loop of `run_ready_tasks`
unfoldable pub run_task : Surroundings → List AgentCard → SwarmTask → Action Swarm SwarmMessage
run_task env agents t = do
  agent ← from_result (agent_for_role agents t.role)
  message ←
      publish env agent (message_type_for_role t.role) t.task_id
        (("status", "completed") ∷ ("description", t.description) ∷ [])
  done ← set_completed t.task_id
  give message

pub record SwarmCoordinatorResult : Type 0 where
  pub messages : List SwarmMessage
  pub completed_task_ids : List String

unfoldable pub run_tasks :
    Surroundings → List AgentCard → List SwarmTask → Action Swarm SwarmCoordinatorResult
run_tasks env agents [] = give (record { messages = []; completed_task_ids = [] })
run_tasks env agents (t ∷ ts) = do
  message ← run_task env agents t
  rest ← run_tasks env agents ts
  give (record {
    messages = message ∷ rest.messages;
    completed_task_ids = t.task_id ∷ rest.completed_task_ids;
  })

unfoldable pub run_ready_tasks : Surroundings → List AgentCard → Action Swarm SwarmCoordinatorResult
unfolding run_tasks
run_ready_tasks env agents s = run_tasks env agents (ready_tasks s.tasks) s

-- `mark_completed` of `SwarmState`
unfoldable pub mark_completed : String → List SwarmTask → Result Bool × List SwarmTask
mark_completed task_id [] = (raise (value_error (joined ("unknown task id: " ∷ task_id ∷ []))), [])
mark_completed task_id (t ∷ ts) =
    let (marked, rest) = mark_completed task_id ts in
    if t.task_id == task_id
    then (if is_completed t.status
        then (ok false, t ∷ ts)
        else (ok true, record t { status = completed } ∷ ts))
    else (marked, t ∷ rest)

-- The loop of `run_level3_demo_swarm`: rounds until all tasks are completed or a round completes none.
-- It gives the messages and the ids; `none` means that the fuel ran out.
pub record Progress : Type 0 where
  pub messages : List SwarmMessage
  pub completed : List String

unfoldable pub advance : Progress → SwarmCoordinatorResult → Progress
advance p r = record {
  messages = p.messages ++ r.messages;
  completed = p.completed ++ r.completed_task_ids;
}

unfoldable pub run_rounds :
    Surroundings → List AgentCard → ℕ → Progress → Action Swarm (Option Progress)
unfolding advance run_ready_tasks
run_rounds env agents zero p s = (ok none, s)
run_rounds env agents (suc fuel) p s =
    let round = (do
      r ← run_ready_tasks env agents
      let on = run_rounds env agents fuel (advance p r)
      if eqb (length r.completed_task_ids) 0 then give (some p) else on) in
    if ltb (length p.completed) (length s.tasks) then round s else (ok (some p), s)
