-- ===== src/Swarm/Tasks.antt =====
-- vad/swarm/tasks.py: a graph of tasks, and the search that refuses a cycle.
pub mod Search
pub mod Accepted
use verified_agentic_develop.Prelude.{
  String, Bool, true, false, not, List, [], ◌∷◌, Option, none, some, Error, value_error, key_error,
  validation_error, ltb, eqb, length, text_length, elem, all_of, keep_if, join, joined, map,
  text_leb, if◌then◌else◌, ◌&&◌, ◌||◌, ◌==◌, ℕ, zero, suc, Result, ok, raise,
}
use verified_agentic_develop.Prelude.Sort.{sort}
use verified_agentic_develop.Swarm.Agents.{AgentRole}

pub data SwarmTaskStatus : Type 0 where
  pending running completed blocked : SwarmTaskStatus

pub record SwarmTask : Type 0 where
  pub task_id : String
  pub role : AgentRole
  pub description : String
  pub depends_on : List String
  pub status : SwarmTaskStatus

unfoldable pub swarm_task : SwarmTask → Result SwarmTask
swarm_task t =
    if ltb 0 (text_length t.task_id) && ltb 0 (text_length t.description)
    then ok t
    else raise validation_error

-- a search that ends with a value or an exception; `out_of_fuel` is the model's own
pub data Outcome (A : Type 0) : Type 0 where
  done : A → Outcome A
  failed : Error → Outcome A
  out_of_fuel : Outcome A

infixl 5 ◌>>=◌
abbrev pub ◌>>=◌ : {A B : Type 0} → Outcome A → (A → Outcome B) → Outcome B
done a >>= next = next a
failed problem >>= next = failed problem
out_of_fuel >>= next = out_of_fuel

infixl 5 ◌>>◌
abbrev pub ◌>>◌ : {A B : Type 0} → Outcome A → Outcome B → Outcome B
first >> rest = first >>= λ _. rest

-- a dictionary of the dependencies by task
abbrev pub Edges : Type 0
Edges = List (String × List String)

unfoldable pub deps_of : Edges → String → Option (List String)
deps_of [] key = none
deps_of ((k, deps) ∷ rest) key = if k == key then some deps else deps_of rest key

-- the two sets of `_reject_cycles`
pub record Marks : Type 0 where
  pub visiting : List String
  pub visited : List String

-- `visiting.remove(task_id)`
unfoldable pub remove : String → List String → List String
remove x [] = []
remove x (y ∷ ys) = if y == x then ys else y ∷ remove x ys

unfoldable pub visit_all : (String → Marks → Outcome Marks) → List String → Marks → Outcome Marks
visit_all visit_one [] m = done m
visit_all visit_one (d ∷ ds) m = visit_one d m >>= visit_all visit_one ds

unfoldable pub finish : String → Marks → Outcome Marks
unfolding remove
finish task_id m =
    done (record { visiting = remove task_id m.visiting; visited = task_id ∷ m.visited })

-- the two last lines of `visit` and the loop above them, where the task is known
unfoldable pub enter :
    (String → Marks → Outcome Marks) → Option (List String) → String → Marks → Outcome Marks
enter visit_one none task_id m = failed (key_error task_id)
enter visit_one (some deps) task_id m =
    visit_all visit_one deps (record m { visiting = task_id ∷ m.visiting }) >>= finish task_id

-- `visit`, where the fuel bounds the depth of its calls
unfoldable pub visit : Edges → ℕ → String → Marks → Outcome Marks
visit edges zero task_id m = out_of_fuel
visit edges (suc fuel) task_id m =
    let deeper = enter (visit edges fuel) (deps_of edges task_id) task_id m in
    if elem task_id m.visiting
    then failed (value_error (joined ("cycle detected at task " ∷ task_id ∷ [])))
    else if elem task_id m.visited
    then done m
    else deeper

abbrev pub keys : Edges → List String
keys = map (λ e. e.0)

-- `_reject_cycles`: the calls are nested no deeper than there are tasks
unfoldable pub reject_cycles : Edges → Outcome Marks
reject_cycles edges =
    visit_all (visit edges (suc (length (keys edges)))) (keys edges)
      (record { visiting = []; visited = [] })

abbrev pub ids : List SwarmTask → List String
ids = map (λ t. t.task_id)

abbrev pub edges_of : List SwarmTask → Edges
edges_of = map (λ t. (t.task_id, t.depends_on))

unfoldable pub has_duplicates : List String → Bool
unfolding elem
has_duplicates [] = false
has_duplicates (x ∷ xs) = elem x xs || has_duplicates xs

-- the elements of a set, each once
unfoldable pub unique : List String → List String
unfolding elem
unique [] = []
unique (x ∷ xs) = let rest = unique xs in if elem x xs then rest else x ∷ rest

-- the loop that refuses unknown dependencies
unfoldable pub check_known : List String → List SwarmTask → Outcome (Unit {0})
check_known task_ids [] = done tt
check_known task_ids (t ∷ ts) =
    let missing = keep_if (λ d. not (elem d task_ids)) t.depends_on in
    let rest = check_known task_ids ts in
    if ltb 0 (length missing)
    then failed (
        value_error (
          joined (
            "unknown task dependencies for "
            ∷ t.task_id
            ∷ ": "
            ∷ join ", " (sort text_leb (unique missing))
            ∷ [])))
    else rest

-- `validate_graph`, and the limit on the field `tasks`
unfoldable pub validate_graph : List SwarmTask → Outcome (List SwarmTask)
validate_graph tasks =
    if eqb (length tasks) 0
    then failed validation_error
    else if has_duplicates (ids tasks)
    then failed (value_error "duplicate task ids are not allowed")
    else (do check_known (ids tasks) tasks; reject_cycles (edges_of tasks); done tasks)

unfoldable pub is_completed : SwarmTaskStatus → Bool
is_completed completed = true
is_completed _ = false

unfoldable pub is_pending : SwarmTaskStatus → Bool
is_pending pending = true
is_pending _ = false

unfoldable pub completed_ids : List SwarmTask → List String
unfolding is_completed
completed_ids [] = []
completed_ids (t ∷ ts) =
    if is_completed t.status then t.task_id ∷ completed_ids ts else completed_ids ts

unfoldable pub is_ready : List String → SwarmTask → Bool
unfolding is_pending elem
is_ready completed_set t = is_pending t.status && all_of (λ d. elem d completed_set) t.depends_on

unfoldable pub ready_tasks : List SwarmTask → List SwarmTask
unfolding is_ready completed_ids
ready_tasks tasks = keep_if (is_ready (completed_ids tasks)) tasks
