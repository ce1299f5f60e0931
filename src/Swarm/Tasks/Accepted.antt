-- ===== src/Swarm/Tasks/Accepted.antt =====
-- vad/swarm/tasks.py: which graphs of tasks `SwarmTaskGraph` accepts.
use verified_agentic_develop.Prelude.{
  clash, All-map, String, Bool, true, false, not, List, [], ◌∷◌, some, Error, ◌≡◌, refl, ◌==◌,
  eq_refl, eq_iff, elem, All, ℕ, ◌<◌, ◌⊎◌, inl, inr, arith, Bool-cases, Memᴰ, if_true, if_false,
  length, keep_if, ◌||◌, subst, ◌↔◌, ltb, eqb,
}
use mathlib.Core.List.Memᴰ
use verified_agentic_develop.Swarm.Tasks.{
  SwarmTask, Outcome, done, failed, out_of_fuel, Edges, deps_of, Marks, keys, reject_cycles, ids,
  edges_of, has_duplicates, check_known, validate_graph,
}
use verified_agentic_develop.Swarm.Tasks.Search.{
  All-elem, IsKnown, keys-IsKnown, IsRanked, IsClosed, reject_cycles-ends, reject_cycles-accepts,
  reject_cycles-IsRanked,
}

pub elem_iff : (x : String) (xs : List String) → (elem x xs ≡ true) ↔ Memᴰ x xs
unfolding elem
elem_iff x [] = (λ h. cc, λ m. absurd (Memᴰ.not-nil m))
elem_iff x (y ∷ ys) = elim (Bool-cases (x == y)) [
  | inl e ↦ (λ h. Memᴰ.head ((eq_iff x y).0 e), λ m. if_true _ _ e)
  | inr e ↦ rw (if_false {b = x == y} _ _ e) (
    λ h. Memᴰ.tail ((elem_iff x ys).0 h),
    λ m. elim (Memᴰ.cases_cons m) [
      | inl same ↦ cc (subst (λ k. (x == k) ≡ true) same (eq_refl x))
      | inr later ↦ (elem_iff x ys).1 later
    ],
  )
]

-- no text occurs twice
abbrev pub AllDistinct : List String → Type 0
AllDistinct [] = Unit
AllDistinct (x ∷ xs) = (¬ Memᴰ x xs) × AllDistinct xs

or_false : (a b : Bool) → (a || b) ≡ false → (a ≡ false) × (b ≡ false)
or_false a b h = ground arith

pub not_elem : (x : String) (xs : List String) → ¬ Memᴰ x xs → elem x xs ≡ false
not_elem x xs absent = elim (Bool-cases (elem x xs)) [
  | inl e ↦ absurd (absent ((elem_iff x xs).0 e))
  | inr e ↦ e
]

has_duplicates_iff : (xs : List String) → (has_duplicates xs ≡ false) ↔ AllDistinct xs
unfolding has_duplicates
has_duplicates_iff [] = (λ h. tt, λ h. refl)
has_duplicates_iff (x ∷ xs) = (
  λ h.
      let (here, rest) = or_false _ _ h in
      (λ m. clash ((elem_iff x xs).1 m) here, (has_duplicates_iff xs).0 rest),
  λ (absent, rest). rw (not_elem x xs absent) ((has_duplicates_iff xs).1 rest),
)

-- A graph of tasks as the validator means it: there are tasks, their ids differ, each dependency is
-- a task, and some rank puts each dependency below the task that waits for it.
pub record IsGraph (tasks : List SwarmTask) : Type 0 where
  pub inhabited : 0 < length tasks
  pub distinct : AllDistinct (ids tasks)
  pub known : All (λ t. All (λ d. Memᴰ d (ids tasks)) t.depends_on) tasks
  pub rank : String → ℕ
  pub ranked : All (λ t. All (λ d. rank d < rank t.task_id) t.depends_on) tasks

task_of :
    (P : SwarmTask → Type 0) (tasks : List SwarmTask) (x : String) (deps : List String)
    → All P tasks
    → deps_of (edges_of tasks) x ≡ some deps
    → (t : SwarmTask) × P t × (t.task_id ≡ x) × (t.depends_on ≡ deps)
unfolding deps_of
task_of P [] x deps all = λ h. cc
task_of P (t ∷ ts) x deps all = elim (Bool-cases (t.task_id == x)) [
  | inl e ↦ rw (if_true {b = t.task_id == x} _ _ e) (λ h. (t, all.0, (eq_iff _ _).0 e, cc))
  | inr e ↦ rw (if_false {b = t.task_id == x} _ _ e) (λ h. task_of P ts x deps all.1 h)
]

keys-edges_of : (tasks : List SwarmTask) → keys (edges_of tasks) ≡ ids tasks
keys-edges_of [] = refl
keys-edges_of (t ∷ ts) = rw (keys-edges_of ts) refl

lookup_later :
    (k : String) (deps : List String) (es : Edges) (ts : List SwarmTask)
    → ¬ Memᴰ k (ids ts)
    → All (λ t. deps_of es t.task_id ≡ some t.depends_on) ts
    → All (λ t. deps_of ((k, deps) ∷ es) t.task_id ≡ some t.depends_on) ts
unfolding deps_of
lookup_later k deps es [] absent all = tt
lookup_later k deps es (t ∷ ts) absent all = (
  elim (Bool-cases (k == t.task_id)) [
    | inl e ↦ absurd (absent (Memᴰ.head ((eq_iff _ _).0 e)))
    | inr e ↦ rw (if_false {b = k == t.task_id} _ _ e) all.0
  ],
  lookup_later k deps es ts (λ m. absent (Memᴰ.tail m)) all.1,
)

-- in a list of tasks with distinct ids each task is found by its id
lookup_own :
    (tasks : List SwarmTask)
    → AllDistinct (ids tasks)
    → All (λ t. deps_of (edges_of tasks) t.task_id ≡ some t.depends_on) tasks
unfolding deps_of
lookup_own [] distinct = tt
lookup_own (t ∷ ts) distinct = (
  if_true _ _ (eq_refl t.task_id),
  lookup_later t.task_id t.depends_on (edges_of ts) ts distinct.0 (lookup_own ts distinct.1),
)

abbrev LowersAll : (String → ℕ) → SwarmTask → Type 0
LowersAll rank t = All (λ d. rank d < rank t.task_id) t.depends_on

edges-IsRanked :
    (rank : String → ℕ) (tasks : List SwarmTask)
    → All (LowersAll rank) tasks
    → IsRanked (edges_of tasks) rank
edges-IsRanked rank tasks ranked x deps h =
    let (t, low, name, same) = task_of (LowersAll rank) tasks x deps ranked h in
    subst (λ k. All (λ d. rank d < rank k) deps) name
      (subst (All (λ d. rank d < rank t.task_id)) same low)

edges-IsClosed :
    (tasks : List SwarmTask)
    → All (λ t. All (λ d. elem d (ids tasks) ≡ true) t.depends_on) tasks
    → IsClosed (edges_of tasks)
edges-IsClosed tasks known x deps h =
    let (t, listed, name, same) = task_of _ tasks x deps known h in
    rw (← same) (
      All-map t.depends_on
        (λ d here.
          All-elem (IsKnown (edges_of tasks)) d (keys (edges_of tasks))
            (rw (keys-edges_of tasks) here) (keys-IsKnown (edges_of tasks)))
        listed)

abbrev AreIn : List String → List String → Type 0
AreIn task_ids = All (λ d. elem d task_ids ≡ true)

abbrev some_missing : List String → List String → Bool
some_missing task_ids ds = ltb 0 (length (keep_if (λ d. not (elem d task_ids)) ds))

some_missing_iff :
    (task_ids ds : List String) → (some_missing task_ids ds ≡ false) ↔ AreIn task_ids ds
some_missing_iff task_ids [] = (λ h. tt, λ h. refl)
some_missing_iff task_ids (d ∷ ds) = elim (Bool-cases (elem d task_ids)) [
  | inl e ↦
      rw e
        (λ h. (refl, (some_missing_iff task_ids ds).0 h), λ h. (some_missing_iff task_ids ds).1 h.1)
  | inr e ↦ rw e (λ h. absurd (ground arith), λ h. absurd (clash {b = false} h.0 refl))
]

check_known-cases :
    (task_ids : List String) (tasks : List SwarmTask)
    → ((check_known task_ids tasks ≡ done tt) × All (λ t. AreIn task_ids t.depends_on) tasks)
      ⊎ ((problem : Error) × (check_known task_ids tasks ≡ failed problem)
          × ¬ All (λ t. AreIn task_ids t.depends_on) tasks)
unfolding check_known
check_known-cases task_ids [] = inl (refl, tt)
check_known-cases task_ids (t ∷ ts) = elim (Bool-cases (some_missing task_ids t.depends_on)) [
  | inl e ↦ inr (_, if_true _ _ e, λ h. clash e ((some_missing_iff task_ids t.depends_on).1 h.0))
  | inr e ↦
      rw (if_false {b = some_missing task_ids t.depends_on} _ _ e)
        (elim (check_known-cases task_ids ts) [
          | inl (fine, known) ↦ inl (fine, ((some_missing_iff task_ids t.depends_on).0 e, known))
          | inr (problem, raised, unknown) ↦ inr (problem, raised, λ h. unknown h.1)
        ])
]

abbrev AreKnown : List SwarmTask → Type 0
AreKnown tasks = All (λ t. AreIn (ids tasks) t.depends_on) tasks

-- `Memᴰ` for the Boolean test
pub to_members :
    (tasks : List SwarmTask) (task_ids : List String)
    → (All (λ t. AreIn task_ids t.depends_on) tasks)
      ↔ All (λ t. All (λ d. Memᴰ d task_ids) t.depends_on) tasks
to_members tasks task_ids = (
  All-map tasks (λ t. All-map t.depends_on (λ d. (elem_iff d task_ids).0)),
  All-map tasks (λ t. All-map t.depends_on (λ d. (elem_iff d task_ids).1)),
)

-- the search on a graph whose dependencies are known
search-cases :
    (tasks : List SwarmTask)
    → AllDistinct (ids tasks)
    → AreKnown tasks
    → ((m : Marks) × (reject_cycles (edges_of tasks) ≡ done m)
        × (rank : String → ℕ) × All (LowersAll rank) tasks)
      ⊎ ((problem : Error) × (reject_cycles (edges_of tasks) ≡ failed problem)
          × ((rank : String → ℕ) → ¬ All (LowersAll rank) tasks))
search-cases tasks distinct known = cases (reject_cycles (edges_of tasks)) refl
  where
    closed : IsClosed (edges_of tasks)
    closed = edges-IsClosed tasks known

    cases :
        (r : Outcome Marks)
        → reject_cycles (edges_of tasks) ≡ r
        → ((m : Marks) × (r ≡ done m) × (rank : String → ℕ) × All (LowersAll rank) tasks)
          ⊎ ((problem : Error) × (r ≡ failed problem)
              × ((rank : String → ℕ) → ¬ All (LowersAll rank) tasks))
    cases (done m) e =
        let (rank, ranked) = reject_cycles-IsRanked (edges_of tasks) m e in
        inl (
          m,
          refl,
          rank,
          All-map tasks (λ t. ranked t.task_id t.depends_on) (lookup_own tasks distinct),
        )
    cases (failed problem) e = inr (
      problem,
      refl,
      λ rank low.
          reject_cycles-accepts (edges_of tasks) rank (edges-IsRanked rank tasks low) closed problem
            e,
    )
    cases out_of_fuel e = absurd (reject_cycles-ends (edges_of tasks) closed e)

-- The validator of a graph ends, without running out of fuel. It returns the tasks exactly if there are
-- some, their ids differ, each dependency is the id of a task, and a rank of the ids puts each dependency
-- below the task that waits for it, so that no task waits for itself through others; any other list of
-- tasks is refused by an exception.
pub validate_graph-cases :
    (tasks : List SwarmTask)
    → ((validate_graph tasks ≡ done tasks) × IsGraph tasks)
      ⊎ ((problem : Error) × (validate_graph tasks ≡ failed problem) × ¬ IsGraph tasks)
unfolding validate_graph
validate_graph-cases tasks = elim (Bool-cases (eqb (length tasks) 0)) [
  | inl e ↦ inr (_, if_true _ _ e, λ g. ground (arith, g.inhabited))
  | inr e ↦
      rw (if_false {b = eqb (length tasks) 0} _ _ e)
        (elim (Bool-cases (has_duplicates (ids tasks))) [
          | inl d ↦
              inr (_, if_true _ _ d, λ g. clash d ((has_duplicates_iff (ids tasks)).1 g.distinct))
          | inr d ↦
              rw (if_false {b = has_duplicates (ids tasks)} _ _ d)
                (elim (check_known-cases (ids tasks) tasks) [
                  | inl (fine, known) ↦
                      rw fine
                        (elim (search-cases tasks ((has_duplicates_iff (ids tasks)).0 d) known) [
                          | inl (m, found, rank, ranked) ↦ inl (
                            rw found refl,
                            record {
                              inhabited = ground (arith, e);
                              distinct = (has_duplicates_iff (ids tasks)).0 d;
                              known = (to_members tasks (ids tasks)).0 known;
                              rank = rank;
                              ranked = ranked;
                            },
                          )
                          | inr (problem, found, none_ranks) ↦
                              inr (problem, rw found refl, λ g. none_ranks g.rank g.ranked)
                        ])
                  | inr (problem, found, unknown) ↦ inr (
                    problem,
                    rw found refl,
                    λ g. unknown ((to_members tasks (ids tasks)).1 g.known),
                  )
                ])
        ])
]
