-- ===== src/Lib.antt =====
-- Verified Agentic Development: a model of the core of the package vad.
--
-- The program takes an Executable Intent Package (EIP) with a proof plan and runs it through a loop:
-- effort rules, policy, a model provider, the verifier and the release gates decide how the run
-- ends, and evidence of it is recorded. Beside the loop, a server keeps a control plane in a
-- database: clients lease tasks, and work items move through their states.
--
-- Which file models which part:
--   Contracts, Contracts/Normalize: vad/contracts/models.py and normalize.py (EIP, normalize_eip).
--   Policy: vad/policy/engine.py and decisions.py. `PolicyEngine.evaluate`, which runs the `opa`
--     command, is the parameter `evaluate` of the definitions.
--   Effort, Effort/Numstat, Effort/GitDiff: vad/effort/scoring.py. `git` is the parameter `runner`.
--   Router/Models, Router/Budget: TokenBudget and BudgetManager of vad/router.
--   Release: vad/release/flags.py and gates.py.
--   Proof, Proof/Mapper: vad/proof/plan.py and mapper.py.
--   Guards: vad/guards/execution.py. `subprocess.run` is a parameter.
--   Verify: vad/verify/runner.py and report.py. `shlex.split` and the guard are parameters.
--   Evidence: create_run_evidence and its parts, of vad/evidence/recorder.py and bundle.py.
--   Loop/State: vad/loop/state.py. Loop/Orchestrator and Loop/Orchestrator/Run:
--     vad/loop/orchestrator.py, the long method `run` cut into its phases, in order.
--   ControlPlane/Events, Leases, WorkItems: the records of vad/control_plane with their validators.
--   Server/Table, Server/Store: vad/server/db/store.py, a table as a list of rows with a key.
--   Server/Leases: vad/server/api/leases.py. Server/WorkItems: vad/server/api/work_items.py.
--   Swarm/Agents, Tasks, Coordinator, Leases: vad/swarm/agents.py, tasks.py, coordinator.py,
--     leases.py, with state.py, transport.py and the loop of demo.py.
--   Guards/Filesystem: vad/guards/filesystem.py.
--   Repo/Patch, Apply, Proposal: vad/repo/patch_apply.py, journal.py and diff_workflow.py: the
--     reading of a diff, its application with a journal, and the approval of a proposal.
--   Deploy, Deploy/Provider: the records and the fake provider of vad/deploy.
--   Router/Routing, Router/Privacy, Router/Drift: vad/router/models.py, routing.py, privacy.py and
--     drift.py, with the inventories of vad/router/providers/interface.py.
--   Feedback/Proposals: vad/feedback/proposals.py.
--   ControlPlane/Lifecycle: the states of vad/control_plane/lifecycle.py.
--   The modules below these hold the properties: Loop/History, Loop/Orchestrator/Outcome, Verdict and
--     Passed; Server/Store/Keeps, Server/Leases/Holder and Approval, Server/WorkItems/Transitions,
--     Outcome and Calls; Server/Sequence and below; Policy/Decisions and Deployment; Effort/Scores;
--     Verify/Passed, Guards/Safety, Proof/Mapper/Coverage, Release/Gates; Swarm/Tasks/Search and
--     Accepted, Swarm/Coordinator/Ready, Rounds, Finished and Marked, Swarm/Leases/Misses;
--     Repo/Patch/Script, Repo/Apply/Plan, Rollback and Restore,
--     Repo/Proposal/Approved; Deploy/Provider/Undo, Router/Routing/Safe,
--     Router/Privacy/Hidden, Router/Drift/Allowed,
--     ControlPlane/Lifecycle/Trace, Feedback/Proposals/Fresh, Extends,
--     Distinct, Steps and Applied.
--   Tests: runs at concrete inputs.
--
-- How the code is translated. A pydantic model is a record, and its constructor a function that
-- returns the record or raises. An exception is a value of `Error`; a method that writes is an
-- `Action`, which gives back the state beside the exception too, so what was written before an
-- exception stays written. The clock and generated ids are arguments (`Moment`). A time is a number
-- of microseconds. A float is a type with the operations the code uses (`FloatOps`).
--
-- Lists end every recursion but three, which take fuel: the search for cycles in a task graph
-- (`visit`), whose depth is bounded by the number of tasks, the demonstration loop of the swarm
-- (`run_rounds`), which runs a task in every round, and the search for a free obligation id
-- (`find_free`). The fuel is one more than the number of tasks or of ids, since a path without a
-- cycle visits a task once, a round completes a task, and so many candidates hold a free one. The
-- limit Python sets on recursion is not modelled.
--
-- Files are a function of their path. What the operating system and the standard library give the
-- code (resolution of paths, decoding, digests, `int` of a text, digits) is a parameter (`Disk`,
-- `int_of`, `Digits`). What reading, writing and deleting a file raise, and what a write that raises
-- leaves of it, is `Disk`'s too, and may depend on all that the disk holds.
--
-- A row of `work_items` holds its payload and the two columns that are foreign keys, since a deleted
-- client clears the columns and not the payload. A lease or a work item that is read goes through
-- its constructor again, as it does in the code.
--
-- What is not modelled: the HTTP layer, the command line, the user interface, adapters and telemetry
-- (input and output); signing, providers, plugins and packages (external services); the scheduler of
-- work items and the services over clients, approvals and proposals of the server; the projection of
-- the control plane; questions, retrospectives and memory; the intake of a repository and its git
-- commands.
mod Prelude
pub mod Loop
pub mod Contracts
pub mod Policy
pub mod Effort
pub mod Router
pub mod Release
pub mod Proof
pub mod Guards
pub mod Verify
pub mod Evidence
pub mod ControlPlane
pub mod Server
pub mod Swarm
pub mod Repo
pub mod Deploy
pub mod Feedback
mod Tests
