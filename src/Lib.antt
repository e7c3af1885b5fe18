-- ===== src/Lib.antt =====
-- Cauco keeps a human between a plan and its effects: a plan is reviewed, an approved one gets an
-- execution record, its steps run one by one through tools, mutations are previewed and confirmed,
-- outcomes are verified, and lessons enter the memory only after a review.
--
-- The parts, and the files that model them:
--   * Execution: core/src/cauco_core/execution/models.py and store.py (`ExecutionStore`). Models has the
--     records; Store its state, lookups, events, `list` and `_make_room`; Store/Steps `create`,
--     `append_event`, `record_rejected_attempt`, `start_step` and `finish_step`; Store/Recovering
--     `fail_before_start`, `fail_runtime`, `retry_step`, `skip_failed_step` and `cancel`. Lifecycle says
--     how a method may change a record, Invariant what a store is between two methods, Calls what
--     sequences of calls are. Bindings is bindings.py there: the outputs of earlier steps in the input of
--     a step.
--   * Recovery: core/src/cauco_core/execution/recovery.py (`RecoveryPolicy`).
--   * Executive: core/src/cauco_core/executive/models.py and service.py (`ExecutiveControlService.decide`),
--     which reads the statuses of a review, an execution and a verification.
--   * Mutations: core/src/cauco_core/mutations/models.py and store.py (`MutationPreviewStore`).
--   * Verification: core/src/cauco_core/verification/models.py, store.py (`VerificationStore`) and, in
--     Service, what service.py concludes from the step records and the tool results of an execution.
--   * Services: what reads several stores at once. Verify is `verify` of
--     core/src/cauco_core/verification/service.py, Resolve core/src/cauco_core/executive/resolver.py,
--     Create `ExecutionService.create` of core/src/cauco_core/execution/service.py.
--   * Proposals: core/src/cauco_core/memory_writing/store.py (`MemoryWriteProposalStore`).
--   * Candidates: core/src/cauco_core/memory_candidates/models.py and store.py (`MemoryCandidateStore`).
--   * Tools: tools/src/cauco_tools. Value and Result model execution.py (`ToolExecutionResult`, JSON
--     values), Models models.py (tools, operations and their checks), Registry registry.py and
--     adapter_registry.py.
--   * Agents: agents/src/cauco_agents/models.py: requests, routings, contexts and plans (Models), and the
--     step output bindings in the inputs of operations with their JSON (Bindings).
--   * Reviews: the human review of a plan. Models is agents/src/cauco_agents/review.py; Payload (the JSON
--     under the digest of a snapshot) and Store (`AgentPlanReviewStore`) are
--     core/src/cauco_core/agents/review_store.py. Store has the parts that the methods share, Store/Methods
--     the methods, Store/Intact what they keep of a stored review, Store/Calls sequences of calls.
--   * Base: dictionaries, sorting, methods with exceptions, identifiers, and the environment, which is
--     the injected clock and `secrets.token_urlsafe`, by the number of the call. Base/Evolution is what
--     stores under issued identifiers share.
--   * Examples: concrete inputs for the theorems.
--
-- A method is a function from the store to a result and the store that it leaves, so what was written
-- before an exception stays written. Each store has a lock around each method, so a method is one step
-- and threads are sequences of calls. Times are microseconds as natural numbers; there is no loop that
-- needs fuel. `str.strip`, the printing of a number and the SHA-256 of a JSON text are parameters.
-- So are the classes of typed inputs, where a step's bindings are resolved.
--
-- Not modelled: the SQLite variants of the stores, the HTTP routes, the tool adapters, the agents and
-- the planner, the execution of a step, the checks of workspace paths and the runtime's loop over the
-- steps, the memory's search and files, the scheduler, the native host and the plugins.
pub mod Base
pub mod Tools
pub mod Agents
pub mod Reviews
pub mod Execution
pub mod Recovery
pub mod Executive
pub mod Mutations
pub mod Verification
pub mod Proposals
pub mod Candidates
pub mod Services
pub mod Examples
