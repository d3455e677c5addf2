-- ===== src/Lib.antt =====
-- agenticqueue: the task lifecycle, the claim queue and the services around them.
--
-- The program (apps/api/src/agenticqueue_api) is a service in which agents claim tasks, work on them
-- and submit results that people or policies approve. This library models the part that decides what
-- happens to a task, and proves what that part guarantees.
--
-- The parts and their files:
--   Task, Dod, Json: the rows and values that the parts share: task states and columns (transitions.py,
--     models/task.py, capability_keys.py), definition-of-done reports (dod.py, dod_checks/common.py)
--     and their persisted form (`_dod_report_view`, `_dod_report_from_payload` of task_actions.py).
--   Transition: `apply_transition` of transitions.py, guard by guard; Transition/CodingTask the policy
--     of task_types/coding-task.policy.yaml and the histories it allows.
--   Queue: repo/queue.py, claiming, releasing and reclaiming rows of the task table.
--   Capability: capabilities.py and models/capability.py, grants and the authorisation test.
--   Policy, Retry: policy/resolver.py with `_resolved_policy` of compiler.py, which attached policy
--     governs a task, and task_retry.py, how many attempts it has.
--   Edge: models/edge.py and the test for active edges of repo/graph.py.
--   Graph: `shortest_path` and `ensure_dependency_edge_is_acyclic` of repo/graph.py.
--   Lifecycle: `supersede` and `expire` of learnings/lifecycle.py. Promotion: learnings/promotion.py, the
--     flags of eligible learnings and their promotion to the next scope.
--   Store: the tables, the session of a request with commit and rollback (`get_db_session` of app.py),
--     and the monad of steps that read, write and raise; Store/Rules how to take such a chain apart.
--   Actions: task_actions.py. Common has the steps that the actions share, Dependents what a done task
--     unblocks, Review `approve_task`, `reject_task` and `unlock_task_escrow`, Submission and Submit
--     `submit_task`.
--     Their proofs stand below them: Granted and Failure for shared steps, Review/Approval,
--     Review/Rejection and Review/Refused, Submit/Evaluation, Submit/Writes, Submit/Accepted,
--     Submit/Invalid and Submit/Contract (with the validator of Validator in place of the parameter),
--     Dependents/Edges, Dependents/Loop and Dependents/Ready.
--   PacketCache: packet_cache.py, the cache of compiled packets, its eviction and its invalidation;
--     PacketInvalidation: packet_invalidation.py, what a row change tells it.
--   Validator: validator.py, the validation of a submission; Dod/Contract and Dod/Checks: dod.py, the
--     items of a contract and the runner of its declared checks (with dod_checks/common.py).
--   Idempotency, RateLimit, PayloadLimits: the middleware in middleware/idempotency.py (with Errors for
--     errors.py and Ulid for its keys),
--     middleware/rate_limit.py and middleware/payload_limits.py. Idempotency/Memory has the abstract
--     server that the first refines, Idempotency/Replay what a repeated request gets, RateLimit/Bounds
--     and RateLimit/Wait how much the limiter lets through and when.
--   Pagination: pagination.py and `list_entities` of crud.py; Pagination/Order the order of the cursor,
--     Pagination/Pages the walk of a client through the pages.
--   Base: numbers, tests, lists, text and results that all parts use; Tests: runs of the definitions.
--
-- How they interact: an action takes the row from the task table, asks Capability whether the actor may
-- act (Policy and Retry give the policy in force), lets Transition decide, and writes the row, a run,
-- artifacts, edges and audit rows through Store; a task that is done goes to Dependents, which reads
-- the edges; Queue hands out what is queued; PacketInvalidation tells PacketCache of a row change. A
-- submission is checked by Validator, which runs Dod/Checks. A request reaches an action through
-- PayloadLimits, RateLimit and Idempotency, in this order.
--
-- Choices of the model:
--   - A table is a list of rows in the order of creation, an id is a number, a time is a number of
--     microseconds. `ORDER BY created_at, id` is then the order of the list.
--   - A computation is a function from the session to a result and a session. An exception is the result
--     `err`, and what was written before it stays in the session until the request rolls it back.
--   - Rows that other transactions hold are a parameter, `locked`, of the queue's operations.
--   - Parameters, in the records Env and SubmitEnv: the task-type and policy files, the submission
--     validator and schema, the packet compiler (reduced to the version row that it adds), the texts of
--     ids and of notes, the language's rendering of JSON values and the clock. Others are arguments of
--     the definitions that use them: `uuid.UUID` for PacketCache, PacketInvalidation and Idempotency, the
--     digest and the application for Idempotency, the parsers of JSON and of submissions, the schema
--     check, the handlers of the declared checks, `str` of a number, and upper and lower case.
--   - The tokens of RateLimit are whole millionths and its rate is a whole number, where the code has
--     floating point; times are given to its operations and to those of Idempotency.
--   - Idempotency answers requests one after the other; a run in Tests/Idempotency shows what happens
--     when two of them interleave.
--   - A note of a transition, and the dictionary of an audit row, are data with the values that the code
--     formats. The details of an HTTP error are left out, its status and message are kept.
--   - `strip`, `isdigit` and `int` are those of the language on ASCII text.
--   - Loops are structural recursion over the rows that they run over, the breadth-first search is
--     recursion on fuel, of which Graph gives enough.
--
-- Not modelled: the HTTP and MCP surface, roles and authentication, the handlers of the declared checks,
-- packet assembly, retrieval and memory, learning drafts, deduplication and ranking, the redaction of
-- secrets, the text of cursors, repository scopes, migrations and configuration. The threads of the
-- packet cache are left out; each of its methods runs under its lock.
pub mod Base
pub mod Json
pub mod Task
pub mod Dod
pub mod Transition
pub mod Queue
mod Tests
pub mod Capability
pub mod Policy
pub mod Retry
pub mod Edge
pub mod Store
pub mod Actions
pub mod PacketCache
pub mod Graph
pub mod Lifecycle
pub mod RateLimit
pub mod Errors
pub mod Ulid
pub mod Idempotency
pub mod Pagination
pub mod Promotion
pub mod Validator
pub mod PayloadLimits
pub mod PacketInvalidation
