-- ===== src/Tests.antt =====
-- The properties at concrete inputs, and runs of the definitions.
mod Transition
mod Queue
mod Rows
mod Actions
mod Submissions
mod Cache
mod Rules
mod Graph
mod Lifecycle
mod Limits
mod Promotion
mod Validator
mod Contracts
mod Invalidation
mod Pagination
mod Idempotency
