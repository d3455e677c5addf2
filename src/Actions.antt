-- ===== src/Actions.antt =====
-- Task actions: apps/api/src/agenticqueue_api/task_actions.py.
pub mod Common
pub mod Failure
pub mod Dependents
pub mod Review
pub mod Submission
pub mod Submit
pub mod Granted
