-- ===== src/Task.antt =====
-- A task's lifecycle states and the columns of a task row (transitions.py, models/task.py,
-- capability_keys.py under apps/api/src/agenticqueue_api).
use agenticqueue.Base.{
  ℕ, ◌≡◌, String, Option, none, some, List, refl, Eq, string_eq, ◌==◌, dec_beq, dec_beq_iff,
  if◌then◌else◌,
}
use agenticqueue.Json.{Json}
use agenticqueue.Base.Int.{ℤ}

-- `TaskState`
pub data TaskState : Type 0 where
  queued claimed in_progress submitted validated done rejected dlq blocked parked
        needs_ghost_triage :
      TaskState

unfoldable pub TaskState-discrete : Discrete TaskState
TaskState-discrete = hlevel

instance abbrev pub task_state_eq : Eq TaskState
task_state_eq = record {
  beq = dec_beq TaskState-discrete;
  beq_iff = dec_beq_iff TaskState-discrete;
}

-- `state.value`
unfoldable pub state_value : TaskState → String
state_value queued = "queued"
state_value claimed = "claimed"
state_value in_progress = "in_progress"
state_value submitted = "submitted"
state_value validated = "validated"
state_value done = "done"
state_value rejected = "rejected"
state_value dlq = "dlq"
state_value blocked = "blocked"
state_value parked = "parked"
state_value needs_ghost_triage = "needs_ghost_triage"

-- `TaskState(text)`; `none` is the `ValueError`.
unfoldable pub task_state : String → Option TaskState
task_state s =
    if s == "queued"
    then some queued
    else if s == "claimed"
    then some claimed
    else if s == "in_progress"
    then some in_progress
    else if s == "submitted"
    then some submitted
    else if s == "validated"
    then some validated
    else if s == "done"
    then some done
    else if s == "rejected"
    then some rejected
    else if s == "dlq"
    then some dlq
    else if s == "blocked"
    then some blocked
    else if s == "parked"
    then some parked
    else if s == "needs_ghost_triage"
    then some needs_ghost_triage
    else none

pub task_state-state_value : (s : TaskState) → task_state (state_value s) ≡ some s
unfolding task_state state_value
task_state-state_value queued = refl
task_state-state_value _ = refl

-- `CapabilityKey`
pub data CapabilityKey : Type 0 where
  read_repo write_branch run_tests query_graph search_memory create_artifact update_task
        trigger_handoff read_learnings write_learning promote_learning admin :
      CapabilityKey

unfoldable pub CapabilityKey-discrete : Discrete CapabilityKey
CapabilityKey-discrete = hlevel

instance abbrev pub capability_key_eq : Eq CapabilityKey
capability_key_eq = record {
  beq = dec_beq CapabilityKey-discrete;
  beq_iff = dec_beq_iff CapabilityKey-discrete;
}

-- `capability.value`
unfoldable pub capability_text : CapabilityKey → String
capability_text read_repo = "read_repo"
capability_text write_branch = "write_branch"
capability_text run_tests = "run_tests"
capability_text query_graph = "query_graph"
capability_text search_memory = "search_memory"
capability_text create_artifact = "create_artifact"
capability_text update_task = "update_task"
capability_text trigger_handoff = "trigger_handoff"
capability_text read_learnings = "read_learnings"
capability_text write_learning = "write_learning"
capability_text promote_learning = "promote_learning"
capability_text admin = "admin"

-- The dictionary that `_failure_payload` builds. Its `details` are kept as JSON.
pub record Failure : Type 0 where
  pub error_code : String
  pub message : String
  pub details : Json
  pub occurred_at : ℕ

-- The columns of `TaskRecord` that the modelled code reads or writes. A time is the number of
-- microseconds since some origin, an id a number.
pub record Task : Type 0 where
  pub id : ℕ
  pub project_id : ℕ
  pub policy_id : Option ℕ
  pub task_type : String
  pub state : String
  pub priority : ℤ
  pub labels : List String
  pub sequence : ℕ
  pub claimed_by_actor_id : Option ℕ
  pub claimed_at : Option ℕ
  pub contract : List (String × Json)
  pub attempt_count : ℕ
  pub last_failure : Option Failure
