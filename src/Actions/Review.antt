-- ===== src/Actions/Review.antt =====
-- `approve_task`, `reject_task` and `unlock_task_escrow` (task_actions.py).
pub mod Approval
pub mod Rejection
pub mod Refused
use agenticqueue.Base.{
  ℕ, String, Bool, true, false, Option, none, some, List, [], ◌∷◌, ◌==◌, string_eq, nat_eq,
  if◌then◌else◌, Error, value_error, api_error, Result, ok, err,
}
use agenticqueue.Json.{Json, Fields}
use agenticqueue.Task.{
  Task, TaskState, Failure, task_state_eq, update_task, validated, done, rejected, queued, dlq,
  state_value,
}
use agenticqueue.Dod.{DodReport}
use agenticqueue.Transition.{
  TransitionPolicy, TransitionResult, Request, Escalation, max_retries_exceeded, apply_transition,
}
use agenticqueue.Queue.{update_where, free_row, release_claim}
use agenticqueue.Queue.Rows.{find_task}
use agenticqueue.Store.{
  Db, Session, Exec, AuditRow, AuditAfter, approval, rejection, unlocked, ◌>>=◌, ◌>>◌, pure, raise,
  reads, writes, write_audit,
}
use agenticqueue.Actions.Common.{
  Actor, Env, TaskView, require_task, require_state, ensure_capability, effective_policy,
  retry_view, transition_or_conflict, latest_dod_report, report_dlq,
}
use agenticqueue.Actions.Dependents.{unblock_ready_dependents}

-- A call of `apply_transition` as the actions make it: one capability, no time of blocking.
abbrev pub plain_request : Env → ℕ → Option DodReport → Bool → Request
plain_request env attempts report approved = record {
  actor_capabilities = update_task ∷ [];
  attempt_count = attempts;
  dod_report = report;
  blocked_at = none;
  now = env.now;
  human_approved = approved;
}

abbrev pub task_audit : Actor → ℕ → String → AuditAfter → AuditRow
task_audit actor i action after = record {
  actor_id = some actor.id;
  entity_type = "task";
  entity_id = some i;
  action = action;
  after = after;
}

abbrev pub require_report : Option DodReport → Result DodReport
require_report none = err (api_error 409 "Validated task is missing a persisted DoD report")
require_report (some r) = ok r

-- Assigning the row's columns and flushing.
abbrev pub write_row : ℕ → (Task → Task) → Exec (Unit {0})
write_row i f = writes (λ db. record db { tasks = update_where i f db.tasks })

-- `{"reason": reason}`
abbrev pub reason_details : Option String → Json
reason_details none = Json.object (Fields.field "reason" Json.null Fields.end)
reason_details (some r) = Json.object (Fields.field "reason" (Json.text r) Fields.end)

-- `session.get` and the assertion that the row is there
abbrev pub require_row : ℕ → Exec Task
require_row i =
    reads (λ db. elim (find_task i db.tasks) [ none ↦ err (value_error "assert") | some t ↦ ok t ])

module _ (env : Env) (actor : Actor) where
  -- After the guards: the row is written, dependents are unblocked, and the approval is recorded.
  unfoldable pub finish_approval :
      Task → TransitionPolicy → TransitionResult → Option String → Exec TaskView
  finish_approval t policy approved reason = do
    let row = free_row (state_value approved.state)
    write_row t.id row
    ids ← unblock_ready_dependents t.id (some actor.id)
    write_audit (
        task_audit actor t.id "JOB_APPROVED" (approval (state_value approved.state) "human" reason))
    reads (λ db. ok (retry_view env policy (row t) db))

  -- `approve_task` from the capability check on.
  unfoldable pub approve_awaiting : Option String → Task → Exec TaskView
  approve_awaiting reason t = do
    report ← reads (λ db. require_report (latest_dod_report env t.id db))
    policy ← reads (effective_policy env t)
    approved ← reads (λ db.
        transition_or_conflict env "Task cannot be approved in its current state"
          (apply_transition policy t done (plain_request env 0 (some report) true)))
    finish_approval t policy approved reason

  unfoldable pub approve_task : ℕ → Option String → Exec TaskView
  approve_task task_id reason = do
    t ← require_task task_id
    require_state validated "Task must be awaiting approval before it can be approved" t
    ensure_capability env actor update_task t
    approve_awaiting reason t

  abbrev pub is_exhausted : TransitionResult → Bool
  is_exhausted r = elim r.escalation [ some max_retries_exceeded ↦ true | _ ↦ false ]

  -- The row after a rejection.
  unfoldable pub rejected_row : TransitionResult → Option String → Task → Task
  rejected_row requeued reason t = record t {
    attempt_count = requeued.attempt_count;
    last_failure = some (record {
      error_code = "rejected";
      message = "Task was rejected during review";
      details = reason_details reason;
      occurred_at = env.now;
    });
    state = state_value (if is_exhausted requeued then dlq else requeued.state);
    claimed_by_actor_id = none;
    claimed_at = none;
  }

  unfoldable pub finish_rejection :
      Task → TransitionPolicy → TransitionResult → TransitionResult → Option String → Exec TaskView
  finish_rejection t policy intermediate requeued reason = do
    let row = rejected_row requeued reason
    write_row t.id row
    write_audit (
        task_audit actor t.id "JOB_REJECTED"
          (rejection (row t).state (state_value intermediate.state) requeued.attempt_count reason))
    report_dlq env actor policy.max_retries (row t)
    reads (λ db. ok (retry_view env policy (row t) db))

  -- `reject_task` from the capability check on.
  unfoldable pub reject_awaiting : Option String → Task → Exec TaskView
  reject_awaiting reason t = do
    policy ← reads (effective_policy env t)
    intermediate ← reads (λ db.
        transition_or_conflict env "Task cannot be rejected in its current state"
          (apply_transition policy t rejected (plain_request env 0 none false)))
    requeued ← reads (λ db. transition_or_conflict env "Rejected task cannot return to the queue" (
        apply_transition policy (record t { state = state_value intermediate.state }) queued
          (plain_request env t.attempt_count none false)))
    finish_rejection t policy intermediate requeued reason

  unfoldable pub reject_task : ℕ → Option String → Exec TaskView
  reject_task task_id reason = do
    t ← require_task task_id
    require_state validated "Task must be awaiting approval before it can be rejected" t
    ensure_capability env actor update_task t
    reject_awaiting reason t

  -- `release_claim` on the session's task table; other transactions hold the rows of `locked`.
  abbrev pub release_row : (ℕ → Bool) → ℕ → Exec Task
  release_row locked i s =
      let (row, tasks) = release_claim locked i none none "todo" s.working.tasks in
      elim row [
        | none ↦ (err (api_error 404 "Task not found or not unlockable"), s)
        | some t ↦ (ok t, record s { working = record s.working { tasks = tasks } })
      ]

  -- `unlock_task_escrow`; the policy is loaded only for the view that is returned.
  unfoldable pub unlock_task_escrow : (ℕ → Bool) → ℕ → Option String → Exec TaskView
  unlock_task_escrow locked task_id reason = do
    released ← release_row locked task_id
    write_audit (task_audit actor task_id "ESCROW_FORCE_UNLOCKED" (unlocked released.state reason))
    t ← require_row task_id
    policy ← reads (λ db. env.load_transition_policy t.task_type)
    reads (λ db. ok (retry_view env policy t db))
