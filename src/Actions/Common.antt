-- ===== src/Actions/Common.antt =====
-- The steps that the task actions share (task_actions.py), and what they take from outside.
use agenticqueue.Base.{
  ℕ, suc, String, Bool, true, Option, none, some, List, [], ◌∷◌, ◌==◌, nat_eq, string_eq,
  if◌then◌else◌, leb, value_error, api_error, Result, ok, err,
}
use agenticqueue.Base.Results.{and_then}
use agenticqueue.Json.{Json}
use agenticqueue.Task.{
  Task, TaskState, Failure, CapabilityKey, capability_text, queued, dlq, state_value,
}
use agenticqueue.Dod.{DodReport, dod_report_from_payload}
use agenticqueue.Transition.{
  TransitionPolicy, TransitionResult, Outcome, Note, returns, invalid_transition, raises,
}
use agenticqueue.Retry.{resolve_max_attempts, remaining_attempts}
use agenticqueue.Policy.{PolicyLike, ResolvedPolicy, resolved_policy}
use agenticqueue.Capability.{Scope, authorised}
use agenticqueue.Queue.{update_where}
use agenticqueue.Queue.Rows.{find_task}
use agenticqueue.Store.{
  Db, Exec, Run, AuditRow, failure_counts, denied, ◌>>◌, pure, raise, reads, writes, commit,
  increment_dlq, write_audit,
}

pub record Actor : Type 0 where
  pub id : ℕ
  pub actor_type : String

-- `ValidationResult` of validator.py; an issue is kept as the dictionary that `asdict` makes of it.
pub record Validation : Type 0 where
  pub errors : List Json
  pub dod_report : Option DodReport

-- What the actions take from the task-type and policy files, from the submission validator, and
-- from the language and the clock.
pub record Env : Type 0 where
  pub load_transition_policy : String → Result TransitionPolicy
  pub default_policy : PolicyLike
  pub policy_pack : String → Option PolicyLike
  pub uuid_text : ℕ → String
  pub render : Json → String
  pub note_text : Note → String
  pub now : ℕ

-- A `TaskModel` with its retry fields.
pub record TaskView : Type 0 where
  pub task : Task
  pub max_attempts : ℕ
  pub remaining : ℕ

-- `session.get(TaskRecord, task_id)` and the 404
unfoldable pub require_task : ℕ → Exec Task
require_task i = reads (λ db. elim (find_task i db.tasks) [
  | none ↦ err (api_error 404 "Task not found")
  | some t ↦ ok t
])

unfoldable pub require_state : TaskState → String → Task → Exec (Unit {0})
require_state s message t =
    reads (λ db. if t.state == state_value s then ok tt else err (api_error 409 message))

module _ (env : Env) where
  -- `_project_scope`
  unfoldable pub project_scope : Task → Scope
  project_scope t = ("project_id", env.uuid_text t.project_id) ∷ []

  abbrev pub is_authorised : Actor → CapabilityKey → Task → Db → Bool
  is_authorised actor capability t db =
      if actor.actor_type == "admin"
      then true
      else authorised db.grants actor.id capability (project_scope t) env.now

  abbrev pub denial : Actor → CapabilityKey → Task → AuditRow
  denial actor capability t = record {
    actor_id = some actor.id;
    entity_type = "task";
    entity_id = some t.id;
    action = "CAPABILITY_DENIED";
    after = denied (capability_text capability) (project_scope t);
  }

  -- `ensure_actor_has_capability` for a task: a denial is written and committed before the raise.
  unfoldable pub ensure_capability : Actor → CapabilityKey → Task → Exec (Unit {0})
  ensure_capability actor capability t s =
      if is_authorised actor capability t s.working
      then (ok tt, s)
      else (do
        write_audit (denial actor capability t)
        commit
        raise (api_error 403 "Capability grant required"))
          s

  -- `resolve_task_policy`
  unfoldable pub task_policy : Db → Task → ResolvedPolicy
  task_policy db t =
      resolved_policy env.default_policy (env.policy_pack t.task_type) db.projects db.workspaces
        db.policies t

  -- `_effective_transition_policy`
  unfoldable pub effective_policy : Task → Db → Result TransitionPolicy
  effective_policy t db =
      let resolved = task_policy db t in
      and_then {X = TransitionPolicy} {Y = TransitionPolicy}
        (λ base. ok (record base {
          hitl_required = resolved.hitl_required;
          autonomy_tier = resolved.autonomy_tier;
          capabilities = resolved.capabilities;
          max_retries = resolve_max_attempts t.task_type resolved.body base.max_retries;
        }))
        (env.load_transition_policy t.task_type)

  -- `with_retry_fields`, with the transition policy given
  unfoldable pub retry_view : TransitionPolicy → Task → Db → TaskView
  retry_view policy t db =
      let threshold = resolve_max_attempts t.task_type (task_policy db t).body policy.max_retries in
      record {
        task = t;
        max_attempts = threshold;
        remaining = remaining_attempts t.attempt_count threshold;
      }

  -- `_transition_or_conflict` on what `apply_transition` returned or raised
  unfoldable pub transition_or_conflict : String → Outcome → Result TransitionResult
  transition_or_conflict message (raises e) = err e
  transition_or_conflict message (invalid_transition from to allowed) =
      err (value_error "Invalid transition")
  transition_or_conflict message (returns r) = elim r.guard_blocked [
    | none ↦ ok r
    | some g ↦ err (api_error 409 (elim r.note [ none ↦ message | some n ↦ env.note_text n ]))
  ]

  -- `_latest_dod_report`: the run that was created last
  unfoldable pub last_run : ℕ → List Run → Option Run
  last_run i [] = none
  last_run i (r ∷ rs) = elim (last_run i rs) [
    | none ↦ if r.task_id == i then some r else none
    | some later ↦ some later
  ]

  unfoldable pub latest_dod_report : ℕ → Db → Option DodReport
  latest_dod_report i db = elim (last_run i db.runs) [
    | none ↦ none
    | some r ↦ dod_report_from_payload env.render r.dod_report
  ]

  -- The row after a failed attempt, in `_record_task_failure`.
  unfoldable pub failed_row : ℕ → Failure → Task → Task
  failed_row max_attempts failure t = record t {
    attempt_count = suc t.attempt_count;
    last_failure = some failure;
    state = state_value (if leb max_attempts (suc t.attempt_count) then dlq else queued);
    claimed_by_actor_id = none;
    claimed_at = none;
  }

  -- The audit row and the metric of a task that was dead-lettered.
  unfoldable pub report_dlq : Actor → ℕ → Task → Exec (Unit {0})
  report_dlq actor max_attempts t =
      if t.state == state_value dlq
      then (do
        write_audit (record {
          actor_id = some actor.id;
          entity_type = "task";
          entity_id = some t.id;
          action = "JOB_DLQ_ENTERED";
          after = failure_counts t.state t.attempt_count max_attempts 0 t.last_failure;
        })
        increment_dlq)
      else pure tt

  -- `_record_task_failure`
  unfoldable pub record_task_failure : Actor → TransitionPolicy → ℕ → Failure → Task → Exec TaskView
  record_task_failure actor policy max_attempts failure t = do
    let t' = failed_row max_attempts failure t
    writes
        (λ db. record db { tasks = update_where t.id (failed_row max_attempts failure) db.tasks })
    write_audit (record {
      actor_id = some actor.id;
      entity_type = "task";
      entity_id = some t.id;
      action = "JOB_FAILED";
      after =
          failure_counts t'.state t'.attempt_count max_attempts
            (remaining_attempts t'.attempt_count max_attempts) t'.last_failure;
    })
    report_dlq actor max_attempts t'
    reads (λ db. ok (retry_view policy t' db))
