-- ===== src/Actions/Failure.antt =====
-- What a failed attempt leaves (`_record_task_failure` of task_actions.py).
use agenticqueue.Base.{
  ℕ, suc, ◌≡◌, refl, ap, ◌∙◌, String, Bool, true, false, none, some, ok, ◌==◌, ==_refl, string_eq,
  nat_eq, Bool-cases, inl, inr, if◌then◌else◌, leb,
}
use agenticqueue.Task.{Task, Failure, state_value, dlq}
use agenticqueue.Transition.{TransitionPolicy}
use agenticqueue.Retry.{remaining_attempts}
use agenticqueue.Queue.{update_where}
use agenticqueue.Queue.Rows.{find_task, find_task-update_where}
use agenticqueue.Store.{
  Session, ◌>>=◌, ◌>>◌, pure, failure_counts, reads, writes, write_audit, increment_dlq,
}
use agenticqueue.Store.Rules.{>>=-run}
use agenticqueue.Actions.Common.{
  Actor, Env, TaskView, failed_row, report_dlq, record_task_failure, retry_view,
}

-- The row of a failed attempt, which is dead-lettered when no attempt is left.
abbrev pub attempt_spent : ℕ → Failure → Task → Task
attempt_spent n failure t = record t {
  attempt_count = suc t.attempt_count;
  last_failure = some failure;
  state = if leb n (suc t.attempt_count) then "dlq" else "queued";
  claimed_by_actor_id = none;
  claimed_at = none;
}

dlq_test : (b : Bool) → ◌==◌ {A = String} (if b then "dlq" else "queued") "dlq" ≡ b
dlq_test true = refl
dlq_test false = refl

-- What recording a failure of `t` returns and leaves.
pub record Failed (p : TransitionPolicy) (n : ℕ) (failure : Failure) (t : Task) (s after : Session)
    (v : TaskView) : Type 0 where
  pub row : find_task t.id after.working.tasks ≡ some (attempt_spent n failure t)
  pub shown : v.task ≡ attempt_spent n failure t
  pub counted :
      after.dlq_count ≡ (if leb n (suc t.attempt_count) then suc s.dlq_count else s.dlq_count)

module _ (env : Env) (actor : Actor) where
  pub report_dlq-result : (n : ℕ) (t : Task) (s : Session) → (report_dlq env actor n t s).0 ≡ ok tt
  unfolding report_dlq ◌>>=◌ write_audit increment_dlq pure
  report_dlq-result n t s = elim (Bool-cases (t.state == state_value dlq)) [
    | inl b ↦ rw b refl
    | inr b ↦ rw b refl
  ]

  -- A dead-lettered task is counted, and the task table is left alone.
  pub report_dlq-count :
      (n : ℕ) (t : Task) (s : Session)
      → ((report_dlq env actor n t s).1.working.tasks ≡ s.working.tasks)
        × ((report_dlq env actor n t s).1.dlq_count
            ≡ (if t.state == "dlq" then suc s.dlq_count else s.dlq_count))
  unfolding report_dlq state_value ◌>>=◌ write_audit increment_dlq pure
  report_dlq-count n t s = elim (Bool-cases (t.state == "dlq")) [
    | inl e ↦ rw e (refl, refl)
    | inr e ↦ rw e (refl, refl)
  ]

  failed_row-attempt_spent :
      (n : ℕ) (failure : Failure) (t : Task)
      → failed_row env n failure t ≡ attempt_spent n failure t
  unfolding failed_row state_value
  failed_row-attempt_spent n failure t = elim (Bool-cases (leb n (suc t.attempt_count))) [
    | inl e ↦ rw e refl
    | inr e ↦ rw e refl
  ]

  -- Recording a failure never raises.
  pub record_task_failure-Failed :
      (p : TransitionPolicy) (n : ℕ) (failure : Failure) (t : Task) (s : Session)
      → find_task t.id s.working.tasks ≡ some t
      → (v : TaskView) × (after : Session) × (record_task_failure env actor p n failure t s
          ≡ (ok v, after))
        × Failed p n failure t s after v
  unfolding record_task_failure ◌>>=◌ writes write_audit reads
  record_task_failure-Failed p n failure t s f =
      let row = failed_row env n failure t in
      let spent : row ≡ attempt_spent n failure t = failed_row-attempt_spent n failure t in
      let audited : Session =
        ((do
          writes (λ db. record db { tasks = update_where t.id (failed_row env n failure) db.tasks })
          write_audit (record {
            actor_id = some actor.id;
            entity_type = "task";
            entity_id = some t.id;
            action = "JOB_FAILED";
            after =
                failure_counts row.state row.attempt_count n
                  (remaining_attempts row.attempt_count n) row.last_failure;
          }))
          s).1 in
      let after : Session = (report_dlq env actor n row audited).1 in
      let (tasks, count) = report_dlq-count n row audited in
      (
        retry_view env p row after.working,
        after,
        >>=-run (report_dlq env actor n row) (λ _. reads (λ db. ok (retry_view env p row db)))
            audited after (λ i. (report_dlq-result n row audited i, after)),
        record {
          row =
              ap (find_task t.id) tasks
              ∙ find_task-update_where t.id t.id (failed_row env n failure) s.working.tasks
                  (λ _. unfold failed_row in refl)
              ∙ rw (==_refl t.id, f) (ap some spent);
          shown = unfold retry_view in spent;
          counted =
              count
              ∙ ap (λ (x : Task). if x.state == "dlq" then suc s.dlq_count else s.dlq_count) spent
              ∙ ap (λ b. if b then suc s.dlq_count else s.dlq_count)
                  (dlq_test (leb n (suc t.attempt_count)));
        },
      )
