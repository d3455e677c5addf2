-- ===== src/Actions/Review/Rejection.antt =====
-- What a rejection that succeeds has checked and done (`reject_task` of task_actions.py).
use agenticqueue.Base.{
  ℕ, suc, ◌≡◌, refl, sym, ap, subst, ◌∙◌, String, Bool, true, false, Option, none, some, List, ok,
  ◌==◌, ==_iff, string_eq, Bool-cases, inl, inr, nat_eq, if◌then◌else◌, leb,
}
use agenticqueue.Task.{
  Task, TaskState, validated, rejected, queued, update_task, state_value, task_state,
  task_state-state_value,
}
use agenticqueue.Transition.{TransitionPolicy, TransitionResult, move}
use agenticqueue.Transition.Permit.{Permitted}
use agenticqueue.Transition.Outcomes.{state-move, escalation-move, attempt_count-move}
use agenticqueue.Queue.Rows.{find_task, find_task-In, find_task-update_where}
use agenticqueue.Store.{Session, ◌>>=◌, ◌>>◌, reads, write_audit, rejection}
use agenticqueue.Store.Rules.{>>=-ok, reads-ok, reads->>=-ok}
use agenticqueue.Actions.Common.{
  Actor, Env, TaskView, is_authorised, effective_policy, report_dlq, retry_view,
}
use agenticqueue.Actions.Granted.{
  require_task-ok, require_state-ok, ensure_capability-ok, transition_or_conflict-ok,
}
use agenticqueue.Actions.Failure.{report_dlq-count}
use agenticqueue.Actions.Review.{
  reject_task, reject_awaiting, finish_rejection, plain_request, rejected_row, reason_details,
  write_row, task_audit,
}

-- The row that a rejection leaves: one attempt is spent, the claim is gone, and the task is
-- dead-lettered when no attempt is left.
abbrev pub sent_back : Env → TransitionPolicy → Option String → Task → Task
sent_back env p reason t = record t {
  attempt_count = suc t.attempt_count;
  last_failure = some (record {
    error_code = "rejected";
    message = "Task was rejected during review";
    details = reason_details reason;
    occurred_at = env.now;
  });
  state = if leb p.max_retries (suc t.attempt_count) then "dlq" else "queued";
  claimed_by_actor_id = none;
  claimed_at = none;
}

-- What a rejection has checked in the session `s`, and what it has left in `after`.
pub record Rejected (env : Env) (actor : Actor) (task_id : ℕ) (reason : Option String)
    (s after : Session) : Type 0 where
  pub row : Task
  pub policy : TransitionPolicy
  pub found : find_task task_id s.working.tasks ≡ some row
  pub awaited_review : row.state ≡ "validated"
  pub entitled : is_authorised env actor update_task row s.working ≡ true
  pub governed : effective_policy env row s.working ≡ ok policy
  pub permitted : Permitted policy row validated rejected (plain_request env 0 none false)
  pub returned : find_task task_id after.working.tasks ≡ some (sent_back env policy reason row)
  pub counted :
      after.dlq_count
      ≡ (if leb policy.max_retries (suc row.attempt_count) then suc s.dlq_count else s.dlq_count)

module _ (env : Env) (actor : Actor) (task_id : ℕ) (reason : Option String) where
  rejected_row-sent_back :
      (p : TransitionPolicy) (allowed : List TaskState) (t : Task)
      → rejected_row env actor
          (move p rejected queued allowed (plain_request env t.attempt_count none false))
          reason
          t
        ≡ sent_back env p reason t
  unfolding rejected_row state_value
  rejected_row-sent_back p allowed t =
      let q = plain_request env t.attempt_count none false in
      rw
        (
          escalation-move p q allowed,
          attempt_count-move p q allowed,
          state-move p rejected queued q allowed,
        )
        (elim (Bool-cases (leb p.max_retries (suc t.attempt_count))) [
          | inl e ↦ rw e refl
          | inr e ↦ rw e refl
        ])

  dlq_test : (b : Bool) → ◌==◌ {A = String} (if b then "dlq" else "queued") "dlq" ≡ b
  dlq_test true = refl
  dlq_test false = refl

  report_dlq-ok :
      (n : ℕ) (t : Task) (s s' : Session) {u : Unit {0}}
      → report_dlq env actor n t s ≡ (ok u, s')
      → (s'.working.tasks ≡ s.working.tasks)
        × (s'.dlq_count ≡ (if t.state == "dlq" then suc s.dlq_count else s.dlq_count))
  report_dlq-ok n t s s' h =
      let e : (report_dlq env actor n t s).1 ≡ s' = ap (λ x. x.1) h in
      let (tasks, count) = report_dlq-count env actor n t s in
      (
        sym (ap (λ (x : Session). x.working.tasks) e) ∙ tasks,
        sym (ap (λ (x : Session). x.dlq_count) e) ∙ count,
      )

  -- The row is written, and nothing after that changes it.
  finish_rejection-ok :
      (t : Task) (p : TransitionPolicy) (first second : TransitionResult) (s s' : Session)
      {v : TaskView}
      → rejected_row env actor second reason t ≡ sent_back env p reason t
      → find_task task_id s.working.tasks ≡ some t
      → finish_rejection env actor t p first second reason s ≡ (ok v, s')
      → (find_task task_id s'.working.tasks ≡ some (sent_back env p reason t))
        × (s'.dlq_count
            ≡ (if leb p.max_retries (suc t.attempt_count) then suc s.dlq_count else s.dlq_count))
  unfolding finish_rejection ◌>>=◌ write_audit
  finish_rejection-ok t p first second s s' same f h =
      let row = rejected_row env actor second reason in
      let audited : Session =
        ((do
          write_row t.id row
          write_audit (
              task_audit actor t.id "JOB_REJECTED"
                (rejection (row t).state (state_value first.state) second.attempt_count reason)))
          s).1 in
      let (_, reported, r, view) =
        >>=-ok (report_dlq env actor p.max_retries (row t))
          (λ _. reads (λ db. ok (retry_view env p (row t) db))) audited s' h in
      let (tasks, count) = report_dlq-ok p.max_retries (row t) audited reported r in
      let last : s' ≡ reported = (reads-ok _ reported s' view).1 in
      let is_row : t.id ≡ task_id = (find_task-In task_id s.working.tasks t f).1 in
      (
        ap (λ (x : Session). find_task task_id x.working.tasks) last
            ∙ ap (find_task task_id) tasks
            ∙ find_task-update_where t.id task_id row s.working.tasks
                (λ _. unfold rejected_row in refl)
            ∙ rw ((==_iff t.id task_id).1 is_row, f) (ap some same),
        ap (λ (x : Session). x.dlq_count) last
            ∙ count
            ∙ ap (λ (x : Task). if x.state == "dlq" then suc s.dlq_count else s.dlq_count) same
            ∙ ap (λ b. if b then suc s.dlq_count else s.dlq_count)
                (dlq_test (leb p.max_retries (suc t.attempt_count))),
      )

  -- A rejection succeeds only on a row that awaits review, for an actor who may update the task,
  -- and when the policy lets the task be rejected. It spends one attempt and gives the task back to
  -- the queue unclaimed or, when the policy's attempts are used up, dead-letters and counts it.
  pub reject_task-Rejected :
      (s s' : Session) {v : TaskView}
      → reject_task env actor task_id reason s ≡ (ok v, s')
      → Rejected env actor task_id reason s s'
  unfolding reject_task reject_awaiting
  reject_task-Rejected s s' h =
      let (t, s1, e1, h1) = >>=-ok _ _ s s' h in
      let (found, q1) = require_task-ok task_id s s1 e1 in
      let (_, s2, e2, h2) = >>=-ok _ _ s1 s' h1 in
      let (st, q2) = require_state-ok _ _ t s1 s2 e2 in
      let (_, s3, e3, h3) = >>=-ok _ _ s2 s' h2 in
      let (entitled, q3) = ensure_capability-ok env actor _ t s2 s3 e3 in
      let (policy, e4, h4) = reads->>=-ok _ _ s3 s' h3 in
      let (first, e5, h5) = reads->>=-ok _ _ s3 s' h4 in
      let (second, e6, h6) = reads->>=-ok _ _ s3 s' h5 in
      let same : s3 ≡ s = q3 ∙ q2 ∙ q1 in
      let at_state : task_state t.state ≡ some validated =
        ap task_state st ∙ task_state-state_value validated in
      let (permitted, moved) =
        transition_or_conflict-ok env _ policy t validated rejected _ at_state e5 in
      let between : task_state (state_value first.state) ≡ some rejected =
        ap (λ (x : TransitionResult). task_state (state_value x.state)) moved
        ∙ ap (λ x. task_state (state_value x)) (state-move policy validated rejected _ _)
        ∙ task_state-state_value rejected in
      let (_, requeued) =
        transition_or_conflict-ok env _ policy (record t { state = state_value first.state })
          rejected queued _ between e6 in
      let row : rejected_row env actor second reason t ≡ sent_back env policy reason t =
        ap (λ x. rejected_row env actor x reason t) requeued ∙ rejected_row-sent_back policy _ t in
      let (returned, counted) =
        finish_rejection-ok t policy first second s3 s' row
          (subst (λ x. find_task task_id x.working.tasks ≡ some t) (sym same) found) h6 in
      record {
        row = t;
        policy = policy;
        found = found;
        awaited_review = st ∙ unfold state_value in refl;
        entitled =
            subst (λ x. is_authorised env actor update_task t x.working ≡ true) (q2 ∙ q1) entitled;
        governed = subst (λ x. effective_policy env t x.working ≡ ok policy) same e4;
        permitted = permitted;
        returned = returned;
        counted =
            subst
              (λ x. s'.dlq_count ≡ (
                if leb policy.max_retries (suc t.attempt_count)
                then suc x.dlq_count
                else x.dlq_count))
              same counted;
      }
