-- ===== src/Actions/Review/Approval.antt =====
-- What an approval that succeeds has checked and done (`approve_task` of task_actions.py).
use agenticqueue.Base.{
  ℕ, ◌≡◌, refl, sym, ap, subst, ◌∙◌, String, true, Option, some, ok, ==_iff, string_eq, nat_eq,
}
use agenticqueue.Task.{
  Task, done, validated, update_task, state_value, task_state, task_state-state_value,
}
use agenticqueue.Dod.{DodReport}
use agenticqueue.Transition.{TransitionPolicy, TransitionResult}
use agenticqueue.Transition.Permit.{Permitted}
use agenticqueue.Transition.Outcomes.{state-move}
use agenticqueue.Queue.{free_row, update_where}
use agenticqueue.Queue.Rows.{find_task, find_task-In, find_task-update_where}
use agenticqueue.Store.{Session, ◌>>=◌, reads, writes, write_audit}
use agenticqueue.Store.Rules.{>>=-ok, reads->>=-ok}
use agenticqueue.Actions.Common.{
  Actor, Env, TaskView, is_authorised, effective_policy, latest_dod_report,
}
use agenticqueue.Actions.Granted.{
  require_task-ok, require_state-ok, require_report-ok, ensure_capability-ok,
  transition_or_conflict-ok,
}
use agenticqueue.Actions.Dependents.{unblock_ready_dependents}
use agenticqueue.Actions.Dependents.Ready.{unblock_ready_dependents-done}
use agenticqueue.Actions.Review.{
  approve_task, approve_awaiting, finish_approval, plain_request, write_row,
}

-- What an approval has checked in the session `s`, and the row that it has left in `after`.
pub record Approved (env : Env) (actor : Actor) (task_id : ℕ) (s after : Session) : Type 0 where
  pub row : Task
  pub report : DodReport
  pub policy : TransitionPolicy
  pub found : find_task task_id s.working.tasks ≡ some row
  pub awaited_review : row.state ≡ "validated"
  pub entitled : is_authorised env actor update_task row s.working ≡ true
  pub reported : latest_dod_report env row.id s.working ≡ some report
  pub governed : effective_policy env row s.working ≡ ok policy
  pub permitted : Permitted policy row validated done (plain_request env 0 (some report) true)
  pub closed : find_task task_id after.working.tasks ≡ some (free_row "done" row)

module _ (env : Env) (actor : Actor) (task_id : ℕ) where
  -- The row after the assignment, and after the dependents were looked at.
  closed_row :
      (t : Task) (r : TransitionResult) (s : Session)
      → r.state ≡ done
      → find_task task_id s.working.tasks ≡ some t
      → find_task task_id (update_where t.id (free_row (state_value r.state)) s.working.tasks)
        ≡ some (free_row "done" t)
  unfolding state_value
  closed_row t r s st f =
      let is_row : t.id ≡ task_id = (find_task-In task_id s.working.tasks t f).1 in
      find_task-update_where t.id task_id _ s.working.tasks (λ _. refl)
      ∙ rw ((==_iff t.id task_id).1 is_row, f, st) refl

  finish_approval-ok :
      (t : Task) (p : TransitionPolicy) (r : TransitionResult) (reason : Option String)
      (s s' : Session) {v : TaskView}
      → r.state ≡ done
      → find_task task_id s.working.tasks ≡ some t
      → finish_approval env actor t p r reason s ≡ (ok v, s')
      → find_task task_id s'.working.tasks ≡ some (free_row "done" t)
  unfolding finish_approval ◌>>=◌ write_audit reads writes unblock_ready_dependents
  finish_approval-ok t p r reason s s' st f h =
      let written : Session = (write_row t.id (free_row (state_value r.state)) s).1 in
      let stays =
        unblock_ready_dependents-done t.id (some actor.id) written task_id (free_row "done" t)
          (closed_row t r s st f) refl in
      sym (ap (λ x. find_task task_id x.1.working.tasks) h) ∙ stays

  -- An approval succeeds only on a row that awaits review, for an actor who may update the task,
  -- with a persisted report, and when the policy permits it; the row is then done and unclaimed,
  -- and the dependents that it unblocked did not change it.
  pub approve_task-Approved :
      (reason : Option String) (s s' : Session) {v : TaskView}
      → approve_task env actor task_id reason s ≡ (ok v, s')
      → Approved env actor task_id s s'
  unfolding approve_task approve_awaiting
  approve_task-Approved reason s s' h =
      let (t, s1, e1, h1) = >>=-ok _ _ s s' h in
      let (found, q1) = require_task-ok task_id s s1 e1 in
      let (_, s2, e2, h2) = >>=-ok _ _ s1 s' h1 in
      let (st, q2) = require_state-ok _ _ t s1 s2 e2 in
      let (_, s3, e3, h3) = >>=-ok _ _ s2 s' h2 in
      let (entitled, q3) = ensure_capability-ok env actor _ t s2 s3 e3 in
      let (report, e4, h4) = reads->>=-ok _ _ s3 s' h3 in
      let (policy, e5, h5) = reads->>=-ok _ _ s3 s' h4 in
      let (result, e6, h6) = reads->>=-ok _ _ s3 s' h5 in
      let same : s3 ≡ s = q3 ∙ q2 ∙ q1 in
      let at_state : task_state t.state ≡ some validated =
        ap task_state st ∙ task_state-state_value validated in
      let (permitted, moved) =
        transition_or_conflict-ok env _ policy t validated done _ at_state e6 in
      record {
        row = t;
        report = report;
        policy = policy;
        found = found;
        awaited_review = st ∙ unfold state_value in refl;
        entitled =
            subst (λ x. is_authorised env actor update_task t x.working ≡ true) (q2 ∙ q1) entitled;
        reported =
            subst (λ x. latest_dod_report env t.id x.working ≡ some report) same
              (require_report-ok _ e4);
        governed = subst (λ x. effective_policy env t x.working ≡ ok policy) same e5;
        permitted = permitted;
        closed =
            finish_approval-ok t policy result reason s3 s'
              (ap (λ (x : TransitionResult). x.state) moved ∙ state-move policy validated done _ _)
              (subst (λ x. find_task task_id x.working.tasks ≡ some t) (sym same) found) h6;
      }
