-- ===== src/Actions/Submit/Accepted.antt =====
-- What an accepted submission has checked and left (`submit_task` of task_actions.py).
use agenticqueue.Base.{
  ap, ℕ, ◌≡◌, refl, sym, subst, ◌∙◌, Bool, true, false, none, some, [], ◌⊎◌, ok, err, api_error,
  string_eq, nat_eq, if◌then◌else◌,
}
use agenticqueue.Json.{Json}
use agenticqueue.Task.{
  Task, in_progress, submitted, validated, done, run_tests, create_artifact, update_task,
  state_value,
}
use agenticqueue.Dod.RoundTrip.{Sound, dod_report_from_payload-dod_report_view}
use agenticqueue.Dod.{DodReport, dod_report_view, dod_report_from_payload}
use agenticqueue.Transition.{TransitionPolicy}
use agenticqueue.Transition.Permit.{Permitted}
use agenticqueue.Queue.{free_row}
use agenticqueue.Queue.Rows.{find_task}
use agenticqueue.Store.{Session, Exec}
use agenticqueue.Store.Rules.{>>=-ok, reads-ok, reads->>=-ok}
use agenticqueue.Actions.Common.{Actor, Env, is_authorised, effective_policy, latest_dod_report}
use agenticqueue.Actions.Granted.{require_task-ok, require_state-ok, ensure_capability-ok}
use agenticqueue.Actions.Submission.{SubmitEnv, SubmitTaskResponse, may_submit, require_claimant}
use agenticqueue.Actions.Submit.{
  step_request, in_state, is_valid, reject_submission, accept_submission, submit_task,
}
use agenticqueue.Actions.Submit.Evaluation.{
  may_submit-owned, is_valid-errors, not-reject_submission, accept_submission-ok,
}

-- What an accepted submission has checked in the session `s`, and what it has left in `after`.
pub record Accepted (env : Env) (senv : SubmitEnv) (actor : Actor) (task_id : ℕ) (payload : Json)
    (s after : Session) : Type 0 where
  pub row : Task
  pub policy : TransitionPolicy
  pub found : find_task task_id s.working.tasks ≡ some row
  pub was_started : row.state ≡ "in_progress"
  pub owned : (actor.actor_type ≡ "admin") ⊎ (row.claimed_by_actor_id ≡ some actor.id)
  pub may_test : is_authorised env actor run_tests row s.working ≡ true
  pub may_create : is_authorised env actor create_artifact row s.working ≡ true
  pub may_update : is_authorised env actor update_task row s.working ≡ true
  pub governed : effective_policy env row s.working ≡ ok policy
  pub valid : (senv.validate_submission row payload).errors ≡ []
  pub may_enter_submitted :
      Permitted policy row in_progress submitted (step_request env senv actor run_tests none)
  pub may_enter_validated :
      Permitted policy
        (in_state env senv actor submitted row)
        submitted
        validated
        (step_request env senv actor update_task (senv.validate_submission row payload).dod_report)
  pub may_enter_done :
      policy.hitl_required ≡ false
      → Permitted policy
          (in_state env senv actor validated (in_state env senv actor submitted row))
          validated
          done
          (step_request env senv actor update_task
            (senv.validate_submission row payload).dod_report)
  pub closed :
      find_task task_id after.working.tasks
      ≡ some (free_row (if policy.hitl_required then "validated" else "done") row)
  pub persisted :
      latest_dod_report env task_id after.working
      ≡ dod_report_from_payload env.render
          (dod_report_view (senv.validate_submission row payload).dod_report)

module _ (env : Env) (senv : SubmitEnv) (actor : Actor) where
  require_claimant-ok :
      (t : Task) (s s' : Session) {u : Unit {0}}
      → require_claimant actor t s ≡ (ok u, s')
      → ((actor.actor_type ≡ "admin") ⊎ (t.claimed_by_actor_id ≡ some actor.id)) × (s' ≡ s)
  unfolding require_claimant
  require_claimant-ok t s s' h =
      let (e, q) = reads-ok _ s s' h in
      (may_submit-owned env senv actor t (allowed (may_submit actor t) e), q)
    where
      allowed :
          (b : Bool) {u : Unit {0}}
          → (if b
              then ok tt
              else err (api_error 409 "Only the claiming actor may submit this task"))
            ≡ ok u
          → b ≡ true
      allowed true k = refl
      allowed false k = cc

  accepted_branch :
      (b : Bool) (accept reject : Exec SubmitTaskResponse) (s s' : Session) {r : SubmitTaskResponse}
      → ¬ (reject s ≡ (ok r, s'))
      → (if b then accept else reject) s ≡ (ok r, s')
      → (b ≡ true) × (accept s ≡ (ok r, s'))
  accepted_branch true a r s s' never h = (refl, h)
  accepted_branch false a r s s' never h = absurd (never h)

  -- A submission succeeds only on a row in progress, for its claimant or an admin, who must be
  -- authorised for the three capabilities, with a valid submission, and when the policy permits each
  -- step that is taken, the one to done only without a human in the loop. The row is then unclaimed,
  -- done or awaiting review, and the next approval reads the persisted form of the validation's report.
  pub submit_task-Accepted :
      (task_id : ℕ) (payload : Json) (s s' : Session) {r : SubmitTaskResponse}
      → submit_task env senv actor task_id payload s ≡ (ok r, s')
      → Accepted env senv actor task_id payload s s'
  unfolding submit_task
  submit_task-Accepted task_id payload s s' h =
      let (t, s1, e1, h1) = >>=-ok _ _ s s' h in
      let (found, q1) = require_task-ok task_id s s1 e1 in
      let (_, s2, e2, h2) = >>=-ok _ _ s1 s' h1 in
      let (st, q2) = require_state-ok _ _ t s1 s2 e2 in
      let (_, s3, e3, h3) = >>=-ok _ _ s2 s' h2 in
      let (owned, q3) = require_claimant-ok t s2 s3 e3 in
      let (_, s4, e4, h4) = >>=-ok _ _ s3 s' h3 in
      let (tests, q4) = ensure_capability-ok env actor run_tests t s3 s4 e4 in
      let (_, s5, e5, h5) = >>=-ok _ _ s4 s' h4 in
      let (creates, q5) = ensure_capability-ok env actor create_artifact t s4 s5 e5 in
      let (_, s6, e6, h6) = >>=-ok _ _ s5 s' h5 in
      let (updates, q6) = ensure_capability-ok env actor update_task t s5 s6 e6 in
      let (policy, e7, h7) = reads->>=-ok _ _ s6 s' h6 in
      let v = senv.validate_submission t payload in
      let same3 : s3 ≡ s = q3 ∙ q2 ∙ q1 in
      let same4 : s4 ≡ s = q4 ∙ same3 in
      let same5 : s5 ≡ s = q5 ∙ same4 in
      let same6 : s6 ≡ s = q6 ∙ same5 in
      let started : t.state ≡ "in_progress" = st ∙ unfold state_value in refl in
      let (is_ok, accepted) =
        accepted_branch (is_valid env senv actor v)
          (accept_submission env senv actor t policy v payload)
          (reject_submission env senv actor t policy v) s6 s'
          (not-reject_submission env senv actor t policy v s6 s') h7 in
      let left =
        accept_submission-ok env senv actor t policy v payload task_id s6 s' started
          (subst (λ (x : Session). find_task task_id x.working.tasks ≡ some t) (sym same6) found)
          accepted in
      record {
        row = t;
        policy = policy;
        found = found;
        was_started = started;
        owned = owned;
        may_test =
            subst (λ (x : Session). is_authorised env actor run_tests t x.working ≡ true) same3
              tests;
        may_create =
            subst (λ (x : Session). is_authorised env actor create_artifact t x.working ≡ true)
              same4 creates;
        may_update =
            subst (λ (x : Session). is_authorised env actor update_task t x.working ≡ true) same5
              updates;
        governed = subst (λ (x : Session). effective_policy env t x.working ≡ ok policy) same6 e7;
        valid = is_valid-errors env senv actor v is_ok;
        may_enter_submitted = left.0;
        may_enter_validated = left.1;
        may_enter_done = left.2;
        closed = left.3;
        persisted = left.4;
      }

  -- After an accepted submission, the report that the next approval of the task reads is the one that
  -- the validator gave, if that is sound.
  pub latest_dod_report-submit_task :
      (task_id : ℕ) (payload : Json) (t : Task) (report : DodReport) (s s' : Session)
      {r : SubmitTaskResponse}
      → submit_task env senv actor task_id payload s ≡ (ok r, s')
      → find_task task_id s.working.tasks ≡ some t
      → (senv.validate_submission t payload).dod_report ≡ some report
      → Sound report
      → latest_dod_report env task_id s'.working ≡ some report
  latest_dod_report-submit_task task_id payload t report s s' h f reported sound =
      let accepted = submit_task-Accepted task_id payload s s' h in
      let same : accepted.row ≡ t = some-injective (sym accepted.found ∙ f) in
      accepted.persisted
      ∙ ap
          (λ x.
            dod_report_from_payload env.render
              (dod_report_view (senv.validate_submission x payload).dod_report))
          same
      ∙ ap (λ x. dod_report_from_payload env.render (dod_report_view x)) reported
      ∙ dod_report_from_payload-dod_report_view env.render report sound
    where
      some-injective : {x y : Task} → some x ≡ some y → x ≡ y
      some-injective e = cc
