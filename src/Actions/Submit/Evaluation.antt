-- ===== src/Actions/Submit/Evaluation.antt =====
-- What the evaluation of a submission has checked (`submit_task` of task_actions.py): the validation,
-- the transitions, and the writes that follow them.
use agenticqueue.Base.{
  ℕ, ◌≡◌, refl, sym, ap, subst, ◌∙◌, String, Bool, true, false, Option, none, some, List, [], ◌∷◌,
  ◌⊎◌, inl, inr, Result, ok, err, api_error, ◌==◌, ==_iff, string_eq, nat_eq, Bool-cases,
  if◌then◌else◌,
}
use agenticqueue.Json.{Json}
use agenticqueue.Task.{
  Task, in_progress, submitted, validated, done, run_tests, update_task, state_value, task_state,
  task_state-state_value,
}
use agenticqueue.Dod.{DodReport, dod_report_view, dod_report_from_payload}
use agenticqueue.Transition.{TransitionPolicy, TransitionResult}
use agenticqueue.Transition.Permit.{Permitted}
use agenticqueue.Transition.Outcomes.{state-move}
use agenticqueue.Queue.{free_row}
use agenticqueue.Queue.Rows.{find_task, find_task-In}
use agenticqueue.Store.{Session, raise}
use agenticqueue.Store.Rules.{
  >>=-ok, reads->>=-ok, Keeps, Keeps-reads, Keeps-writes, Keeps->>=, Keeps-after,
}
use agenticqueue.Actions.Common.{Actor, Env, Validation, latest_dod_report}
use agenticqueue.Actions.Granted.{transition_or_conflict-ok}
use agenticqueue.Actions.Submission.{SubmitEnv, SubmitTaskResponse, may_submit, final_state}
use agenticqueue.Actions.Submit.{
  step_request, in_state, auto_approve, is_valid, packet_version_of, reject_submission,
  accept_submission,
}
use agenticqueue.Actions.Submit.Writes.{rows, finish_submission-ok, latest_dod_report-added}

module _ (env : Env) (senv : SubmitEnv) (actor : Actor) where
  pub may_submit-owned :
      (t : Task)
      → may_submit actor t ≡ true
      → (actor.actor_type ≡ "admin") ⊎ (t.claimed_by_actor_id ≡ some actor.id)
  may_submit-owned t h = elim (Bool-cases (actor.actor_type == "admin")) [
    | inl e ↦ inl ((==_iff actor.actor_type "admin").0 e)
    | inr e ↦ inr (claimant t.claimed_by_actor_id (rw e at h))
  ]
    where
      claimant :
          (o : Option ℕ)
          → elim o [ none ↦ false | some a ↦ a == actor.id ] ≡ true
          → o ≡ some actor.id
      claimant none k = cc
      claimant (some a) k = ap some ((==_iff a actor.id).0 k)

  pub is_valid-errors : (v : Validation) → is_valid env senv actor v ≡ true → v.errors ≡ []
  is_valid-errors v h = empty v.errors h
    where
      empty : (es : List Json) → elim es [ [] ↦ true | _ ∷ _ ↦ false ] ≡ true → es ≡ []
      empty [] k = refl
      empty (e ∷ es) k = cc

  -- A transition to the third state is made exactly without a human in the loop.
  auto_approve-ok :
      (p : TransitionPolicy) (t : Task) (accepted : TransitionResult) (report : Option DodReport)
      {r : Option TransitionResult}
      → accepted.state ≡ validated
      → auto_approve env senv actor p t accepted report ≡ ok r
      → (p.hitl_required ≡ false
          → Permitted p
              (in_state env senv actor validated t)
              validated
              done
              (step_request env senv actor update_task report))
        × (state_value (final_state accepted r) ≡ (if p.hitl_required then "validated" else "done"))
  unfolding state_value
  auto_approve-ok p t accepted report {r} st h = elim (branch p.hitl_required _ h) [
    | inl (human, none_made) ↦ (
      λ e. let both : true ≡ false = sym human ∙ e in cc,
      ap (λ x. state_value (final_state accepted x)) (sym none_made)
          ∙ ap state_value st
          ∙ sym (ap target human),
    )
    | inr (auto, stepped) ↦
        let (x, granted, made) = step_made _ stepped in
        let (permitted, moved) =
          transition_or_conflict-ok env _ p (in_state env senv actor accepted.state t) validated
            done (step_request env senv actor update_task report) {r = x}
            (task_state-state_value accepted.state ∙ ap some st) granted in
        (
          λ _.
              subst
                (λ y.
                  Permitted p (in_state env senv actor y t) validated done
                    (step_request env senv actor update_task report))
                st permitted,
          ap (λ y. state_value (final_state accepted y)) {x = r} {y = some x} (sym made)
              ∙ ap (λ (y : TransitionResult). state_value y.state) moved
              ∙ ap state_value (state-move p validated done _ _)
              ∙ sym (ap target auto),
        )
  ]
    where
      target : Bool → String
      target b = if b then "validated" else "done"

      branch :
          (b : Bool) (o : Result (Option TransitionResult))
          → (if b then ok none else o) ≡ ok r
          → ((b ≡ true) × (none ≡ r)) ⊎ ((b ≡ false) × (o ≡ ok r))
      branch true o k = inl (refl, cc)
      branch false o k = inr (refl, k)

      step_made :
          (o : Result TransitionResult) {y : Option TransitionResult}
          → elim o [ err e ↦ err e | ok x ↦ ok (some x) ] ≡ ok y
          → (x : TransitionResult) × (o ≡ ok x) × (some x ≡ y)
      step_made (ok x) k = (x, refl, cc)
      step_made (err e) k = cc

  Keeps-packet_version_of : (i : ℕ) → Keeps rows (packet_version_of env senv actor i)
  unfolding packet_version_of
  Keeps-packet_version_of i =
      Keeps->>= rows _ _ (Keeps-reads rows _)
        (λ c. Keeps->>= rows _ _ (Keeps-writes rows _ (λ s. refl)) (λ u. Keeps-reads rows _))

  pub not-reject_submission :
      (t : Task) (p : TransitionPolicy) (v : Validation) (s s' : Session) {r : SubmitTaskResponse}
      → ¬ (reject_submission env senv actor t p v s ≡ (ok r, s'))
  unfolding reject_submission raise
  not-reject_submission t p v s s' {r} h =
      let (_, s1, _, h1) = >>=-ok _ _ s s' h in
      let (_, s2, _, h2) = >>=-ok _ _ s1 s' h1 in raised s2 h2
    where
      raised :
          (u : Session)
          → ¬ (raise (api_error 422 "Task submission failed validation") u ≡ (ok r, s'))
      raised u k =
          let k' : ◌≡◌ {A = Result SubmitTaskResponse} (err _) (ok r) = ap (λ x. x.0) k in cc

  -- What the part after the validation has checked and left.
  pub accept_submission-ok :
      (t : Task) (p : TransitionPolicy) (v : Validation) (payload : Json) (i : ℕ) (s s' : Session)
      {r : SubmitTaskResponse}
      → t.state ≡ "in_progress"
      → find_task i s.working.tasks ≡ some t
      → accept_submission env senv actor t p v payload s ≡ (ok r, s')
      → Permitted p t in_progress submitted (step_request env senv actor run_tests none)
        × Permitted p
            (in_state env senv actor submitted t)
            submitted
            validated
            (step_request env senv actor update_task v.dod_report)
        × (p.hitl_required ≡ false
            → Permitted p
                (in_state env senv actor validated (in_state env senv actor submitted t))
                validated
                done
                (step_request env senv actor update_task v.dod_report))
        × (find_task i s'.working.tasks
            ≡ some (free_row (if p.hitl_required then "validated" else "done") t))
        × (latest_dod_report env i s'.working
            ≡ dod_report_from_payload env.render (dod_report_view v.dod_report))
  unfolding accept_submission
  accept_submission-ok t p v payload i s s' st f h =
      let (sub, e1, h1) = reads->>=-ok _ _ s s' h in
      let (version, s2, e2, h2) = >>=-ok (packet_version_of env senv actor t.id) _ s s' h1 in
      let k2 : rows s2 ≡ rows s = Keeps-after rows _ s s2 (Keeps-packet_version_of t.id) e2 in
      let (first, e3, h3) = reads->>=-ok _ _ s2 s' h2 in
      let (permit1, moved1) =
        transition_or_conflict-ok env _ p t in_progress submitted _
          (ap task_state st ∙ unfold task_state in refl) e3 in
      let st1 : first.state ≡ submitted =
        ap (λ (x : TransitionResult). x.state) moved1 ∙ state-move p in_progress submitted _ _ in
      let (second, e4, h4) = reads->>=-ok _ _ s2 s' h3 in
      let (permit2, moved2) =
        transition_or_conflict-ok env _ p (in_state env senv actor first.state t) submitted
          validated _ (task_state-state_value first.state ∙ ap some st1) e4 in
      let st2 : second.state ≡ validated =
        ap (λ (x : TransitionResult). x.state) moved2 ∙ state-move p submitted validated _ _ in
      let (third, e5, h5) = reads->>=-ok _ _ s2 s' h4 in
      let (permit3, final) =
        auto_approve-ok p (in_state env senv actor first.state t) second v.dod_report st2 e5 in
      let fin =
        finish_submission-ok env senv actor t p v sub version _ _ i s2 s'
          (ap (λ x. find_task i x.0) k2 ∙ f) h5 in
      (
        permit1,
        subst
            (λ y.
              Permitted p (in_state env senv actor y t) submitted validated
                (step_request env senv actor update_task v.dod_report))
            st1 permit2,
        λ auto.
            subst
              (λ y.
                Permitted p (in_state env senv actor validated (in_state env senv actor y t))
                  validated done (step_request env senv actor update_task v.dod_report))
              st1 (permit3 auto),
        fin.0 ∙ ap (λ x. some (free_row x t)) final,
        latest_dod_report-added env senv actor i _ s2.working.runs s'.working
            (find_task-In i s.working.tasks t f).1 fin.1.1,
      )
