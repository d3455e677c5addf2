-- ===== src/Actions/Submit/Writes.antt =====
-- What the writes of an accepted submission leave in the tables of tasks and runs (task_actions.py).
use agenticqueue.Base.{
  ℕ, ◌≡◌, refl, sym, ap, ◌∙◌, Option, none, some, List, [], ◌∷◌, ◌++◌, ok, ◌==◌, ==_iff, string_eq,
  nat_eq, Bool-cases, inl, inr,
}
use agenticqueue.Json.{Json}
use agenticqueue.Task.{Task, TaskState, state_value, done}
use agenticqueue.Dod.{DodReport, dod_report_from_payload}
use agenticqueue.Transition.{TransitionPolicy, TransitionResult}
use agenticqueue.Queue.{free_row, update_where}
use agenticqueue.Queue.Rows.{find_task, find_task-In, find_task-update_where}
use agenticqueue.Store.{Db, Session, Run, Draft, ◌>>=◌, pure, writes, new_id}
use agenticqueue.Store.Rules.{
  >>=-ok, reads-ok, writes-ok, Keeps, Keeps-pure, Keeps-writes, Keeps-new_id, Keeps-write_audit,
  Keeps->>=, Keeps-after,
}
use agenticqueue.Actions.Common.{Actor, Env, Validation, last_run, latest_dod_report}
use agenticqueue.Actions.Dependents.{unblock_each, unblock_one, unblock_ready_dependents, is_ready}
use agenticqueue.Actions.Dependents.Ready.{unblock_ready_dependents-done}
use agenticqueue.Actions.Review.{write_row}
use agenticqueue.Actions.Submission.{
  SubmitEnv, SubmitArtifact, Submission, SubmitTaskResponse, submission_artifacts,
}
use agenticqueue.Actions.Submit.{
  persist_artifacts, persist_learning_drafts, unblock_if_done, audit_approval, finish_submission,
  run_of, persist_run, close_task, audit_submission,
}

-- The two tables.
abbrev pub rows : Session → List Task × List Run
rows s = (s.working.tasks, s.working.runs)

module _ (env : Env) (senv : SubmitEnv) (actor : Actor) where
  pub Keeps-persist_artifacts :
      (t r : ℕ) (items : List SubmitArtifact)
      → Keeps rows (persist_artifacts env senv actor t r items)
  unfolding persist_artifacts
  Keeps-persist_artifacts t r [] = Keeps-pure rows []
  Keeps-persist_artifacts t r (a ∷ items) =
      Keeps->>= rows _ _ (Keeps-new_id rows (λ s n. refl)) (λ i.
        Keeps->>= rows _ _ (Keeps-new_id rows (λ s n. refl)) (λ j.
          Keeps->>= rows _ _ (Keeps-writes rows _ (λ s. refl)) (λ u.
            Keeps->>= rows _ _ (Keeps-persist_artifacts t r items) (λ rest. Keeps-pure rows _))))

  pub Keeps-persist_learning_drafts :
      (t r : ℕ) (items : List Json) → Keeps rows (persist_learning_drafts env senv actor t r items)
  unfolding persist_learning_drafts
  Keeps-persist_learning_drafts t r [] = Keeps-pure rows []
  Keeps-persist_learning_drafts t r (a ∷ items) =
      Keeps->>= rows _ _ (Keeps-new_id rows (λ s n. refl)) (λ i.
        Keeps->>= rows _ _ (Keeps-writes rows _ (λ s. refl)) (λ u.
          Keeps->>= rows _ _ (Keeps-persist_learning_drafts t r items) (λ rest. Keeps-pure rows _)))

  pub Keeps-audit_approval :
      (p : TransitionPolicy) (t : Task) → Keeps rows (audit_approval env senv actor p t)
  unfolding audit_approval
  Keeps-audit_approval p t = elim (Bool-cases p.hitl_required) [
    | inl e ↦ rw e (Keeps-pure rows tt)
    | inr e ↦ rw e (Keeps-write_audit rows _ (λ s a. refl))
  ]

  runs-unblock_each :
      (completed : ℕ) (a : Option ℕ) (is : List ℕ) (db : Db)
      → (unblock_each completed a is db).1.runs ≡ db.runs
  unfolding unblock_each unblock_one
  runs-unblock_each completed a [] db = refl
  runs-unblock_each completed a (i ∷ is) db = elim (Bool-cases (is_ready db.edges db.tasks i)) [
    | inl e ↦ rw (e, unblock_each) (runs-unblock_each completed a is (unblock_one completed a i db))
    | inr e ↦ rw (e, unblock_each) (runs-unblock_each completed a is db)
  ]

  runs-unblock_if_done :
      (t : Task) (s : Session)
      → (unblock_if_done env senv actor t s).1.working.runs ≡ s.working.runs
  unfolding unblock_if_done unblock_ready_dependents pure
  runs-unblock_if_done t s = elim (Bool-cases (t.state == state_value done)) [
    | inl e ↦ rw e (runs-unblock_each t.id (some actor.id) _ s.working)
    | inr e ↦ rw e refl
  ]

  -- The row that was just written stays when its dependents are looked at.
  row-unblock_if_done :
      (t : Task) (i : ℕ) (s : Session)
      → find_task i s.working.tasks ≡ some t
      → find_task i (unblock_if_done env senv actor t s).1.working.tasks ≡ some t
  unfolding unblock_if_done pure state_value
  row-unblock_if_done t i s f = elim (Bool-cases (t.state == state_value done)) [
    | inl e ↦
        rw e
          (unblock_ready_dependents-done t.id (some actor.id) s i t f ((==_iff t.state "done").0 e))
    | inr e ↦ rw e f
  ]

  written_row :
      (t : Task) (i : ℕ) (st : TaskState) (ts : List Task)
      → find_task i ts ≡ some t
      → find_task i (update_where t.id (free_row (state_value st)) ts)
        ≡ some (free_row (state_value st) t)
  written_row t i st ts f =
      find_task-update_where t.id i _ ts (λ _. refl)
      ∙ rw ((==_iff t.id i).1 (find_task-In i ts t f).1, f) refl

  persist_run-ok :
      (i : ℕ) (run_at : ℕ → Run) (sub : Submission) (s s' : Session) {r : Run × List _}
      → persist_run env senv actor i run_at sub s ≡ (ok r, s')
      → (n : ℕ) × (rows s' ≡ (s.working.tasks, s.working.runs ++ run_at n ∷ []))
  unfolding persist_run
  persist_run-ok i run_at sub s s' h =
      let (n, s1, e1, h1) = >>=-ok new_id _ s s' h in
      let k1 : rows s1 ≡ rows s =
        Keeps-after rows new_id s s1 (Keeps-new_id rows (λ s n. refl)) e1 in
      let (_, s2, e2, h2) =
        >>=-ok (writes (λ db. record db { runs = db.runs ++ run_at n ∷ [] })) _ s1 s' h1 in
      let k2 : rows s2 ≡ (s1.working.tasks, s1.working.runs ++ run_at n ∷ []) =
        ap rows (writes-ok _ s1 s2 e2) in
      let rest = persist_artifacts env senv actor i n (submission_artifacts sub) in
      let k3 : rows s' ≡ rows s2 =
        Keeps-after rows (rest >>= λ items. pure (run_at n, items)) s2 s'
          (Keeps->>= rows rest (λ items. pure (run_at n, items)) (Keeps-persist_artifacts i n _)
            (λ items. Keeps-pure rows (run_at n, items)))
          h2 in
      (n, k3 ∙ k2 ∙ ap (λ x. (x.0, x.1 ++ run_at n ∷ [])) k1)

  close_task-ok :
      (t : Task) (st : TaskState) (n : ℕ) (sub : Submission) (i : ℕ) (s s' : Session)
      {r : List Draft}
      → find_task i s.working.tasks ≡ some t
      → close_task env senv actor t st n sub s ≡ (ok r, s')
      → (find_task i s'.working.tasks ≡ some (free_row (state_value st) t))
        × (s'.working.runs ≡ s.working.runs)
  unfolding close_task
  close_task-ok t st n sub i s s' f h =
      let row = free_row (state_value st) t in
      let (_, s1, e1, h1) = >>=-ok (write_row t.id (free_row (state_value st))) _ s s' h in
      let k1 = writes-ok _ s s1 e1 in
      let f1 : find_task i s1.working.tasks ≡ some row =
        ap (λ (x : Session). find_task i x.working.tasks) k1
        ∙ written_row t i st s.working.tasks f in
      let r1 : s1.working.runs ≡ s.working.runs = ap (λ (x : Session). x.working.runs) k1 in
      let (drafts, s2, e2, h2) =
        >>=-ok (persist_learning_drafts env senv actor t.id n sub.learnings) _ s1 s' h1 in
      let k2 : rows s2 ≡ rows s1 =
        Keeps-after rows _ s1 s2 (Keeps-persist_learning_drafts t.id n sub.learnings) e2 in
      let f2 : find_task i s2.working.tasks ≡ some row = ap (λ x. find_task i x.0) k2 ∙ f1 in
      let (ids, s3, e3, h3) =
        >>=-ok (unblock_if_done env senv actor row) (λ _. pure drafts) s2 s' h2 in
      let k3 : (unblock_if_done env senv actor row s2).1 ≡ s3 = ap (λ x. x.1) e3 in
      let k4 : rows s' ≡ rows s3 =
        Keeps-after rows (pure drafts) s3 s' (Keeps-pure rows drafts) h3 in
      (
        ap (λ x. find_task i x.0) k4
            ∙ sym (ap (λ (x : Session). find_task i x.working.tasks) k3)
            ∙ row-unblock_if_done row i s2 f2,
        ap (λ x. x.1) k4
            ∙ sym (ap (λ (x : Session). x.working.runs) k3)
            ∙ runs-unblock_if_done row s2
            ∙ ap (λ x. x.1) k2
            ∙ r1,
      )

  Keeps-audit_submission :
      (p : TransitionPolicy) (t : Task) (run : Run) (m n : ℕ)
      → Keeps rows (audit_submission env senv actor p t run m n)
  unfolding audit_submission
  Keeps-audit_submission p t run m n =
      Keeps->>= rows _ _ (Keeps-write_audit rows _ (λ s a. refl)) (λ u. Keeps-audit_approval p t)

  -- The run record is added, and the row ends in the given state with no claim.
  pub finish_submission-ok :
      (t : Task) (p : TransitionPolicy) (v : Validation) (sub : Submission) (version : Option ℕ)
      (st : TaskState) (rs : List TransitionResult) (i : ℕ) (s s' : Session)
      {r : SubmitTaskResponse}
      → find_task i s.working.tasks ≡ some t
      → finish_submission env senv actor t p v sub version st rs s ≡ (ok r, s')
      → (find_task i s'.working.tasks ≡ some (free_row (state_value st) t))
        × ((n : ℕ) × (s'.working.runs
              ≡ s.working.runs ++ run_of env senv actor t p v sub version st rs n ∷ []))
  unfolding finish_submission
  finish_submission-ok t p v sub version st rs i s s' f h =
      let run_at = run_of env senv actor t p v sub version st rs in
      let (persisted, s1, e1, h1) = >>=-ok (persist_run env senv actor t.id run_at sub) _ s s' h in
      let (n, k1) = persist_run-ok t.id run_at sub s s1 e1 in
      let (drafts, s2, e2, h2) =
        >>=-ok (close_task env senv actor t st persisted.0.id sub) _ s1 s' h1 in
      let (f2, r2) =
        close_task-ok t st persisted.0.id sub i s1 s2 (ap (λ x. find_task i x.0) k1 ∙ f) e2 in
      let (_, s3, e3, h3) =
        >>=-ok (audit_submission env senv actor p (free_row (state_value st) t) persisted.0 _ _) _
          s2 s' h2 in
      let k3 : rows s3 ≡ rows s2 =
        Keeps-after rows _ s2 s3 (Keeps-audit_submission p _ persisted.0 _ _) e3 in
      let k4 : rows s' ≡ rows s3 = ap rows (reads-ok _ s3 s' h3).1 in
      (
        ap (λ x. find_task i x.0) k4 ∙ ap (λ x. find_task i x.0) k3 ∙ f2,
        (n, ap (λ x. x.1) k4 ∙ ap (λ x. x.1) k3 ∙ r2 ∙ ap (λ x. x.1) k1),
      )

  -- The run that was added last is the latest one.
  last_run-added :
      (i : ℕ) (run : Run) (runs : List Run)
      → run.task_id ≡ i
      → last_run env i (runs ++ run ∷ []) ≡ some run
  unfolding last_run
  last_run-added i run [] e = rw ((==_iff run.task_id i).1 e) refl
  last_run-added i run (r ∷ runs) e = rw (last_run-added i run runs e) refl

  reported : Option Run → Option DodReport
  reported o = elim o [ none ↦ none | some r ↦ dod_report_from_payload env.render r.dod_report ]

  pub latest_dod_report-added :
      (i : ℕ) (run : Run) (runs : List Run) (db : Db)
      → run.task_id ≡ i
      → db.runs ≡ runs ++ run ∷ []
      → latest_dod_report env i db ≡ dod_report_from_payload env.render run.dod_report
  unfolding latest_dod_report reported
  latest_dod_report-added i run runs db e q =
      ap (λ x. reported (last_run env i x)) q ∙ ap reported (last_run-added i run runs e)
