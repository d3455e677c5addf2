-- ===== src/Actions/Dependents/Ready.antt =====
-- Which tasks the completion of a task unblocks (task_actions.py).
use mathlib.Core.Option
use agenticqueue.Base.{
  ℕ, ◌≡◌, ◌≢◌, refl, sym, ap, ◌∙◌, String, true, false, ◌&&◌, ◌↔◌, inl, inr, Option, some, List, [],
  ◌∷◌, ==_iff, nat_eq, string_eq, all_iff, In, mem→In, In→mem, &&-true, &&-intro, mem, Bool-cases,
  Option-cases,
}
use agenticqueue.Task.{Task, state_value}
use agenticqueue.Edge.{Edge, edge_metadata_marks_superseded}
use agenticqueue.Actions.Dependents.Edges.{
  IsDependency, dependent_ids_iff, active_dependency_target_ids_iff,
}
use agenticqueue.Queue.Rows.{find_task}
use agenticqueue.Store.{Db, Session}
use agenticqueue.Actions.Dependents.{
  active_dependency_target_ids, dependent_ids, is_done, is_blocked, all_done, is_ready,
  unblock_ready_dependents,
}
use agenticqueue.Actions.Dependents.Loop.{requeued, find_task-unblock_each}

-- The edge, not superseded, makes `j` depend on `d`.
pub record Waits (edges : List Edge) (j d : ℕ) (e : Edge) : Type 0 where
  pub row : In e edges
  pub dependency : IsDependency j d e
  pub active : edge_metadata_marks_superseded e.edge_metadata ≡ false

-- What makes the completion of a task unblock another.
pub record Unblocks (completed : ℕ) (db : Db) (j : ℕ) : Type 0 where
  pub depends : (e : Edge) × In e db.edges × IsDependency j completed e
  pub blocked_row : (t : Task) × (find_task j db.tasks ≡ some t) × (t.state ≡ "blocked")
  pub has_dependency : (d : ℕ) × (e : Edge) × Waits db.edges j d e
  pub all_are_done :
      (d : ℕ) (e : Edge)
      → Waits db.edges j d e
      → (t : Task) × (find_task d db.tasks ≡ some t) × (t.state ≡ "done")

is_done_iff :
    (ts : List Task) (i : ℕ)
    → (is_done ts i ≡ true) ↔ ((t : Task) × (find_task i ts ≡ some t) × (t.state ≡ "done"))
unfolding state_value
is_done_iff ts i = elim (Option-cases (find_task i ts)) [
  | inl e ↦ (λ h. let h' = rw (e, is_done) at h in cc, λ h. let e' = h.1 in cc)
  | inr (t, e) ↦ (
    λ h. (t, e, (==_iff t.state "done").0 (rw (e, is_done) at h)),
    λ h. rw (h.1, is_done) ((==_iff (h.0.state) "done").1 h.2),
  )
]

is_blocked_iff :
    (ts : List Task) (i : ℕ)
    → (is_blocked ts i ≡ true) ↔ ((t : Task) × (find_task i ts ≡ some t) × (t.state ≡ "blocked"))
unfolding state_value
is_blocked_iff ts i = elim (Option-cases (find_task i ts)) [
  | inl e ↦ (λ h. let h' = rw (e, is_blocked) at h in cc, λ h. let e' = h.1 in cc)
  | inr (t, e) ↦ (
    λ h. (t, e, (==_iff t.state "blocked").0 (rw (e, is_blocked) at h)),
    λ h. rw (h.1, is_blocked) ((==_iff (h.0.state) "blocked").1 h.2),
  )
]

all_done_iff :
    (ts : List Task) (ds : List ℕ)
    → (all_done ts ds ≡ true) ↔ ((ds ≢ []) × ((d : ℕ) → In d ds → is_done ts d ≡ true))
all_done_iff ts [] = (λ h. cc, λ h. absurd (h.0 refl))
all_done_iff ts (d ∷ ds) =
    let each = all_iff (is_done ts) (d ∷ ds) in (λ h. (λ e. cc, each.0 h), λ h. each.1 h.1)

an_element : (ds : List ℕ) → ds ≢ [] → (d : ℕ) × In d ds
an_element [] ne = absurd (ne refl)
an_element (d ∷ ds) ne = (d, inl refl)

not_empty : (d : ℕ) (ds : List ℕ) → In d ds → ds ≢ []
not_empty d [] m e = m
not_empty d (x ∷ ds) m e = cc

Waits-active_dependency_target_ids :
    (edges : List Edge) (j d : ℕ)
    → In d (active_dependency_target_ids j edges) ↔ ((e : Edge) × Waits edges j d e)
Waits-active_dependency_target_ids edges j d =
    let iff = active_dependency_target_ids_iff j d edges in
    (
      λ m.
          let (e, row, dep, act) = iff.0 m in
          (e, record { row = row; dependency = dep; active = act }),
      λ h. let (e, w) = h in iff.1 (e, w.row, w.dependency, w.active),
    )

tests-Unblocks :
    (completed : ℕ) (db : Db) (j : ℕ)
    → ((mem j (dependent_ids completed db.edges) && is_ready db.edges db.tasks j) ≡ true)
      ↔ Unblocks completed db j
unfolding is_ready
tests-Unblocks completed db j =
    let ids = active_dependency_target_ids j db.edges in
    let deps = all_done_iff db.tasks ids in
    (
      λ h.
          let (listed, ready) = &&-true _ _ h in
          let (waits, done_all) = &&-true _ _ ready in
          let (some_dep, every) = deps.0 done_all in
          let (d, m) = an_element ids some_dep in
          record {
            depends = (dependent_ids_iff completed j db.edges).0 (mem→In _ _ listed);
            blocked_row = (is_blocked_iff db.tasks j).0 waits;
            has_dependency =
                let (e, w) = (Waits-active_dependency_target_ids db.edges j d).0 m in (d, e, w);
            all_are_done = λ d e w.
                (is_done_iff db.tasks d).0
                  (every d ((Waits-active_dependency_target_ids db.edges j d).1 (e, w)));
          },
      λ u.
          let (d, e, w) = u.has_dependency in
          &&-intro (In→mem _ _ ((dependent_ids_iff completed j db.edges).1 u.depends)) (
            &&-intro ((is_blocked_iff db.tasks j).1 u.blocked_row) (
              deps.1 (
                not_empty d ids ((Waits-active_dependency_target_ids db.edges j d).1 (e, w)),
                λ d m.
                    let (e, w) = (Waits-active_dependency_target_ids db.edges j d).0 m in
                    (is_done_iff db.tasks d).1 (u.all_are_done d e w),
              ))),
    )

-- When a task is completed, exactly the blocked tasks that depend on it and whose active
-- dependencies, at least one, are all done are requeued, with no claim; every other task stays as
-- it was.
pub unblock_ready_dependents_lem :
    (completed : ℕ) (actor : Option ℕ) (s : Session) (j : ℕ)
    → let after = (unblock_ready_dependents completed actor s).1.working in
      (Unblocks completed s.working j
        → find_task j after.tasks ≡ Option.map requeued (find_task j s.working.tasks))
      × ((¬ Unblocks completed s.working j) → find_task j after.tasks ≡ find_task j s.working.tasks)
unfolding unblock_ready_dependents
unblock_ready_dependents_lem completed actor s j =
    let found =
      find_task-unblock_each completed actor (dependent_ids completed s.working.edges) s.working
        j in
    let tests = tests-Unblocks completed s.working j in
    (
      λ u. found ∙ rw (tests.1 u) refl,
      λ no_unblock.
          found
          ∙ elim (Bool-cases (
              mem j (dependent_ids completed s.working.edges)
              && is_ready s.working.edges s.working.tasks j)) [
                | inl e ↦ absurd (no_unblock (tests.0 e))
                | inr e ↦ rw e refl
              ],
    )

-- A task that is done stays as it is.
pub unblock_ready_dependents-done :
    (completed : ℕ) (actor : Option ℕ) (s : Session) (j : ℕ) (t : Task)
    → find_task j s.working.tasks ≡ some t
    → t.state ≡ "done"
    → find_task j (unblock_ready_dependents completed actor s).1.working.tasks ≡ some t
unblock_ready_dependents-done completed actor s j t f st =
    (unblock_ready_dependents_lem completed actor s j).1 (λ u.
      let (x, fx, bx) = u.blocked_row in
      let same : x ≡ t = cc (f, fx) in
      let clash : ◌≡◌ {A = String} "blocked" "done" =
        sym bx ∙ ap (λ (y : Task). y.state) same ∙ st in
      cc)
    ∙ f
