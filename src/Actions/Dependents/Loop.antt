-- ===== src/Actions/Dependents/Loop.antt =====
-- What the loop of `_unblock_ready_dependents` (task_actions.py) does to the task table.
use mathlib.Core.Option
use mathlib.Core.Path.{ap₂}
use agenticqueue.Base.{
  ℕ, ◌≡◌, ◌≢◌, refl, sym, ap, ==_refl, ◌∙◌, subst, Bool, true, false, ◌&&◌, inl, inr, Option, none,
  some, List, [], ◌∷◌, ◌==◌, ==_iff, nat_eq, string_eq, if◌then◌else◌, all, mem, arith, Bool-cases,
}
use agenticqueue.Task.{Task, blocked, done, queued, state_value}
use agenticqueue.Edge.{Edge}
use agenticqueue.Queue.{update_where, free_row}
use agenticqueue.Queue.Rows.{find_task, find_task-update_where}
use agenticqueue.Store.{Db}
use agenticqueue.Actions.Dependents.{
  active_dependency_target_ids, is_done, is_blocked, all_done, is_ready, unblock_one, unblock_each,
}

abbrev pub requeued : Task → Task
requeued = free_row (state_value queued)

-- A blocked row is not done, and neither is the requeued one.
abbrev done_row : Option Task → Bool
done_row none = false
done_row (some t) = t.state == state_value done

done_row-requeued :
    (o : Option Task)
    → elim o [ none ↦ false | some t ↦ t.state == state_value blocked ] ≡ true
    → done_row (Option.map requeued o) ≡ done_row o
unfolding state_value
done_row-requeued none h = refl
done_row-requeued (some t) h =
    let e : t.state ≡ "blocked" = (==_iff t.state "blocked").0 h in rw e refl

abbrev row_is_blocked : Option Task → Bool
row_is_blocked none = false
row_is_blocked (some t) = t.state == state_value blocked

row_is_blocked-requeued : (o : Option Task) → row_is_blocked (Option.map requeued o) ≡ false
unfolding state_value
row_is_blocked-requeued none = refl
row_is_blocked-requeued (some t) = refl

module _ (i : ℕ) (ts : List Task) (h : is_blocked ts i ≡ true) where
  -- Requeueing a blocked task changes no task that is done, and no other task.
  is_done-requeue : (j : ℕ) → is_done (update_where i requeued ts) j ≡ is_done ts j
  is_done-requeue j =
      ap done_row (find_task-update_where i j requeued ts (λ _. refl))
      ∙ elim (Bool-cases (i == j)) [
        | inl e ↦
            let same : i ≡ j = (==_iff i j).0 e in
            rw e (done_row-requeued (find_task j ts) (subst (λ k. is_blocked ts k ≡ true) same h))
        | inr e ↦ rw e refl
      ]

  all-is_done-requeue :
      (ds : List ℕ) → all (is_done (update_where i requeued ts)) ds ≡ all (is_done ts) ds
  all-is_done-requeue [] = refl
  all-is_done-requeue (d ∷ ds) = rw (is_done-requeue d, all-is_done-requeue ds) refl

  all_done-requeue : (ds : List ℕ) → all_done (update_where i requeued ts) ds ≡ all_done ts ds
  all_done-requeue [] = refl
  all_done-requeue (d ∷ ds) = all-is_done-requeue (d ∷ ds)

  is_ready-requeue :
      (edges : List Edge) (j : ℕ)
      → i ≢ j
      → is_ready edges (update_where i requeued ts) j ≡ is_ready edges ts j
  unfolding is_ready
  is_ready-requeue edges j ne = elim (Bool-cases (i == j)) [
    | inl e ↦ absurd (ne ((==_iff i j).0 e))
    | inr e ↦
        ap₂ (λ a b. a && b)
          (ap row_is_blocked (find_task-update_where i j requeued ts (λ _. refl)) ∙ rw e refl)
          (all_done-requeue (active_dependency_target_ids j edges))
  ]

  not-is_ready-requeue : (edges : List Edge) → is_ready edges (update_where i requeued ts) i ≡ false
  unfolding is_ready
  not-is_ready-requeue edges =
      let off : is_blocked (update_where i requeued ts) i ≡ false =
        ap row_is_blocked (find_task-update_where i i requeued ts (λ _. refl))
        ∙ rw (==_refl i) (row_is_blocked-requeued (find_task i ts)) in
      ap (λ b. b && all_done (update_where i requeued ts) (active_dependency_target_ids i edges))
        off

  find_task-requeue : (j : ℕ) → i ≢ j → find_task j (update_where i requeued ts) ≡ find_task j ts
  find_task-requeue j ne = elim (Bool-cases (i == j)) [
    | inl e ↦ absurd (ne ((==_iff i j).0 e))
    | inr e ↦ find_task-update_where i j requeued ts (λ _. refl) ∙ rw e refl
  ]

  find_task-requeue_self :
      find_task i (update_where i requeued ts) ≡ Option.map requeued (find_task i ts)
  find_task-requeue_self = find_task-update_where i i requeued ts (λ _. refl) ∙ rw (==_refl i) refl

if_and_false {ℓ} : {A : Type ℓ} (a : Bool) (x y : A) → (if a && false then x else y) ≡ y
if_and_false true x y = refl
if_and_false false x y = refl

-- What the table holds for an id after the loop.
abbrev pub after_loop : List Edge → List Task → List ℕ → ℕ → Option Task
after_loop edges ts is j =
    if mem j is && is_ready edges ts j then Option.map requeued (find_task j ts) else find_task j ts

ready_is_blocked :
    (edges : List Edge) (ts : List Task) (i : ℕ)
    → is_ready edges ts i ≡ true
    → is_blocked ts i ≡ true
unfolding is_ready
ready_is_blocked edges ts i h = ground arith

after_loop-ready :
    (edges : List Edge) (ts : List Task) (i : ℕ) (is : List ℕ) (j : ℕ)
    → is_ready edges ts i ≡ true
    → after_loop edges (update_where i requeued ts) is j ≡ after_loop edges ts (i ∷ is) j
after_loop-ready edges ts i is j h =
    let b = ready_is_blocked edges ts i h in
    elim (Bool-cases (j == i)) [
      | inl e ↦
          let same : j ≡ i = (==_iff j i).0 e in
          rw same (
            rw (==_refl i, h, not-is_ready-requeue i ts b edges)
              (if_and_false (mem i is) _ _ ∙ find_task-requeue_self i ts b))
      | inr e ↦
          let ne : i ≢ j = λ q. cc ((==_iff j i).1 (sym q), e) in
          rw (e, is_ready-requeue i ts b edges j ne, find_task-requeue i ts b j ne) refl
    ]

after_loop-unready :
    (edges : List Edge) (ts : List Task) (i : ℕ) (is : List ℕ) (j : ℕ)
    → is_ready edges ts i ≡ false
    → after_loop edges ts is j ≡ after_loop edges ts (i ∷ is) j
after_loop-unready edges ts i is j h = elim (Bool-cases (j == i)) [
  | inl e ↦
      let same : j ≡ i = (==_iff j i).0 e in
      rw same (rw (==_refl i, h) (if_and_false (mem i is) _ _))
  | inr e ↦ rw e refl
]

-- The loop requeues exactly the listed tasks that were ready before it began.
pub find_task-unblock_each :
    (completed : ℕ) (actor : Option ℕ) (is : List ℕ) (db : Db) (j : ℕ)
    → find_task j (unblock_each completed actor is db).1.tasks ≡ after_loop db.edges db.tasks is j
unfolding unblock_each
find_task-unblock_each completed actor [] db j = refl
find_task-unblock_each completed actor (i ∷ is) db j =
    elim (Bool-cases (is_ready db.edges db.tasks i)) [
      | inl e ↦
          rw (e, unblock_each)
            (find_task-unblock_each completed actor is (unblock_one completed actor i db) j
              ∙ unfold unblock_one in after_loop-ready db.edges db.tasks i is j e)
      | inr e ↦
          rw (e, unblock_each)
            (find_task-unblock_each completed actor is db j
              ∙ after_loop-unready db.edges db.tasks i is j e)
    ]
