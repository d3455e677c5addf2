-- ===== src/Transition/CodingTask.antt =====
-- The policy file task_types/coding-task.policy.yaml, and what it makes of the lifecycle.
use agenticqueue.Base.{
  ◌≡◌, ◌≢◌, refl, sym, subst, true, some, List, [], ◌∷◌, In, All, arith, inl, inr,
}
use agenticqueue.Dod.{DodReport, checked}
use agenticqueue.Task.{
  TaskState, TaskState-discrete, queued, claimed, in_progress, submitted, validated, done, rejected,
  dlq, blocked, parked, needs_ghost_triage, task_state, Task, read_repo, write_branch, run_tests,
  update_task,
}
use agenticqueue.Transition.{TransitionPolicy, Request, returns, move, apply_transition}
use agenticqueue.Transition.Permit.{Permitted, allowed_from, apply_transition-move_iff}

abbrev pub coding_task : TransitionPolicy
coding_task = record {
  task_type = "coding-task";
  version = "1.0.0";
  hitl_required = true;
  autonomy_tier = 3;
  capabilities = read_repo ∷ write_branch ∷ run_tests ∷ update_task ∷ [];
  transitions =
      (queued, claimed ∷ parked ∷ [])
      ∷ (claimed, in_progress ∷ blocked ∷ parked ∷ [])
      ∷ (in_progress, submitted ∷ blocked ∷ parked ∷ [])
      ∷ (submitted, validated ∷ rejected ∷ blocked ∷ parked ∷ [])
      ∷ (validated, done ∷ rejected ∷ blocked ∷ parked ∷ [])
      ∷ (rejected, queued ∷ blocked ∷ parked ∷ [])
      ∷ (blocked, queued ∷ needs_ghost_triage ∷ parked ∷ [])
      ∷ (parked, queued ∷ [])
      ∷ [];
  required_capabilities =
      (claimed, read_repo ∷ [])
      ∷ (in_progress, write_branch ∷ [])
      ∷ (submitted, run_tests ∷ [])
      ∷ (done, update_task ∷ [])
      ∷ [];
  max_retries = 3;
  blocked_hours = 24;
  blocked_escalation_target = needs_ghost_triage;
}

-- One granted request, by any actor, with any arguments.
pub record Moves (s u : TaskState) : Type 0 where
  pub task : Task
  pub request : Request
  pub at_state : task_state task.state ≡ some s
  pub granted :
      apply_transition coding_task task u request
      ≡ returns (move coding_task s u (allowed_from coding_task s) request)

-- The states visited, newest first.
pub data Trace (s : TaskState) : List TaskState → TaskState → Type 0 where
  start : Trace s (s ∷ []) s
  next : {h : List TaskState} {u v : TaskState} → Trace s h u → Moves u v → Trace s (v ∷ h) v

permit : {s u : TaskState} (m : Moves s u) → Permitted coding_task m.task s u m.request
permit {s} {u} m =
    (apply_transition-move_iff coding_task m.task s u m.request m.at_state).0 m.granted

-- The one state from which the policy lists each state of the main line.
abbrev Before : TaskState → TaskState → Type 0
Before done s = s ≡ validated
Before validated s = s ≡ submitted
Before submitted s = s ≡ in_progress
Before in_progress s = s ≡ claimed
Before claimed s = s ≡ queued
Before dlq s = ⊥
Before _ s = Unit

listed-Before : (s u : TaskState) → In u (allowed_from coding_task s) → Before u s
unfolding TaskState-discrete
listed-Before queued u h = ground arith
listed-Before _ u h = ground arith

Moves-Before : {s u : TaskState} → Moves s u → Before u s
Moves-Before {s} {u} m = listed-Before s u ((permit m).listed)

Trace-In : {s u : TaskState} {h : List TaskState} → Trace s h u → In u h
Trace-In start = inl refl
Trace-In (next t m) = inl refl

-- A trace that ends in `u` went through each state that stands before `u` on the main line.
abbrev Passed : TaskState → List TaskState → Type 0
Passed done h = In validated h × In submitted h × In in_progress h × In claimed h
Passed validated h = In submitted h × In in_progress h × In claimed h
Passed submitted h = In in_progress h × In claimed h
Passed in_progress h = In claimed h
Passed _ h = Unit

Passed-next :
    (u v : TaskState) (h : List TaskState) → Before v u → In u h → Passed u h → Passed v (v ∷ h)
Passed-next u done h b m p =
    subst (λ s. In s h → Passed s h → Passed done (done ∷ h)) (sym b)
      (λ m' p'. (inr m', inr p'.0, inr p'.1, inr p'.2)) m p
Passed-next u validated h b m p =
    subst (λ s. In s h → Passed s h → Passed validated (validated ∷ h)) (sym b)
      (λ m' p'. (inr m', inr p'.0, inr p'.1)) m p
Passed-next u submitted h b m p =
    subst (λ s. In s h → Passed s h → Passed submitted (submitted ∷ h)) (sym b)
      (λ m' p'. (inr m', inr p')) m p
Passed-next u in_progress h b m p =
    subst (λ s. In s h → Passed in_progress (in_progress ∷ h)) (sym b) (λ m'. inr m') m
Passed-next u _ h b m p = tt

Trace-Passed : {u : TaskState} {h : List TaskState} → Trace queued h u → Passed u h
Trace-Passed start = tt
Trace-Passed (next {h} {u} {v} t m) =
    Passed-next u v h (Moves-Before m) (Trace-In t) (Trace-Passed t)

-- Under the coding-task policy a task that starts queued is done only after it was claimed, in
-- progress, submitted and validated.
pub done-Trace :
    {h : List TaskState}
    → Trace queued h done
    → In validated h × In submitted h × In in_progress h × In claimed h
done-Trace t = Trace-Passed t

-- Under the coding-task policy every granted step into done starts from validated, was approved by
-- a human, by an actor that holds `update_task`, with a report all of whose items are checked.
pub done-Moves :
    {s : TaskState} (m : Moves s done)
    → (s ≡ validated)
      × (m.request.human_approved ≡ true)
      × In update_task m.request.actor_capabilities
      × ((r : DodReport) × (m.request.dod_report ≡ some r)
          × All (λ i. i.state ≡ checked) r.checklist)
unfolding TaskState-discrete
done-Moves m = (
  Moves-Before m,
  (permit m).approved refl refl,
  (permit m).capable update_task (inl refl),
  (permit m).proven refl,
)

listed-not_terminal :
    (s u : TaskState)
    → In u (allowed_from coding_task s)
    → (s ≢ done) × (s ≢ dlq) × (s ≢ needs_ghost_triage) × (u ≢ dlq)
unfolding TaskState-discrete
listed-not_terminal queued u h = ground arith
listed-not_terminal _ u h = ground arith

-- Done, dead-lettered and triaged tasks are never moved again by a granted request, and no granted
-- request moves a task to the dead-letter state.
pub terminal_states :
    {s u : TaskState} → Moves s u → (s ≢ done) × (s ≢ dlq) × (s ≢ needs_ghost_triage) × (u ≢ dlq)
terminal_states {s} {u} m = listed-not_terminal s u ((permit m).listed)
