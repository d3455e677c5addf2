-- ===== src/Tests/Transition.antt =====
-- Runs of transitions.py under the coding-task policy.
use agenticqueue.Base.{
  String, ◌≤◌, ◌≡◌, ◌≢◌, ◌↔◌, refl, true, false, none, some, List, [], ◌∷◌, In, All, arith,
  string_eq,
}
use agenticqueue.Base.Int.{pos}
use agenticqueue.Json.{Json}
use agenticqueue.Dod.{DodReport, DodItemState-discrete, checked, partial}
use agenticqueue.Task.{
  Task, TaskState, TaskState-discrete, CapabilityKey, CapabilityKey-discrete, task_state, queued,
  claimed, in_progress, submitted, validated, done, rejected, run_tests, update_task, write_branch,
}
use agenticqueue.Transition.{
  TransitionResult, Request, Guard, Note, returns, invalid_transition, apply_transition, move,
  max_retries_exceeded,
}
use agenticqueue.Transition.Permit.{Permitted, allowed_from, apply_transition-move_iff}
use agenticqueue.Transition.Outcomes.{
  apply_transition_outcomes, apply_transition-invalid_iff, apply_transition-retry,
}
use agenticqueue.Transition.CodingTask.{
  coding_task, Moves, Trace, start, next, done-Trace, done-Moves, terminal_states,
}

abbrev task_in : String → Task
task_in s = record {
  id = 1;
  project_id = 7;
  policy_id = none;
  task_type = "coding-task";
  state = s;
  priority = pos 0;
  labels = [];
  sequence = 1;
  claimed_by_actor_id = none;
  claimed_at = none;
  contract = ("autonomy_tier", Json.int (pos 2)) ∷ [];
  attempt_count = 2;
  last_failure = none;
}

abbrev passing : DodReport
passing = record {
  checklist = record { item = "tests"; state = checked; note = "" } ∷ [];
  checked_count = 1;
  partial_count = 0;
  unchecked_blocked_count = 0;
  unchecked_unmet_count = 0;
}

abbrev partial_report : DodReport
partial_report = record passing {
  checklist = record { item = "docs"; state = partial; note = "half" } ∷ [];
}

abbrev request : Request
request = record {
  actor_capabilities = update_task ∷ [];
  attempt_count = 2;
  dod_report = some passing;
  blocked_at = none;
  now = 0;
  human_approved = true;
}

approved_move :
    apply_transition coding_task (task_in "validated") done request
    ≡ returns (move coding_task validated done (allowed_from coding_task validated) request)
unfolding apply_transition task_state TaskState-discrete CapabilityKey-discrete
    DodItemState-discrete
approved_move = refl

apply_transition-move_iff_example :
    Permitted coding_task (task_in "validated") validated done request
unfolding task_state
apply_transition-move_iff_example =
    (apply_transition-move_iff coding_task (task_in "validated") validated done request refl).0
      approved_move

abbrev unapproved : Request
unapproved = record request { human_approved = false; dod_report = some partial_report }

abbrev unapproved_result : TransitionResult
unapproved_result = record {
  from_state = validated;
  requested_state = done;
  state = validated;
  attempt_count = 2;
  allowed_transitions = allowed_from coding_task validated;
  guard_blocked = some Guard.policy;
  note = some Note.needs_human_approval;
  escalation = none;
}

unapproved_blocked :
    apply_transition coding_task (task_in "validated") done unapproved ≡ returns unapproved_result
unfolding apply_transition task_state TaskState-discrete CapabilityKey-discrete
    DodItemState-discrete
unapproved_blocked = refl

apply_transition_outcomes_example : In done (allowed_from coding_task validated)
unfolding task_state
apply_transition_outcomes_example =
    (apply_transition_outcomes coding_task (task_in "validated") validated done unapproved
      unapproved_result refl unapproved_blocked).0

not_listed : ¬ In validated (allowed_from coding_task in_progress)
unfolding TaskState-discrete
not_listed m = ground arith

invalid_at :
    apply_transition coding_task (task_in "in_progress") validated request
    ≡ invalid_transition in_progress validated (allowed_from coding_task in_progress)
unfolding task_state
invalid_at =
    (apply_transition-invalid_iff coding_task (task_in "in_progress") in_progress validated request
        refl).1
      not_listed

abbrev retry_result : TransitionResult
retry_result = move coding_task rejected queued (allowed_from coding_task rejected) request

retried : apply_transition coding_task (task_in "rejected") queued request ≡ returns retry_result
unfolding apply_transition task_state TaskState-discrete CapabilityKey-discrete
retried = refl

retry_unblocked : retry_result.guard_blocked ≡ none
unfolding apply_transition TaskState-discrete
retry_unblocked = refl

retried_at :
    (retry_result.attempt_count ≡ 3)
    × ((retry_result.escalation ≡ some max_retries_exceeded) ↔ (3 ≤ 3))
unfolding task_state
retried_at =
    apply_transition-retry coding_task (task_in "rejected") request retry_result refl retried
      retry_unblocked

approval : Moves validated done
unfolding task_state
approval = record {
  task = task_in "validated";
  request = request;
  at_state = refl;
  granted = approved_move;
}

moved_to_done :
    (validated ≡ validated)
    × (approval.request.human_approved ≡ true)
    × In update_task approval.request.actor_capabilities
    × ((r : DodReport) × (approval.request.dod_report ≡ some r)
        × All (λ i. i.state ≡ checked) r.checklist)
moved_to_done = done-Moves approval

terminal_at_done :
    (validated ≢ done)
    × (validated ≢ TaskState.dlq)
    × (validated ≢ TaskState.needs_ghost_triage)
    × (done ≢ TaskState.dlq)
terminal_at_done = terminal_states approval

abbrev able : Request
able = record request {
  actor_capabilities = CapabilityKey.read_repo ∷ write_branch ∷ run_tests ∷ update_task ∷ [];
}

claiming : Moves queued claimed
unfolding apply_transition task_state TaskState-discrete CapabilityKey-discrete
claiming = record { task = task_in "queued"; request = able; at_state = refl; granted = refl }

beginning : Moves claimed in_progress
unfolding apply_transition task_state TaskState-discrete CapabilityKey-discrete
beginning = record { task = task_in "claimed"; request = able; at_state = refl; granted = refl }

submitting : Moves in_progress submitted
unfolding apply_transition task_state TaskState-discrete CapabilityKey-discrete
submitting = record {
  task = task_in "in_progress";
  request = able;
  at_state = refl;
  granted = refl;
}

validating : Moves submitted validated
unfolding apply_transition task_state TaskState-discrete CapabilityKey-discrete
validating = record { task = task_in "submitted"; request = able; at_state = refl; granted = refl }

abbrev whole_line :
    Trace queued (done ∷ validated ∷ submitted ∷ in_progress ∷ claimed ∷ queued ∷ []) done
whole_line =
    next (next (next (next (next start claiming) beginning) submitting) validating) approval

abbrev states : List TaskState
states = done ∷ validated ∷ submitted ∷ in_progress ∷ claimed ∷ queued ∷ []

done-Trace_example :
    In validated states × In submitted states × In in_progress states × In claimed states
done-Trace_example = done-Trace whole_line
