-- ===== src/Tests/Actions.antt =====
-- Runs of the reviews and failures of task_actions.py under the coding-task policy.
use agenticqueue.Base.{
  ◌≡◌, refl, sym, ap, ◌∙◌, subst, none, some, inl, inr, string_eq, nat_eq, ok, api_error, from_keys,
}
use agenticqueue.Base.Text.{strip}
use agenticqueue.Json.{Json, get_field}
use agenticqueue.Task.{
  Task, TaskState-discrete, CapabilityKey-discrete, task_state, state_value, capability_text,
  Failure,
}
use agenticqueue.Dod.{
  DodItemState-discrete, dod_item_value, dod_report_from_payload, dod_report_view,
}
use agenticqueue.Edge.{
  Edge, EdgeRelation-discrete, edge_metadata_marks_superseded, truthy, is_text, is_false,
}
use agenticqueue.Policy.{
  resolve_effective_policy, attached_policy, project_of, workspace_of, unattached_or,
  resolved_policy,
}
use agenticqueue.Retry.{override_in, resolve_max_attempts}
use agenticqueue.Capability.{list_capabilities_for_actor, authorised}
use agenticqueue.Transition.{apply_transition}
use agenticqueue.Transition.CodingTask.{coding_task}
use agenticqueue.Queue.Rows.{find_task}
use agenticqueue.Store.{
  Session, ◌>>=◌, pure, raise, reads, writes, commit, increment_dlq, write_audit,
}
use agenticqueue.Actions.Common.{
  TaskView, require_task, require_state, project_scope, ensure_capability, task_policy,
  effective_policy, retry_view, transition_or_conflict, last_run, latest_dod_report, report_dlq,
  record_task_failure,
}
use agenticqueue.Actions.Dependents.{
  active_dependency_target_ids, dependent_ids, is_ready, unblock_one, unblock_each,
  unblock_ready_dependents,
}
use agenticqueue.Actions.Review.{
  finish_approval, approve_awaiting, approve_task, rejected_row, finish_rejection, reject_awaiting,
  reject_task,
}
use agenticqueue.Actions.Dependents.Edges.{IsDependency}
use agenticqueue.Actions.Dependents.Ready.{Unblocks, unblock_ready_dependents_lem}
use agenticqueue.Actions.Failure.{Failed, record_task_failure-Failed}
use agenticqueue.Actions.Review.Approval.{Approved, approve_task-Approved}
use agenticqueue.Actions.Review.Rejection.{Rejected, reject_task-Rejected}
use agenticqueue.Actions.Review.Refused.{Refused, approve_task-Refused, reject_task-Refused}
use agenticqueue.Tests.Rows.{environment, reviewer, stranger, task_row, waits_for, tables, session}

abbrev approved : Session
approved = (approve_task environment reviewer 1 none (session "validated")).1

approval_unblocks :
    find_task 2 approved.working.tasks
    ≡ some (record (task_row 2 "queued") { claimed_by_actor_id = none; claimed_at = none })
unfolding approve_task approve_awaiting finish_approval require_task require_state ensure_capability
    latest_dod_report last_run dod_report_from_payload dod_report_view dod_item_value
    effective_policy task_policy resolved_policy resolve_effective_policy attached_policy project_of
    workspace_of unattached_or resolve_max_attempts override_in transition_or_conflict
    apply_transition retry_view unblock_ready_dependents unblock_each unblock_one dependent_ids
    is_ready active_dependency_target_ids edge_metadata_marks_superseded truthy is_text is_false
    get_field ◌>>=◌ reads writes write_audit state_value task_state TaskState-discrete
    CapabilityKey-discrete DodItemState-discrete EdgeRelation-discrete from_keys strip
approval_unblocks = refl

approve_task-Approved_example : Approved environment reviewer 1 (session "validated") approved
unfolding approve_task approve_awaiting finish_approval require_task require_state ensure_capability
    latest_dod_report last_run dod_report_from_payload dod_report_view dod_item_value
    effective_policy task_policy resolved_policy resolve_effective_policy attached_policy project_of
    workspace_of unattached_or resolve_max_attempts override_in transition_or_conflict
    apply_transition retry_view unblock_ready_dependents unblock_each unblock_one dependent_ids
    is_ready active_dependency_target_ids edge_metadata_marks_superseded truthy is_text is_false
    get_field ◌>>=◌ reads writes write_audit state_value task_state TaskState-discrete
    CapabilityKey-discrete DodItemState-discrete EdgeRelation-discrete from_keys strip
approve_task-Approved_example =
    approve_task-Approved environment reviewer 1 none (session "validated") approved refl

abbrev sent : Session
sent = (reject_task environment reviewer 1 (some "no tests") (session "validated")).1

-- The third attempt is the last.
reject_task-Rejected_example :
    Rejected environment reviewer 1 (some "no tests") (session "validated") sent
unfolding reject_task reject_awaiting finish_rejection rejected_row report_dlq pure increment_dlq
    require_task require_state ensure_capability latest_dod_report last_run dod_report_from_payload
    dod_report_view dod_item_value effective_policy task_policy resolved_policy
    resolve_effective_policy attached_policy project_of workspace_of unattached_or
    resolve_max_attempts override_in transition_or_conflict apply_transition retry_view
    unblock_ready_dependents unblock_each unblock_one dependent_ids is_ready
    active_dependency_target_ids edge_metadata_marks_superseded truthy is_text is_false get_field
    ◌>>=◌ reads writes write_audit state_value task_state TaskState-discrete CapabilityKey-discrete
    DodItemState-discrete EdgeRelation-discrete from_keys strip
reject_task-Rejected_example =
    reject_task-Rejected environment reviewer 1 (some "no tests") (session "validated") sent refl

abbrev refused : Session
refused = (approve_task environment stranger 1 none (session "validated")).1

approve_task-Refused_example :
    Refused environment stranger 1
      (session "validated")
      (api_error 403 "Capability grant required")
      refused
unfolding approve_task approve_awaiting finish_approval commit raise project_scope authorised
    list_capabilities_for_actor capability_text require_task require_state ensure_capability
    latest_dod_report last_run dod_report_from_payload dod_report_view dod_item_value
    effective_policy task_policy resolved_policy resolve_effective_policy attached_policy project_of
    workspace_of unattached_or resolve_max_attempts override_in transition_or_conflict
    apply_transition retry_view unblock_ready_dependents unblock_each unblock_one dependent_ids
    is_ready active_dependency_target_ids edge_metadata_marks_superseded truthy is_text is_false
    get_field ◌>>=◌ reads writes write_audit state_value task_state TaskState-discrete
    CapabilityKey-discrete DodItemState-discrete EdgeRelation-discrete from_keys strip
approve_task-Refused_example =
    approve_task-Refused environment stranger 1 none (session "validated") refused refl

abbrev refused_rejection : Session
refused_rejection = (reject_task environment reviewer 1 none (session "done")).1

reject_task-Refused_example :
    Refused environment reviewer 1
      (session "done")
      (api_error 409 "Task must be awaiting approval before it can be rejected")
      refused_rejection
unfolding reject_task reject_awaiting finish_rejection rejected_row report_dlq pure increment_dlq
    commit raise require_task require_state ensure_capability latest_dod_report last_run
    dod_report_from_payload dod_report_view dod_item_value effective_policy task_policy
    resolved_policy resolve_effective_policy attached_policy project_of workspace_of unattached_or
    resolve_max_attempts override_in transition_or_conflict apply_transition retry_view
    unblock_ready_dependents unblock_each unblock_one dependent_ids is_ready
    active_dependency_target_ids edge_metadata_marks_superseded truthy is_text is_false get_field
    ◌>>=◌ reads writes write_audit state_value task_state TaskState-discrete CapabilityKey-discrete
    DodItemState-discrete EdgeRelation-discrete from_keys strip
reject_task-Refused_example =
    reject_task-Refused environment reviewer 1 none (session "done") refused_rejection refl

it_waits : IsDependency 2 1 waits_for
it_waits = record {
  from_task = refl;
  to_task = refl;
  relation = refl;
  source = refl;
  target = refl;
}

unblocked : Unblocks 1 (tables "done") 2
unfolding require_task require_state ensure_capability latest_dod_report last_run
    dod_report_from_payload dod_report_view dod_item_value effective_policy task_policy
    resolved_policy resolve_effective_policy attached_policy project_of workspace_of unattached_or
    resolve_max_attempts override_in transition_or_conflict apply_transition retry_view
    unblock_ready_dependents unblock_each unblock_one dependent_ids is_ready
    active_dependency_target_ids edge_metadata_marks_superseded truthy is_text is_false get_field
    ◌>>=◌ reads writes write_audit state_value task_state TaskState-discrete CapabilityKey-discrete
    DodItemState-discrete EdgeRelation-discrete from_keys strip
unblocked = record {
  depends = (waits_for, inl refl, it_waits);
  blocked_row = (task_row 2 "blocked", refl, refl);
  has_dependency = (1, waits_for, record { row = inl refl; dependency = it_waits; active = refl });
  all_are_done = λ d e w. elim (w.row) [
    | inl same ↦
        let at_one : 1 ≡ d = ap (λ (x : Edge). x.dst_id) (sym same) ∙ w.dependency.target in
        subst (λ k. (t : Task) × (find_task k (tables "done").tasks ≡ some t) × (t.state ≡ "done"))
          at_one (task_row 1 "done", refl, refl)
    | inr n ↦ absurd n
  ];
}

unblock_ready_dependents_lem_example :
    find_task 2 (unblock_ready_dependents 1 (some 5) (session "done")).1.working.tasks
    ≡ some (record (task_row 2 "queued") { claimed_by_actor_id = none; claimed_at = none })
unfolding state_value
unblock_ready_dependents_lem_example =
    (unblock_ready_dependents_lem 1 (some 5) (session "done") 2).0 unblocked

abbrev lost : Failure
lost = record { error_code = "lost"; message = ""; details = Json.null; occurred_at = 1000 }

one_failure :
    (v : TaskView) × (after : Session) × (record_task_failure environment reviewer coding_task 3
        lost
        (task_row 1 "in_progress")
        (session "in_progress")
      ≡ (ok v, after))
    × Failed coding_task 3 lost (task_row 1 "in_progress") (session "in_progress") after v
one_failure =
    record_task_failure-Failed environment reviewer coding_task 3 lost (task_row 1 "in_progress")
      (session "in_progress") refl
