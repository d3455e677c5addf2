-- ===== src/Tests/Submissions.antt =====
-- Runs of submit_task (task_actions.py) under the coding-task policy.
use agenticqueue.Base.{◌≡◌, refl, none, some, [], ◌∷◌, map, string_eq, nat_eq, ok, from_keys}
use agenticqueue.Base.Text.{strip, is_space}
use agenticqueue.Json.{Json, Fields, get_field}
use agenticqueue.Task.{TaskState-discrete, CapabilityKey-discrete, task_state, state_value}
use agenticqueue.Dod.{
  DodItemState-discrete, dod_item_value, dod_report_from_payload, dod_report_view,
}
use agenticqueue.Dod.RoundTrip.{Sound, dod_report_from_payload-dod_report_view}
use agenticqueue.Edge.{
  EdgeRelation-discrete, edge_metadata_marks_superseded, truthy, is_text, is_false,
}
use agenticqueue.Policy.{
  resolve_effective_policy, attached_policy, project_of, workspace_of, unattached_or,
  resolved_policy,
}
use agenticqueue.Retry.{override_in, resolve_max_attempts}
use agenticqueue.Transition.{apply_transition}
use agenticqueue.Store.{Session, Artifact, ◌>>=◌, pure, reads, writes, new_id, write_audit}
use agenticqueue.Actions.Common.{
  Validation, require_task, require_state, ensure_capability, task_policy, effective_policy,
  retry_view, transition_or_conflict, last_run, latest_dod_report,
}
use agenticqueue.Actions.Dependents.{
  active_dependency_target_ids, dependent_ids, is_ready, unblock_one, unblock_each,
  unblock_ready_dependents,
}
use agenticqueue.Actions.Submission.{
  SubmitEnv, Submission, require_claimant, submission_artifacts, current_packet_version,
}
use agenticqueue.Actions.Submit.{
  packet_version_of, persist_artifacts, persist_learning_drafts, persist_run, close_task,
  unblock_if_done, audit_approval, audit_submission, finish_submission, accept_submission,
  submit_task,
}
use agenticqueue.Actions.Submit.Accepted.{
  Accepted, submit_task-Accepted, latest_dod_report-submit_task,
}
use agenticqueue.Tests.Rows.{environment, reviewer, task_row, report, session}

report_Sound : Sound report
unfolding strip is_space DodItemState-discrete
report_Sound = record {
  has_items = λ e. cc;
  named = (refl, tt);
  counted_checked = refl;
  counted_partial = refl;
  counted_blocked = refl;
  counted_unmet = refl;
}

dod_report_from_payload-dod_report_view_example :
    dod_report_from_payload (λ j. "") (dod_report_view (some report)) ≡ some report
dod_report_from_payload-dod_report_view_example =
    dod_report_from_payload-dod_report_view (λ j. "") report report_Sound

abbrev pub submission : Submission
submission = record {
  diff_url = "diff";
  test_report = "tests";
  artifacts = record { kind = "log"; uri = "diff"; details = Fields.end } ∷ [];
  learnings = Json.text "a lesson" ∷ [];
  dump = Json.null;
}

-- A submission that is a text is invalid, any other is valid.
abbrev submitting : SubmitEnv
submitting = record {
  validate_submission = λ t payload. elim payload [
    | Json.text s ↦ record { errors = Json.text s ∷ []; dod_report = none }
    | _ ↦ record { errors = []; dod_report = some report }
  ];
  parse_submission = λ payload. ok submission;
  compile_packet = λ i db. ok (some 70);
}

abbrev accepted : Session
accepted = (submit_task environment submitting reviewer 1 Json.null (session "in_progress")).1

submit_task-Accepted_example :
    Accepted environment submitting reviewer 1 Json.null (session "in_progress") accepted
unfolding submit_task require_claimant accept_submission packet_version_of current_packet_version
    finish_submission persist_run persist_artifacts submission_artifacts persist_learning_drafts
    close_task unblock_if_done audit_submission audit_approval pure new_id require_task
    require_state ensure_capability latest_dod_report last_run dod_report_from_payload
    dod_report_view dod_item_value effective_policy task_policy resolved_policy
    resolve_effective_policy attached_policy project_of workspace_of unattached_or
    resolve_max_attempts override_in transition_or_conflict apply_transition retry_view
    unblock_ready_dependents unblock_each unblock_one dependent_ids is_ready
    active_dependency_target_ids edge_metadata_marks_superseded truthy is_text is_false get_field
    ◌>>=◌ reads writes write_audit state_value task_state TaskState-discrete CapabilityKey-discrete
    DodItemState-discrete EdgeRelation-discrete from_keys strip
submit_task-Accepted_example =
    submit_task-Accepted environment submitting reviewer 1 Json.null (session "in_progress")
      accepted refl

latest_dod_report-submit_task_example :
    latest_dod_report environment 1 accepted.working ≡ some report
unfolding submit_task require_claimant accept_submission packet_version_of current_packet_version
    finish_submission persist_run persist_artifacts submission_artifacts persist_learning_drafts
    close_task unblock_if_done audit_submission audit_approval pure new_id require_task
    require_state ensure_capability latest_dod_report last_run dod_report_from_payload
    dod_report_view dod_item_value effective_policy task_policy resolved_policy
    resolve_effective_policy attached_policy project_of workspace_of unattached_or
    resolve_max_attempts override_in transition_or_conflict apply_transition retry_view
    unblock_ready_dependents unblock_each unblock_one dependent_ids is_ready
    active_dependency_target_ids edge_metadata_marks_superseded truthy is_text is_false get_field
    ◌>>=◌ reads writes write_audit state_value task_state TaskState-discrete CapabilityKey-discrete
    DodItemState-discrete EdgeRelation-discrete from_keys strip
latest_dod_report-submit_task_example =
    latest_dod_report-submit_task environment submitting reviewer 1 Json.null
      (task_row 1 "in_progress") report (session "in_progress") accepted refl refl refl report_Sound

-- The artifact of the diff is listed once.
accepted_artifacts :
    map (λ (a : Artifact). a.uri) accepted.working.artifacts ≡ "diff" ∷ "tests" ∷ []
unfolding submit_task require_claimant accept_submission packet_version_of current_packet_version
    finish_submission persist_run persist_artifacts submission_artifacts persist_learning_drafts
    close_task unblock_if_done audit_submission audit_approval pure new_id require_task
    require_state ensure_capability latest_dod_report last_run dod_report_from_payload
    dod_report_view dod_item_value effective_policy task_policy resolved_policy
    resolve_effective_policy attached_policy project_of workspace_of unattached_or
    resolve_max_attempts override_in transition_or_conflict apply_transition retry_view
    unblock_ready_dependents unblock_each unblock_one dependent_ids is_ready
    active_dependency_target_ids edge_metadata_marks_superseded truthy is_text is_false get_field
    ◌>>=◌ reads writes write_audit state_value task_state TaskState-discrete CapabilityKey-discrete
    DodItemState-discrete EdgeRelation-discrete from_keys strip
accepted_artifacts = refl

abbrev invalid : Validation
invalid = record { errors = Json.text "bad" ∷ []; dod_report = none }
