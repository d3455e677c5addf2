-- ===== src/Tests/Contracts.antt =====
-- A run of submit_task (task_actions.py) with the validator of validator.py.
use agenticqueue.Base.{refl, String, List, [], ◌∷◌, some, string_eq, nat_eq, ok, from_keys}
use agenticqueue.Base.Int.{pos}
use agenticqueue.Base.Text.{strip}
use agenticqueue.Json.{Json, Items, get_field}
use agenticqueue.Task.{Task, TaskState-discrete, CapabilityKey-discrete, task_state, state_value}
use agenticqueue.Dod.{
  DodItemState-discrete, dod_item_value, dod_report_from_payload, dod_report_view,
}
use agenticqueue.Dod.Contract.{non_empty_text, resolve_contract_dod_items}
use agenticqueue.Dod.Checks.{
  require_non_empty_string, coerce_check_definition, add_result, aggregate_item, checklist_of,
  run_check, run_checks, run_dod_checks,
}
use agenticqueue.Edge.{
  EdgeRelation-discrete, edge_metadata_marks_superseded, truthy, is_text, is_false,
}
use agenticqueue.Policy.{
  resolve_effective_policy, attached_policy, project_of, workspace_of, unattached_or,
  resolved_policy,
}
use agenticqueue.Retry.{override_in, resolve_max_attempts}
use agenticqueue.Transition.{apply_transition}
use agenticqueue.Store.{Session, ◌>>=◌, pure, reads, writes, new_id, write_audit}
use agenticqueue.Validator.{
  ValidationIssue, matched, scan, dod_issues, dod_report_issues, validate_parsed,
  validate_submission,
}
use agenticqueue.Actions.Common.{
  require_task, require_state, ensure_capability, task_policy, effective_policy, retry_view,
  transition_or_conflict, last_run, latest_dod_report,
}
use agenticqueue.Actions.Dependents.{
  active_dependency_target_ids, dependent_ids, is_ready, unblock_one, unblock_each,
  unblock_ready_dependents,
}
use agenticqueue.Actions.Submission.{
  SubmitEnv, require_claimant, submission_artifacts, current_packet_version,
}
use agenticqueue.Actions.Submit.{
  packet_version_of, persist_artifacts, persist_learning_drafts, persist_run, close_task,
  unblock_if_done, audit_approval, audit_submission, finish_submission, accept_submission,
  submit_task,
}
use agenticqueue.Actions.Submit.Contract.{submission_validator, Contracted, submit_task-Contracted}
use agenticqueue.Tests.Rows.{environment, reviewer, task_row, tables, session}
use agenticqueue.Tests.Submissions.{submission as completion}
use agenticqueue.Tests.Validator.{decimal, handlers, from_output, check, parse, submission}

abbrev no_schema : String → Json → List ValidationIssue
no_schema t j = []

abbrev one_item : Task → List String
one_item t = "built" ∷ []

-- The row of task 1, with a declared check of its one item.
abbrev started : Session
started = record (session "in_progress") {
  working = record (tables "in_progress") {
    tasks =
        record (task_row 1 "in_progress") {
          contract =
              ("autonomy_tier", Json.int (pos 2))
              ∷ ("dod_checks", Json.array (Items.cons (check "built") Items.nil))
              ∷ [];
        }
        ∷ task_row 2 "blocked"
        ∷ [];
  };
}

abbrev checking : SubmitEnv
checking =
    submission_validator decimal handlers from_output parse no_schema one_item (λ j. ok completion)
      (λ i db. ok (some 70))

abbrev closed : Session
closed = (submit_task environment checking reviewer 1 submission started).1

submit_task-Contracted_example :
    Contracted decimal handlers from_output parse no_schema one_item 1 submission started
unfolding submit_task require_claimant accept_submission packet_version_of current_packet_version
    finish_submission persist_run persist_artifacts submission_artifacts persist_learning_drafts
    close_task unblock_if_done audit_submission audit_approval pure new_id require_task
    require_state ensure_capability latest_dod_report last_run dod_report_from_payload
    dod_report_view dod_item_value effective_policy task_policy resolved_policy
    resolve_effective_policy attached_policy project_of workspace_of unattached_or
    resolve_max_attempts override_in transition_or_conflict apply_transition retry_view
    unblock_ready_dependents unblock_each unblock_one dependent_ids is_ready
    active_dependency_target_ids edge_metadata_marks_superseded truthy is_text is_false get_field
    ◌>>=◌ reads writes write_audit state_value task_state TaskState-discrete CapabilityKey-discrete
    DodItemState-discrete EdgeRelation-discrete from_keys strip validate_submission validate_parsed
    dod_issues scan matched dod_report_issues run_dod_checks run_checks run_check
    coerce_check_definition require_non_empty_string non_empty_text add_result checklist_of
    aggregate_item resolve_contract_dod_items
submit_task-Contracted_example =
    submit_task-Contracted decimal handlers from_output parse no_schema one_item
      (λ j. ok completion) (λ i db. ok (some 70)) environment reviewer 1 submission started closed
      refl
