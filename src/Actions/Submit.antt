-- ===== src/Actions/Submit.antt =====
-- `submit_task` (task_actions.py), with the validator and the packet compiler as parameters.
pub mod Writes
pub mod Evaluation
pub mod Accepted
pub mod Invalid
pub mod Contract
use agenticqueue.Base.{
  ℕ, String, Bool, true, false, not, ◌||◌, Option, none, some, List, [], ◌∷◌, ◌++◌, map, length,
  ◌==◌, string_eq, nat_eq, if◌then◌else◌, any, Error, value_error, api_error, Result, ok, err,
}
use agenticqueue.Json.{Json, Items, Fields}
use agenticqueue.Task.{
  Task, TaskState, Failure, task_state_eq, run_tests, create_artifact, update_task, CapabilityKey,
  in_progress, submitted, validated, done, state_value,
}
use agenticqueue.Edge.{Edge, produced}
use agenticqueue.Dod.{DodReport, dod_report_view}
use agenticqueue.Transition.{TransitionPolicy, TransitionResult, Request, apply_transition}
use agenticqueue.Queue.{or_now, free_row}
use agenticqueue.Store.{
  Db, Exec, Run, Artifact, Draft, submission_accepted, approval, ◌>>=◌, ◌>>◌, pure, raise, reads,
  writes, commit, new_id, write_audit,
}
use agenticqueue.Actions.Common.{
  Actor, Env, Validation, TaskView, require_task, require_state, ensure_capability,
  effective_policy, retry_view, transition_or_conflict, record_task_failure,
}
use agenticqueue.Actions.Dependents.{unblock_ready_dependents}
use agenticqueue.Actions.Review.{task_audit, write_row}
use agenticqueue.Actions.Submission.{
  SubmitArtifact, Submission, SubmitEnv, SubmitTaskResponse, seen, add_output, submission_artifacts,
  current_packet_version, items_of, may_submit, require_claimant, final_state, evaluated,
}

module _ (env : Env) (senv : SubmitEnv) (actor : Actor) where
  abbrev pub failure_of : Task → Validation → Failure
  failure_of t v = record {
    error_code = "validation_failed";
    message = "Task submission failed validation";
    details = Json.object (
        Fields.field "task_id" (Json.text (env.uuid_text t.id)) (
          Fields.field "state" (Json.text t.state)
            (Fields.field "errors" (Json.array (items_of v.errors)) Fields.end)));
    occurred_at = env.now;
  }

  -- An invalid submission costs an attempt, which is committed before the 422.
  unfoldable pub reject_submission : Task → TransitionPolicy → Validation → Exec SubmitTaskResponse
  reject_submission t policy v = do
    failed ← record_task_failure env actor policy policy.max_retries (failure_of t v) t
    commit
    raise (api_error 422 "Task submission failed validation")

  -- The current packet version, which is compiled when there is none.
  unfoldable pub packet_version_of : ℕ → Exec (Option ℕ)
  packet_version_of i = do
    compiled ← reads (λ db. elim (current_packet_version i db.packet_versions) [
      | some v ↦ ok none
      | none ↦ senv.compile_packet i db
    ])
    writes (λ db. record db {
      packet_versions = elim compiled [
        | none ↦ db.packet_versions
        | some v ↦ db.packet_versions ++ (i, v) ∷ []
      ];
    })
    reads (λ db. ok (current_packet_version i db.packet_versions))

  -- A call of `apply_transition` with one capability.
  abbrev pub step_request : CapabilityKey → Option DodReport → Request
  step_request c report = record {
    actor_capabilities = c ∷ [];
    attempt_count = 0;
    dod_report = report;
    blocked_at = none;
    now = env.now;
    human_approved = false;
  }

  abbrev pub step_to :
      String
      → TransitionPolicy
      → Task
      → TaskState
      → CapabilityKey
      → Option DodReport
      → Result TransitionResult
  step_to message policy t requested c report =
      transition_or_conflict env message
        (apply_transition policy t requested (step_request c report))

  abbrev pub in_state : TaskState → Task → Task
  in_state s t = record t { state = state_value s }

  -- `if not policy.hitl_required`: the transition to done
  abbrev pub auto_approve :
      TransitionPolicy
      → Task
      → TransitionResult
      → Option DodReport
      → Result (Option TransitionResult)
  auto_approve policy t accepted report =
      if policy.hitl_required
      then ok none
      else elim (step_to "Task cannot auto-approve into done state" policy
          (in_state accepted.state t) done update_task report) [
            | err e ↦ err e
            | ok r ↦ ok (some r)
          ]

  unfoldable pub persist_artifacts : ℕ → ℕ → List SubmitArtifact → Exec (List Artifact)
  persist_artifacts task_id run_id [] = pure []
  persist_artifacts task_id run_id (a ∷ rest) = do
    artifact_id ← new_id
    edge_id ← new_id
    let row : Artifact = record {
      id = artifact_id;
      task_id = task_id;
      run_id = run_id;
      kind = a.kind;
      uri = a.uri;
      details = a.details;
    }
    let edge : Edge = record {
      id = edge_id;
      src_entity_type = "task";
      src_id = task_id;
      dst_entity_type = "artifact";
      dst_id = artifact_id;
      relation = produced;
      edge_metadata = Fields.end;
      created_by = some actor.id;
    }
    writes (λ db. record db { artifacts = db.artifacts ++ row ∷ []; edges = db.edges ++ edge ∷ [] })
    rows ← persist_artifacts task_id run_id rest
    pure (row ∷ rows)

  -- `_persist_learning_drafts`
  unfoldable pub persist_learning_drafts : ℕ → ℕ → List Json → Exec (List Draft)
  persist_learning_drafts task_id run_id [] = pure []
  persist_learning_drafts task_id run_id (learning ∷ rest) = do
    draft_id ← new_id
    let row : Draft = record {
      id = draft_id;
      task_id = task_id;
      run_id = run_id;
      payload = learning;
      draft_status = "pending";
    }
    writes (λ db. record db { drafts = db.drafts ++ row ∷ [] })
    rows ← persist_learning_drafts task_id run_id rest
    pure (row ∷ rows)

  abbrev pub run_summary : Bool → String
  run_summary true = "Task submission accepted and validated."
  run_summary false = "Task submission accepted, validated, and auto-approved."

  abbrev pub next_step : Bool → String
  next_step true = "await_human_approval"
  next_step false = "done"

  abbrev pub run_of :
      Task
      → TransitionPolicy
      → Validation
      → Submission
      → Option ℕ
      → TaskState
      → List TransitionResult
      → ℕ
      → Run
  run_of t policy v submission version state transitions run_id = record {
    id = run_id;
    task_id = t.id;
    packet_version_id = version;
    actor_id = actor.id;
    status = state_value state;
    started_at = or_now t.claimed_at env.now;
    ended_at = env.now;
    summary = run_summary policy.hitl_required;
    submission = submission.dump;
    transitions = transitions;
    next_action = next_step policy.hitl_required;
    dod_report = dod_report_view v.dod_report;
  }

  -- `if task_record.state == "done"`: dependents are looked at.
  unfoldable pub unblock_if_done : Task → Exec (List ℕ)
  unblock_if_done t =
      if t.state == state_value done then unblock_ready_dependents t.id (some actor.id) else pure []

  unfoldable pub audit_approval : TransitionPolicy → Task → Exec (Unit {0})
  audit_approval policy t =
      if policy.hitl_required
      then pure tt
      else write_audit (task_audit actor t.id "JOB_APPROVED" (approval t.state "automatic" none))

  -- The run record and its artifacts.
  unfoldable pub persist_run : ℕ → (ℕ → Run) → Submission → Exec (Run × List Artifact)
  persist_run task_id run_at submission = do
    run_id ← new_id
    let run = run_at run_id
    writes (λ db. record db { runs = db.runs ++ run ∷ [] })
    artifacts ← persist_artifacts task_id run_id (submission_artifacts submission)
    pure (run, artifacts)

  -- The task row, the learning drafts and the dependents.
  unfoldable pub close_task : Task → TaskState → ℕ → Submission → Exec (List Draft)
  close_task t state run_id submission = do
    let row = free_row (state_value state)
    write_row t.id row
    drafts ← persist_learning_drafts t.id run_id submission.learnings
    ids ← unblock_if_done (row t)
    pure drafts

  unfoldable pub audit_submission : TransitionPolicy → Task → Run → ℕ → ℕ → Exec (Unit {0})
  audit_submission policy t run artifact_count draft_count = do
    write_audit (
        task_audit actor t.id "JOB_SUBMITTED"
          (submission_accepted run.id t.state artifact_count draft_count run.next_action))
    audit_approval policy t

  -- From the run record on: nothing here raises.
  unfoldable pub finish_submission :
      Task
      → TransitionPolicy
      → Validation
      → Submission
      → Option ℕ
      → TaskState
      → List TransitionResult
      → Exec SubmitTaskResponse
  finish_submission t policy v submission version state transitions = do
    persisted ← persist_run t.id (run_of t policy v submission version state transitions) submission
    let (run, artifacts) = persisted
    drafts ← close_task t state run.id submission
    let row = free_row (state_value state) t
    audit_submission policy row run (length artifacts) (length drafts)
    reads (λ db. ok (record {
      task = retry_view env policy row db;
      run = run;
      artifacts = artifacts;
      learning_drafts = drafts;
      dod_report = dod_report_view v.dod_report;
      transitions = transitions;
      next_action = run.next_action;
    }))

  -- After the validation: the submission is parsed, the packet version is looked up, and the
  -- transitions are evaluated before anything is written.
  unfoldable pub accept_submission :
      Task → TransitionPolicy → Validation → Json → Exec SubmitTaskResponse
  accept_submission t policy v payload = do
    submission ← reads (λ _. senv.parse_submission payload)
    version ← packet_version_of t.id
    first ←
        reads (λ _. step_to "Task cannot enter submitted state" policy t submitted run_tests none)
    second ← reads (λ _.
        step_to "Task cannot enter validated state" policy (in_state first.state t) validated
          update_task v.dod_report)
    third ← reads (λ _. auto_approve policy (in_state first.state t) second v.dod_report)
    finish_submission t policy v submission version (final_state second third)
        (evaluated first second third)

  -- `validation.is_valid`
  abbrev pub is_valid : Validation → Bool
  is_valid v = elim v.errors [ [] ↦ true | _ ∷ _ ↦ false ]

  unfoldable pub submit_task : ℕ → Json → Exec SubmitTaskResponse
  submit_task task_id payload = do
    t ← require_task task_id
    require_state in_progress "Task must be in progress before submission" t
    require_claimant actor t
    ensure_capability env actor run_tests t
    ensure_capability env actor create_artifact t
    ensure_capability env actor update_task t
    policy ← reads (effective_policy env t)
    let v = senv.validate_submission t payload
    if is_valid v then accept_submission t policy v payload else reject_submission t policy v
