-- ===== src/Actions/Submission.antt =====
-- What is submitted and answered, and what `submit_task` (task_actions.py) computes from it without the
-- session: apps/api/src/agenticqueue_api/schemas/submit.py, packet_versions.py.
use agenticqueue.Base.{
  ℕ, String, Bool, false, ◌||◌, Option, none, some, List, [], ◌∷◌, ◌++◌, ◌==◌, string_eq, nat_eq,
  if◌then◌else◌, any, api_error, Result, ok, err,
}
use agenticqueue.Json.{Json, Items, Fields}
use agenticqueue.Task.{Task, TaskState, task_state_eq}
use agenticqueue.Transition.{TransitionResult}
use agenticqueue.Store.{Db, Exec, Run, Artifact, Draft, reads}
use agenticqueue.Actions.Common.{Actor, Validation, TaskView}

-- `SubmitArtifactModel`
pub record SubmitArtifact : Type 0 where
  pub kind : String
  pub uri : String
  pub details : Fields

-- `TaskCompletionSubmission`, its `output` flattened; `dump` is `model_dump(mode="json")`.
pub record Submission : Type 0 where
  pub diff_url : String
  pub test_report : String
  pub artifacts : List SubmitArtifact
  pub learnings : List Json
  pub dump : Json

-- What submitting takes from the validator, the schema parser and the packet compiler.
pub record SubmitEnv : Type 0 where
  pub validate_submission : Task → Json → Validation
  pub parse_submission : Json → Result Submission
  pub compile_packet : ℕ → Db → Result (Option ℕ)

-- `SubmitTaskResponse`
pub record SubmitTaskResponse : Type 0 where
  pub task : TaskView
  pub run : Run
  pub artifacts : List Artifact
  pub learning_drafts : List Draft
  pub dod_report : Option Json
  pub transitions : List TransitionResult
  pub next_action : String

-- `uri in seen_uris`
abbrev pub seen : String → List SubmitArtifact → Bool
seen uri items = any (λ a. a.uri == uri) items

abbrev pub add_output : String → String → String → List SubmitArtifact → List SubmitArtifact
add_output kind uri source items =
    if seen uri items
    then items
    else items
      ++ record {
        kind = kind;
        uri = uri;
        details = Fields.field "source" (Json.text source) Fields.end;
      }
        ∷ []

-- `_submission_artifacts`
unfoldable pub submission_artifacts : Submission → List SubmitArtifact
submission_artifacts s =
    add_output "test-report" s.test_report "output.test_report"
      (add_output "diff" s.diff_url "output.diff_url" s.artifacts)

-- `get_current_packet_version`: the row of the task that was created last
unfoldable pub current_packet_version : ℕ → List (ℕ × ℕ) → Option ℕ
current_packet_version i [] = none
current_packet_version i ((t, v) ∷ vs) = elim (current_packet_version i vs) [
  | none ↦ if t == i then some v else none
  | some later ↦ some later
]

unfoldable pub items_of : List Json → Items
items_of [] = Items.nil
items_of (j ∷ js) = Items.cons j (items_of js)

-- `actor.actor_type != "admin" and task_record.claimed_by_actor_id != actor.id`, negated
abbrev pub may_submit : Actor → Task → Bool
may_submit actor t =
    (actor.actor_type == "admin")
    || elim t.claimed_by_actor_id [ none ↦ false | some a ↦ a == actor.id ]

unfoldable pub require_claimant : Actor → Task → Exec (Unit {0})
require_claimant actor t = reads (λ db.
    if may_submit actor t
    then ok tt
    else err (api_error 409 "Only the claiming actor may submit this task"))

-- What the run records of the evaluated transitions.
abbrev pub final_state : TransitionResult → Option TransitionResult → TaskState
final_state accepted none = accepted.state
final_state accepted (some r) = r.state

abbrev pub evaluated :
    TransitionResult → TransitionResult → Option TransitionResult → List TransitionResult
evaluated first second none = first ∷ second ∷ []
evaluated first second (some r) = first ∷ second ∷ r ∷ []
