-- ===== src/Actions/Submit/Contract.antt =====
-- `submit_task` (task_actions.py) with the validator of validator.py in place of a parameter: the two
-- meet where `submit_task` makes a `SubmissionValidator` and persists its issues as dictionaries.
use agenticqueue.Base.{ℕ, ◌≡◌, refl, arith, String, List, [], ◌∷◌, Option, some, map, Result, ok}
use agenticqueue.Json.{Json, Fields}
use agenticqueue.Task.{Task}
use agenticqueue.Dod.Checks.{DodCheckDefinition, DodCheckResult}
use agenticqueue.Queue.Rows.{find_task}
use agenticqueue.Store.{Db, Session}
use agenticqueue.Validator.{ValidationIssue, Parsed, validate_submission}
use agenticqueue.Validator.Valid.{Meets, validate_submission-Meets_iff}
use agenticqueue.Actions.Common.{Actor, Env, Validation}
use agenticqueue.Actions.Submission.{Submission, SubmitEnv, SubmitTaskResponse}
use agenticqueue.Actions.Submit.{submit_task}
use agenticqueue.Actions.Submit.Accepted.{submit_task-Accepted}

-- `asdict` of an issue
abbrev pub asdict : ValidationIssue → Json
asdict i = Json.object (
    Fields.field "rule" (Json.text i.rule) (
      Fields.field "offending_field" (Json.text i.offending_field)
        (Fields.field "hint" (Json.text i.hint) Fields.end)))

no_dicts : (issues : List ValidationIssue) → map asdict issues ≡ [] → issues ≡ []
no_dicts [] h = refl
no_dicts (i ∷ is) h = absurd (ground arith)

module _ {B : Type 0} (decimal : ℕ → String)
    (handlers : String → Option (DodCheckDefinition → B → Result DodCheckResult))
    (from_output : Json → Result B) (parse : Fields → Parsed)
    (schema_issues : String → Json → List ValidationIssue)
    (definition_of_done : Task → List String) where
  -- The validation that `submit_task` makes of a row and a submission.
  abbrev pub validation : Task → Json → Validation
  validation t submitted =
      let v =
        validate_submission decimal handlers from_output parse (schema_issues t.task_type)
          (definition_of_done t) t.contract submitted in
      record { errors = map asdict v.errors; dod_report = v.dod_report }

  abbrev pub submission_validator :
      (Json → Result Submission) → (ℕ → Db → Result (Option ℕ)) → SubmitEnv
  submission_validator parse_submission compile_packet = record {
    validate_submission = validation;
    parse_submission = parse_submission;
    compile_packet = compile_packet;
  }

  -- The row in `s` that is submitted, and its contract, which the submission meets.
  pub record Contracted (task_id : ℕ) (submitted : Json) (s : Session) : Type 0 where
    pub row : Task
    pub found : find_task task_id s.working.tasks ≡ some row
    pub meets :
        Meets decimal handlers from_output parse
          (schema_issues row.task_type)
          (definition_of_done row)
          row.contract
          submitted

  -- A submission that `submit_task` answers without an error meets the contract of its task: it is an
  -- object that parses, its output fits the schema of the task type, there are learnings if there was
  -- trouble, its results answer the items of the contract, and the declared checks all passed.
  pub submit_task-Contracted :
      (parse_submission : Json → Result Submission) (compile_packet : ℕ → Db → Result (Option ℕ))
      (env : Env) (actor : Actor) (task_id : ℕ) (submitted : Json) (s s' : Session)
      {r : SubmitTaskResponse}
      → submit_task env
          (submission_validator parse_submission compile_packet)
          actor
          task_id
          submitted
          s
        ≡ (ok r, s')
      → Contracted task_id submitted s
  submit_task-Contracted parse_submission compile_packet env actor task_id submitted s s' h =
      let accepted =
        submit_task-Accepted env (submission_validator parse_submission compile_packet) actor
          task_id submitted s s' h in
      let row = accepted.row in
      record {
        row = row;
        found = accepted.found;
        meets =
            (validate_submission-Meets_iff decimal handlers from_output parse
                (schema_issues row.task_type) (definition_of_done row) row.contract submitted).0
              (no_dicts _ accepted.valid);
      }
