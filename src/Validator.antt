-- ===== src/Validator.antt =====
-- The validation of submissions: apps/api/src/agenticqueue_api/validator.py. The parser of submissions
-- (schemas/submit.py) and the schema of the task type are parameters; errors of the first come in
-- with the parts of their location, the ones of the second as issues.
pub mod Results
pub mod Answered
pub mod Valid
use Prim.Native.String.{◌++◌ as append}
use agenticqueue.Base.{
  ℕ, zero, suc, String, Bool, true, false, not, ◌&&◌, ◌||◌, Option, none, some, List, [], ◌∷◌, ◌++◌,
  map, length, ◌==◌, string_eq, if◌then◌else◌, filterb, lookup, mem, Error, value_error, key_error,
  type_error, integrity_error, api_error, Result, ok, err,
}
use agenticqueue.Base.Text.{strip, nonempty}
use agenticqueue.Json.{Json, Items, Fields}
use agenticqueue.Dod.{checked, dod_item_state_eq, dod_item_value, DodChecklistResult, DodReport}
use agenticqueue.Dod.Contract.{ContractDodItem, resolve_contract_dod_items}
use agenticqueue.Dod.Checks.{DodCheckDefinition, DodCheckResult, run_dod_checks}

-- `ValidationIssue`
pub record ValidationIssue : Type 0 where
  pub rule : String
  pub offending_field : String
  pub hint : String

-- `ValidationResult`
pub record ValidationResult : Type 0 where
  pub errors : List ValidationIssue
  pub dod_report : Option DodReport

-- One of `dod_results` of a parsed submission.
pub record DodResult : Type 0 where
  pub dod_id : String
  pub status : String
  pub evidence : List String
  pub failure_reason : Option String

-- `normalized_output`, with the learnings of its output
pub record NormalizedOutput : Type 0 where
  pub output : Json
  pub learnings : List Json
  pub dod_results : List DodResult
  pub had_failure : Bool
  pub had_block : Bool
  pub had_retry : Bool

-- One of the errors of a `PydanticValidationError`
pub record SubmitError : Type 0 where
  pub loc : List String
  pub type : String
  pub msg : String

-- What the parser returns or raises.
pub data Parsed : Type 0 where
  wrong_type : (message : String) → Parsed
  refused : SubmitError → List SubmitError → Parsed
  parsed : NormalizedOutput → Parsed

-- `".".join(parts)`
abbrev pub join_dots : List String → String
join_dots [] = ""
join_dots (s ∷ []) = s
join_dots (s ∷ (t ∷ ts)) = append s (append "." (join_dots (t ∷ ts)))

abbrev pub location_of : List String → String
location_of loc = elim (filterb (λ part. not (part == "__root__")) loc) [
  | [] ↦ "submission"
  | s ∷ ss ↦ join_dots (s ∷ ss)
]

-- `_issue_from_submit_error`
unfoldable pub issue_from_submit_error : SubmitError → ValidationIssue
issue_from_submit_error e =
    let field = location_of e.loc in
    record {
      rule = append "submission." e.type;
      offending_field = field;
      hint =
          if e.type == "extra_forbidden"
          then append "Remove unexpected field '" (append field "'.")
          else if mem e.type ("bool_type" ∷ "int_type" ∷ "string_type" ∷ "date_type" ∷ [])
          then append "Provide the expected JSON type for '" (append field "'.")
          else if mem e.type ("string_too_long" ∷ "list_too_long" ∷ "dict_too_long" ∷ [])
          then append "Reduce the size of '" (append field "'.")
          else e.msg;
    }

-- `_has_retry_signal`
abbrev pub has_retry_signal : NormalizedOutput → Bool
has_retry_signal o = o.had_failure || o.had_block || o.had_retry

-- The last item with the property, as in a dictionary whose later keys win.
abbrev pub last_match : (ContractDodItem → Bool) → List ContractDodItem → Option ContractDodItem
last_match p [] = none
last_match p (i ∷ is) = elim (last_match p is) [
  | some j ↦ some j
  | none ↦ if p i then some i else none
]

-- `by_id.get(dod_id) or by_statement.get(dod_id)`
unfoldable pub matched : String → List ContractDodItem → Option ContractDodItem
matched k items = elim (last_match (λ i. i.dod_id == k) items) [
  | some i ↦ some i
  | none ↦ last_match (λ i. i.statement == k) items
]

abbrev pub has_reason : Option String → Bool
has_reason none = false
has_reason (some s) = nonempty (strip s)

abbrev pub without_evidence : DodResult → Bool
without_evidence r = (r.status == "passed") && elim r.evidence [ [] ↦ true | e ∷ es ↦ false ]

abbrev pub without_reason : DodResult → Bool
without_reason r =
    mem r.status ("failed" ∷ "blocked" ∷ "not_applicable" ∷ []) && not (has_reason r.failure_reason)

module _ (decimal : ℕ → String) where
  abbrev pub field_of : ℕ → String → String
  field_of i name = append "dod_results." (append (decimal i) (append "." name))

  -- The issues of a result that was matched with an item.
  abbrev pub result_issues : ℕ → ContractDodItem → DodResult → List ValidationIssue
  result_issues i m r =
      (if without_evidence r
        then record {
          rule = "dod_result_evidence_required";
          offending_field = field_of i "evidence";
          hint = append "Add at least one evidence pointer for '" (append m.statement "'.");
        }
          ∷ []
        else [])
      ++ (if without_reason r
          then record {
            rule = "dod_result_reason_required";
            offending_field = field_of i "failure_reason";
            hint =
                append "Explain why '"
                  (append m.statement "' did not pass before completing the task.");
          }
            ∷ []
          else [])

  abbrev pub unknown_issue : ℕ → ValidationIssue
  unknown_issue i = record {
    rule = "dod_result_unknown_id";
    offending_field = field_of i "dod_id";
    hint = "Reference one of the task's structured DoD ids or compatibility statements.";
  }

  -- `issues`, `seen_ids` and `unknown_id_seen` after the loop over the results.
  pub record Scan : Type 0 where
    pub issues : List ValidationIssue
    pub seen_ids : List String
    pub unknown_id_seen : Bool

  unfoldable pub scan : List ContractDodItem → ℕ → List DodResult → Scan
  scan items i [] = record { issues = []; seen_ids = []; unknown_id_seen = false }
  scan items i (r ∷ rs) =
      let rest = scan items (suc i) rs in
      elim (matched r.dod_id items) [
        | none ↦ record {
          issues = unknown_issue i ∷ rest.issues;
          seen_ids = rest.seen_ids;
          unknown_id_seen = true;
        }
        | some m ↦ record {
          issues = result_issues i m r ++ rest.issues;
          seen_ids = m.dod_id ∷ rest.seen_ids;
          unknown_id_seen = rest.unknown_id_seen;
        }
      ]

  abbrev pub missing_issue : ContractDodItem → ValidationIssue
  missing_issue item = record {
    rule = "dod_result_missing";
    offending_field = "dod_results";
    hint =
        append "Provide a terminal DoD result for '"
          (append item.statement (append "' (" (append item.dod_id ").")));
  }

  abbrev pub missing_items : List ContractDodItem → Scan → List ContractDodItem
  missing_items items s =
      if s.unknown_id_seen then [] else filterb (λ i. not (mem i.dod_id s.seen_ids)) items

  -- `_dod_issues`, from the expected items
  unfoldable pub dod_issues : List ContractDodItem → List DodResult → List ValidationIssue
  dod_issues [] results = []
  dod_issues (i ∷ is) results =
      let s = scan (i ∷ is) 0 results in s.issues ++ map missing_issue (missing_items (i ∷ is) s)

  -- `_dod_report_issues`, from an index on
  unfoldable pub dod_report_issues : ℕ → List DodChecklistResult → List ValidationIssue
  dod_report_issues i [] = []
  dod_report_issues i (r ∷ rs) =
      let rest = dod_report_issues (suc i) rs in
      if r.state == checked
      then rest
      else record {
        rule = append "dod_" (dod_item_value r.state);
        offending_field = append "definition_of_done." (decimal i);
        hint = append r.item (append ": " r.note);
      }
        ∷ rest

abbrev pub payload_type : String → ValidationIssue
payload_type hint = record {
  rule = "submission_payload_type";
  offending_field = "submission";
  hint = hint;
}

abbrev pub learnings_required : ValidationIssue
learnings_required = record {
  rule = "learnings_required";
  offending_field = "output.learnings";
  hint = "Add at least one learning when the task had a failure, block, or retry.";
}

abbrev pub dod_checks_invalid : String → ValidationIssue
dod_checks_invalid hint = record {
  rule = "dod_checks_invalid";
  offending_field = "contract.dod_checks";
  hint = hint;
}

-- `str(error)` of an exception of the checks
abbrev pub message_of : Error → String
message_of (value_error s) = s
message_of (key_error s) = s
message_of (type_error s) = s
message_of (integrity_error s) = s
message_of (api_error n s) = s

-- The issue of missing learnings, by the retry signal.
abbrev pub learning_issues : List Json → Bool → List ValidationIssue
learning_issues [] signal = if signal then learnings_required ∷ [] else []
learning_issues (l ∷ ls) signal = []

module _ {B : Type 0} (decimal : ℕ → String)
    (handlers : String → Option (DodCheckDefinition → B → Result DodCheckResult))
    (from_output : Json → Result B) (parse : Fields → Parsed)
    (schema_issues : Json → List ValidationIssue) (definition_of_done : List String)
    (contract : List (String × Json)) where
  abbrev pub checked_report : Result DodReport → List ValidationIssue × Option DodReport
  checked_report (ok report) = (dod_report_issues decimal 0 report.checklist, some report)
  checked_report (err e) = (dod_checks_invalid (message_of e) ∷ [], none)

  -- The issues of the declared checks, and their report, when there are such checks.
  abbrev pub check_issues : Json → List ValidationIssue × Option DodReport
  check_issues output = elim (lookup "dod_checks" contract) [
    | none ↦ ([], none)
    | some _ ↦
        checked_report
          (run_dod_checks decimal handlers from_output definition_of_done contract output)
  ]

  unfoldable pub validate_parsed : NormalizedOutput → ValidationResult
  validate_parsed o = record {
    errors =
        schema_issues o.output
        ++ (learning_issues o.learnings (has_retry_signal o)
            ++ (dod_issues decimal (resolve_contract_dod_items decimal definition_of_done contract)
                  o.dod_results
                ++ (check_issues o.output).0));
    dod_report = (check_issues o.output).1;
  }

  -- What follows on the parser.
  abbrev pub validate_as : Parsed → ValidationResult
  validate_as (wrong_type message) = record {
    errors = payload_type message ∷ [];
    dod_report = none;
  }
  validate_as (refused e es) = record {
    errors = issue_from_submit_error e ∷ map issue_from_submit_error es;
    dod_report = none;
  }
  validate_as (parsed o) = validate_parsed o

  -- `validate_submission`
  unfoldable pub validate_submission : Json → ValidationResult
  validate_submission (Json.object fs) = validate_as (parse fs)
  validate_submission _ = record {
    errors = payload_type "Submit a JSON object with output artifacts and retry flags." ∷ [];
    dod_report = none;
  }
