-- ===== src/Tests/Validator.antt =====
-- Runs of dod.py and validator.py.
use agenticqueue.Base.{
  ℕ, zero, suc, String, false, List, [], ◌∷◌, ◌≡◌, refl, Option, none, some, nat_eq, string_eq,
  ◌==◌, if◌then◌else◌, map, Result, ok, ◌↔◌,
}
use agenticqueue.Base.Text.{strip}
use agenticqueue.Json.{Json, Items, Fields, get_field}
use agenticqueue.Dod.{DodItemState-discrete, dod_item_value, DodReport, checked, unchecked_unmet}
use agenticqueue.Dod.Contract.{non_empty_text, resolve_contract_dod_items}
use agenticqueue.Dod.Checks.{
  DodCheckDefinition, DodCheckResult, require_non_empty_string, coerce_check_definition, add_result,
  aggregate_item, checklist_of, run_check, run_checks, run_dod_checks,
}
use agenticqueue.Validator.{
  ValidationIssue, NormalizedOutput, Parsed, parsed, wrong_type, matched, scan, dod_issues,
  dod_report_issues, validate_parsed, validate_submission,
}
use agenticqueue.Validator.Valid.{Meets, validate_submission-Meets_iff}

abbrev pub decimal : ℕ → String
decimal zero = "0"
decimal (suc zero) = "1"
decimal (suc (suc n)) = "many"

-- One handler, which passes a check that is of the item "built".
abbrev pub handlers : String → Option (DodCheckDefinition → ℕ → Result DodCheckResult)
handlers t =
    if t == "path_exists"
    then some (λ d n.
      ok (record { state = if d.item == "built" then checked else unchecked_unmet; note = "seen" }))
    else none

abbrev pub from_output : Json → Result ℕ
from_output j = ok 0

abbrev pub check : String → Json
check item = Json.object (
    Fields.field "item" (Json.text item) (Fields.field "type" (Json.text "path_exists") Fields.end))

abbrev contract : List (String × Json)
contract = ("dod_checks", Json.array (Items.cons (check "built") Items.nil)) ∷ []

abbrev report : DodReport
report = record {
  checklist = record { item = "built"; state = checked; note = "1/1 checks passed. seen" } ∷ [];
  checked_count = 1;
  partial_count = 0;
  unchecked_blocked_count = 0;
  unchecked_unmet_count = 0;
}

reported : run_dod_checks decimal handlers from_output ("built" ∷ []) contract Json.null ≡ ok report
unfolding run_dod_checks run_checks run_check coerce_check_definition require_non_empty_string
    non_empty_text strip get_field add_result checklist_of aggregate_item resolve_contract_dod_items
    DodItemState-discrete
reported = refl

abbrev pub given : NormalizedOutput
given = record {
  output = Json.null;
  learnings = [];
  dod_results =
      record { dod_id = "built"; status = "passed"; evidence = "a.txt" ∷ []; failure_reason = none }
      ∷ [];
  had_failure = false;
  had_block = false;
  had_retry = false;
}

abbrev pub parse : Fields → Parsed
parse Fields.end = wrong_type "empty"
parse (Fields.field k j fs) = parsed given

abbrev no_issues : Json → List ValidationIssue
no_issues j = []

abbrev pub submission : Json
submission = Json.object (Fields.field "output" Json.null Fields.end)

validate_submission-Meets_iff_example :
    ((validate_submission decimal handlers from_output parse no_issues
        ("built" ∷ [])
        contract
        submission).errors
      ≡ [])
    ↔ Meets decimal handlers from_output parse no_issues ("built" ∷ []) contract submission
validate_submission-Meets_iff_example =
    validate_submission-Meets_iff decimal handlers from_output parse no_issues ("built" ∷ [])
      contract submission

validated :
    (validate_submission decimal handlers from_output parse no_issues
      ("built" ∷ [])
      contract
      submission).errors
    ≡ []
unfolding validate_submission validate_parsed dod_issues scan matched dod_report_issues
    dod_item_value run_dod_checks run_checks run_check coerce_check_definition
    require_non_empty_string non_empty_text strip get_field add_result checklist_of aggregate_item
    resolve_contract_dod_items DodItemState-discrete
validated = refl

-- The second item of the task is left without a result and without a check.
rejected :
    map
      (λ (i : ValidationIssue). i.rule)
      (validate_submission decimal handlers from_output parse no_issues
        ("built" ∷ "shipped" ∷ [])
        contract
        submission).errors
    ≡ "dod_result_missing" ∷ "dod_unchecked_blocked" ∷ []
unfolding validate_submission validate_parsed dod_issues scan matched dod_report_issues
    dod_item_value run_dod_checks run_checks run_check coerce_check_definition
    require_non_empty_string non_empty_text strip get_field add_result checklist_of aggregate_item
    resolve_contract_dod_items DodItemState-discrete
rejected = refl
