-- ===== src/Dod/Checks.antt =====
-- Running the checks of a contract: run_dod_checks of apps/api/src/agenticqueue_api/dod.py, and
-- coerce_check_definition of dod_checks/common.py. The handlers of the check types and the bundle of
-- artifacts that they read are parameters, as is `str` of a number.
pub mod Aggregation
pub mod Report
use Prim.Native.String.{◌++◌ as append}
use agenticqueue.Base.Results.{and_then}
use agenticqueue.Base.{
  ℕ, zero, suc, ◌+◌, String, Bool, true, false, not, ◌&&◌, ◌||◌, Option, none, some, List, [], ◌∷◌,
  ◌++◌, map, length, ◌==◌, string_eq, nat_eq, if◌then◌else◌, filterb, lookup, mem, ltb, nat_beq,
  Error, value_error, Result, ok, err,
}
use agenticqueue.Base.Int.{ℤ, pos, negsuc, ltb_ℤ}
use agenticqueue.Base.Text.{strip, nonempty}
use agenticqueue.Json.{Json, Items, Fields, get_field}
use agenticqueue.Dod.{
  DodItemState, checked, partial, unchecked_blocked, unchecked_unmet, dod_item_state_eq,
  DodChecklistResult, DodReport, count_state,
}
use agenticqueue.Dod.Contract.{ContractDodItem, non_empty_text, resolve_contract_dod_items}

-- `DodCheckDefinition`, the time limit in seconds; fractions do not occur.
pub record DodCheckDefinition : Type 0 where
  pub item : String
  pub check_type : String
  pub fields : Fields
  pub timeout_seconds : ℤ

-- `DodCheckResult`
pub record DodCheckResult : Type 0 where
  pub state : DodItemState
  pub note : String

-- Going on after a step that may raise.
infixl 5 ◌>>=◌
abbrev pub ◌>>=◌ : {X Y : Type 0} (step : Result X) (next : X → Result Y) → Result Y
step >>= next = and_then next step

-- `_require_non_empty_string`
unfoldable pub require_non_empty_string : Fields → String → Result String
require_non_empty_string fs field = elim (non_empty_text (get_field field fs)) [
  | none ↦
      err (value_error (append (append "DoD checks require '" field) "' to be a non-empty string."))
  | some s ↦ ok s
]

-- `raw.get("timeout_seconds", 30.0)`, if it is a positive number; `True` counts as 1.
abbrev pub timeout_value : Option Json → Option ℤ
timeout_value none = some (pos 30)
timeout_value (some (Json.int n)) = if ltb_ℤ (pos 0) n then some n else none
timeout_value (some (Json.boolean true)) = some (pos 1)
timeout_value _ = none

unfoldable pub coerce_check_definition : Json → Result DodCheckDefinition
coerce_check_definition (Json.object fs) = do
  item ← require_non_empty_string fs "item"
  check_type ← require_non_empty_string fs "type"
  if check_type == "shell"
      then err (value_error "shell exec disabled by task policy")
      else elim (timeout_value (get_field "timeout_seconds" fs)) [
        | none ↦ err (value_error "DoD checks must declare a positive timeout_seconds value.")
        | some t ↦
            ok (record { item = item; check_type = check_type; fields = fs; timeout_seconds = t })
      ]
coerce_check_definition _ = err (value_error "Each DoD check must be an object.")

-- `grouped_results`, its keys in the order of `seen_order`
abbrev pub Groups : Type 0
Groups = List (String × List DodCheckResult)

unfoldable pub add_result : String → DodCheckResult → Groups → Groups
add_result item r [] = (item, r ∷ []) ∷ []
add_result item r ((k, rs) ∷ rest) =
    let later = add_result item r rest in
    if k == item then (k, rs ++ r ∷ []) ∷ rest else (k, rs) ∷ later

abbrev pub count_results : DodItemState → List DodCheckResult → ℕ
count_results s [] = 0
count_results s (r ∷ rs) = let rest = count_results s rs in if r.state == s then suc rest else rest

-- The state of an item with results, by how many of them are checked, blocked and unmet.
abbrev pub aggregate_state : List DodCheckResult → DodItemState
aggregate_state rs =
    if nat_beq (count_results checked rs) (length rs)
    then checked
    else if ltb 0 (count_results checked rs)
    then partial
    else if ltb 0 (count_results unchecked_blocked rs)
        && nat_beq (count_results unchecked_unmet rs) 0
    then unchecked_blocked
    else unchecked_unmet

-- `"; ".join(result.note for result in results)`
abbrev pub join_notes : List DodCheckResult → String
join_notes [] = ""
join_notes (r ∷ []) = r.note
join_notes (r ∷ (q ∷ rs)) = append r.note (append "; " (join_notes (q ∷ rs)))

module _ (decimal : ℕ → String) where
  -- `_aggregate_item`
  unfoldable pub aggregate_item : String → List DodCheckResult → DodChecklistResult
  aggregate_item item [] = record {
    item = item;
    state = unchecked_blocked;
    note = "No declarative checks configured for this DoD item.";
  }
  aggregate_item item (r ∷ rs) = record {
    item = item;
    state = aggregate_state (r ∷ rs);
    note = append (decimal (count_results checked (r ∷ rs))) (
        append "/"
          (append (decimal (length (r ∷ rs))) (append " checks passed. " (join_notes (r ∷ rs)))));
  }

  -- The checklist over items in order, of results by item.
  unfoldable pub checklist_of : List String → Groups → List DodChecklistResult
  checklist_of items groups =
      map (λ item. aggregate_item item (elim (lookup item groups) [ none ↦ [] | some rs ↦ rs ]))
        items

  abbrev pub report_of : List DodChecklistResult → DodReport
  report_of checklist = record {
    checklist = checklist;
    checked_count = count_state checked checklist;
    partial_count = count_state partial checklist;
    unchecked_blocked_count = count_state unchecked_blocked checklist;
    unchecked_unmet_count = count_state unchecked_unmet checklist;
  }

-- The statements in order, then the other items that have checks.
abbrev pub ordered_items : List String → List String → List String
ordered_items statements [] = statements
ordered_items statements (item ∷ seen) =
    if mem item statements
    then ordered_items statements seen
    else ordered_items (statements ++ item ∷ []) seen

-- The list of `VALID_CHECK_TYPES` in an error.
abbrev valid_types : String
valid_types =
    "Valid types: artifact_size, ci_status, grep_absent, grep_present, path_absent, path_exists, pr_mergeable, schema_validates, test_count."

module _ {B : Type 0} (decimal : ℕ → String)
    (handlers : String → Option (DodCheckDefinition → B → Result DodCheckResult))
    (from_output : Json → Result B) where
  -- One round of the loop over the checks.
  unfoldable pub run_check : B → Json → Groups → Result Groups
  run_check context raw groups = do
    definition ← coerce_check_definition raw
    elim (handlers definition.check_type) [
      | none ↦ err (
          value_error (
            append "Unknown DoD check type '"
              (append definition.check_type (append "'. " valid_types))))
      | some handler ↦ do
        result ← handler definition context
        ok (add_result definition.item result groups)
    ]

  unfoldable pub run_checks : B → Items → Groups → Result Groups
  run_checks context Items.nil groups = ok groups
  run_checks context (Items.cons raw rest) groups =
      run_check context raw groups >>= λ g. run_checks context rest g

  -- `run_dod_checks` of declared checks
  abbrev pub run_declared : List String → List (String × Json) → Json → Items → Result DodReport
  run_declared definition_of_done contract output js = do
    context ← from_output output
    groups ← run_checks context js []
    let statements =
        map (λ (i : ContractDodItem). i.statement)
          (resolve_contract_dod_items decimal definition_of_done contract)
    let items = ordered_items statements (map (λ (g : String × List DodCheckResult). g.0) groups)
    ok (report_of decimal (checklist_of decimal items groups))

  -- The list of checks that is no list, or empty, is refused.
  abbrev pub declared : Option Json → (Items → Result DodReport) → Result DodReport
  declared (some (Json.array (Items.cons raw rest))) run = run (Items.cons raw rest)
  declared _ run = err (value_error "Task contract must declare a non-empty 'dod_checks' list.")

  -- `run_dod_checks`
  unfoldable pub run_dod_checks : List String → List (String × Json) → Json → Result DodReport
  run_dod_checks definition_of_done contract output =
      declared (lookup "dod_checks" contract) (run_declared definition_of_done contract output)
