-- ===== src/Dod.antt =====
-- Definition-of-done reports: the report types of dod.py and dod_checks/common.py, and the reader
-- of a persisted report in task_actions.py (apps/api/src/agenticqueue_api).
pub mod RoundTrip
pub mod Contract
pub mod Checks
use agenticqueue.Base.{
  ℕ, suc, String, Option, none, some, List, [], ◌∷◌, Eq, ◌==◌, string_eq, dec_beq, dec_beq_iff,
  if◌then◌else◌,
}
use agenticqueue.Base.Text.{strip, nonempty}
use agenticqueue.Json.{Json, Items, Fields, get_field}
use agenticqueue.Base.Int.{pos}

-- `DodItemState`
pub data DodItemState : Type 0 where
  checked partial unchecked_blocked unchecked_unmet : DodItemState

unfoldable pub DodItemState-discrete : Discrete DodItemState
DodItemState-discrete = hlevel

instance abbrev pub dod_item_state_eq : Eq DodItemState
dod_item_state_eq = record {
  beq = dec_beq DodItemState-discrete;
  beq_iff = dec_beq_iff DodItemState-discrete;
}

-- `DodItemState(text)`; `none` is the `ValueError`.
unfoldable pub dod_item_state : String → Option DodItemState
dod_item_state s =
    if s == "checked"
    then some checked
    else if s == "partial"
    then some partial
    else if s == "unchecked_blocked"
    then some unchecked_blocked
    else if s == "unchecked_unmet"
    then some unchecked_unmet
    else none

pub record DodChecklistResult : Type 0 where
  pub item : String
  pub state : DodItemState
  pub note : String

pub record DodReport : Type 0 where
  pub checklist : List DodChecklistResult
  pub checked_count : ℕ
  pub partial_count : ℕ
  pub unchecked_blocked_count : ℕ
  pub unchecked_unmet_count : ℕ

-- `sum(item.state == state for item in checklist)`
abbrev pub count_state : DodItemState → List DodChecklistResult → ℕ
count_state s [] = 0
count_state s (r ∷ rs) = let rest = count_state s rs in if r.state == s then suc rest else rest

-- `str(raw_note)` of a note that is no string is the language's rendering of a JSON value.
module _ (render : Json → String) where
  note_text : Option Json → String
  note_text none = ""
  note_text (some (Json.text s)) = s
  note_text (some j) = render j

  -- One round of the loop of `_dod_report_from_payload`; `none` is its `return None`.
  checklist_item : Json → Option DodChecklistResult
  unfolding note_text
  checklist_item (Json.object fs) = elim (get_field "item" fs) [
    | some (Json.text name) ↦ elim (get_field "state" fs) [
      | some (Json.text raw_state) ↦
          if nonempty (strip name)
          then elim (dod_item_state raw_state) [
            | none ↦ none
            | some s ↦
                some (record { item = name; state = s; note = note_text (get_field "note" fs) })
          ]
          else none
      | _ ↦ none
    ]
    | _ ↦ none
  ]
  checklist_item _ = none

  checklist_items : Items → Option (List DodChecklistResult)
  checklist_items Items.nil = some []
  checklist_items (Items.cons j js) = elim (checklist_item j) [
    | none ↦ none
    | some r ↦ elim (checklist_items js) [ none ↦ none | some rs ↦ some (r ∷ rs) ]
  ]

  report_of_checklist : List DodChecklistResult → DodReport
  report_of_checklist rs = record {
    checklist = rs;
    checked_count = count_state checked rs;
    partial_count = count_state partial rs;
    unchecked_blocked_count = count_state unchecked_blocked rs;
    unchecked_unmet_count = count_state unchecked_unmet rs;
  }

  -- `_dod_report_from_payload`
  unfoldable pub dod_report_from_payload : Option Json → Option DodReport
  unfolding checklist_item checklist_items report_of_checklist dod_item_state get_field
  dod_report_from_payload (some (Json.object fs)) = elim (get_field "checklist" fs) [
    | some (Json.array (Items.cons j js)) ↦ elim (checklist_items (Items.cons j js)) [
      | none ↦ none
      | some rs ↦ some (report_of_checklist rs)
    ]
    | _ ↦ none
  ]
  dod_report_from_payload _ = none

-- `state.value`
unfoldable pub dod_item_value : DodItemState → String
dod_item_value checked = "checked"
dod_item_value partial = "partial"
dod_item_value unchecked_blocked = "unchecked_blocked"
dod_item_value unchecked_unmet = "unchecked_unmet"

abbrev pub checklist_view : List DodChecklistResult → Items
checklist_view [] = Items.nil
checklist_view (r ∷ rs) =
    Items.cons
      (Json.object (
        Fields.field "item" (Json.text r.item) (
          Fields.field "state" (Json.text (dod_item_value r.state))
            (Fields.field "note" (Json.text r.note) Fields.end))))
      (checklist_view rs)

-- `_dod_report_view`, dumped as JSON
unfoldable pub dod_report_view : Option DodReport → Option Json
dod_report_view none = none
dod_report_view (some r) = some (
    Json.object (
      Fields.field "checklist" (Json.array (checklist_view r.checklist)) (
        Fields.field "checked_count" (Json.int (pos r.checked_count)) (
          Fields.field "partial_count" (Json.int (pos r.partial_count)) (
            Fields.field "unchecked_blocked_count" (Json.int (pos r.unchecked_blocked_count)) (
              Fields.field "unchecked_unmet_count" (Json.int (pos r.unchecked_unmet_count))
                Fields.end))))))
