-- ===== src/Dod/RoundTrip.antt =====
-- Reading a persisted report back (task_actions.py): `_dod_report_from_payload` after
-- `_dod_report_view`.
use agenticqueue.Base.{◌≡◌, ◌≢◌, refl, ap, sym, ◌∙◌, String, some, List, [], ◌∷◌, true, All}
use agenticqueue.Base.Text.{strip, nonempty}
use agenticqueue.Json.{Json, Fields, get_field}
use agenticqueue.Dod.{
  DodItemState, DodChecklistResult, DodReport, checked, partial, unchecked_blocked, unchecked_unmet,
  count_state, dod_item_state, dod_item_value, checklist_item, checklist_items, checklist_view,
  report_of_checklist, dod_report_view, dod_report_from_payload, note_text,
}

-- What the validator's reports have: items with text, at least one, and the counts of their states.
pub record Sound (r : DodReport) : Type 0 where
  pub has_items : r.checklist ≢ []
  pub named : All (λ i. nonempty (strip i.item) ≡ true) r.checklist
  pub counted_checked : r.checked_count ≡ count_state checked r.checklist
  pub counted_partial : r.partial_count ≡ count_state partial r.checklist
  pub counted_blocked : r.unchecked_blocked_count ≡ count_state unchecked_blocked r.checklist
  pub counted_unmet : r.unchecked_unmet_count ≡ count_state unchecked_unmet r.checklist

dod_item_state-dod_item_value : (s : DodItemState) → dod_item_state (dod_item_value s) ≡ some s
unfolding dod_item_state dod_item_value
dod_item_state-dod_item_value checked = refl
dod_item_state-dod_item_value partial = refl
dod_item_state-dod_item_value unchecked_blocked = refl
dod_item_state-dod_item_value unchecked_unmet = refl

module _ (render : Json → String) where
  item_view : DodChecklistResult → Json
  item_view r = Json.object (
      Fields.field "item" (Json.text r.item) (
        Fields.field "state" (Json.text (dod_item_value r.state))
          (Fields.field "note" (Json.text r.note) Fields.end)))

  checklist_item-view :
      (r : DodChecklistResult)
      → nonempty (strip r.item) ≡ true
      → checklist_item render (item_view r) ≡ some r
  unfolding checklist_item get_field item_view note_text
  checklist_item-view r h = rw (h, dod_item_state-dod_item_value r.state) refl

  checklist_items-view :
      (rs : List DodChecklistResult)
      → All (λ i. nonempty (strip i.item) ≡ true) rs
      → checklist_items render (checklist_view rs) ≡ some rs
  unfolding checklist_items item_view
  checklist_items-view [] h = refl
  checklist_items-view (r ∷ rs) h =
      rw (checklist_item-view r h.0, checklist_items-view rs h.1, checklist_items) refl

  report_of_checklist-Sound : (r : DodReport) → Sound r → report_of_checklist render r.checklist ≡ r
  unfolding report_of_checklist
  report_of_checklist-Sound r h =
      rw (sym h.counted_checked, sym h.counted_partial, sym h.counted_blocked, sym h.counted_unmet)
        refl

  read_back :
      (rs : List DodChecklistResult) (rest : Fields)
      → rs ≢ []
      → All (λ i. nonempty (strip i.item) ≡ true) rs
      → dod_report_from_payload render
          (some (Json.object (Fields.field "checklist" (Json.array (checklist_view rs)) rest)))
        ≡ some (report_of_checklist render rs)
  unfolding dod_report_from_payload
  read_back [] rest ne h = absurd (ne refl)
  read_back (x ∷ xs) rest ne h = rw (checklist_items-view (x ∷ xs) h, dod_report_from_payload) refl

  -- A report whose items have text, of which there is at least one, and whose counts are those of
  -- its items, is read back from the run record as it was written.
  pub dod_report_from_payload-dod_report_view :
      (r : DodReport) → Sound r → dod_report_from_payload render (dod_report_view (some r)) ≡ some r
  unfolding dod_report_view
  dod_report_from_payload-dod_report_view r h =
      read_back r.checklist _ h.has_items h.named ∙ ap some (report_of_checklist-Sound r h)
