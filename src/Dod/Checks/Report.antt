-- ===== src/Dod/Checks/Report.antt =====
-- What the report of dod.py says of the checks.
use agenticqueue.Base.{
  ℕ, ◌+◌, String, Option, some, List, map, length, In, string_eq, lookup, Result, ok, ◌≡◌, ◌⊎◌,
}
use agenticqueue.Json.{Json, Items}
use agenticqueue.Dod.{dod_item_state_eq, DodChecklistResult, DodReport}
use agenticqueue.Dod.Contract.{ContractDodItem, resolve_contract_dod_items}
use agenticqueue.Dod.Checks.{DodCheckDefinition, DodCheckResult, coerce_check_definition}

abbrev pub InItems : Json → Items → Type 0
InItems j Items.nil = ⊥
InItems j (Items.cons k js) = (j ≡ k) ⊎ InItems j js

-- A declared check is one that can be read, and its item is among those listed.
abbrev pub Ran : List String → Json → Type 0
Ran listed raw = (d : DodCheckDefinition) × (coerce_check_definition raw ≡ ok d) × In d.item listed

module _ {B : Type 0} (decimal : ℕ → String)
    (handlers : String → Option (DodCheckDefinition → B → Result DodCheckResult))
    (from_output : Json → Result B) where
  abbrev pub items_in : DodReport → List String
  items_in report = map (λ (r : DodChecklistResult). r.item) report.checklist

  -- The statements of the contract's items.
  abbrev pub required : List String → List (String × Json) → List String
  required definition_of_done contract =
      map (λ (i : ContractDodItem). i.statement)
        (resolve_contract_dod_items decimal definition_of_done contract)

  -- What a report covers.
  pub record Covers (definition_of_done : List String) (contract : List (String × Json))
      (report : DodReport) : Type 0 where
    pub counted :
        report.checked_count + report.partial_count + report.unchecked_blocked_count
          + report.unchecked_unmet_count
        ≡ length report.checklist
    pub statements :
        (s : String) → In s (required definition_of_done contract) → In s (items_in report)
    pub checks :
        (raw : Json) (js : Items)
        → lookup "dod_checks" contract ≡ some (Json.array js)
        → InItems raw js
        → Ran (items_in report) raw
