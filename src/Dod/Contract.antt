-- ===== src/Dod/Contract.antt =====
-- The definition-of-done items of a contract: resolve_contract_dod_items of
-- apps/api/src/agenticqueue_api/dod.py. `decimal` is `str` of a number.
use Prim.Native.String.{◌++◌ as append}
use agenticqueue.Base.{
  ℕ, suc, String, Bool, true, false, Option, none, some, List, [], ◌∷◌, string_eq, nat_eq,
  if◌then◌else◌, lookup,
}
use agenticqueue.Base.Text.{strip, nonempty}
use agenticqueue.Json.{Json, Items, get_field}
use agenticqueue.Dod.{dod_item_state_eq}

-- `ContractDodItem`
pub record ContractDodItem : Type 0 where
  pub dod_id : String
  pub statement : String
  pub verification_method : String
  pub evidence_required : String
  pub acceptance_threshold : String
  pub is_legacy_adapter : Bool

-- `_non_empty_text`
unfoldable pub non_empty_text : Option Json → Option String
non_empty_text (some (Json.text s)) = if nonempty (strip s) then some (strip s) else none
non_empty_text _ = none

infixl 5 ◌>>=◌
abbrev ◌>>=◌ : {A B : Type 0} → Option A → (A → Option B) → Option B
none >>= f = none
some a >>= f = f a

-- One round of the loop of `resolve_contract_dod_items`; `none` is its `continue`.
abbrev pub structured_item : Json → Option ContractDodItem
structured_item (Json.object fs) = do
  dod_id ← non_empty_text (get_field "id" fs)
  statement ← non_empty_text (get_field "statement" fs)
  verification_method ← non_empty_text (get_field "verification_method" fs)
  evidence_required ← non_empty_text (get_field "evidence_required" fs)
  acceptance_threshold ← non_empty_text (get_field "acceptance_threshold" fs)
  some (record {
    dod_id = dod_id;
    statement = statement;
    verification_method = verification_method;
    evidence_required = evidence_required;
    acceptance_threshold = acceptance_threshold;
    is_legacy_adapter = false;
  })
structured_item _ = none

abbrev pub structured_items : Items → List ContractDodItem
structured_items Items.nil = []
structured_items (Items.cons j js) =
    let rest = structured_items js in elim (structured_item j) [ none ↦ rest | some i ↦ i ∷ rest ]

-- The texts of `dod_checklist`, stripped, without the empty ones.
abbrev pub checklist_texts : Items → List String
checklist_texts Items.nil = []
checklist_texts (Items.cons j js) =
    let rest = checklist_texts js in
    elim (non_empty_text (some j)) [ none ↦ rest | some s ↦ s ∷ rest ]

-- The five fields of every legacy item, numbered from an index on.
abbrev pub legacy_items : (ℕ → String) → ℕ → List String → List ContractDodItem
legacy_items decimal i [] = []
legacy_items decimal i (statement ∷ rest) =
    record {
      dod_id = append "legacy-" (decimal (suc i));
      statement = statement;
      verification_method = "reviewer_check";
      evidence_required = "Compatibility proof supplied at submission time.";
      acceptance_threshold = "A terminal DoD result exists for this legacy item.";
      is_legacy_adapter = true;
    }
    ∷ legacy_items decimal (suc i) rest

abbrev pub legacy_statements : List String → List (String × Json) → List String
legacy_statements (s ∷ ss) contract = s ∷ ss
legacy_statements [] contract = elim (lookup "dod_checklist" contract) [
  | some (Json.array js) ↦ checklist_texts js
  | _ ↦ []
]

abbrev pub structured_of : Option Json → List ContractDodItem
structured_of (some (Json.array js)) = structured_items js
structured_of _ = []

-- `resolve_contract_dod_items`, from the task's `definition_of_done` and contract
unfoldable pub resolve_contract_dod_items :
    (ℕ → String) → List String → List (String × Json) → List ContractDodItem
resolve_contract_dod_items decimal definition_of_done contract =
    elim (structured_of (lookup "dod_items" contract)) [
      | i ∷ is ↦ i ∷ is
      | [] ↦ legacy_items decimal 0 (legacy_statements definition_of_done contract)
    ]
