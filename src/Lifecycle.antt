-- ===== src/Lifecycle.antt =====
-- Superseding and expiring learnings: apps/api/src/agenticqueue_api/learnings/lifecycle.py, over the rows
-- of learnings and edges in the order of creation. The id of a new edge is the table's next one.
pub mod Linear
use agenticqueue.Base.{
  ℕ, String, Bool, true, false, not, ◌&&◌, Option, none, some, List, [], ◌∷◌, ◌++◌, map, ◌==◌,
  nat_eq, string_eq, if◌then◌else◌, first, Error, value_error, key_error, Result, ok, err,
}
use agenticqueue.Base.Text.{strip, nonempty}
use agenticqueue.Json.{Json, Fields, get_field}
use agenticqueue.Edge.{Edge, edge_relation_eq, supersedes, is_text}

-- `LearningRecord`, its columns that a change of status reads or writes.
pub record Learning : Type 0 where
  pub id : ℕ
  pub status : String

pub record Learnings : Type 0 where
  pub rows : List Learning
  pub edges : List Edge

-- `_normalize_reason`
unfoldable pub normalize_reason : String → Result String
normalize_reason reason =
    if nonempty (strip reason)
    then ok (strip reason)
    else err (value_error "reason must not be empty")

-- `_require_learning`, `text` being `str` of an id
unfoldable pub require_learning : (ℕ → String) → ℕ → List Learning → Result Learning
require_learning text i rows = elim (first (λ l. l.id == i) rows) [
  | none ↦ err (key_error (text i))
  | some l ↦ ok l
]

abbrev pub with_status : ℕ → String → List Learning → List Learning
with_status i status = map (λ l. if l.id == i then record l { status = status } else l)

abbrev pub is_supersedes : Edge → Bool
is_supersedes e =
    (e.src_entity_type == "learning")
    && (e.dst_entity_type == "learning")
    && (e.relation == supersedes)

-- `existing_replacement` of `_ensure_unique_replacement`
abbrev pub replaces : ℕ → Edge → Bool
replaces old e = is_supersedes e && (e.dst_id == old)

unfoldable pub unique_replacement : ℕ → ℕ → List Edge → Bool
unique_replacement old new edges = elim (first (replaces old) edges) [
  | none ↦ true
  | some e ↦ e.src_id == new
]

-- `{**metadata, key: value}`
unfoldable pub set_field : String → Json → Fields → Fields
set_field k v Fields.end = Fields.field k v Fields.end
set_field k v (Fields.field j w fs) =
    let rest = set_field k v fs in if j == k then Fields.field j v fs else Fields.field j w rest

abbrev pub joins : ℕ → ℕ → Edge → Bool
joins old new e = replaces old e && (e.src_id == new)

abbrev pub with_reason : ℕ → String → Edge → Edge
with_reason i reason e =
    if e.id == i
    then record e { edge_metadata = set_field "reason" (Json.text reason) e.edge_metadata }
    else e

-- `_ensure_supersedes_edge`
unfoldable pub ensure_supersedes_edge : ℕ → ℕ → String → Option ℕ → ℕ → List Edge → List Edge
ensure_supersedes_edge old new reason created_by fresh edges = elim (first (joins old new) edges) [
  | some e ↦
      if is_text reason (get_field "reason" e.edge_metadata)
      then edges
      else map (with_reason e.id reason) edges
  | none ↦
      edges
      ++ record {
        id = fresh;
        src_entity_type = "learning";
        src_id = new;
        dst_entity_type = "learning";
        dst_id = old;
        relation = supersedes;
        edge_metadata = Fields.field "reason" (Json.text reason) Fields.end;
        created_by = created_by;
      }
        ∷ []
]

-- `supersede` after its rows are found.
unfoldable pub supersede_rows :
    Learning → Learning → String → Option ℕ → ℕ → Learnings → Result Learnings
supersede_rows old new reason created_by fresh db =
    if not (new.status == "active")
    then err (value_error "replacement learning must be active")
    else if old.status == "expired"
    then err (value_error "expired learnings cannot be superseded")
    else if unique_replacement old.id new.id db.edges
    then ok (record {
      rows = with_status old.id "superseded" db.rows;
      edges = ensure_supersedes_edge old.id new.id reason created_by fresh db.edges;
    })
    else err (value_error "learning already has a replacement; supersede chains must stay linear")

module _ (text : ℕ → String) where
  unfoldable pub supersede : ℕ → ℕ → String → Option ℕ → ℕ → Learnings → Result Learnings
  supersede old_id new_id reason created_by fresh db = elim (normalize_reason reason) [
    | err e ↦ err e
    | ok normalized ↦
        if old_id == new_id
        then err (value_error "old_learning_id and new_learning_id must differ")
        else elim (require_learning text old_id db.rows) [
          | err e ↦ err e
          | ok old ↦ elim (require_learning text new_id db.rows) [
            | err e ↦ err e
            | ok new ↦ supersede_rows old new normalized created_by fresh db
          ]
        ]
  ]

  unfoldable pub expire : ℕ → String → Learnings → Result Learnings
  expire i reason db = elim (normalize_reason reason) [
    | err e ↦ err e
    | ok normalized ↦ elim (require_learning text i db.rows) [
      | err e ↦ err e
      | ok l ↦ ok (record db { rows = with_status i "expired" db.rows })
    ]
  ]
