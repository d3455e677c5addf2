-- ===== src/Edge.antt =====
-- Graph edges: apps/api/src/agenticqueue_api/models/edge.py, and the SQL test for active edges in
-- repo/graph.py.
pub mod Active
use agenticqueue.Base.{
  ℕ, zero, suc, String, Bool, true, false, not, ◌&&◌, ◌||◌, ◌≡◌, Option, none, some, List, ◌==◌,
  string_eq, Eq, dec_beq, dec_beq_iff, if◌then◌else◌,
}
use agenticqueue.Base.Int.{pos, negsuc}
use agenticqueue.Base.Text.{nonempty}
use agenticqueue.Json.{Json, Items, Fields, get_field}

-- `EdgeRelation`
pub data EdgeRelation : Type 0 where
  depends_on blocks unblocks parallel gated_by supersedes informed_by implements produced
        reviewed_by validated_by triggered contradicts derived_from requires_approval related_to
        learned_from parent_of :
      EdgeRelation

unfoldable pub EdgeRelation-discrete : Discrete EdgeRelation
EdgeRelation-discrete = hlevel

instance abbrev pub edge_relation_eq : Eq EdgeRelation
edge_relation_eq = record {
  beq = dec_beq EdgeRelation-discrete;
  beq_iff = dec_beq_iff EdgeRelation-discrete;
}

-- `EdgeRecord`
pub record Edge : Type 0 where
  pub id : ℕ
  pub src_entity_type : String
  pub src_id : ℕ
  pub dst_entity_type : String
  pub dst_id : ℕ
  pub relation : EdgeRelation
  pub edge_metadata : Fields
  pub created_by : Option ℕ

-- `bool(value)` of a decoded JSON value
unfoldable pub truthy : Option Json → Bool
truthy none = false
truthy (some Json.null) = false
truthy (some (Json.boolean b)) = b
truthy (some (Json.int (pos zero))) = false
truthy (some (Json.int (pos (suc n)))) = true
truthy (some (Json.int (negsuc n))) = true
truthy (some (Json.text s)) = nonempty s
truthy (some (Json.array Items.nil)) = false
truthy (some (Json.array (Items.cons j js))) = true
truthy (some (Json.object Fields.end)) = false
truthy (some (Json.object (Fields.field k v fs))) = true

-- `value == text`
unfoldable pub is_text : String → Option Json → Bool
is_text t (some (Json.text s)) = s == t
is_text t _ = false

-- `value is False`
unfoldable pub is_false : Option Json → Bool
is_false (some (Json.boolean b)) = not b
is_false _ = false

-- `edge_metadata_marks_superseded`; on an empty mapping every `get` is `None`, as after its first
-- return.
unfoldable pub edge_metadata_marks_superseded : Fields → Bool
edge_metadata_marks_superseded metadata =
    truthy (get_field "superseded_at" metadata)
    || truthy (get_field "superseded_by" metadata)
    || is_text "superseded" (get_field "status" metadata)
    || is_false (get_field "is_active" metadata)

-- `metadata[key].astext IS NULL`
unfoldable pub astext_is_null : Option Json → Bool
astext_is_null none = true
astext_is_null (some Json.null) = true
astext_is_null (some _) = false

-- `metadata[key].astext = text` for a text that is no number, array or object.
unfoldable pub astext_is : String → Option Json → Bool
astext_is t (some (Json.text s)) = s == t
astext_is t (some (Json.boolean b)) = (if b then "true" else "false") == t
astext_is t _ = false

-- `_active_edge_condition`
unfoldable pub active_edge_condition : Fields → Bool
active_edge_condition metadata =
    astext_is_null (get_field "superseded_at" metadata)
    && astext_is_null (get_field "superseded_by" metadata)
    && (astext_is_null (get_field "status" metadata)
        || not (astext_is "superseded" (get_field "status" metadata)))
    && (astext_is_null (get_field "is_active" metadata)
        || not (astext_is "false" (get_field "is_active" metadata)))
