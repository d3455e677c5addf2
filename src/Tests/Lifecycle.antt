-- ===== src/Tests/Lifecycle.antt =====
-- Runs of learnings/lifecycle.py.
use agenticqueue.Base.{◌≡◌, refl, none, [], ◌∷◌, string_eq, nat_eq, ok, err, value_error}
use agenticqueue.Base.Text.{strip, is_space}
use agenticqueue.Json.{Json, Fields}
use agenticqueue.Edge.{Edge, EdgeRelation-discrete, supersedes}
use agenticqueue.Lifecycle.{
  Learnings, normalize_reason, require_learning, unique_replacement, ensure_supersedes_edge,
  supersede_rows, supersede,
}
use agenticqueue.Lifecycle.Linear.{IsLinear, supersede-IsLinear}

abbrev learnings : Learnings
learnings = record {
  rows =
      record { id = 1; status = "active" }
      ∷ record { id = 2; status = "active" }
      ∷ record { id = 3; status = "active" }
      ∷ [];
  edges = [];
}

abbrev second_edge : Edge
second_edge = record {
  id = 9;
  src_entity_type = "learning";
  src_id = 2;
  dst_entity_type = "learning";
  dst_id = 1;
  relation = supersedes;
  edge_metadata = Fields.field "reason" (Json.text "better") Fields.end;
  created_by = none;
}

abbrev replaced : Learnings
replaced = record {
  rows =
      record { id = 1; status = "superseded" }
      ∷ record { id = 2; status = "active" }
      ∷ record { id = 3; status = "active" }
      ∷ [];
  edges = second_edge ∷ [];
}

replaces_first : supersede (λ i. "") 1 2 " better " none 9 learnings ≡ ok replaced
unfolding supersede normalize_reason require_learning supersede_rows unique_replacement
    ensure_supersedes_edge strip is_space
replaces_first = refl

-- A second replacement is refused.
refuses_second :
    supersede (λ i. "") 1 3 "other" none 10 replaced
    ≡ err (value_error "learning already has a replacement; supersede chains must stay linear")
unfolding supersede normalize_reason require_learning supersede_rows unique_replacement strip
    is_space EdgeRelation-discrete
refuses_second = refl

supersede-IsLinear_example : IsLinear replaced.edges
supersede-IsLinear_example =
    supersede-IsLinear (λ i. "") 1 2 " better " none 9 learnings replaced
      (record { at = λ i e f me mf re rf. absurd me }) replaces_first
