-- ===== src/Edge/Active.antt =====
-- Two tests for active edges: one in Python (models/edge.py), one in SQL (repo/graph.py).
use agenticqueue.Base.{
  Bool, true, false, not, ◌&&◌, ◌||◌, ◌≡◌, ◌≢◌, refl, Option, none, some, ◌==◌, ==_iff, string_eq,
  arith, ◌⊎◌, inl, inr, ap, Bool-cases,
}
use agenticqueue.Json.{Json, Fields, get_field}
use agenticqueue.Edge.{
  truthy, is_text, is_false, edge_metadata_marks_superseded, astext_is_null, astext_is,
  active_edge_condition,
}

truthy-not_null : (o : Option Json) → truthy o ≡ true → astext_is_null o ≡ false
unfolding truthy astext_is_null
truthy-not_null none h = cc
truthy-not_null (some Json.null) h = cc
truthy-not_null (some _) h = refl

status_agrees :
    (o : Option Json)
    → (astext_is_null o || not (astext_is "superseded" o)) ≡ not (is_text "superseded" o)
unfolding astext_is_null astext_is is_text
status_agrees none = refl
status_agrees (some Json.null) = refl
status_agrees (some (Json.boolean true)) = refl
status_agrees (some (Json.boolean false)) = refl
status_agrees (some _) = refl

is_false-inactive :
    (o : Option Json) → is_false o ≡ true → (astext_is_null o || not (astext_is "false" o)) ≡ false
unfolding astext_is_null astext_is is_false
is_false-inactive none h = cc
is_false-inactive (some (Json.boolean true)) h = cc
is_false-inactive (some (Json.boolean false)) h = refl
is_false-inactive (some _) h = cc

-- Metadata as the code writes it: the two marks are missing, null or truthy, and `is_active` is not
-- the text "false".
pub record IsCanonical (m : Fields) : Type 0 where
  pub at :
      (astext_is_null (get_field "superseded_at" m) ≡ true)
      ⊎ (truthy (get_field "superseded_at" m) ≡ true)
  pub by :
      (astext_is_null (get_field "superseded_by" m) ≡ true)
      ⊎ (truthy (get_field "superseded_by" m) ≡ true)
  pub active : get_field "is_active" m ≢ some (Json.text "false")

null-not_truthy : (o : Option Json) → astext_is_null o ≡ true → truthy o ≡ false
unfolding truthy astext_is_null
null-not_truthy none h = refl
null-not_truthy (some Json.null) h = refl
null-not_truthy (some _) h = cc

is_active_agrees :
    (o : Option Json)
    → o ≢ some (Json.text "false")
    → (astext_is_null o || not (astext_is "false" o)) ≡ not (is_false o)
unfolding astext_is_null astext_is is_false
is_active_agrees none h = refl
is_active_agrees (some Json.null) h = refl
is_active_agrees (some (Json.boolean true)) h = refl
is_active_agrees (some (Json.boolean false)) h = refl
is_active_agrees (some (Json.text s)) h = elim (Bool-cases (s == "false")) [
  | inl e ↦ absurd (h (ap (λ t. some (Json.text t)) ((==_iff s "false").0 e)))
  | inr e ↦ rw e refl
]
is_active_agrees (some _) h = refl

mark_agrees :
    (o : Option Json)
    → (astext_is_null o ≡ true) ⊎ (truthy o ≡ true)
    → astext_is_null o ≡ not (truthy o)
mark_agrees o (inl h) = rw (h, null-not_truthy o h) refl
mark_agrees o (inr h) = rw (h, truthy-not_null o h) refl

four_marks : (a b c d : Bool) → (not a && not b && not c && not d) ≡ not (a || b || c || d)
four_marks a b c d = ground arith

-- An edge that the Python test calls superseded is never active for the SQL test.
pub superseded-inactive :
    (m : Fields) → edge_metadata_marks_superseded m ≡ true → active_edge_condition m ≡ false
unfolding edge_metadata_marks_superseded active_edge_condition
superseded-inactive m h = ground (
  arith,
  truthy-not_null (get_field "superseded_at" m),
  truthy-not_null (get_field "superseded_by" m),
  status_agrees (get_field "status" m),
  is_false-inactive (get_field "is_active" m),
)

-- On metadata as the code writes it the two tests agree on every edge.
pub active_edge_condition-marks_superseded :
    (m : Fields) → IsCanonical m → active_edge_condition m ≡ not (edge_metadata_marks_superseded m)
unfolding edge_metadata_marks_superseded active_edge_condition
active_edge_condition-marks_superseded m k =
    rw
      (
        mark_agrees (get_field "superseded_at" m) k.at,
        mark_agrees (get_field "superseded_by" m) k.by,
        status_agrees (get_field "status" m),
        is_active_agrees (get_field "is_active" m) k.active,
      )
      (four_marks _ _ _ _)
