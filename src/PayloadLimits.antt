-- ===== src/PayloadLimits.antt =====
-- Limits on request bodies: apps/api/src/agenticqueue_api/middleware/payload_limits.py. A body is a list of
-- bytes; the messages of a request are listed in the order of arrival. `upper` and `lower` are those of
-- strings and header names, `loads` is `json.loads`, with `none` for its errors.
pub mod Forwarded
use text.Mathlib.Text.{starts_with}
use agenticqueue.Base.{
  ℕ, suc, ◌*◌, max, String, Bool, true, false, ◌||◌, Option, none, some, List, [], ◌∷◌, ◌++◌,
  length, ◌==◌, string_eq, if◌then◌else◌, ltb, first, mem,
}
use agenticqueue.Base.Int.{ℤ, pos, ltb_ℤ}
use agenticqueue.Base.Text.{int_of_text}
use agenticqueue.Json.{Json, Items, Fields}

-- The parts of an ASGI scope that are read.
pub record Scope : Type 0 where
  pub type : String
  pub method : String
  pub path : String
  pub headers : List (String × String)

-- What `receive` returns.
pub data Message : Type 0 where
  disconnect : Message
  chunk : (body : List ℕ) → (more_body : Bool) → Message

-- The settings of `ContentSizeLimitMiddleware`
pub record Limits : Type 0 where
  pub default_limit : ℕ
  pub upload_limit : ℕ
  pub max_payload_depth : ℕ

-- `DEFAULT_CONTENT_SIZE_LIMIT`, `UPLOAD_CONTENT_SIZE_LIMIT`, `MAX_PAYLOAD_DEPTH`
abbrev pub default_limits : Limits
default_limits = record {
  default_limit = 1024 * 1024;
  upload_limit = 10 * 1024 * 1024;
  max_payload_depth = 10;
}

-- How a request ends here: handed on as it is, or with its body; refused; dropped with its client;
-- or waiting for a message.
pub data Outcome : Type 0 where
  untouched : Outcome
  forwarded : List ℕ → Outcome
  too_large : (limit : ℕ) → (actual : ℤ) → Outcome
  too_deep : (max_depth actual : ℕ) → Outcome
  dropped waiting : Outcome

unfoldable mutual
  -- `payload_depth`
  pub payload_depth : Json → ℕ
  payload_depth Json.null = 0
  payload_depth (Json.boolean b) = 0
  payload_depth (Json.int n) = 0
  payload_depth (Json.text s) = 0
  payload_depth (Json.array items) = suc (items_depth items)
  payload_depth (Json.object fields) = suc (fields_depth fields)

  pub items_depth : Items → ℕ
  items_depth Items.nil = 0
  items_depth (Items.cons j js) = max (payload_depth j) (items_depth js)

  pub fields_depth : Fields → ℕ
  fields_depth Fields.end = 0
  fields_depth (Fields.field k j fs) = max (payload_depth j) (fields_depth fs)

-- `path.endswith("/upload")`, by its last seven characters
ends_with_upload : String → Bool
ends_with_upload String.[] = false
ends_with_upload (String.◌∷◌ c s) =
    let rest = ends_with_upload s in if String.◌∷◌ c s == "/upload" then true else rest

module _ (upper : String → String) (lower : String → String) where
  unfoldable pub resolve_content_size_limit : Scope → Limits → Option ℕ
  unfolding ends_with_upload
  resolve_content_size_limit scope limits =
      if scope.type == "http"
      then if mem (upper scope.method) ("POST" ∷ "PATCH" ∷ [])
        then if ends_with_upload scope.path
          then some limits.upload_limit
          else if starts_with scope.path "/v1/" || scope.path == "/task-types"
          then some limits.default_limit
          else none
        else none
      else none

  -- The first header of the name decides, even when its value is no number.
  unfoldable pub parse_content_length : Scope → Option ℤ
  parse_content_length scope =
      elim (first (λ (h : String × String). lower h.0 == "content-length") scope.headers) [
        | none ↦ none
        | some h ↦ int_of_text h.1
      ]

-- The `while True` of `__call__`, over the messages to come, with what was buffered.
unfoldable pub read_body : ℕ → List ℕ → List Message → Outcome
read_body limit buffered [] = waiting
read_body limit buffered (disconnect ∷ ms) = dropped
read_body limit buffered (chunk b more ∷ ms) =
    let rest = read_body limit (buffered ++ b) ms in
    if ltb limit (length (buffered ++ b))
    then too_large limit (pos (length (buffered ++ b)))
    else if more
    then rest
    else forwarded (buffered ++ b)

module _ (upper : String → String) (lower : String → String) (loads : List ℕ → Option Json) where
  unfoldable pub parse_json_payload_depth : List ℕ → Option ℕ
  parse_json_payload_depth [] = none
  parse_json_payload_depth (b ∷ bs) = elim (loads (b ∷ bs)) [
    | none ↦ none
    | some j ↦ some (payload_depth j)
  ]

  -- The test of the depth, after the body.
  unfoldable pub check_depth : ℕ → Outcome → Outcome
  check_depth max_depth (forwarded body) = elim (parse_json_payload_depth body) [
    | none ↦ forwarded body
    | some depth ↦ if ltb max_depth depth then too_deep max_depth depth else forwarded body
  ]
  check_depth max_depth untouched = untouched
  check_depth max_depth (too_large limit actual) = too_large limit actual
  check_depth max_depth (too_deep most actual) = too_deep most actual
  check_depth max_depth dropped = dropped
  check_depth max_depth waiting = waiting

  -- `__call__`
  unfoldable pub handle : Limits → Scope → List Message → Outcome
  handle limits scope messages = elim (resolve_content_size_limit upper lower scope limits) [
    | none ↦ untouched
    | some limit ↦ elim (parse_content_length upper lower scope) [
      | none ↦ check_depth limits.max_payload_depth (read_body limit [] messages)
      | some n ↦
          if ltb_ℤ (pos limit) n
          then too_large limit n
          else check_depth limits.max_payload_depth (read_body limit [] messages)
    ]
  ]
