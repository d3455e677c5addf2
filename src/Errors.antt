-- ===== src/Errors.antt =====
-- The error envelope: apps/api/src/agenticqueue_api/errors.py.
use agenticqueue.Base.{ℕ, String, [], ◌∷◌, ◌==◌, nat_eq, string_eq, if◌then◌else◌, mem}
use agenticqueue.Json.{Json, Fields}

-- `ERROR_CODE_BY_STATUS.get(status_code, "server_error")`
unfoldable pub error_code : ℕ → String
error_code n =
    if mem n (400 ∷ 413 ∷ 422 ∷ [])
    then "validation_failed"
    else if n == 401
    then "auth_failed"
    else if n == 403
    then "forbidden"
    else if n == 404
    then "not_found"
    else if n == 409
    then "conflict"
    else if n == 429
    then "rate_limited"
    else "server_error"

-- `error_payload(status_code, message)`
unfoldable pub error_payload : ℕ → String → Json
error_payload n message =
    let told : Fields =
      Fields.field "message" (Json.text message) (Fields.field "details" Json.null Fields.end) in
    Json.object (
      Fields.field "error" (Json.object (Fields.field "code" (Json.text (error_code n)) told))
        (Fields.field "error_code" (Json.text (error_code n)) told))
