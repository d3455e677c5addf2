-- ===== src/Retry/Threshold.antt =====
-- Bounds on the retry threshold (task_retry.py).
use agenticqueue.Base.{ℕ, ◌≤◌, String, Option, none, some, arith}
use agenticqueue.Base.Int.{pos}
use agenticqueue.Base.Text.{strip}
use agenticqueue.Json.{Json, Fields, get_field}
use agenticqueue.Retry.{digit_text, at_least_one, override_value, override_in, resolve_max_attempts}

at_least_one-pos : (o : Option ℕ) (d : ℕ) → 1 ≤ d → 1 ≤ at_least_one o d
at_least_one-pos none d h = h
at_least_one-pos (some n) d h = ground arith

override_value-pos : (o : Option Json) (d : ℕ) → 1 ≤ d → 1 ≤ override_value o d
unfolding override_value
override_value-pos (some (Json.int (pos n))) d h = at_least_one-pos (some n) d h
override_value-pos (some (Json.text s)) d h = at_least_one-pos (digit_text (strip s)) d h
override_value-pos _ d h = h

override_in-pos :
    (o : Option Json) (task_type : String) (d : ℕ) → 1 ≤ d → 1 ≤ override_in o task_type d
unfolding override_in
override_in-pos (some (Json.object overrides)) task_type d h =
    override_value-pos (get_field task_type overrides) d h
override_in-pos _ task_type d h = h

-- Whatever the policy body holds, the threshold is at least one if the default is.
pub resolve_max_attempts-pos :
    (task_type : String) (body : Fields) (d : ℕ) → 1 ≤ d → 1 ≤ resolve_max_attempts task_type body d
unfolding resolve_max_attempts
resolve_max_attempts-pos task_type body d h =
    override_in-pos (get_field "max_attempts_per_task_type" body) task_type d h
