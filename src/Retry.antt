-- ===== src/Retry.antt =====
-- Retry thresholds: apps/api/src/agenticqueue_api/task_retry.py.
pub mod Threshold
use agenticqueue.Base.{
  ℕ, ◌+◌, ◌*◌, ◌-◌, String, Bool, true, false, ◌&&◌, Option, none, some, List, ◌==◌, string_eq,
  if◌then◌else◌, leb,
}
use Prim.Native.Char.{code}
use agenticqueue.Base.Int.{pos, negsuc}
use agenticqueue.Base.Text.{strip, nonempty}
use agenticqueue.Json.{Json, Fields, get_field}

-- `text.isdigit()` and then `int(text)`, on ASCII digits; other digits are refused here.
digits_value : ℕ → String → Option ℕ
digits_value n String.[] = some n
digits_value n (String.◌∷◌ ch s) =
    let c = code ch in
    let rest = digits_value (n * 10 + (c - 48)) s in if leb 48 c && leb c 57 then rest else none

pub digit_text : String → Option ℕ
digit_text s = if nonempty s then digits_value 0 s else none

abbrev pub at_least_one : Option ℕ → ℕ → ℕ
at_least_one none default = default
at_least_one (some n) default = if leb 1 n then n else default

-- The tests on one override's value; a Boolean, though an `int`, is refused.
unfoldable pub override_value : Option Json → ℕ → ℕ
unfolding digit_text digits_value
override_value (some (Json.int (pos n))) default = at_least_one (some n) default
override_value (some (Json.text s)) default = at_least_one (digit_text (strip s)) default
override_value _ default = default

-- The test that the overrides are a mapping.
unfoldable pub override_in : Option Json → String → ℕ → ℕ
override_in (some (Json.object overrides)) task_type default =
    override_value (get_field task_type overrides) default
override_in _ task_type default = default

unfoldable pub resolve_max_attempts : String → Fields → ℕ → ℕ
resolve_max_attempts task_type body default =
    override_in (get_field "max_attempts_per_task_type" body) task_type default

-- `max(max_attempts - attempt_count, 0)`: subtraction on ℕ stops at 0.
abbrev pub remaining_attempts : ℕ → ℕ → ℕ
remaining_attempts attempt_count max_attempts = max_attempts - attempt_count
