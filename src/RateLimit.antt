-- ===== src/RateLimit.antt =====
-- The rate limiter: apps/api/src/agenticqueue_api/middleware/rate_limit.py. Time is in microseconds and
-- a token is a million parts, so that a whole rate in tokens a second is as many parts a microsecond;
-- the rounding of floating-point numbers is left out.
pub mod Bounds
pub mod Wait
use text.Mathlib.Text.{starts_with}
use agenticqueue.Base.{
  ℕ, ◌+◌, ◌-◌, ◌*◌, ◌/◌, min, max, Bool, true, false, Option, none, some, List, [], ◌∷◌, String,
  ◌||◌, ◌==◌, nat_eq, string_eq, if◌then◌else◌, leb, nat_beq, lookup,
}

-- `_BucketState`
pub record BucketState : Type 0 where
  pub tokens : ℕ
  pub updated_at : ℕ

-- `ActorTokenBucket`
pub record ActorTokenBucket : Type 0 where
  pub rate_per_second : ℕ
  pub burst_size : ℕ
  pub buckets : List (ℕ × BucketState)

-- `retry_after`, in seconds, as a fraction
pub record Seconds : Type 0 where
  pub numerator : ℕ
  pub denominator : ℕ

abbrev pub whole_token : ℕ
whole_token = 1000000

abbrev pub capacity : ActorTokenBucket → ℕ
capacity b = b.burst_size * whole_token

-- `self._buckets[actor_id] = state`
unfoldable pub set_bucket : ℕ → BucketState → List (ℕ × BucketState) → List (ℕ × BucketState)
set_bucket a s [] = (a, s) ∷ []
set_bucket a s ((k, t) ∷ rest) =
    let later = set_bucket a s rest in if k == a then (k, s) ∷ rest else (k, t) ∷ later

-- The state of the actor once the time that went by is accounted for.
unfoldable pub refilled : ℕ → ℕ → ActorTokenBucket → BucketState
refilled now a b = elim (lookup a b.buckets) [
  | none ↦ record { tokens = capacity b; updated_at = now }
  | some s ↦ record {
    tokens = min (capacity b) (s.tokens + (now - s.updated_at) * b.rate_per_second);
    updated_at = now;
  }
]

unfoldable pub retry_after : ℕ → ℕ → ActorTokenBucket → Seconds
retry_after tokens held b =
    if nat_beq b.rate_per_second 0
    then record { numerator = 1; denominator = 1 }
    else record { numerator = tokens - held; denominator = b.rate_per_second * whole_token }

-- `allow`: `none` is a permission, `some` the delay of a denial.
unfoldable pub allow : ℕ → ℕ → ℕ → ActorTokenBucket → Option Seconds × ActorTokenBucket
allow now a tokens b =
    let s = refilled now a b in
    if leb tokens s.tokens
    then (
      none,
      record b { buckets = set_bucket a (record s { tokens = s.tokens - tokens }) b.buckets },
    )
    else (some (retry_after tokens s.tokens b), record b { buckets = set_bucket a s b.buckets })

-- `max(1, math.ceil(retry_after))`, the header of a denial
unfoldable pub retry_header : Seconds → ℕ
retry_header r = max 1 ((r.numerator + (r.denominator - 1)) / r.denominator)

-- `_requires_rate_limit`
unfoldable pub requires_rate_limit : String → Bool
requires_rate_limit path =
    starts_with path "/v1/" || path == "/task-types" || path == "/openapi.json"

-- What `dispatch` does with a request: hand it on, or answer 429 with the header.
pub data Outcome : Type 0 where
  passed_on : Outcome
  limited : ℕ → Outcome

-- The actor of a request, if it has one.
unfoldable pub dispatch : ℕ → String → Option ℕ → ActorTokenBucket → Outcome × ActorTokenBucket
dispatch now path actor b =
    if requires_rate_limit path
    then elim actor [
      | none ↦ (passed_on, b)
      | some a ↦ elim (allow now a whole_token b).0 [
        | none ↦ (passed_on, (allow now a whole_token b).1)
        | some r ↦ (limited (retry_header r), (allow now a whole_token b).1)
      ]
    ]
    else (passed_on, b)
