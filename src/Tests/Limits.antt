-- ===== src/Tests/Limits.antt =====
-- Runs of middleware/rate_limit.py and middleware/payload_limits.py.
use agenticqueue.Base.{
  ℕ, ◌+◌, ◌*◌, ◌≤◌, List, [], ◌∷◌, ◌≡◌, refl, Option, none, some, nat_eq, string_eq, arith,
}
use agenticqueue.Base.{◌↔◌, String, true, false, if◌then◌else◌, ◌==◌}
use agenticqueue.Base.Int.{ℤ, pos, ◌≤ℤ◌}
use agenticqueue.Base.Text.{int_of_text}
use agenticqueue.Json.{Json, Items}
use agenticqueue.PayloadLimits.{
  Scope, Message, chunk, Limits, forwarded, too_large, too_deep, payload_depth,
  resolve_content_size_limit, parse_content_length, read_body, parse_json_payload_depth,
  check_depth, handle,
}
use agenticqueue.PayloadLimits.Forwarded.{Delivers, handle-forwarded_iff}
use agenticqueue.RateLimit.{
  ActorTokenBucket, set_bucket, refilled, allow, retry_after, retry_header, requires_rate_limit,
  passed_on, limited, dispatch,
}
use agenticqueue.RateLimit.Bounds.{IsBounded, Calls, granted, granted-bound}

-- Two tokens a second, bursts of two; actor 7 has spent its burst at time 0.
abbrev spent : ActorTokenBucket
spent = record {
  rate_per_second = 2;
  burst_size = 2;
  buckets = (7, record { tokens = 0; updated_at = 0 }) ∷ [];
}

spent-IsBounded : IsBounded 0 spent
spent-IsBounded a s h = ground arith

abbrev busy : Calls
busy = (0, 7) ∷ (100000, 8) ∷ (500000, 7) ∷ (600000, 7) ∷ (1000000, 7) ∷ []

granted_busy : granted 7 busy spent ≡ 2
unfolding granted allow refilled set_bucket retry_after
granted_busy = refl

granted-bound_example : granted 7 busy spent * 1000000 ≤ 2 * 1000000 + 1000000 * 2
granted-bound_example =
    granted-bound {t = 0} 7 busy spent spent-IsBounded
      (omega arith, (omega arith, (omega arith, (omega arith, (omega arith, tt)))))

dispatched :
    ((dispatch 0 "/v1/tasks" (some 7) spent).0 ≡ limited 1)
    × ((dispatch 500000 "/v1/tasks" (some 7) spent).0 ≡ passed_on)
    × ((dispatch 0 "/health" (some 7) spent).0 ≡ passed_on)
unfolding dispatch allow refilled retry_after retry_header requires_rate_limit set_bucket
dispatched = (refl, refl, refl)

-- Bodies of four bytes at most.
abbrev small_limits : Limits
small_limits = record { default_limit = 4; upload_limit = 6; max_payload_depth = 1 }

abbrev posted : Scope
posted = record {
  type = "http";
  method = "POST";
  path = "/v1/tasks";
  headers = ("content-length", "3") ∷ [];
}

abbrev same_text : String → String
same_text s = s

-- Bodies that start with 91 are nested twice.
abbrev loads : List ℕ → Option Json
loads [] = none
loads (b ∷ bs) =
    if b == 91
    then some (Json.array (Items.cons (Json.array Items.nil) Items.nil))
    else some (Json.int (pos b))

abbrev two_chunks : List Message
two_chunks = chunk (1 ∷ 2 ∷ []) true ∷ chunk (3 ∷ []) false ∷ []

handle-forwarded_iff_example :
    (handle same_text same_text loads small_limits posted two_chunks ≡ forwarded (1 ∷ 2 ∷ 3 ∷ []))
    ↔ (Delivers two_chunks (1 ∷ 2 ∷ 3 ∷ [])
        × (3 ≤ 4)
        × ((n : ℤ) → parse_content_length same_text same_text posted ≡ some n → n ≤ℤ pos 4)
        × ((d : ℕ)
            → parse_json_payload_depth same_text same_text loads (1 ∷ 2 ∷ 3 ∷ []) ≡ some d
            → d ≤ 1))
unfolding resolve_content_size_limit
handle-forwarded_iff_example =
    handle-forwarded_iff same_text same_text loads small_limits posted two_chunks (1 ∷ 2 ∷ 3 ∷ [])
      refl

handled :
    (handle same_text same_text loads small_limits posted two_chunks ≡ forwarded (1 ∷ 2 ∷ 3 ∷ []))
    × (handle same_text same_text loads small_limits posted (chunk (91 ∷ []) false ∷ [])
        ≡ too_deep 1 2)
    × (handle same_text same_text loads small_limits posted
          (chunk (1 ∷ 2 ∷ 3 ∷ 4 ∷ 5 ∷ []) true ∷ [])
        ≡ too_large 4 (pos 5))
unfolding handle resolve_content_size_limit parse_content_length read_body check_depth
    parse_json_payload_depth int_of_text payload_depth
handled = (refl, refl, refl)
