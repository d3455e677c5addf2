-- ===== src/RateLimit/Wait.antt =====
-- How long a denied actor waits.
use native.Mathlib.Nat.{mul-le-mul_right, mul_comm, mul_assoc, mod-lt, div-add-mod}
use agenticqueue.Base.{
  nat_beq, leb, ℕ, ◌+◌, ◌-◌, ◌*◌, ◌/◌, ◌≤◌, ◌<◌, min, max, some, [], ◌∷◌, ◌≡◌, ◌≢◌, refl, ◌∙◌, ap,
  sym, inl, inr, nat_eq, arith, Bool-cases, false,
}
use agenticqueue.RateLimit.{
  ActorTokenBucket, Seconds, whole_token, capacity, allow, retry_after, retry_header,
}
use agenticqueue.RateLimit.Bounds.{lookup-set_bucket, available, available_of, allow-sets, Calls}

-- `ceil(n / d) * d` is no less than `n`.
ceil-le : (n d : ℕ) → 0 < d → n ≤ d * ((n + (d - 1)) / d)
ceil-le n d h =
    let whole = div-add-mod (n + (d - 1)) d in let part = mod-lt (n + (d - 1)) h in omega arith

-- The calls of `allow`, for a token each, that leave one actor out.
abbrev pub LeavesOut : ℕ → Calls → Type 0
LeavesOut a [] = Unit
LeavesOut a ((now, c) ∷ calls) = (a ≢ c) × LeavesOut a calls

pub calls_left : Calls → ActorTokenBucket → ActorTokenBucket
calls_left [] b = b
calls_left ((now, c) ∷ calls) b = calls_left calls (allow now c whole_token b).1

-- The tokens that time brings back to a bucket that was just used.
available_after :
    (now later a k : ℕ) (b : ActorTokenBucket) {r : Seconds}
    → (allow now a k b).0 ≡ some r
    → now ≤ later
    → available later a (allow now a k b).1
      ≡ min (capacity b) (available now a b + (later - now) * b.rate_per_second)
available_after now later a k b denied le =
    let (s, e, at, spent) = allow-sets now a k b in
    let held : s.tokens ≡ available now a b = elim spent [
      | inl (granted, same) ↦ cc
      | inr (denied', same) ↦ same
    ] in
    rw e (available_of later a _ s (lookup-set_bucket a s b.buckets) ∙ rw (held, at) refl)

allow-denied :
    (now a k : ℕ) (b : ActorTokenBucket) {r : Seconds}
    → (allow now a k b).0 ≡ some r
    → (r ≡ retry_after k (available now a b) b) × (available now a b < k)
unfolding allow
allow-denied now a k b {r} h = elim (Bool-cases (leb k (available now a b))) [
  | inl e ↦ let h' = rw e at h in ground arith
  | inr e ↦ let h' = rw e at h in (cc, ground arith)
]

-- The header covers the tokens that are missing.
retry_header-covers :
    (k held : ℕ) (b : ActorTokenBucket)
    → 0 < b.rate_per_second
    → k - held ≤ retry_header (retry_after k held b) * whole_token * b.rate_per_second
unfolding retry_header retry_after
retry_header-covers k held b rate =
    let d = b.rate_per_second * whole_token in
    let q = (k - held + (d - 1)) / d in
    let enough = ceil-le (k - held) d (omega arith) in
    let turned : d * q ≡ q * whole_token * b.rate_per_second =
      mul_comm d q
      ∙ ap (λ n. q * n) (mul_comm b.rate_per_second whole_token)
      ∙ sym (mul_assoc q whole_token b.rate_per_second) in
    let up =
      mul-le-mul_right b.rate_per_second
        (mul-le-mul_right {m = q} {n = max 1 q} whole_token (omega arith)) in
    let positive : nat_beq b.rate_per_second 0 ≡ false = ground arith in rw positive (omega arith)

-- A denial names the time after which the tokens are there.
pub retry_header-waits :
    (now later a k : ℕ) (b : ActorTokenBucket) {r : Seconds}
    → (allow now a k b).0 ≡ some r
    → 0 < b.rate_per_second
    → now + retry_header r * 1000000 ≤ later
    → k ≤ capacity b
    → k ≤ available later a (allow now a k b).1
retry_header-waits now later a k b denied rate le fits =
    let (e, short) = allow-denied now a k b denied in
    let named = retry_header-covers k (available now a b) b rate in
    let header = ap retry_header e in
    let passed : retry_header (retry_after k (available now a b) b) * whole_token ≤ later - now =
      omega arith in
    let gained = mul-le-mul_right b.rate_per_second passed in
    rw (available_after now later a k b denied (omega arith)) (omega arith)
