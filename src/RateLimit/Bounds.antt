-- ===== src/RateLimit/Bounds.antt =====
-- How many requests the bucket of an actor lets through.
use native.Mathlib.Nat.{add-mul}
use agenticqueue.Base.{
  ℕ, suc, ◌+◌, ◌-◌, ◌*◌, ◌≤◌, min, Option, none, some, List, [], ◌∷◌, ◌≡◌, ◌≢◌, refl, subst, ◌∙◌,
  sym, inl, inr, nat_eq, arith, lookup, leb, Option-cases, Bool-cases, ◌⊎◌, leb→le, if◌then◌else◌,
  Bool, true, false, ==_iff, ==_refl, ◌==◌, ◌&&◌,
}
use agenticqueue.RateLimit.{
  BucketState, ActorTokenBucket, Seconds, whole_token, capacity, set_bucket, refilled, allow,
}

pub lookup-set_bucket :
    (a : ℕ) (s : BucketState) (bs : List (ℕ × BucketState)) → lookup a (set_bucket a s bs) ≡ some s
unfolding set_bucket
lookup-set_bucket a s [] = ground arith
lookup-set_bucket a s ((k, t) ∷ bs) = ground (arith, lookup-set_bucket a s bs)

pub lookup-set_bucket_other :
    (a c : ℕ) (s : BucketState) (bs : List (ℕ × BucketState))
    → c ≢ a
    → lookup c (set_bucket a s bs) ≡ lookup c bs
unfolding set_bucket
lookup-set_bucket_other a c s [] h = ground arith
lookup-set_bucket_other a c s ((k, t) ∷ bs) h = ground (arith, lookup-set_bucket_other a c s bs h)

-- What an actor may spend at a time.
abbrev pub available : ℕ → ℕ → ActorTokenBucket → ℕ
available now a b = (refilled now a b).tokens

-- No bucket holds more than the burst, or was changed after the time.
abbrev pub IsBounded : ℕ → ActorTokenBucket → Type 0
IsBounded t b =
    (a : ℕ) (s : BucketState)
    → lookup a b.buckets ≡ some s
    → (s.tokens ≤ capacity b) × (s.updated_at ≤ t)

pub available-le : (now a : ℕ) (b : ActorTokenBucket) → available now a b ≤ capacity b
unfolding refilled
available-le now a b = elim (Option-cases (lookup a b.buckets)) [
  | inl e ↦ rw (e, available) (omega arith)
  | inr (s, e) ↦ rw (e, available) (omega arith)
]

-- From one time to a later one an actor gains at most the rate.
pub available-grows :
    {t now : ℕ} (a : ℕ) (b : ActorTokenBucket)
    → IsBounded t b
    → t ≤ now
    → available now a b ≤ available t a b + (now - t) * b.rate_per_second
unfolding refilled
available-grows {t} {now} a b v h = elim (Option-cases (lookup a b.buckets)) [
  | inl e ↦ rw (e, available) (omega arith)
  | inr (s, e) ↦
      let late = (v a s e).1 in
      let split : (now - s.updated_at) ≡ (t - s.updated_at) + (now - t) = omega arith in
      let both = add-mul (t - s.updated_at) (now - t) b.rate_per_second in
      rw (e, available, split, both) (omega arith)
]

-- The calls of `allow` for one token each, with their times and actors.
abbrev pub Calls : Type 0
Calls = List (ℕ × ℕ)

abbrev pub Ordered : ℕ → Calls → Type 0
Ordered t [] = Unit
Ordered t ((now, c) ∷ calls) = (t ≤ now) × Ordered now calls

abbrev pub last_time : ℕ → Calls → ℕ
last_time t [] = t
last_time t ((now, c) ∷ calls) = last_time now calls

pub last_time-le : (t : ℕ) (calls : Calls) → Ordered t calls → t ≤ last_time t calls
last_time-le t [] o = omega arith
last_time-le t ((now, c) ∷ calls) o = let later = last_time-le now calls o.1 in omega arith

abbrev pub is_allowed : Option Seconds → Bool
is_allowed none = true
is_allowed (some _) = false

-- How often an actor was let through.
unfoldable pub granted : ℕ → Calls → ActorTokenBucket → ℕ
granted a [] b = 0
granted a ((now, c) ∷ calls) b =
    let rest = granted a calls (allow now c whole_token b).1 in
    if (c == a) && is_allowed (allow now c whole_token b).0 then suc rest else rest

updated_at-refilled : (now a : ℕ) (b : ActorTokenBucket) → (refilled now a b).updated_at ≡ now
unfolding refilled
updated_at-refilled now a b = elim (Option-cases (lookup a b.buckets)) [
  | inl e ↦ rw (e, refilled) refl
  | inr (s, e) ↦ rw (e, refilled) refl
]

-- A call changes the actor's bucket only: a permission uses the tokens, a denial none.
pub allow-sets :
    (now a k : ℕ) (b : ActorTokenBucket)
    → (s : BucketState) × ((allow now a k b).1 ≡ record b { buckets = set_bucket a s b.buckets })
      × (s.updated_at ≡ now)
      × (((allow now a k b).0 ≡ none) × (s.tokens + k ≡ available now a b)
          ⊎ (is_allowed (allow now a k b).0 ≡ false) × (s.tokens ≡ available now a b))
unfolding allow
allow-sets now a k b = elim (Bool-cases (leb k (refilled now a b).tokens)) [
  | inl e ↦ (
    record (refilled now a b) { tokens = (refilled now a b).tokens - k },
    rw e refl,
    updated_at-refilled now a b,
    inl (rw e refl, let k_le = leb→le k (refilled now a b).tokens e in omega arith),
  )
  | inr e ↦ (refilled now a b, rw e refl, updated_at-refilled now a b, inr (rw e refl, refl))
]

pub available_of :
    (now a : ℕ) (b : ActorTokenBucket) (s : BucketState)
    → lookup a b.buckets ≡ some s
    → available now a b ≡ min (capacity b) (s.tokens + (now - s.updated_at) * b.rate_per_second)
unfolding refilled
available_of now a b s e = rw (e, available) refl

pub allow-IsBounded :
    {t : ℕ} (now a k : ℕ) (b : ActorTokenBucket)
    → IsBounded t b
    → t ≤ now
    → IsBounded now (allow now a k b).1
allow-IsBounded {t} now a k b v h =
    let (s, e, at, spent) = allow-sets now a k b in
    let total = available-le now a b in
    let here : s.tokens ≤ capacity b = ground arith in
    rw e λ c s' f. elim (Bool-cases (c == a)) [
      | inl same ↦
          let same' : c ≡ a = (==_iff c a).0 same in
          let found =
            sym (lookup-set_bucket a s b.buckets)
            ∙ subst (λ d. lookup d (set_bucket a s b.buckets) ≡ some s') same' f in
          let met : s ≡ s' = cc in rw (sym met) (here, omega arith)
      | inr other ↦
          let (le, before) = v c s' (
            sym (
              lookup-set_bucket_other a c s b.buckets
                (λ q. let w = (==_iff c a).1 q in ground arith))
            ∙ f) in
          (le, omega arith)
    ]

-- Another actor's call does not change what an actor may spend.
pub available-other :
    (now later a c k : ℕ) (b : ActorTokenBucket)
    → c ≢ a
    → available later c (allow now a k b).1 ≡ available later c b
unfolding refilled
available-other now later a c k b h =
    let (s, e, at, spent) = allow-sets now a k b in rw e (set-other s)
  where
    set-other :
        (s : BucketState)
        → available later c (record b { buckets = set_bucket a s b.buckets }) ≡ available later c b
    set-other s = rw (available, lookup-set_bucket_other a c s b.buckets h) refl

-- A permission uses the tokens, a denial none.
pub available_self :
    (now a k : ℕ) (b : ActorTokenBucket)
    → ((allow now a k b).0 ≡ none) × (available now a (allow now a k b).1 + k ≡ available now a b)
      ⊎ (is_allowed (allow now a k b).0 ≡ false)
        × (available now a (allow now a k b).1 ≡ available now a b)
available_self now a k b =
    let (s, e, at, spent) = allow-sets now a k b in
    let set : available now a (allow now a k b).1
        ≡ min (capacity b) (s.tokens + (now - s.updated_at) * b.rate_per_second) =
      rw e (available_of now a _ s (lookup-set_bucket a s b.buckets)) in
    let total = available-le now a b in ground arith

allow-same :
    (now a k : ℕ) (b : ActorTokenBucket) → (allow now a k b).1.rate_per_second ≡ b.rate_per_second
allow-same now a k b = let (s, e, at, spent) = allow-sets now a k b in rw e refl

abbrev lets_through : ℕ → ℕ → ℕ → ActorTokenBucket → Bool
lets_through now a c b = (c == a) && is_allowed (allow now c whole_token b).0

-- One call for a token costs the actor that it lets through one.
call_cost :
    (now a c : ℕ) (b : ActorTokenBucket)
    → (lets_through now a c b ≡ true)
        × (available now a (allow now c whole_token b).1 + whole_token ≤ available now a b)
      ⊎ (lets_through now a c b ≡ false)
        × (available now a (allow now c whole_token b).1 ≤ available now a b)
call_cost now a c b = elim (Bool-cases (c == a)) [
  | inl same ↦ subst Cost (sym ((==_iff c a).0 same)) own
  | inr other ↦
      let kept =
        available-other now now c a whole_token b
          (λ q. let w = (==_iff c a).1 (sym q) in ground arith) in
      inr (rw other refl, omega arith)
]
  where
    Cost : ℕ → Type 0
    Cost d =
        (lets_through now a d b ≡ true)
          × (available now a (allow now d whole_token b).1 + whole_token ≤ available now a b)
        ⊎ (lets_through now a d b ≡ false)
          × (available now a (allow now d whole_token b).1 ≤ available now a b)

    own : Cost a
    own = elim (available_self now a whole_token b) [
      | inl (e, cost) ↦ inl (rw (e, ==_refl a) refl, omega arith)
      | inr (e, cost) ↦ inr (rw (e, ==_refl a) refl, omega arith)
    ]

-- Over any calls in the order of time, those that let one actor through spend no more than a full
-- bucket and the rate over the time from the start to the last call.
granted-le :
    {t : ℕ} (a : ℕ) (calls : Calls) (b : ActorTokenBucket)
    → IsBounded t b
    → Ordered t calls
    → granted a calls b * whole_token
      ≤ available t a b + (last_time t calls - t) * b.rate_per_second
unfolding granted
granted-le {t} a [] b v o = omega arith
granted-le {t} a ((now, c) ∷ calls) b v (early, o) =
    let after = (allow now c whole_token b).1 in
    let rest = granted-le a calls after (allow-IsBounded now c whole_token b v early) o in
    let grows = available-grows a b v early in
    let last = last_time-le now calls o in
    let split : (last_time now calls - t) ≡ (now - t) + (last_time now calls - now) = omega arith in
    let both = add-mul (now - t) (last_time now calls - now) b.rate_per_second in
    let rest' = rw (allow-same now c whole_token b) at rest in
    elim (call_cost now a c b) [
      | inl (e, cost) ↦ rw (e, split, both) (omega arith)
      | inr (e, cost) ↦ rw (e, split, both) (omega arith)
    ]

-- The limiter never lets an actor exceed its burst and rate: in calls for a token each, in the order
-- of time, from any time at which no bucket is over its burst or changed later, the requests of one
-- actor that are let through are at most the burst size and the rate times the time that went by.
pub granted-bound :
    {t : ℕ} (a : ℕ) (calls : Calls) (b : ActorTokenBucket)
    → IsBounded t b
    → Ordered t calls
    → granted a calls b * whole_token
      ≤ b.burst_size * whole_token + (last_time t calls - t) * b.rate_per_second
granted-bound {t} a calls b v o =
    let all = granted-le a calls b v o in let full = available-le t a b in omega arith
