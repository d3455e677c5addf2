-- ===== src/PacketCache/Invalidation.antt =====
-- What a notification removes from a packet cache, and every cache that the methods reach
-- (packet_cache.py).
use agenticqueue.Base.{
  ℕ, ◌+◌, ◌≡◌, refl, ap, sym, ◌∙◌, Bool, true, false, not, ◌⊎◌, inl, inr, ◌↔◌, Option, none, some,
  String, List, [], ◌∷◌, length, filterb, In, In-filterb, filterb-In, ==_iff, ◌==◌, nat_eq, arith,
  Bool-cases, Option-cases,
}
use agenticqueue.Json.{Json, get_field}
use agenticqueue.Edge.{truthy}
use agenticqueue.PacketCache.{
  PacketCacheEntry, PacketCache, cached_entry, is_expired, of_project, has_cached, get, put,
  invalidate_all, invalidate_project, named_project, normalize_payload, Notification,
  handle_invalidation,
}
use agenticqueue.PacketCache.Lru.{
  WellFormed, put-WellFormed, get-WellFormed, filterb-WellFormed, pop_entry-WellFormed,
}

partition :
    (p : PacketCacheEntry → Bool) (es : List PacketCacheEntry)
    → length (filterb p es) + length (filterb (λ e. not (p e)) es) ≡ length es
partition p [] = omega arith
partition p (e ∷ es) =
    let rest = partition p es in
    elim (Bool-cases (p e)) [
      | inl k ↦ rw k (omega (arith, rest))
      | inr k ↦ rw k (omega (arith, rest))
    ]

-- Whether a notification concerns an entry: it asks for everything, names no project that can be
-- read, or names the entry's project.
abbrev pub Concerns : (String → Option ℕ) → Notification → PacketCacheEntry → Type 0
Concerns parse_uuid n e =
    (truthy (get_field "invalidate_all" (normalize_payload n)) ≡ true)
    ⊎ ((named_project parse_uuid (normalize_payload n) ≡ none)
        ⊎ ((p : ℕ) × (named_project parse_uuid (normalize_payload n) ≡ some p)
            × (e.project_id ≡ some p)))

of_project_iff :
    (p : ℕ) (o : Option ℕ) → (elim o [ none ↦ false | some q ↦ q == p ] ≡ true) ↔ (o ≡ some p)
of_project_iff p none = (λ h. cc, λ h. cc)
of_project_iff p (some q) = (λ h. ap some ((==_iff q p).0 h), λ h. (==_iff q p).1 cc)

-- A call takes exactly the entries concerned out of the cache, and what it returns and adds to the
-- counter is how many those are.
pub record Removes (c : PacketCache) (concerned : PacketCacheEntry → Type 0) (r : ℕ × PacketCache)
    : Type 0 where
  pub kept : (e : PacketCacheEntry) → In e r.1.entries ↔ (In e c.entries × (¬ concerned e))
  pub counted : r.0 + length r.1.entries ≡ length c.entries
  pub totalled : r.1.invalidations ≡ c.invalidations + r.0

module _ (c : PacketCache) (concerned : PacketCacheEntry → Type 0) where
  invalidate_all-Removes :
      ((e : PacketCacheEntry) → concerned e) → Removes c concerned (invalidate_all c)
  unfolding invalidate_all
  invalidate_all-Removes every = record {
    kept = λ e. (λ m. absurd m, λ h. absurd (h.1 (every e)));
    counted = omega arith;
    totalled = refl;
  }

  invalidate_project-Removes :
      (p : ℕ)
      → ((e : PacketCacheEntry) → concerned e ↔ (e.project_id ≡ some p))
      → Removes c concerned (invalidate_project p c)
  unfolding invalidate_project
  invalidate_project-Removes p of_it = record {
    kept = λ e. (
      λ m.
          let (there, other) = In-filterb (λ x. not (of_project p x)) e c.entries m in
          (
            there,
            λ k.
                let same = (of_project_iff p e.project_id).1 ((of_it e).0 k) in
                let clash : not true ≡ true = ap not (sym same) ∙ other in cc,
          ),
      λ h.
          filterb-In (λ x. not (of_project p x)) e c.entries h.0
            (elim (Bool-cases (of_project p e)) [
              | inl same ↦ absurd (h.1 ((of_it e).1 ((of_project_iff p e.project_id).0 same)))
              | inr other ↦ rw other refl
            ]),
    );
    counted = partition (of_project p) c.entries;
    totalled = refl;
  }

module _ (parse_uuid : String → Option ℕ) (n : Notification) (c : PacketCache) where
  -- A notification removes exactly the entries that it concerns, and what it returns and adds to
  -- the counter is how many those are.
  pub handle_invalidation-Removes :
      Removes c (Concerns parse_uuid n) (handle_invalidation parse_uuid n c)
  unfolding handle_invalidation
  handle_invalidation-Removes =
      elim (Bool-cases (truthy (get_field "invalidate_all" (normalize_payload n)))) [
        | inl every ↦ rw every (invalidate_all-Removes c _ (λ e. inl every))
        | inr some_only ↦ elim (Option-cases (named_project parse_uuid (normalize_payload n))) [
          | inl unnamed ↦
              rw (some_only, unnamed) (invalidate_all-Removes c _ (λ e. inr (inl unnamed)))
          | inr (p, named) ↦
              rw (some_only, named)
                (invalidate_project-Removes c _ p (λ e. (
                  λ k. elim k [
                    | inl x ↦ cc
                    | inr (inl x) ↦ cc
                    | inr (inr (q, x, y)) ↦ y ∙ sym x ∙ named
                  ],
                  λ k. inr (inr (p, named, k)),
                )))
        ]
      ]

module _ (parse_uuid : String → Option ℕ) where
  -- One call of a method on the cache.
  pub data CacheStep : PacketCache → PacketCache → Type 0 where
    gets : (now t l : ℕ) (c : PacketCache) → CacheStep c (get now t l c).1
    asks : (now t l : ℕ) (c : PacketCache) → CacheStep c (has_cached now t l c).1
    puts :
        (now : ℕ) (project : Option ℕ) (t : ℕ) (payload : Json) (l : ℕ) (c : PacketCache)
        → CacheStep c (put now project t payload l c)
    told : (n : Notification) (c : PacketCache) → CacheStep c (handle_invalidation parse_uuid n c).1

  -- The caches that calls reach, from one cache on.
  pub data CacheSteps (c : PacketCache) : PacketCache → Type 0 where
    here : CacheSteps c c
    then_step : {d e : PacketCache} → CacheSteps c d → CacheStep d e → CacheSteps c e

  has_cached-WellFormed :
      (now t l : ℕ) (c : PacketCache) → WellFormed c → WellFormed (has_cached now t l c).1
  unfolding has_cached
  has_cached-WellFormed now t l c w = elim (Option-cases (cached_entry t l c.entries)) [
    | inl absent ↦ rw (absent, has_cached) w
    | inr (e, found) ↦ elim (Bool-cases (is_expired now c.ttl_seconds e)) [
      | inl old ↦ rw (found, old, has_cached) (pop_entry-WellFormed t l c w)
      | inr recent ↦ rw (found, recent, has_cached) w
    ]
  ]

  handle_invalidation-WellFormed :
      (n : Notification) (c : PacketCache)
      → WellFormed c
      → WellFormed (handle_invalidation parse_uuid n c).1
  unfolding handle_invalidation invalidate_all invalidate_project
  handle_invalidation-WellFormed n c w =
      elim (Bool-cases (truthy (get_field "invalidate_all" (normalize_payload n)))) [
        | inl every ↦ rw every emptied
        | inr some_only ↦ elim (Option-cases (named_project parse_uuid (normalize_payload n))) [
          | inl unnamed ↦ rw (some_only, unnamed) emptied
          | inr (p, named) ↦
              rw (some_only, named)
                (let kept = filterb-WellFormed (λ e. not (of_project p e)) c w in
                  record { bounded = kept.bounded; one_per_key = kept.one_per_key })
        ]
      ]
    where
      emptied : WellFormed (invalidate_all c).1
      emptied = record { bounded = omega arith; one_per_key = tt }

  CacheStep-WellFormed : {c d : PacketCache} → CacheStep c d → WellFormed c → WellFormed d
  CacheStep-WellFormed (gets now t l c) w = get-WellFormed now t l c w
  CacheStep-WellFormed (asks now t l c) w = has_cached-WellFormed now t l c w
  CacheStep-WellFormed (puts now project t payload l c) w =
      put-WellFormed now project t payload l c w
  CacheStep-WellFormed (told n c) w = handle_invalidation-WellFormed n c w

  -- Whatever calls are made on a cache within its bound and with one entry a key, it stays so.
  pub CacheSteps-WellFormed : {c d : PacketCache} → CacheSteps c d → WellFormed c → WellFormed d
  CacheSteps-WellFormed here w = w
  CacheSteps-WellFormed (then_step before step) w =
      CacheStep-WellFormed step (CacheSteps-WellFormed before w)
