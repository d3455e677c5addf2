-- ===== src/PacketCache/Lru.antt =====
-- What a packet cache keeps (packet_cache.py): the most recent entries, at most so many, one a key.
use agenticqueue.Base.{
  ℕ, zero, suc, ◌+◌, ◌-◌, ◌*◌, ◌≤◌, ◌<◌, ◌≡◌, refl, sym, ap, ◌∙◌, Bool, true, false, not, ◌⊎◌, inl,
  inr, Option, some, List, [], ◌∷◌, ◌++◌, length, length-append, length-filterb-le, filterb, In,
  In-filterb, ==_iff, ==_refl, nat_eq, string_eq, ltb, arith, Bool-cases, Option-cases, first-some,
  &&-true, &&-intro, String,
}
use agenticqueue.Json.{Json}
use agenticqueue.PacketCache.{
  PacketCacheEntry, PacketCache, is_at, cached_entry, pop_entry, is_expired, get, evict, put,
  record_miss,
}

-- No two entries of a list have the same key.
abbrev pub OnePerKey : List PacketCacheEntry → Type 0
OnePerKey [] = Unit
OnePerKey (e ∷ es) =
    ((f : PacketCacheEntry) → In f es → is_at e.task_id e.learning_limit f ≡ false) × OnePerKey es

-- The cache is within its bound, and a key is cached once.
pub record WellFormed (c : PacketCache) : Type 0 where
  pub bounded : length c.entries ≤ c.max_entries
  pub one_per_key : OnePerKey c.entries

-- The list without its first entries.
unfoldable pub drop : ℕ → List PacketCacheEntry → List PacketCacheEntry
drop zero es = es
drop (suc n) [] = []
drop (suc n) (e ∷ es) = drop n es

OnePerKey-filterb :
    (p : PacketCacheEntry → Bool) (es : List PacketCacheEntry)
    → OnePerKey es
    → OnePerKey (filterb p es)
OnePerKey-filterb p [] h = h
OnePerKey-filterb p (e ∷ es) h = elim (Bool-cases (p e)) [
  | inl k ↦ rw k (λ f m. h.0 f (In-filterb p f es m).0, OnePerKey-filterb p es h.1)
  | inr k ↦ rw k (OnePerKey-filterb p es h.1)
]

In-++ : (x : PacketCacheEntry) (es fs : List PacketCacheEntry) → In x (es ++ fs) → In x es ⊎ In x fs
In-++ x [] fs m = inr m
In-++ x (e ∷ es) fs m = elim m [
  | inl q ↦ inl (inl q)
  | inr m' ↦ elim (In-++ x es fs m') [ inl l ↦ inl (inr l) | inr r ↦ inr r ]
]

is_at-sym :
    (e f : PacketCacheEntry)
    → is_at e.task_id e.learning_limit f ≡ is_at f.task_id f.learning_limit e
is_at-sym e f = ground arith

OnePerKey-snoc :
    (es : List PacketCacheEntry) (e : PacketCacheEntry)
    → OnePerKey es
    → ((f : PacketCacheEntry) → In f es → is_at e.task_id e.learning_limit f ≡ false)
    → OnePerKey (es ++ e ∷ [])
OnePerKey-snoc [] e h k = (λ f m. absurd m, tt)
OnePerKey-snoc (x ∷ es) e h k = (
  λ f m. elim (In-++ f es (e ∷ []) m) [
    | inl l ↦ h.0 f l
    | inr (inl q) ↦ rw q (is_at-sym x e ∙ k x (inl refl))
    | inr (inr r) ↦ absurd r
  ],
  OnePerKey-snoc es e h.1 (λ f m. k f (inr m)),
)

pop_entry-absent :
    (t l : ℕ) (es : List PacketCacheEntry) (f : PacketCacheEntry)
    → In f (pop_entry t l es)
    → is_at t l f ≡ false
unfolding pop_entry
pop_entry-absent t l es f m = let (_, h) = In-filterb _ f es m in ground arith

evict-length : (n : ℕ) (es : List PacketCacheEntry) → length (evict n es) ≤ n
unfolding evict
evict-length n [] = omega arith
evict-length n (e ∷ es) = let rest = evict-length n es in ground arith

evict-OnePerKey : (n : ℕ) (es : List PacketCacheEntry) → OnePerKey es → OnePerKey (evict n es)
unfolding evict
evict-OnePerKey n [] h = h
evict-OnePerKey n (e ∷ es) h = elim (Bool-cases (ltb n (length (e ∷ es)))) [
  | inl k ↦ rw k (evict-OnePerKey n es h.1)
  | inr k ↦ rw k h
]

-- Eviction keeps the last entries, as many as the bound allows.
evict-drop : (n : ℕ) (es : List PacketCacheEntry) → evict n es ≡ drop (length es - n) es
unfolding evict drop
evict-drop n [] = ground arith
evict-drop n (e ∷ es) = elim (Bool-cases (ltb n (length (e ∷ es)))) [
  | inl k ↦
      let more : length (e ∷ es) - n ≡ suc (length es - n) = ground arith in
      rw (k, evict) (evict-drop n es ∙ sym (ap (λ m. drop m (e ∷ es)) more))
  | inr k ↦
      let fits : length (e ∷ es) - n ≡ 0 = ground arith in
      rw (k, evict) (sym (ap (λ m. drop m (e ∷ es)) fits))
]

pop_entry-length :
    (t l : ℕ) (es : List PacketCacheEntry) (e : PacketCacheEntry)
    → cached_entry t l es ≡ some e
    → suc (length (pop_entry t l es)) ≤ length es
unfolding cached_entry pop_entry
pop_entry-length t l [] e h = cc
pop_entry-length t l (x ∷ es) e h = elim (Bool-cases (is_at t l x)) [
  | inl k ↦
      rw k (let shorter = length-filterb-le (λ y. not (is_at t l y)) es in omega (arith, shorter))
  | inr k ↦ let rest = pop_entry-length t l es e (rw k at h) in rw k (omega (arith, rest))
]

cached_entry-is_at :
    (t l : ℕ) (es : List PacketCacheEntry) (e : PacketCacheEntry)
    → cached_entry t l es ≡ some e
    → (e.task_id ≡ t) × (e.learning_limit ≡ l)
unfolding cached_entry
cached_entry-is_at t l es e h =
    let k = (first-some (is_at t l) e es h).1 in
    ((==_iff e.task_id t).0 (&&-true _ _ k).0, (==_iff e.learning_limit l).0 (&&-true _ _ k).1)

module _ (t l : ℕ) (e : PacketCacheEntry) (k : is_at t l e ≡ true) where
  cached_entry-snoc :
      (es : List PacketCacheEntry)
      → ((f : PacketCacheEntry) → In f es → is_at t l f ≡ false)
      → cached_entry t l (es ++ e ∷ []) ≡ some e
  unfolding cached_entry
  cached_entry-snoc [] h = rw k refl
  cached_entry-snoc (x ∷ es) h = rw (h x (inl refl)) (cached_entry-snoc es (λ f m. h f (inr m)))

  cached_entry-evict :
      (n : ℕ) (es : List PacketCacheEntry)
      → 1 ≤ n
      → ((f : PacketCacheEntry) → In f es → is_at t l f ≡ false)
      → cached_entry t l (evict n (es ++ e ∷ [])) ≡ some e
  unfolding evict
  cached_entry-evict n [] m h =
      let fits : ltb n 1 ≡ false = ground arith in rw fits (cached_entry-snoc [] h)
  cached_entry-evict n (x ∷ es) m h = elim (Bool-cases (ltb n (length (x ∷ es ++ e ∷ [])))) [
    | inl q ↦ rw (q, evict) (cached_entry-evict n es m (λ f i. h f (inr i)))
    | inr q ↦ rw (q, evict) (cached_entry-snoc (x ∷ es) h)
  ]

record_miss-WellFormed :
    (reason : String) (c : PacketCache) → WellFormed c → WellFormed (record_miss reason c)
unfolding record_miss
record_miss-WellFormed reason c w = record { bounded = w.bounded; one_per_key = w.one_per_key }

pub filterb-WellFormed :
    (p : PacketCacheEntry → Bool) (c : PacketCache)
    → WellFormed c
    → WellFormed (record c { entries = filterb p c.entries })
filterb-WellFormed p c w = record {
  bounded =
      let shorter = length-filterb-le p c.entries in
      let bound = w.bounded in omega (arith, shorter, bound);
  one_per_key = OnePerKey-filterb p c.entries w.one_per_key;
}

pub pop_entry-WellFormed :
    (t l : ℕ) (c : PacketCache)
    → WellFormed c
    → WellFormed (record c { entries = pop_entry t l c.entries })
unfolding pop_entry
pop_entry-WellFormed t l c w = filterb-WellFormed _ c w

-- Caching a payload keeps the cache within its bound and one entry a key.
pub put-WellFormed :
    (now : ℕ) (project : Option ℕ) (t : ℕ) (payload : Json) (l : ℕ) (c : PacketCache)
    → WellFormed c
    → WellFormed (put now project t payload l c)
unfolding put
put-WellFormed now project t payload l c w = record {
  bounded = evict-length c.max_entries _;
  one_per_key = evict-OnePerKey c.max_entries _ (
      OnePerKey-snoc (pop_entry t l c.entries) _
        (unfold pop_entry in OnePerKey-filterb _ c.entries w.one_per_key)
        (λ f m. pop_entry-absent t l c.entries f m));
}

pub get-WellFormed : (now t l : ℕ) (c : PacketCache) → WellFormed c → WellFormed (get now t l c).1
unfolding get
get-WellFormed now t l c w = elim (Option-cases (cached_entry t l c.entries)) [
  | inl absent ↦ rw (absent, get) (record_miss-WellFormed "empty" c w)
  | inr (e, found) ↦ elim (Bool-cases (is_expired now c.ttl_seconds e)) [
    | inl old ↦
        rw (found, old, get)
          (record_miss-WellFormed "expired" (record c { entries = pop_entry t l c.entries })
            (pop_entry-WellFormed t l c w))
    | inr recent ↦
        rw (found, recent, get)
          (record {
            bounded =
                let size = length-append (pop_entry t l c.entries) (e ∷ []) in
                let shorter = pop_entry-length t l c.entries e found in
                let bound = w.bounded in omega (arith, size, shorter, bound);
            one_per_key =
                OnePerKey-snoc (pop_entry t l c.entries) e
                  (pop_entry-WellFormed t l c w).one_per_key
                  (λ f m.
                    let (same_task, same_limit) = cached_entry-is_at t l c.entries e found in
                    rw (same_task, same_limit) (pop_entry-absent t l c.entries f m));
          })
  ]
]

-- A payload that was just cached is served until its time is up.
pub get-put :
    (now later : ℕ) (project : Option ℕ) (t : ℕ) (payload : Json) (l : ℕ) (c : PacketCache)
    → 1 ≤ c.max_entries
    → later < now + c.ttl_seconds * 1000000
    → (get later t l (put now project t payload l c)).0 ≡ some payload
unfolding get put
get-put now later project t payload l c m h =
    let e : PacketCacheEntry = record {
      task_id = t;
      project_id = project;
      learning_limit = l;
      payload = payload;
      cached_at = now;
    } in
    let at_key : is_at t l e ≡ true = &&-intro (==_refl t) (==_refl l) in
    let found =
      cached_entry-evict t l e at_key c.max_entries (pop_entry t l c.entries) m
        (λ f i. pop_entry-absent t l c.entries f i) in
    let recent : is_expired later c.ttl_seconds e ≡ false = ground arith in
    rw (found, recent, get) refl

-- Caching a payload makes it the most recent entry, takes an older one of its key away, and gives up
-- only as many of the least recently used entries as exceed the bound.
pub put-drop :
    (now : ℕ) (project : Option ℕ) (t : ℕ) (payload : Json) (l : ℕ) (c : PacketCache)
    → let e : PacketCacheEntry = record {
      task_id = t;
      project_id = project;
      learning_limit = l;
      payload = payload;
      cached_at = now;
    } in
      let recent = filterb (λ f. not (is_at t l f)) c.entries ++ e ∷ [] in
      (put now project t payload l c).entries ≡ drop (length recent - c.max_entries) recent
unfolding put pop_entry
put-drop now project t payload l c = evict-drop c.max_entries _
