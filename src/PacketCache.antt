-- ===== src/PacketCache.antt =====
-- The packet cache: apps/api/src/agenticqueue_api/packet_cache.py. The entries of the ordered
-- dictionary are a list, least recently used first; each method runs under the cache's lock, and is
-- given what the clock reads (in microseconds).
pub mod Lru
pub mod Invalidation
use agenticqueue.Base.{
  ℕ, zero, suc, ◌+◌, ◌-◌, ◌*◌, String, Bool, true, false, not, ◌&&◌, Option, none, some, List, [],
  ◌∷◌, ◌++◌, map, length, ◌==◌, nat_eq, string_eq, if◌then◌else◌, leb, ltb, filterb, first, lookup,
}
use agenticqueue.Json.{Json, Fields, get_field}
use agenticqueue.Edge.{truthy}

-- `PacketCacheEntry`
pub record PacketCacheEntry : Type 0 where
  pub task_id : ℕ
  pub project_id : Option ℕ
  pub learning_limit : ℕ
  pub payload : Json
  pub cached_at : ℕ

-- `PacketCache`, its settings and its counters.
pub record PacketCache : Type 0 where
  pub max_entries : ℕ
  pub ttl_seconds : ℕ
  pub entries : List PacketCacheEntry
  pub hits : ℕ
  pub misses : ℕ
  pub invalidations : ℕ
  pub miss_reasons : List (String × ℕ)

-- The key `(task_id, learning_limit)`; every entry is stored under its own.
abbrev pub is_at : ℕ → ℕ → PacketCacheEntry → Bool
is_at t l e = (e.task_id == t) && (e.learning_limit == l)

-- `self._entries.get(key)`
unfoldable pub cached_entry : ℕ → ℕ → List PacketCacheEntry → Option PacketCacheEntry
cached_entry t l = first (is_at t l)

-- `self._entries.pop(key, None)`
unfoldable pub pop_entry : ℕ → ℕ → List PacketCacheEntry → List PacketCacheEntry
pop_entry t l = filterb (λ e. not (is_at t l e))

-- `_is_expired`
abbrev pub is_expired : ℕ → ℕ → PacketCacheEntry → Bool
is_expired now ttl e = leb (e.cached_at + ttl * 1000000) now

-- `self._miss_reasons[reason] += 1`
unfoldable pub count_reason : String → List (String × ℕ) → List (String × ℕ)
count_reason r [] = (r, 1) ∷ []
count_reason r ((k, n) ∷ rest) =
    let counted = count_reason r rest in if k == r then (k, suc n) ∷ rest else (k, n) ∷ counted

unfoldable pub record_miss : String → PacketCache → PacketCache
record_miss reason c = record c {
  misses = suc c.misses;
  miss_reasons = count_reason reason c.miss_reasons;
}

-- The result of a method, with the cache it leaves.
unfoldable pub has_cached : ℕ → ℕ → ℕ → PacketCache → Bool × PacketCache
has_cached now t l c = elim (cached_entry t l c.entries) [
  | none ↦ (false, c)
  | some e ↦
      if is_expired now c.ttl_seconds e
      then (false, record c { entries = pop_entry t l c.entries })
      else (true, c)
]

unfoldable pub get : ℕ → ℕ → ℕ → PacketCache → Option Json × PacketCache
get now t l c = elim (cached_entry t l c.entries) [
  | none ↦ (none, record_miss "empty" c)
  | some e ↦
      if is_expired now c.ttl_seconds e
      then (none, record_miss "expired" (record c { entries = pop_entry t l c.entries }))
      else (
        some e.payload,
        record c { entries = pop_entry t l c.entries ++ e ∷ []; hits = suc c.hits },
      )
]

-- `while len(self._entries) > self._max_entries: self._entries.popitem(last=False)`
unfoldable pub evict : ℕ → List PacketCacheEntry → List PacketCacheEntry
evict n [] = []
evict n (e ∷ es) = let rest = evict n es in if ltb n (length (e ∷ es)) then rest else e ∷ es

-- `put`, with the project of the task that is in the table
unfoldable pub put : ℕ → Option ℕ → ℕ → Json → ℕ → PacketCache → PacketCache
put now project t payload l c =
    let e : PacketCacheEntry = record {
      task_id = t;
      project_id = project;
      learning_limit = l;
      payload = payload;
      cached_at = now;
    } in
    record c { entries = evict c.max_entries (pop_entry t l c.entries ++ e ∷ []) }

-- `_invalidate_all`
unfoldable pub invalidate_all : PacketCache → ℕ × PacketCache
invalidate_all c = (
  length c.entries,
  record c { entries = []; invalidations = c.invalidations + length c.entries },
)

abbrev pub of_project : ℕ → PacketCacheEntry → Bool
of_project p e = elim e.project_id [ none ↦ false | some q ↦ q == p ]

-- `_invalidate_project`
unfoldable pub invalidate_project : ℕ → PacketCache → ℕ × PacketCache
invalidate_project p c =
    let removed = length (filterb (of_project p) c.entries) in
    (
      removed,
      record c {
        entries = filterb (λ e. not (of_project p e)) c.entries;
        invalidations = c.invalidations + removed;
      },
    )

-- What `handle_invalidation` is given: a dictionary, or text, with what `json.loads` makes of it,
-- `none` being its error.
pub data Notification : Type 0 where
  dictionary : Fields → Notification
  message : Option Json → Notification

-- `_normalize_payload`
unfoldable pub normalize_payload : Notification → Fields
normalize_payload (dictionary fs) = fs
normalize_payload (message none) =
    Fields.field "invalidate_all" (Json.boolean true)
      (Fields.field "reason" (Json.text "invalid-json") Fields.end)
normalize_payload (message (some (Json.object fs))) = fs
normalize_payload (message (some _)) = Fields.end

module _ (parse_uuid : String → Option ℕ) where
  -- The project that a notification names, in a form that `uuid.UUID` reads.
  unfoldable pub named_project : Fields → Option ℕ
  named_project fs = elim (get_field "project_id" fs) [
    | some (Json.text s) ↦ parse_uuid s
    | _ ↦ none
  ]

  unfoldable pub handle_invalidation : Notification → PacketCache → ℕ × PacketCache
  handle_invalidation n c =
      let fs = normalize_payload n in
      if truthy (get_field "invalidate_all" fs)
      then invalidate_all c
      else elim (named_project fs) [ none ↦ invalidate_all c | some p ↦ invalidate_project p c ]
