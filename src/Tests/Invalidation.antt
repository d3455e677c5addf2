-- ===== src/Tests/Invalidation.antt =====
-- Runs of packet_invalidation.py on a packet cache.
use agenticqueue.Base.{
  ℕ, zero, suc, String, [], ◌∷◌, ◌≡◌, refl, Option, none, some, nat_eq, string_eq, map,
}
use agenticqueue.Json.{Json, Fields, get_field}
use agenticqueue.Edge.{Edge, depends_on, truthy}
use agenticqueue.PacketCache.{
  PacketCacheEntry, PacketCache, Notification, message, put, evict, pop_entry, named_project,
  normalize_payload, handle_invalidation, invalidate_project,
}
use agenticqueue.PacketInvalidation.{TaskProjects, payload_of}

-- Ids as texts of so many strokes.
text : ℕ → String
text zero = ""
text (suc n) = String.◌∷◌ "|" (text n)

strokes : String → ℕ
strokes String.[] = 0
strokes (String.◌∷◌ c s) = suc (strokes s)

abbrev parse_uuid : String → Option ℕ
parse_uuid s = some (strokes s)

-- Task 1 is in project 7, task 2 in project 8, and task 2 depends on task 1.
abbrev two_tasks : TaskProjects
two_tasks = (1, 7) ∷ (2, 8) ∷ []

abbrev crossing : Edge
crossing = record {
  id = 3;
  src_entity_type = "task";
  src_id = 2;
  dst_entity_type = "task";
  dst_id = 1;
  relation = depends_on;
  edge_metadata = Fields.end;
  created_by = none;
}

abbrev both_cached : PacketCache
both_cached =
    let empty : PacketCache = record {
      max_entries = 9;
      ttl_seconds = 60;
      entries = [];
      hits = 0;
      misses = 0;
      invalidations = 0;
      miss_reasons = [];
    } in
    put 20 (some 8) 2 (Json.text "b") 5 (put 10 (some 7) 1 (Json.text "a") 5 empty)

abbrev sent : Notification
sent = message (
    some (
      Json.object (
        payload_of text
          (record {
            name = "EdgeRecord";
            lower_name = "edgerecord";
            entity_id = 3;
            project_id = some 8;
          })
          "insert")))

-- The packet of the other end of the edge stays.
one_end :
    map
      (λ (e : PacketCacheEntry). e.task_id)
      (handle_invalidation parse_uuid sent both_cached).1.entries
    ≡ 1 ∷ []
unfolding handle_invalidation normalize_payload named_project truthy get_field payload_of
    invalidate_project put evict pop_entry strokes text
one_end = refl
