-- ===== src/Tests/Cache.antt =====
-- Runs of packet_cache.py.
use agenticqueue.Base.{
  ◌∷◌, ap, map, ℕ, ◌≡◌, refl, String, Option, none, some, [], string_eq, nat_eq, arith,
}
use agenticqueue.Json.{Json, Fields, get_field}
use agenticqueue.Edge.{truthy}
use agenticqueue.PacketCache.{
  PacketCacheEntry, PacketCache, cached_entry, pop_entry, get, put, evict, record_miss,
  count_reason, Notification, dictionary, named_project, normalize_payload, handle_invalidation,
  invalidate_project,
}
use agenticqueue.PacketCache.Lru.{WellFormed, get-put, put-drop, drop}
use agenticqueue.PacketCache.Invalidation.{
  Removes, Concerns, handle_invalidation-Removes, CacheSteps-WellFormed, puts, gets, here,
  then_step,
}

abbrev empty_cache : PacketCache
empty_cache = record {
  max_entries = 2;
  ttl_seconds = 60;
  entries = [];
  hits = 0;
  misses = 0;
  invalidations = 0;
  miss_reasons = [];
}

abbrev second_cache : PacketCache
second_cache = put 20 (some 8) 2 (Json.text "b") 5 (put 10 (some 7) 1 (Json.text "a") 5 empty_cache)

get-put_example :
    (get 1000 3 5 (put 30 none 3 (Json.text "c") 5 second_cache)).0 ≡ some (Json.text "c")
unfolding put evict
get-put_example = get-put 30 1000 none 3 (Json.text "c") 5 second_cache (omega arith) (omega arith)

-- The entry used least recently went.
evicted_first : (get 1000 1 5 (put 30 none 3 (Json.text "c") 5 second_cache)).0 ≡ none
unfolding get put evict pop_entry cached_entry record_miss count_reason
evicted_first = refl

put-drop_example :
    map (λ (e : PacketCacheEntry). e.task_id) (put 30 none 3 (Json.text "c") 5 second_cache).entries
    ≡ 2 ∷ 3 ∷ []
unfolding put evict pop_entry drop
put-drop_example =
    ap (map (λ (e : PacketCacheEntry). e.task_id))
      (put-drop 30 none 3 (Json.text "c") 5 second_cache)

abbrev parse_uuid : String → Option ℕ
parse_uuid s = some 7

abbrev about_7 : Notification
about_7 = dictionary (Fields.field "project_id" (Json.text "7") Fields.end)

handle_invalidation-Removes_example :
    Removes second_cache
      (Concerns parse_uuid about_7)
      (handle_invalidation parse_uuid about_7 second_cache)
handle_invalidation-Removes_example = handle_invalidation-Removes parse_uuid about_7 second_cache

removed_one : (handle_invalidation parse_uuid about_7 second_cache).0 ≡ 1
unfolding handle_invalidation normalize_payload named_project get_field truthy invalidate_project
    put evict pop_entry
removed_one = refl

empty_WellFormed : WellFormed empty_cache
empty_WellFormed = record { bounded = omega arith; one_per_key = tt }

CacheSteps-WellFormed_example : WellFormed (get 50 1 5 second_cache).1
CacheSteps-WellFormed_example =
    CacheSteps-WellFormed parse_uuid
      (then_step
        (then_step (then_step here (puts 10 (some 7) 1 (Json.text "a") 5 empty_cache))
          (puts 20 (some 8) 2 (Json.text "b") 5 _))
        (gets 50 1 5 second_cache))
      empty_WellFormed
