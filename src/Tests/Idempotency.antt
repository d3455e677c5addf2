-- ===== src/Tests/Idempotency.antt =====
-- Runs of middleware/idempotency.py.
use agenticqueue.Base.{
  ℕ, suc, ◌*◌, String, List, [], ◌∷◌, ◌≡◌, refl, Option, none, some, nat_eq, string_eq, arith,
  Result, err, integrity_error,
}
use agenticqueue.Json.{Json}
use agenticqueue.Idempotency.{
  Request, Response, Server, find_key, count_replay, lookup_idempotency_key, miss,
  store_idempotency_response, cleanup_expired_idempotency_keys, get_idempotency_stats,
  run_and_store, dispatch_keyed,
}
use agenticqueue.Idempotency.Remembered.{Remembers, Memory}
use agenticqueue.Idempotency.Memory.{Event, call, clean, serve, recall, serve-recall}

-- An application that counts its runs.
abbrev counter : Request → ℕ → Response × ℕ
counter r n = (record { status_code = 201; content = "created"; headers = [] }, suc n)

abbrev sha256 : String → String
sha256 s = s

abbrev render : Json → String
render j = "{}"

abbrev parse_uuid : String → Option String
parse_uuid s = none

abbrev post : String → String → Request
post path body = record {
  method = "POST";
  path = path;
  idempotency_key = some " 01arz3ndektsv4rrffq69g5fav";
  actor = some 5;
  body = body;
}

abbrev new_server : Server ℕ
new_server = record { keys = []; app_state = 0 }

abbrev no_memory : Memory
no_memory k = none

nothing-Remembers : Remembers 0 [] no_memory
nothing-Remembers = record { stored = λ r i. absurd i; recalled = λ k e at. absurd (ground arith) }

abbrev two_days : List (Event sha256 render counter)
two_days =
    call 1 2 "K" 5 (post "/v1/tasks" "a")
    ∷ clean 100
    ∷ call 101 102 "K" 5 (post "/v1/tasks" "a")
    ∷ clean (25 * 3600 * 1000000)
    ∷ call (25 * 3600 * 1000000) (25 * 3600 * 1000000) "K" 5 (post "/v1/tasks" "b")
    ∷ []

-- Run at first and again after a day, replayed between.
serve-recall_example :
    serve sha256 render counter two_days new_server
    ≡ recall sha256 render counter two_days (record { memory = no_memory; state = 0 })
serve-recall_example =
    serve-recall sha256 render counter two_days new_server no_memory nothing-Remembers (
      omega arith,
      omega arith,
      (omega arith, (omega arith, omega arith, (omega arith, (omega arith, omega arith, tt)))),
    )

two_runs : (serve sha256 render counter two_days new_server).1 ≡ 2
unfolding serve dispatch_keyed lookup_idempotency_key run_and_store store_idempotency_response
    find_key count_replay cleanup_expired_idempotency_keys
two_runs = refl

-- Two requests under one key whose look-ups both come before the first response is kept: the
-- application runs twice, and the second response is lost.
abbrev after_both : Result Response × Server ℕ
after_both =
    let s = (run_and_store sha256 render counter 2 "K" 5 (post "/v1/tasks" "a") new_server).1 in
    run_and_store sha256 render counter 3 "K" 5 (post "/v1/tasks" "a") s

raced :
    ((lookup_idempotency_key 1 "K" 5 "a" []) ≡ (miss, []))
    × (after_both.0 ≡ err (integrity_error "K"))
    × (after_both.1.app_state ≡ 2)
unfolding lookup_idempotency_key run_and_store store_idempotency_response find_key
raced = (refl, refl, refl)

counted :
    (get_idempotency_stats 3
      (dispatch_keyed sha256 render counter 1 2 "K" 5
        (post "/v1/tasks" "a")
        new_server).1.keys).active_count
    ≡ 1
unfolding get_idempotency_stats dispatch_keyed lookup_idempotency_key run_and_store
    store_idempotency_response find_key
counted = refl
