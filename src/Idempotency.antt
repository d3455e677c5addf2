-- ===== src/Idempotency.antt =====
-- Replay of mutating requests: apps/api/src/agenticqueue_api/middleware/idempotency.py, with
-- error_payload of errors.py. The rows of the table are a list, times are in microseconds, and a body is
-- its text. UUID parsing, the digest, the rendering of JSON and the application behind the middleware are parameters.
pub mod Remembered
pub mod Memory
pub mod Replay
use text.Mathlib.Text.{starts_with}
use agenticqueue.Base.{
  ℕ, zero, suc, ◌+◌, ◌*◌, String, Bool, true, false, not, ◌&&◌, ◌||◌, Option, none, some, List, [],
  ◌∷◌, ◌++◌, map, length, ◌==◌, nat_eq, string_eq, if◌then◌else◌, leb, nat_beq, filterb, first,
  lookup, mem, Error, value_error, integrity_error, Result, ok, err,
}
use agenticqueue.Base.Text.{strip, nonempty}
use agenticqueue.Json.{Json, Fields}
use Prim.Native.Char.{Char, code}
use agenticqueue.Errors.{error_payload}
use agenticqueue.Ulid.{ulid_of, upper_ulid}

-- `IdempotencyKeyRecord`
pub record IdempotencyKeyRecord : Type 0 where
  pub key : String
  pub actor_id : ℕ
  pub body_sha256 : String
  pub response_status : ℕ
  pub response_body : String
  pub replay_count : ℕ
  pub expires_at : ℕ

-- `IdempotencyLookupResult`
pub data IdempotencyLookupResult : Type 0 where
  miss : IdempotencyLookupResult
  hit conflict : IdempotencyKeyRecord → IdempotencyLookupResult

pub record Request : Type 0 where
  pub method : String
  pub path : String
  pub idempotency_key : Option String
  pub actor : Option ℕ
  pub body : String

pub record Response : Type 0 where
  pub status_code : ℕ
  pub content : String
  pub headers : List (String × String)

-- `IDEMPOTENCY_TTL`, 24 hours
abbrev pub idempotency_ttl : ℕ
idempotency_ttl = 24 * 3600 * 1000000

-- `normalize_idempotency_key`, `parse_uuid` being `str(uuid.UUID(key))`
unfoldable pub normalize_idempotency_key : (String → Option String) → String → Result String
normalize_idempotency_key parse_uuid raw =
    let key = strip raw in
    if not (nonempty key)
    then err (value_error "Idempotency-Key header is required")
    else elim (parse_uuid key) [
      | some u ↦ ok u
      | none ↦
          if ulid_of 26 key
          then ok (upper_ulid key)
          else err (value_error "Idempotency-Key must be a UUID or ULID")
    ]

unfoldable pub requires_idempotency : Request → Bool
requires_idempotency r =
    mem r.method ("POST" ∷ "PATCH" ∷ "DELETE" ∷ [])
    && (r.path == "/task-types"
        || starts_with r.path "/v1/"
        || starts_with r.path "/tasks/"
        || starts_with r.path "/learnings/drafts/")

abbrev pub Keys : Type 0
Keys = List IdempotencyKeyRecord

-- `session.get(record_type, key)`
unfoldable pub find_key : String → Keys → Option IdempotencyKeyRecord
find_key key = first (λ r. r.key == key)

-- `session.delete(record)`
unfoldable pub delete_key : String → Keys → Keys
delete_key key = filterb (λ r. not (r.key == key))

abbrev pub replayed : IdempotencyKeyRecord → IdempotencyKeyRecord
replayed r = record r { replay_count = suc r.replay_count }

-- `record.replay_count += 1`
unfoldable pub count_replay : String → Keys → Keys
count_replay key = map λ r. if r.key == key then replayed r else r

abbrev pub has_expired : ℕ → IdempotencyKeyRecord → Bool
has_expired now r = leb r.expires_at now

abbrev pub is_same_request : ℕ → String → IdempotencyKeyRecord → Bool
is_same_request actor sha r = (r.actor_id == actor) && (r.body_sha256 == sha)

unfoldable pub lookup_idempotency_key :
    ℕ → String → ℕ → String → Keys → IdempotencyLookupResult × Keys
lookup_idempotency_key now key actor sha keys = elim (find_key key keys) [
  | none ↦ (miss, keys)
  | some r ↦
      if has_expired now r
      then (miss, delete_key key keys)
      else if is_same_request actor sha r
      then (hit (replayed r), count_replay key keys)
      else (conflict r, keys)
]

-- `store_idempotency_response`; the key is the table's primary key.
unfoldable pub store_idempotency_response :
    ℕ → String → ℕ → String → ℕ → String → Keys → Result Keys
store_idempotency_response now key actor sha status body keys = elim (find_key key keys) [
  | some _ ↦ err (integrity_error key)
  | none ↦ ok (
      keys
      ++ record {
        key = key;
        actor_id = actor;
        body_sha256 = sha;
        response_status = status;
        response_body = body;
        replay_count = 0;
        expires_at = now + idempotency_ttl;
      }
        ∷ [])
]

-- `cleanup_expired_idempotency_keys`: the count of the rows deleted, and the rows left.
unfoldable pub cleanup_expired_idempotency_keys : ℕ → Keys → ℕ × Keys
cleanup_expired_idempotency_keys now keys =
    (length (filterb (has_expired now) keys), filterb (λ r. not (has_expired now r)) keys)

-- `IdempotencyStats`
pub record IdempotencyStats : Type 0 where
  pub hit_count : ℕ
  pub row_count : ℕ
  pub expired_count : ℕ
  pub active_count : ℕ

abbrev pub sum_replays : Keys → ℕ
sum_replays [] = 0
sum_replays (r ∷ rs) = r.replay_count + sum_replays rs

unfoldable pub get_idempotency_stats : ℕ → Keys → IdempotencyStats
get_idempotency_stats now keys = record {
  hit_count = sum_replays keys;
  row_count = length keys;
  expired_count = length (filterb (has_expired now) keys);
  active_count = length (filterb (λ r. not (has_expired now r)) keys);
}

-- `_cached_response`
abbrev pub cached_response : IdempotencyKeyRecord → Response
cached_response r = record {
  status_code = r.response_status;
  content = r.response_body;
  headers = ("X-Idempotency-Replayed", "true") ∷ [];
}

-- What a request works on: the table of keys, and the state of the application behind.
pub record Server (S : Type 0) : Type 0 where
  pub keys : Keys
  pub app_state : S

module _ (render : Json → String) where
  abbrev pub error_response : ℕ → String → List (String × String) → Response
  error_response n message headers = record {
    status_code = n;
    content = render (error_payload n message);
    headers = headers;
  }

  -- `_conflict_response`
  abbrev pub conflict_response : Response
  conflict_response =
      error_response 409 "Idempotency-Key was already used for a different request body"
        (("X-Idempotency-Conflict", "true") ∷ [])

-- `str(error)` of a `ValueError`
abbrev message_of : Error → String
message_of (value_error s) = s
message_of _ = ""

module _ {S : Type 0} (sha256 : String → String) (render : Json → String)
    (call_next : Request → S → Response × S) where
  unfoldable pub call_through : Request → Server S → Result Response × Server S
  call_through request s =
      let (response, state) = call_next request s.app_state in
      (ok response, record s { app_state = state })

  -- The application's response is kept if it is no error; what it wrote stays if keeping it fails.
  unfoldable pub run_and_store : ℕ → String → ℕ → Request → Server S → Result Response × Server S
  run_and_store done key actor request s =
      let (response, state) = call_next request s.app_state in
      if leb 400 response.status_code
      then (ok response, record s { app_state = state })
      else elim (store_idempotency_response done key actor (sha256 request.body)
          response.status_code response.content s.keys) [
            | ok keys ↦ (ok response, record { keys = keys; app_state = state })
            | err e ↦ (err e, record s { app_state = state })
          ]

  -- `dispatch` after its look-up.
  abbrev pub answer :
      ℕ → String → ℕ → Request → S → IdempotencyLookupResult × Keys → Result Response × Server S
  answer done key actor request state (hit r, keys) =
      (ok (cached_response r), record { keys = keys; app_state = state })
  answer done key actor request state (conflict r, keys) =
      (ok (conflict_response render), record { keys = keys; app_state = state })
  answer done key actor request state (miss, keys) =
      run_and_store done key actor request (record { keys = keys; app_state = state })

  -- `dispatch` once it has a key and an actor: `now` and `done` are the times of its two sessions.
  unfoldable pub dispatch_keyed :
      ℕ → ℕ → String → ℕ → Request → Server S → Result Response × Server S
  dispatch_keyed now done key actor request s =
      answer done key actor request s.app_state
        (lookup_idempotency_key now key actor (sha256 request.body) s.keys)

  module _ (parse_uuid : String → Option String) where
    unfoldable pub dispatch : ℕ → ℕ → Request → Server S → Result Response × Server S
    dispatch now done request s =
        if requires_idempotency request
        then elim request.idempotency_key [
          | none ↦ (ok (error_response render 400 "Idempotency-Key header is required" []), s)
          | some raw ↦ elim (normalize_idempotency_key parse_uuid raw) [
            | err e ↦ (ok (error_response render 400 (message_of e) []), s)
            | ok key ↦ elim request.actor [
              | none ↦ call_through request s
              | some actor ↦ dispatch_keyed now done key actor request s
            ]
          ]
        ]
        else call_through request s
