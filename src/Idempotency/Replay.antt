-- ===== src/Idempotency/Replay.antt =====
-- A request that is repeated under its key.
use agenticqueue.Base.{ℕ, ◌+◌, String, true, Option, some, nat_eq, string_eq, ok, ◌≡◌}
use agenticqueue.Json.{Json}
use agenticqueue.Idempotency.{
  IdempotencyKeyRecord, Request, Response, Server, idempotency_ttl, requires_idempotency,
  dispatch_keyed, dispatch, normalize_idempotency_key,
}

-- The middleware looks the request up under this key, for this actor.
pub record IsKeyed (parse_uuid : String → Option String) (request : Request) (key : String)
    (actor : ℕ) : Type 0 where
  pub raw_key : String
  pub required : requires_idempotency request ≡ true
  pub has_key : request.idempotency_key ≡ some raw_key
  pub normalized : normalize_idempotency_key parse_uuid raw_key ≡ ok key
  pub has_actor : request.actor ≡ some actor

-- The row that a response leaves.
abbrev pub row_of : ℕ → String → ℕ → String → Response → IdempotencyKeyRecord
row_of done key actor sha response = record {
  key = key;
  actor_id = actor;
  body_sha256 = sha;
  response_status = response.status_code;
  response_body = response.content;
  replay_count = 0;
  expires_at = done + idempotency_ttl;
}

module _ {S : Type 0} (sha256 : String → String) (render : Json → String)
    (call_next : Request → S → Response × S) (parse_uuid : String → Option String) where
  pub dispatch_of_keyed :
      {key : String} {actor : ℕ} (now done : ℕ) (request : Request) (s : Server S)
      → IsKeyed parse_uuid request key actor
      → dispatch sha256 render call_next parse_uuid now done request s
        ≡ dispatch_keyed sha256 render call_next now done key actor request s
  unfolding dispatch
  dispatch_of_keyed now done request s k =
      simp (dispatch, k.required, k.has_key, k.normalized, k.has_actor)
