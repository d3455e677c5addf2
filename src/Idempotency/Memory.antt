-- ===== src/Idempotency/Memory.antt =====
-- The table of keys against a memory that forgets nothing and knows of no replays or deletions.
use agenticqueue.Base.{
  ℕ, ◌+◌, ◌≤◌, String, true, not, ◌&&◌, none, some, List, [], ◌∷◌, ◌==◌, nat_eq, string_eq,
  if◌then◌else◌, leb, leb→le, Bool-cases, Option-cases, Result, ok, ◌≡◌, refl, ap, ◌∙◌, inl, inr,
  arith,
}
use agenticqueue.Json.{Json}
use agenticqueue.Idempotency.{
  Request, Response, Server, idempotency_ttl, find_key, delete_key, replayed, count_replay,
  has_expired, is_same_request, lookup_idempotency_key, miss, hit, conflict,
  store_idempotency_response, cleanup_expired_idempotency_keys, conflict_response, run_and_store,
  dispatch_keyed,
}
use agenticqueue.Idempotency.Remembered.{
  Kept, overdue, repeated, clashing, kept_of, Memory, Remembers, dropped, later-Remembers, counted,
  remembers, stored-Remembers, not_found, find-delete_key, remembered, deleted, forgotten,
}

pub record Spec (S : Type 0) : Type 0 where
  pub memory : Memory
  pub state : S

module _ {S : Type 0} (sha256 : String → String) (render : Json → String)
    (call_next : Request → S → Response × S) where
  -- The application runs, and its response is remembered if it is no error.
  unfoldable pub run_and_keep : ℕ → String → ℕ → Request → Spec S → Response × Spec S
  run_and_keep done key actor request s =
      let (response, state') = call_next request s.state in
      let kept : Kept = record {
        key = key;
        actor_id = actor;
        body_sha256 = sha256 request.body;
        response_status = response.status_code;
        response_body = response.content;
        expires_at = done + idempotency_ttl;
      } in
      if leb 400 response.status_code
      then (response, record s { state = state' })
      else (response, record { memory = remembers key kept s.memory; state = state' })

  -- What is asked under a key is run, replayed or refused, by what is remembered.
  unfoldable pub spec_keyed : ℕ → ℕ → String → ℕ → Request → Spec S → Response × Spec S
  spec_keyed now done key actor request s = elim (s.memory key) [
    | none ↦ run_and_keep done key actor request s
    | some e ↦
        if leb e.expires_at now
        then run_and_keep done key actor request s
        else if (e.actor_id == actor) && (e.body_sha256 == sha256 request.body)
        then (
          record {
            status_code = e.response_status;
            content = e.response_body;
            headers = ("X-Idempotency-Replayed", "true") ∷ [];
          },
          s,
        )
        else (conflict_response render, s)
  ]

  -- A server does what a memory and a state of the application do.
  pub record Agrees (t : ℕ) (real : Result Response × Server S) (spec : Response × Spec S)
      : Type 0 where
    pub same_response : real.0 ≡ ok spec.0
    pub same_memory : Remembers t real.1.keys spec.1.memory
    pub same_state : real.1.app_state ≡ spec.1.state

  run-Agrees :
      {now : ℕ} (done : ℕ) (key : String) (actor : ℕ) (request : Request) (s : Server S)
      (m : Memory)
      → Remembers now s.keys m
      → now ≤ done
      → find_key key s.keys ≡ none
      → Agrees done
          (run_and_store sha256 render call_next done key actor request s)
          (run_and_keep done key actor request (record { memory = m; state = s.app_state }))
  unfolding run_and_store run_and_keep store_idempotency_response
  run-Agrees done key actor request s m h le free =
      elim (Bool-cases (leb 400 (call_next request s.app_state).0.status_code)) [
        | inl e ↦
            rw (e, run_and_store, run_and_keep)
              record { same_response = refl; same_memory = later-Remembers h le; same_state = refl }
        | inr e ↦
            rw (e, free, run_and_store, run_and_keep, store_idempotency_response)
              record {
                same_response = refl;
                same_memory = stored-Remembers _ h le free;
                same_state = refl;
              }
      ]

  keyed-Agrees :
      {t : ℕ} (now done : ℕ) (key : String) (actor : ℕ) (request : Request) (s : Server S)
      (m : Memory)
      → Remembers t s.keys m
      → t ≤ now
      → now ≤ done
      → Agrees done
          (dispatch_keyed sha256 render call_next now done key actor request s)
          (spec_keyed now done key actor request (record { memory = m; state = s.app_state }))
  unfolding dispatch_keyed spec_keyed
  keyed-Agrees {t} now done key actor request s m h le le' =
      let look = lookup_idempotency_key now key actor (sha256 request.body) s.keys in
      let later = later-Remembers h le in
      elim (Option-cases (find_key key s.keys)) [
        | inl e ↦
            let found : look ≡ (miss, s.keys) = not_found now key actor _ s.keys e in
            let run = run-Agrees done key actor request s m later le' e in
            elim (Option-cases (m key)) [
              | inl n ↦ rw (found, n, dispatch_keyed, spec_keyed) run
              | inr (k, at) ↦
                  let expired : leb k.expires_at now ≡ true = forgotten later e at in
                  rw (found, at, expired, dispatch_keyed, spec_keyed) run
            ]
        | inr (r, e) ↦
            let at : m key ≡ some (kept_of r) = remembered h e in
            elim (Bool-cases (has_expired now r)) [
              | inl old ↦
                  let found : look ≡ (miss, delete_key key s.keys) =
                    overdue now key actor _ s.keys r e old in
                  rw (found, at, old, dispatch_keyed, spec_keyed)
                    (run-Agrees done key actor request (record s { keys = delete_key key s.keys }) m
                      (deleted key h (omega arith) e old) le' (find-delete_key key s.keys))
              | inr live ↦ elim (Bool-cases (is_same_request actor (sha256 request.body) r)) [
                | inl same ↦
                    let found : look ≡ (hit (replayed r), count_replay key s.keys) =
                      repeated now key actor _ s.keys r e live same in
                    rw (found, at, live, same, dispatch_keyed, spec_keyed)
                      record {
                        same_response = refl;
                        same_memory = counted key h (omega arith);
                        same_state = refl;
                      }
                | inr other ↦
                    let found : look ≡ (conflict r, s.keys) =
                      clashing now key actor _ s.keys r e live other in
                    rw (found, at, live, other, dispatch_keyed, spec_keyed)
                      record {
                        same_response = refl;
                        same_memory = later-Remembers h (omega arith);
                        same_state = refl;
                      }
              ]
            ]
      ]

  -- The calls that reach the middleware with a key and an actor, and the cleanings, with their times.
  pub data Event : Type 0 where
    call : (now done : ℕ) (key : String) (actor : ℕ) → Request → Event
    clean : (now : ℕ) → Event

  abbrev pub InOrder : ℕ → List Event → Type 0
  InOrder t [] = Unit
  InOrder t (call now done key actor request ∷ es) = (t ≤ now) × (now ≤ done) × InOrder done es
  InOrder t (clean now ∷ es) = (t ≤ now) × InOrder now es

  -- What the server answers to the events, and the state of the application after them.
  unfoldable pub serve : List Event → Server S → List (Result Response) × S
  serve [] s = ([], s.app_state)
  serve (call now done key actor request ∷ es) s =
      let (r, s') = dispatch_keyed sha256 render call_next now done key actor request s in
      let (rs, state) = serve es s' in (r ∷ rs, state)
  serve (clean now ∷ es) s =
      serve es (record s { keys = (cleanup_expired_idempotency_keys now s.keys).1 })

  -- What a memory answers, which has nothing to clean.
  unfoldable pub recall : List Event → Spec S → List (Result Response) × S
  recall [] s = ([], s.state)
  recall (call now done key actor request ∷ es) s =
      let (r, s') = spec_keyed now done key actor request s in
      let (rs, state) = recall es s' in (ok r ∷ rs, state)
  recall (clean now ∷ es) s = recall es s

  -- Calls one after the other, with cleanings of expired rows anywhere between them, are answered as
  -- by a memory in which nothing is ever deleted, and the application is run exactly when the memory
  -- runs it: no call raises, and the table may lack only what has expired.
  pub serve-recall :
      (es : List Event) (s : Server S) (m : Memory) {t : ℕ}
      → Remembers t s.keys m
      → InOrder t es
      → serve es s ≡ recall es (record { memory = m; state = s.app_state })
  unfolding serve recall cleanup_expired_idempotency_keys
  serve-recall [] s m h o = refl
  serve-recall (clean now ∷ es) s m h o =
      serve-recall es (record s { keys = (cleanup_expired_idempotency_keys now s.keys).1 }) m
        (dropped (λ r. not (has_expired now r)) h o.0
          λ r i goes. leb→le r.expires_at now (ground arith))
        o.1
  serve-recall (call now done key actor request ∷ es) s m h o =
      let step = keyed-Agrees now done key actor request s m h o.0 o.1 in
      let rest =
        serve-recall es (dispatch_keyed sha256 render call_next now done key actor request s).1 _
          step.same_memory o.2
        ∙ ap
            (λ x. recall es (record {
              memory =
                  (spec_keyed now done key actor request
                    (record { memory = m; state = s.app_state })).1.memory;
              state = x;
            }))
            step.same_state in
      λ i. (step.same_response i ∷ (rest i).0, (rest i).1)
