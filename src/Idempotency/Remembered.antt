-- ===== src/Idempotency/Remembered.antt =====
-- What the table of keys has in common with a memory that forgets nothing (middleware/idempotency.py).
use agenticqueue.Base.{
  ℕ, ◌≤◌, String, Bool, true, false, not, Option, none, some, [], ◌∷◌, ◌++◌, ◌==◌, ==_iff, ==_refl,
  nat_eq, string_eq, if◌then◌else◌, leb, leb→le, filterb, In, In-filterb, filterb-In, In-append,
  append-In, first-some, first-none, Bool-cases, ◌≡◌, refl, sym, ap, ◌∙◌, subst, ◌⊎◌, inl, inr,
  arith,
}
use agenticqueue.Idempotency.{
  IdempotencyKeyRecord, Keys, find_key, delete_key, replayed, count_replay, has_expired,
  is_same_request, lookup_idempotency_key, miss, hit, conflict,
}

-- A row without its count.
pub record Kept : Type 0 where
  pub key : String
  pub actor_id : ℕ
  pub body_sha256 : String
  pub response_status : ℕ
  pub response_body : String
  pub expires_at : ℕ

abbrev pub kept_of : IdempotencyKeyRecord → Kept
kept_of r = record {
  key = r.key;
  actor_id = r.actor_id;
  body_sha256 = r.body_sha256;
  response_status = r.response_status;
  response_body = r.response_body;
  expires_at = r.expires_at;
}

abbrev pub Memory : Type 0
Memory = String → Option Kept

-- Each row is remembered, and what is remembered beyond the rows has expired.
pub record Remembers (t : ℕ) (keys : Keys) (m : Memory) : Type 0 where
  pub stored : (r : IdempotencyKeyRecord) → In r keys → m r.key ≡ some (kept_of r)
  pub recalled :
      (k : String) (e : Kept)
      → m k ≡ some e
      → (e.expires_at ≤ t) ⊎ ((r : IdempotencyKeyRecord) × In r keys × (r.key ≡ k))

abbrev KeyIn : String → Keys → Type 0
KeyIn k keys = (r : IdempotencyKeyRecord) × In r keys × (r.key ≡ k)

-- Rows may go that have expired, if no other row goes.
pub dropped :
    {t now : ℕ} {keys : Keys} {m : Memory} (p : IdempotencyKeyRecord → Bool)
    → Remembers t keys m
    → t ≤ now
    → ((r : IdempotencyKeyRecord) → In r keys → p r ≡ false → r.expires_at ≤ now)
    → Remembers now (filterb p keys) m
dropped {t} {now} {keys} {m} p h le gone = record {
  stored = λ r i. h.stored r (In-filterb p r keys i).0;
  recalled = λ k e at. elim (h.recalled k e at) [
    | inl late ↦ inl (omega arith)
    | inr (r, i, same) ↦ elim (Bool-cases (p r)) [
      | inl stays ↦ inr (r, filterb-In p r keys i stays, same)
      | inr goes ↦
          let row : m k ≡ some (kept_of r) =
            subst (λ j. m j ≡ some (kept_of r)) same (h.stored r i) in
          let expires : r.expires_at ≡ e.expires_at = cc in
          let expired = gone r i goes in inl (omega arith)
    ]
  ];
}

pub later-Remembers :
    {t now : ℕ} {keys : Keys} {m : Memory} → Remembers t keys m → t ≤ now → Remembers now keys m
later-Remembers h le = record {
  stored = h.stored;
  recalled =
      λ k e at. elim (h.recalled k e at) [ inl late ↦ inl (omega arith) | inr found ↦ inr found ];
}

counted-In :
    (k : String) (r : IdempotencyKeyRecord) (keys : Keys)
    → In r (count_replay k keys)
    → (q : IdempotencyKeyRecord) × In q keys × (kept_of r ≡ kept_of q)
unfolding count_replay
counted-In k r [] i = absurd i
counted-In k r (q ∷ keys) i = elim i [
  | inl e ↦ (q, inl refl, ap kept_of e ∙ kept-counted (q.key == k))
  | inr i' ↦ let (p, j, same) = counted-In k r keys i' in (p, inr j, same)
]
  where
    kept-counted : (b : Bool) → kept_of (if b then replayed q else q) ≡ kept_of q
    kept-counted true = refl
    kept-counted false = refl

In-counted : (k j : String) (keys : Keys) → KeyIn j keys → KeyIn j (count_replay k keys)
unfolding count_replay
In-counted k j [] (r, i, e) = absurd i
In-counted k j (q ∷ keys) (r, i, e) = elim i [
  | inl same ↦ (
    if q.key == k then replayed q else q,
    inl refl,
    key-counted (q.key == k) ∙ ap (λ (x : IdempotencyKeyRecord). x.key) (sym same) ∙ e,
  )
  | inr i' ↦ let (p, l, e') = In-counted k j keys (r, i', e) in (p, inr l, e')
]
  where
    key-counted : (b : Bool) → (if b then replayed q else q).key ≡ q.key
    key-counted true = refl
    key-counted false = refl

pub counted :
    {t now : ℕ} {keys : Keys} {m : Memory} (k : String)
    → Remembers t keys m
    → t ≤ now
    → Remembers now (count_replay k keys) m
counted {keys} {m} k h le = record {
  stored = λ r i.
      let (q, j, same) = counted-In k r keys i in
      subst (λ (e : Kept). m e.key ≡ some e) (sym same) (h.stored q j);
  recalled = λ j e at. elim (h.recalled j e at) [
    | inl late ↦ inl (omega arith)
    | inr found ↦ inr (In-counted k j keys found)
  ];
}

abbrev pub remembers : String → Kept → Memory → Memory
remembers k e m j = if j == k then some e else m j

pub stored-Remembers :
    {t now : ℕ} {keys : Keys} {m : Memory} (r : IdempotencyKeyRecord)
    → Remembers t keys m
    → t ≤ now
    → find_key r.key keys ≡ none
    → Remembers now (keys ++ r ∷ []) (remembers r.key (kept_of r) m)
unfolding find_key
stored-Remembers {keys} {m} r h le free = record {
  stored = λ q i. elim (In-append q keys (r ∷ []) i) [
    | inl old ↦
        let apart = first-none (λ p. p.key == r.key) q keys free old in rw apart (h.stored q old)
    | inr (inl same) ↦
        subst (λ (p : IdempotencyKeyRecord). remembers r.key (kept_of r) m p.key ≡ some (kept_of p))
          (sym same) (rw (==_refl r.key) refl)
    | inr (inr no_more) ↦ absurd no_more
  ];
  recalled = λ k e at. elim (Bool-cases (k == r.key)) [
    | inl same ↦ inr (r, append-In r keys (r ∷ []) (inr (inl refl)), sym ((==_iff k r.key).0 same))
    | inr other ↦ elim (h.recalled k e (rw other at at)) [
      | inl late ↦ inl (omega arith)
      | inr (q, i, e') ↦ inr (q, append-In q keys (r ∷ []) (inl i), e')
    ]
  ];
}

-- The four answers of a look-up.
module _ (now : ℕ) (key : String) (actor : ℕ) (sha : String) (keys : Keys) where
  pub not_found :
      find_key key keys ≡ none → lookup_idempotency_key now key actor sha keys ≡ (miss, keys)
  unfolding lookup_idempotency_key
  not_found e = rw (e, lookup_idempotency_key) refl

  module _ (r : IdempotencyKeyRecord) (e : find_key key keys ≡ some r) where
    pub overdue :
        has_expired now r ≡ true
        → lookup_idempotency_key now key actor sha keys ≡ (miss, delete_key key keys)
    unfolding lookup_idempotency_key
    overdue old = rw (e, lookup_idempotency_key, old) refl

    pub repeated :
        has_expired now r ≡ false
        → is_same_request actor sha r ≡ true
        → lookup_idempotency_key now key actor sha keys ≡ (hit (replayed r), count_replay key keys)
    unfolding lookup_idempotency_key
    repeated live same = rw (e, lookup_idempotency_key, live, same) refl

    pub clashing :
        has_expired now r ≡ false
        → is_same_request actor sha r ≡ false
        → lookup_idempotency_key now key actor sha keys ≡ (conflict r, keys)
    unfolding lookup_idempotency_key
    clashing live other = rw (e, lookup_idempotency_key, live, other) refl

pub find-delete_key : (key : String) (keys : Keys) → find_key key (delete_key key keys) ≡ none
unfolding find_key delete_key
find-delete_key key [] = refl
find-delete_key key (r ∷ keys) = ground (arith, find-delete_key key keys)

pub remembered :
    {t : ℕ} {keys : Keys} {m : Memory} {key : String} {r : IdempotencyKeyRecord}
    → Remembers t keys m
    → find_key key keys ≡ some r
    → m key ≡ some (kept_of r)
unfolding find_key
remembered {keys} {m} {key} {r} h e =
    let (i, same) = first-some (λ p. p.key == key) r keys e in
    subst (λ k. m k ≡ some (kept_of r)) ((==_iff r.key key).0 same) (h.stored r i)

pub deleted :
    {t now : ℕ} {keys : Keys} {m : Memory} (key : String) {r : IdempotencyKeyRecord}
    → Remembers t keys m
    → t ≤ now
    → find_key key keys ≡ some r
    → has_expired now r ≡ true
    → Remembers now (delete_key key keys) m
unfolding delete_key
deleted {now} {m} key {r} h le e old =
    dropped (λ q. not (q.key == key)) h le
      λ q i goes.
        let alike : q.key ≡ key = (==_iff q.key key).0 (ground arith) in
        let at = subst (λ k. m k ≡ some (kept_of q)) alike (h.stored q i) in
        let at' = remembered h e in
        let same : q.expires_at ≡ r.expires_at = cc in
        let over = leb→le r.expires_at now old in omega arith

pub forgotten :
    {t : ℕ} {keys : Keys} {m : Memory} {key : String} {k : Kept}
    → Remembers t keys m
    → find_key key keys ≡ none
    → m key ≡ some k
    → leb k.expires_at t ≡ true
unfolding find_key
forgotten {keys} {key} {k} h e at = elim (h.recalled key k at) [
  | inl late ↦ ground arith
  | inr (r, i, same) ↦
      let apart = first-none (λ p. p.key == key) r keys e i in
      let alike = (==_iff r.key key).1 same in absurd (ground arith)
]
