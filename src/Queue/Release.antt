-- ===== src/Queue/Release.antt =====
-- Giving a claim back, and taking a stale one away (repo/queue.py).
use agenticqueue.Base.{
  ℕ, ◌≤◌, ◌≡◌, ◌≢◌, refl, sym, ap, String, Bool, true, false, not, ◌&&◌, ◌⊎◌, ◌↔◌, inl, inr, Option,
  none, some, List, [], ◌∷◌, In, mem, mem→In, In→mem, first, first-some, first-none, arith,
  Option-cases, ◌==◌, nat_eq, string_eq, ==_iff,
}
use agenticqueue.Task.{Task}
use agenticqueue.Queue.{
  normalized_values, default_active_states, default_claim_states, update_where, update_selected,
  claim_row, free_row, or_now, claimed_by, stale, claim_task, release_claim, reclaim_claim,
}
use agenticqueue.Queue.Rows.{KeepsId}

abbrev pub active_states_of : Option (List String) → List String
active_states_of v = normalized_values v default_active_states

-- What the WHERE clause of a release asks of the row.
pub record Releasable (locked : ℕ → Bool) (i : ℕ) (expected : Option ℕ)
    (active : Option (List String)) (t : Task) : Type 0 where
  pub of_id : t.id ≡ i
  pub is_active : In t.state (active_states_of active)
  pub owned : (a : ℕ) → expected ≡ some a → t.claimed_by_actor_id ≡ some a
  pub unlocked : locked t.id ≡ false

claimed_by_iff :
    (o : Option ℕ) (t : Task)
    → (claimed_by o t ≡ true) ↔ ((a : ℕ) → o ≡ some a → t.claimed_by_actor_id ≡ some a)
claimed_by_iff none t = (λ _ a e. cc, λ _. refl)
claimed_by_iff (some b) t = (λ h a e. ground arith, λ h. let h' = h b refl in ground arith)

module _ (locked : ℕ → Bool) (i : ℕ) (expected : Option ℕ) (active : Option (List String)) where
  abbrev test : Task → Bool
  test t =
      (t.id == i)
      && mem t.state (active_states_of active)
      && claimed_by expected t
      && not (locked t.id)

  test_iff : (t : Task) → (test t ≡ true) ↔ Releasable locked i expected active t
  test_iff t =
      let own = claimed_by_iff expected t in
      (
        λ h. record {
          of_id = ground arith;
          is_active = mem→In _ _ (ground arith);
          owned = own.0 (ground arith);
          unlocked = ground arith;
        },
        λ r. rw ((==_iff t.id i).1 r.of_id, In→mem _ _ r.is_active, own.1 r.owned, r.unlocked) refl,
      )

-- An update of the first row that passes a test, where the test fixes the id.
selected_cases :
    (p : Task → Bool) (i : ℕ) (f : Task → Task) (ts : List Task)
    → ((t : Task) → p t ≡ true → t.id ≡ i)
    → ((update_selected (first p ts) f ts ≡ (none, ts)) × ((t : Task) → In t ts → p t ≡ false))
      ⊎ ((t : Task) × In t ts
          × (p t ≡ true)
          × (update_selected (first p ts) f ts ≡ (some (f t), update_where i f ts)))
selected_cases p i f ts of_id = elim (Option-cases (first p ts)) [
  | inl e ↦ inl (rw e refl, λ t m. first-none p t ts e m)
  | inr (t, e) ↦
      let (row, passes) = first-some p t ts e in inr (t, row, passes, rw (e, of_id t passes) refl)
]

-- A release succeeds exactly when the table holds a row with the id that is active, that the
-- expected actor (if one is named) has claimed, and that nobody else locks. It frees that row, and
-- no other; when it fails it writes nothing.
pub release_claim_lem :
    (locked : ℕ → Bool) (i : ℕ) (expected : Option ℕ) (active : Option (List String))
    (released : String) (ts : List Task)
    → ((release_claim locked i expected active released ts ≡ (none, ts))
        × ((t : Task) → In t ts → ¬ Releasable locked i expected active t))
      ⊎ ((t : Task) × In t ts
          × Releasable locked i expected active t
          × (release_claim locked i expected active released ts
              ≡ (some (free_row released t), update_where i (free_row released) ts)))
unfolding release_claim
release_claim_lem locked i expected active released ts =
    let iff = test_iff locked i expected active in
    elim (selected_cases (test locked i expected active) i (free_row released) ts
      (λ t h. ((iff t).0 h).of_id)) [
        | inl (e, none_passes) ↦
            inl (e, λ t m r. let fails = none_passes t m in let passes = (iff t).1 r in cc)
        | inr (t, row, passes, e) ↦ inr (t, row, (iff t).0 passes, e)
      ]

-- What the WHERE clause of a reclaim asks of the row.
pub record Reclaimable (locked : ℕ → Bool) (i before : ℕ) (active : Option (List String)) (t : Task)
    : Type 0 where
  pub of_id : t.id ≡ i
  pub is_active : In t.state (active_states_of active)
  pub is_stale : (at : ℕ) → t.claimed_at ≡ some at → at ≤ before
  pub unlocked : locked t.id ≡ false

stale_iff :
    (before : ℕ) (t : Task)
    → (stale before t ≡ true) ↔ ((at : ℕ) → t.claimed_at ≡ some at → at ≤ before)
stale_iff before t = elim (Option-cases t.claimed_at) [
  | inl e ↦ (λ h at e'. cc, λ h. rw e refl)
  | inr (at, e) ↦ (λ h at' e'. ground arith, λ h. let h' = h at e in ground arith)
]

module _ (locked : ℕ → Bool) (i before : ℕ) (active : Option (List String)) where
  abbrev stale_test : Task → Bool
  stale_test t =
      (t.id == i) && mem t.state (active_states_of active) && stale before t && not (locked t.id)

  stale_test_iff : (t : Task) → (stale_test t ≡ true) ↔ Reclaimable locked i before active t
  stale_test_iff t =
      let old = stale_iff before t in
      (
        λ h. record {
          of_id = ground arith;
          is_active = mem→In _ _ (ground arith);
          is_stale = old.0 (ground arith);
          unlocked = ground arith;
        },
        λ r.
            rw ((==_iff t.id i).1 r.of_id, In→mem _ _ r.is_active, old.1 r.is_stale, r.unlocked)
              refl,
      )

-- A reclaim frees a row exactly when it has the id, is active, unlocked, and was claimed at the
-- cut-off or before it, or at no known time; otherwise it writes nothing.
pub reclaim_claim_lem :
    (locked : ℕ → Bool) (i before : ℕ) (active : Option (List String)) (reclaimed : String)
    (ts : List Task)
    → ((reclaim_claim locked i before active reclaimed ts ≡ (none, ts))
        × ((t : Task) → In t ts → ¬ Reclaimable locked i before active t))
      ⊎ ((t : Task) × In t ts
          × Reclaimable locked i before active t
          × (reclaim_claim locked i before active reclaimed ts
              ≡ (some (free_row reclaimed t), update_where i (free_row reclaimed) ts)))
unfolding reclaim_claim
reclaim_claim_lem locked i before active reclaimed ts =
    let iff = stale_test_iff locked i before active in
    elim (selected_cases (stale_test locked i before active) i (free_row reclaimed) ts
      (λ t h. ((iff t).0 h).of_id)) [
        | inl (e, none_passes) ↦
            inl (e, λ t m r. let fails = none_passes t m in let passes = (iff t).1 r in cc)
        | inr (t, row, passes, e) ↦ inr (t, row, (iff t).0 passes, e)
      ]

In-update_where :
    (i : ℕ) (f : Task → Task) (t : Task) (ts : List Task)
    → In t ts
    → t.id ≡ i
    → In (f t) (update_where i f ts)
In-update_where i f t [] m e = m
In-update_where i f t (x ∷ ts) m e = elim m [
  | inl e' ↦ inl (rw (sym e', (==_iff t.id i).1 e) refl)
  | inr m' ↦ inr (In-update_where i f t ts m' e)
]

update_where_twice :
    (i : ℕ) (f g h : Task → Task) (ts : List Task)
    → KeepsId g
    → ((t : Task) → f (g t) ≡ h t)
    → update_where i f (update_where i g ts) ≡ update_where i h ts
update_where_twice i f g h [] k e = refl
update_where_twice i f g h (t ∷ ts) k e =
    ground (arith, k t, e t, update_where_twice i f g h ts k e)

claim_task-claims :
    (locked : ℕ → Bool) (i a : ℕ) (states : Option (List String)) (claimed_state : String)
    (at : Option ℕ) (now : ℕ) (ts : List Task)
    → (claim_task locked i a states claimed_state at now ts).0 ≢ none
    → (t : Task) × In t ts
      × (t.id ≡ i)
      × (claim_task locked i a states claimed_state at now ts ≡ (
        some (claim_row claimed_state a (or_now at now) t),
        update_where i (claim_row claimed_state a (or_now at now)) ts,
      ))
unfolding claim_task
claim_task-claims locked i a states claimed_state at now ts h =
    elim (selected_cases
      (λ t.
        (t.id == i)
        && mem t.state (normalized_values states default_claim_states)
        && not (locked t.id))
      i (claim_row claimed_state a (or_now at now)) ts (λ t e. ground (arith, ==_iff t.id i))) [
        | inl (e, _) ↦ absurd (h (ap (λ (r : Option Task × List Task). r.0) e))
        | inr (t, row, passes, e) ↦ (t, row, ground (arith, ==_iff t.id i), e)
      ]

-- An actor that has claimed a task into an active state can release it, while nobody else locks the
-- row, and the release undoes the claim but for the state: the table is as if the row had only been
-- freed.
pub release_claim-claim_task :
    (locked locked' : ℕ → Bool) (i a : ℕ) (states active : Option (List String))
    (claimed_state released : String) (at : Option ℕ) (now : ℕ) (ts : List Task)
    → (claim_task locked i a states claimed_state at now ts).0 ≢ none
    → In claimed_state (active_states_of active)
    → locked' i ≡ false
    → let again =
        release_claim locked' i
          (some a)
          active
          released
          (claim_task locked i a states claimed_state at now ts).1 in
      (again.0 ≢ none) × (again.1 ≡ update_where i (free_row released) ts)
release_claim-claim_task locked locked' i a states active claimed_state released at now ts h act
      free =
    let (t, row, of_id, e) = claim_task-claims locked i a states claimed_state at now ts h in
    let claim = claim_row claimed_state a (or_now at now) in
    rw e (elim (release_claim_lem locked' i (some a) active released (update_where i claim ts)) [
      | inl (_, no_row) ↦ absurd (
          no_row (claim t) (In-update_where i claim t ts row of_id) (record {
            of_id = of_id;
            is_active = act;
            owned = λ b eq. ground arith;
            unlocked = rw of_id free;
          }))
      | inr (u, _, _, e') ↦ rw e' (
        λ bad. cc,
        update_where_twice i (free_row released) claim (free_row released) ts (λ _. refl)
            (λ _. refl),
      )
    ])
