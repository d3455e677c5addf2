-- ===== src/Queue.antt =====
-- The claim queue: apps/api/src/agenticqueue_api/repo/queue.py. The `task` table is a list of rows;
-- `locked` says which rows other transactions hold, and SKIP LOCKED passes those over.
pub mod Rows
pub mod Order
pub mod Claims
pub mod Exclusive
pub mod Release
use agenticqueue.Base.{
  ℕ, ◌≡◌, refl, String, Bool, true, false, not, ◌&&◌, ◌||◌, Option, none, some, List, [], ◌∷◌, map,
  ◌==◌, nat_eq, string_eq, if◌then◌else◌, mem, all, any, filterb, first, from_keys, leb, ltb,
}
use agenticqueue.Base.Int.{ltb_ℤ, eqb_ℤ}
use agenticqueue.Base.Text.{strip, nonempty}
use agenticqueue.Task.{Task}

abbrev pub default_claim_states : List String
default_claim_states = "todo" ∷ "queued" ∷ []

abbrev pub default_active_states : List String
default_active_states = "claimed" ∷ "in_progress" ∷ []

abbrev pub or_fallback : List String → List String → List String
or_fallback [] fallback = fallback
or_fallback (v ∷ vs) fallback = v ∷ vs

-- `_normalized_values`
unfoldable pub normalized_values : Option (List String) → List String → List String
unfolding strip
normalized_values none fallback = fallback
normalized_values (some values) fallback =
    or_fallback (map strip (filterb (λ v. nonempty (strip v)) values)) fallback

-- `_normalized_labels`
unfoldable pub normalized_labels : Option (List String) → List String
unfolding normalized_values from_keys
normalized_labels labels = from_keys [] (normalized_values labels [])

pub record ClaimRequest : Type 0 where
  pub actor_id : ℕ
  pub labels : Option (List String)
  pub project_id : Option ℕ
  pub claim_states : Option (List String)
  pub claimed_state : String
  pub claimed_at : Option ℕ
  pub now : ℕ

abbrev pub in_project : Option ℕ → Task → Bool
in_project none t = true
in_project (some p) t = t.project_id == p

-- The WHERE clause of `_claim_next_statement`.
unfoldable pub claimable : ClaimRequest → Task → Bool
claimable q t =
    mem t.state (normalized_values q.claim_states default_claim_states)
    && all (λ l. mem l t.labels) (normalized_labels q.labels)
    && in_project q.project_id t

-- ORDER BY priority DESC, sequence ASC
unfoldable pub precedes : Task → Task → Bool
precedes a b =
    ltb_ℤ b.priority a.priority || (eqb_ℤ a.priority b.priority && ltb a.sequence b.sequence)

-- The first row of a list in that order.
unfoldable pub first_in_order : List Task → Option Task
first_in_order [] = none
first_in_order (t ∷ ts) = elim (first_in_order ts) [
  | none ↦ some t
  | some u ↦ if precedes u t then some u else some t
]

-- `UPDATE task SET … WHERE id = …`
abbrev pub update_where : ℕ → (Task → Task) → List Task → List Task
update_where i f [] = []
update_where i f (t ∷ ts) = (if t.id == i then f t else t) ∷ update_where i f ts

-- The update of the locked row, with its RETURNING clause.
abbrev pub update_selected : Option Task → (Task → Task) → List Task → Option Task × List Task
update_selected none f ts = (none, ts)
update_selected (some t) f ts = (some (f t), update_where t.id f ts)

abbrev pub or_now : Option ℕ → ℕ → ℕ
or_now none now = now
or_now (some t) now = t

abbrev pub claim_row : String → ℕ → ℕ → Task → Task
claim_row state actor at t = record t {
  state = state;
  claimed_by_actor_id = some actor;
  claimed_at = some at;
}

abbrev pub free_row : String → Task → Task
free_row state t = record t { state = state; claimed_by_actor_id = none; claimed_at = none }

abbrev pub claimed_by : Option ℕ → Task → Bool
claimed_by none t = true
claimed_by (some a) t = elim t.claimed_by_actor_id [ none ↦ false | some b ↦ b == a ]

abbrev pub stale : ℕ → Task → Bool
stale before t = elim t.claimed_at [ none ↦ true | some at ↦ leb at before ]

module _ (locked : ℕ → Bool) where
  -- The rows that the locking SELECT of a claim can return.
  abbrev pub candidates : ClaimRequest → List Task → List Task
  candidates q = filterb (λ t. claimable q t && not (locked t.id))

  unfoldable pub claim_next : ClaimRequest → List Task → Option Task × List Task
  claim_next q ts =
      update_selected (first_in_order (candidates q ts))
        (claim_row q.claimed_state q.actor_id (or_now q.claimed_at q.now)) ts

  -- The latency is measured by the database.
  unfoldable pub claim_next_timed :
      ClaimRequest → ℕ → List Task → (Option Task × Option ℕ) × List Task
  claim_next_timed q latency_ms ts =
      let (row, ts') = claim_next q ts in
      elim row [ none ↦ ((none, none), ts') | some t ↦ ((some t, some latency_ms), ts') ]

  unfoldable pub claim_task :
      ℕ → ℕ → Option (List String) → String → Option ℕ → ℕ → List Task → Option Task × List Task
  claim_task task_id actor claim_states claimed_state claimed_at now ts =
      update_selected
        (first
          (λ t.
            (t.id == task_id)
            && mem t.state (normalized_values claim_states default_claim_states)
            && not (locked t.id))
          ts)
        (claim_row claimed_state actor (or_now claimed_at now)) ts

  unfoldable pub release_claim :
      ℕ → Option ℕ → Option (List String) → String → List Task → Option Task × List Task
  release_claim task_id expected active_states released_state ts =
      update_selected
        (first
          (λ t.
            (t.id == task_id)
            && mem t.state (normalized_values active_states default_active_states)
            && claimed_by expected t
            && not (locked t.id))
          ts)
        (free_row released_state) ts

  unfoldable pub reclaim_claim :
      ℕ → ℕ → Option (List String) → String → List Task → Option Task × List Task
  reclaim_claim task_id stale_before active_states reclaimed_state ts =
      update_selected
        (first
          (λ t.
            (t.id == task_id)
            && mem t.state (normalized_values active_states default_active_states)
            && stale stale_before t
            && not (locked t.id))
          ts)
        (free_row reclaimed_state) ts
