-- ===== src/Queue/Claims.antt =====
-- Which task `claim_next` hands out, and what it leaves of the table (repo/queue.py).
use mathlib.Core.Option
use agenticqueue.Base.{
  ℕ, ◌+◌, ◌<◌, ◌≡◌, refl, ap, subst, String, Bool, true, false, not, ◌&&◌, ◌⊎◌, ◌↔◌, inl, inr,
  Option, none, some, List, In, mem→In, all_iff, &&-true, In→mem, In-filterb, filterb-In, arith,
  Option-cases, if◌then◌else◌, ◌==◌, nat_eq, string_eq, ==_iff,
}
use agenticqueue.Base.Int.{pos_part, neg_part}
use agenticqueue.Task.{Task}
use agenticqueue.Queue.{
  ClaimRequest, normalized_values, normalized_labels, default_claim_states, in_project, claimable,
  precedes, first_in_order, claim_row, or_now, candidates, claim_next,
}
use agenticqueue.Queue.Order.{first_in_order-IsFirst, first_in_order-none}
use agenticqueue.Queue.Rows.{find_task, find_task-update_where}

abbrev pub claim_states_of : ClaimRequest → List String
claim_states_of q = normalized_values q.claim_states default_claim_states

abbrev pub claimed : ClaimRequest → Task → Task
claimed q = claim_row q.claimed_state q.actor_id (or_now q.claimed_at q.now)

-- The row may be claimed: nobody holds its lock, and it meets every filter of the request.
pub record Eligible (locked : ℕ → Bool) (q : ClaimRequest) (t : Task) : Type 0 where
  pub claimable_state : In t.state (claim_states_of q)
  pub labelled : (l : String) → In l (normalized_labels q.labels) → In l t.labels
  pub of_project : (p : ℕ) → q.project_id ≡ some p → t.project_id ≡ p
  pub unlocked : locked t.id ≡ false

-- Higher priority, or equal priority and a smaller sequence number.
abbrev pub Before : Task → Task → Type 0
Before a b =
    (pos_part b.priority + neg_part a.priority < pos_part a.priority + neg_part b.priority)
    ⊎ ((pos_part a.priority + neg_part b.priority ≡ pos_part b.priority + neg_part a.priority)
        × (a.sequence < b.sequence))

Before-precedes : (a b : Task) → Before a b → precedes a b ≡ true
unfolding precedes
Before-precedes a b h = ground arith

in_project_iff :
    (o : Option ℕ) (t : Task) → (in_project o t ≡ true) ↔ ((p : ℕ) → o ≡ some p → t.project_id ≡ p)
in_project_iff none t = (λ _ p e. cc, λ _. refl)
in_project_iff (some i) t =
    (λ h p e. ground (arith, ==_iff t.project_id i), λ h. (==_iff t.project_id i).1 (h i refl))

module _ (locked : ℕ → Bool) (q : ClaimRequest) where
  candidate-Eligible :
      (t : Task) → (claimable q t && not (locked t.id)) ≡ true → Eligible locked q t
  unfolding claimable
  candidate-Eligible t h =
      let (c, free) = &&-true (claimable q t) (not (locked t.id)) h in
      let (c', p) = &&-true _ _ c in
      let (s, l) = &&-true _ _ c' in
      record {
        claimable_state = mem→In _ _ s;
        labelled = λ x m. mem→In x t.labels ((all_iff _ _).0 l x m);
        of_project = (in_project_iff _ t).0 p;
        unlocked = ground arith;
      }

  Eligible-candidate :
      (t : Task) → Eligible locked q t → (claimable q t && not (locked t.id)) ≡ true
  unfolding claimable
  Eligible-candidate t e =
      rw
        (
          In→mem _ _ e.claimable_state,
          (all_iff _ _).1 (λ x m. In→mem x t.labels (e.labelled x m)),
          (in_project_iff q.project_id t).1 e.of_project,
          e.unlocked,
        )
        refl

  pub first_candidate :
      (ts : List Task) (t : Task)
      → first_in_order (candidates locked q ts) ≡ some t
      → In t ts × Eligible locked q t × ((u : Task) → In u ts → Eligible locked q u → ¬ Before u t)
  first_candidate ts t h =
      let best = first_in_order-IsFirst _ t h in
      let row = In-filterb (λ u. claimable q u && not (locked u.id)) t ts best.member in
      (
        row.0,
        candidate-Eligible t row.1,
        λ u m e b.
            let low = best.minimal u (
              filterb-In (λ u. claimable q u && not (locked u.id)) u ts m
                (Eligible-candidate u e)) in
            let high = Before-precedes u t b in cc,
      )

-- A successful claim hands out, marked as claimed by the actor, a row that was eligible and before
-- which no eligible row comes by priority and sequence, and it writes that row alone.
pub claim_next-best :
    (locked : ℕ → Bool) (q : ClaimRequest) (ts : List Task) (r : Task)
    → (claim_next locked q ts).0 ≡ some r
    → (t : Task) × (r ≡ claimed q t)
      × In t ts
      × Eligible locked q t
      × ((u : Task) → In u ts → Eligible locked q u → ¬ Before u t)
      × ((i : ℕ)
          → find_task i (claim_next locked q ts).1
            ≡ (if t.id == i then Option.map (claimed q) (find_task i ts) else find_task i ts))
unfolding claim_next
claim_next-best locked q ts r h = elim (Option-cases (first_in_order (candidates locked q ts))) [
  | inl e ↦ let h' = rw e at h in cc
  | inr (t, e) ↦
      let found = first_candidate locked q ts t e in
      (
        t,
        ground (arith, e),
        found.0,
        found.1,
        found.2,
        λ i. rw (e, claim_next) (find_task-update_where t.id i (claimed q) ts (λ _. refl)),
      )
]

-- A claim comes back empty exactly when no row is eligible, and then it writes nothing.
pub claim_next-none_iff :
    (locked : ℕ → Bool) (q : ClaimRequest) (ts : List Task)
    → (claim_next locked q ts ≡ (none, ts)) ↔ ((t : Task) → In t ts → ¬ Eligible locked q t)
unfolding claim_next
claim_next-none_iff locked q ts = (
  λ h t m ok. elim (Option-cases (first_in_order (candidates locked q ts))) [
    | inl e ↦ subst (In t) (first_in_order-none _ e) (
        filterb-In (λ u. claimable q u && not (locked u.id)) t ts m
          (Eligible-candidate locked q t ok))
    | inr (u, e) ↦
        let h' = ap (λ (r : Option Task × List Task). r.0) h in let h'' = rw e at h' in cc
  ],
  λ no_row. elim (Option-cases (first_in_order (candidates locked q ts))) [
    | inl e ↦ rw (e, claim_next)
    | inr (t, e) ↦ let found = first_candidate locked q ts t e in absurd (no_row t found.0 found.1)
  ],
)
