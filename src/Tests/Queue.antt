-- ===== src/Tests/Queue.antt =====
-- Runs of repo/queue.py.
use agenticqueue.Base.{
  ℕ, ◌≡◌, ◌≢◌, refl, String, Bool, true, false, none, some, List, [], ◌∷◌, In, arith, ◌⊎◌, inl,
  string_eq, nat_eq, ◌==◌, if◌then◌else◌,
}
use mathlib.Core.Option
use text.Mathlib.TextEquality.{eq_iff}
use agenticqueue.Base.Int.{pos}
use agenticqueue.Task.{Task}
use agenticqueue.Queue.{
  ClaimRequest, claimable, precedes, claim_next, claim_task, release_claim, reclaim_claim, free_row,
  update_where, normalized_values, normalized_labels, first_in_order,
}
use agenticqueue.Queue.Rows.{ids, Distinct, find_task}
use agenticqueue.Queue.Claims.{Eligible, Before, claimed, claim_next-best, claim_next-none_iff}
use agenticqueue.Queue.Exclusive.{run_claims, ClaimsTo, run_claims-Distinct}
use agenticqueue.Queue.Release.{
  Releasable, Reclaimable, release_claim_lem, reclaim_claim_lem, release_claim-claim_task,
}

abbrev row : ℕ → String → ℕ → Task
row i s p = record {
  id = i;
  project_id = 7;
  policy_id = none;
  task_type = "coding-task";
  state = s;
  priority = pos p;
  labels = "backend" ∷ [];
  sequence = i;
  claimed_by_actor_id = none;
  claimed_at = none;
  contract = [];
  attempt_count = 0;
  last_failure = none;
}

abbrev table : List Task
table = row 1 "queued" 0 ∷ row 2 "queued" 5 ∷ row 3 "done" 9 ∷ row 4 "todo" 5 ∷ []

abbrev by_actor : ℕ → ClaimRequest
by_actor a = record {
  actor_id = a;
  labels = some (" backend " ∷ "backend" ∷ []);
  project_id = none;
  claim_states = none;
  claimed_state = "claimed";
  claimed_at = none;
  now = 100;
}

abbrev unlocked : ℕ → Bool
unlocked i = false

first_claim :
    (claim_next unlocked (by_actor 9) table).0 ≡ some (claimed (by_actor 9) (row 2 "queued" 5))
unfolding claim_next claimable normalized_values normalized_labels precedes first_in_order
first_claim = refl

-- The task handed out has the highest priority, and task 4, of the same priority, comes after it.
claim_next-best_example :
    (t : Task) × (claimed (by_actor 9) (row 2 "queued" 5) ≡ claimed (by_actor 9) t)
    × In t table
    × Eligible unlocked (by_actor 9) t
    × ((u : Task) → In u table → Eligible unlocked (by_actor 9) u → ¬ Before u t)
    × ((i : ℕ)
        → find_task i (claim_next unlocked (by_actor 9) table).1 ≡ (
            if t.id == i
            then Option.map (claimed (by_actor 9)) (find_task i table)
            else find_task i table))
claim_next-best_example = claim_next-best unlocked (by_actor 9) table _ first_claim

abbrev all_locked : ℕ → Bool
all_locked i = true

none-Eligible : (t : Task) → In t table → ¬ Eligible all_locked (by_actor 9) t
none-Eligible t m e = let held = e.unlocked in cc

all_locked_claims_none : claim_next all_locked (by_actor 9) table ≡ (none, table)
all_locked_claims_none = (claim_next-none_iff all_locked (by_actor 9) table).1 none-Eligible

abbrev three_claims : List ((ℕ → Bool) × ClaimRequest)
three_claims = (unlocked, by_actor 9) ∷ (unlocked, by_actor 8) ∷ (unlocked, by_actor 9) ∷ []

claims_to : ClaimsTo "claimed" three_claims
unfolding normalized_values
claims_to = (fits, (fits, (fits, tt)))
  where
    fits :
        (◌≡◌ {A = String} "claimed" "claimed")
        × (¬ In {A = String} "claimed" ("todo" ∷ "queued" ∷ []))
    fits = (refl, λ m. ground (arith, eq_iff "claimed" "todo", eq_iff "claimed" "queued"))

run_claims-Distinct_example : Distinct (ids (run_claims three_claims table).0)
run_claims-Distinct_example = run_claims-Distinct "claimed" three_claims table claims_to

three_claims_run : ids (run_claims three_claims table).0 ≡ 2 ∷ 4 ∷ 1 ∷ []
unfolding run_claims claim_next claimable normalized_values normalized_labels precedes
    first_in_order
three_claims_run = refl

abbrev held : List Task
held = record (row 1 "claimed" 0) { claimed_by_actor_id = some 9; claimed_at = some 50 } ∷ []

release_claim_lem_example :
    ((release_claim unlocked 1 (some 8) none "todo" held ≡ (none, held))
      × ((t : Task) → In t held → ¬ Releasable unlocked 1 (some 8) none t))
    ⊎ ((t : Task) × In t held
        × Releasable unlocked 1 (some 8) none t
        × (release_claim unlocked 1 (some 8) none "todo" held
            ≡ (some (free_row "todo" t), update_where 1 (free_row "todo") held)))
release_claim_lem_example = release_claim_lem unlocked 1 (some 8) none "todo" held

reclaim_claim_lem_example :
    ((reclaim_claim unlocked 1 49 none "todo" held ≡ (none, held))
      × ((t : Task) → In t held → ¬ Reclaimable unlocked 1 49 none t))
    ⊎ ((t : Task) × In t held
        × Reclaimable unlocked 1 49 none t
        × (reclaim_claim unlocked 1 49 none "todo" held
            ≡ (some (free_row "todo" t), update_where 1 (free_row "todo") held)))
reclaim_claim_lem_example = reclaim_claim_lem unlocked 1 49 none "todo" held

claim_two : (claim_task unlocked 2 9 none "claimed" none 100 table).0 ≢ none
unfolding claim_task normalized_values
claim_two e = cc

claimed_is_active : In "claimed" (normalized_values none ("claimed" ∷ "in_progress" ∷ []))
unfolding normalized_values
claimed_is_active = inl refl

released_again :
    let again =
      release_claim unlocked 2
        (some 9)
        none
        "todo"
        (claim_task unlocked 2 9 none "claimed" none 100 table).1 in
    (again.0 ≢ none) × (again.1 ≡ update_where 2 (free_row "todo") table)
released_again =
    release_claim-claim_task unlocked unlocked 2 9 none none "claimed" "todo" none 100 table
      claim_two claimed_is_active refl

not_owner : release_claim unlocked 1 (some 8) none "todo" held ≡ (none, held)
unfolding release_claim normalized_values
not_owner = refl
