-- ===== src/Queue/Exclusive.antt =====
-- Claims by many actors, one after another in any order (repo/queue.py). A claim is one statement of
-- the database, so a history of claims is a sequence of calls; what other transactions hold at each
-- is free.
use agenticqueue.Base.{
  ℕ, ◌≡◌, sym, subst, String, Bool, ◌⊎◌, inl, inr, Option, none, some, List, [], ◌∷◌, In, All,
  arith, Option-cases, nat_eq,
}
use agenticqueue.Task.{Task}
use agenticqueue.Queue.{ClaimRequest, update_where, claim_next, first_in_order, candidates}
use agenticqueue.Queue.Rows.{ids, Distinct}
use agenticqueue.Queue.Claims.{claimed, claim_states_of, Eligible, first_candidate}

abbrev pub cons_some : Option Task → List Task → List Task
cons_some none ts = ts
cons_some (some t) ts = t ∷ ts

-- A history of claims; the tasks that it handed out, and the table that it leaves.
unfoldable pub run_claims : List ((ℕ → Bool) × ClaimRequest) → List Task → List Task × List Task
run_claims [] ts = ([], ts)
run_claims ((locked, q) ∷ cs) ts =
    let (row, ts') = claim_next locked q ts in
    let (rows, ts'') = run_claims cs ts' in (cons_some row rows, ts'')

-- Every row with the id is in the state `s`.
abbrev Taken : String → ℕ → List Task → Type 0
Taken s i [] = Unit
Taken s i (t ∷ ts) = (t.id ≡ i → t.state ≡ s) × Taken s i ts

Taken-In :
    (s : String) (i : ℕ) (ts : List Task) (t : Task)
    → Taken s i ts
    → In t ts
    → t.id ≡ i
    → t.state ≡ s
Taken-In s i [] t k m e = absurd m
Taken-In s i (x ∷ ts) t k m e = elim m [
  | inl e' ↦ subst (λ (u : Task). u.id ≡ i → u.state ≡ s) (sym e') k.0 e
  | inr m' ↦ Taken-In s i ts t k.1 m' e
]

module _ (q : ClaimRequest) where
  Taken-update_where_self :
      (i : ℕ) (ts : List Task) → Taken q.claimed_state i (update_where i (claimed q) ts)
  Taken-update_where_self i [] = tt
  Taken-update_where_self i (t ∷ ts) = ground (arith, Taken-update_where_self i ts)

  Taken-update_where :
      (i j : ℕ) (ts : List Task)
      → Taken q.claimed_state i ts
      → Taken q.claimed_state i (update_where j (claimed q) ts)
  Taken-update_where i j [] k = tt
  Taken-update_where i j (t ∷ ts) k = ground (arith, Taken-update_where i j ts)

-- Every claim of the history moves to the same state, which no claim looks for.
abbrev pub ClaimsTo : String → List ((ℕ → Bool) × ClaimRequest) → Type 0
ClaimsTo s = All (λ c. (c.1.claimed_state ≡ s) × (¬ In s (claim_states_of c.1)))

claim_next-cases :
    (locked : ℕ → Bool) (q : ClaimRequest) (ts : List Task)
    → (claim_next locked q ts ≡ (none, ts))
      ⊎ ((t : Task) × In t ts
          × Eligible locked q t
          × (claim_next locked q ts ≡ (some (claimed q t), update_where t.id (claimed q) ts)))
unfolding claim_next
claim_next-cases locked q ts = elim (Option-cases (first_in_order (candidates locked q ts))) [
  | inl e ↦ inl (rw (e, claim_next))
  | inr (t, e) ↦
      let found = first_candidate locked q ts t e in inr (t, found.0, found.1, rw (e, claim_next))
]

run_claims-fresh :
    (s : String) (cs : List ((ℕ → Bool) × ClaimRequest)) (ts : List Task) (i : ℕ)
    → ClaimsTo s cs
    → Taken s i ts
    → ¬ In i (ids (run_claims cs ts).0)
unfolding run_claims
run_claims-fresh s [] ts i k taken m = m
run_claims-fresh s ((locked, q) ∷ cs) ts i k taken m = elim (claim_next-cases locked q ts) [
  | inl e ↦ run_claims-fresh s cs ts i k.1 taken (rw (e, run_claims) at m)
  | inr (t, row, ok, e) ↦ elim (rw (e, run_claims) at m) [
    | inl same ↦ absurd (
        k.0.1 (
          subst (λ x. In x (claim_states_of q)) (Taken-In s i ts t taken row (sym same))
            ok.claimable_state))
    | inr later ↦
        run_claims-fresh s cs (update_where t.id (claimed q) ts) i k.1
          (subst (λ x. Taken x i (update_where t.id (claimed q) ts)) k.0.0
            (Taken-update_where q i t.id ts (subst (λ x. Taken x i ts) (sym k.0.0) taken)))
          later
  ]
]

-- Claims that move tasks to a state which none of them looks for never hand out a task twice,
-- whoever claims, with whatever filters, and whatever rows other transactions hold.
pub run_claims-Distinct :
    (s : String) (cs : List ((ℕ → Bool) × ClaimRequest)) (ts : List Task)
    → ClaimsTo s cs
    → Distinct (ids (run_claims cs ts).0)
unfolding run_claims
run_claims-Distinct s [] ts k = tt
run_claims-Distinct s ((locked, q) ∷ cs) ts k = elim (claim_next-cases locked q ts) [
  | inl e ↦ rw (e, run_claims) (run_claims-Distinct s cs ts k.1)
  | inr (t, row, ok, e) ↦
      rw (e, run_claims)
        (
          run_claims-fresh s cs _ t.id k.1 (rw (sym k.0.0) (Taken-update_where_self q t.id ts)),
          run_claims-Distinct s cs _ k.1,
        )
]
