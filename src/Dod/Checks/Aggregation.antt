-- ===== src/Dod/Checks/Aggregation.antt =====
-- How dod.py groups the results of the checks by their items.
use agenticqueue.Base.{
  ℕ, suc, ◌+◌, ◌≤◌, String, Bool, true, false, none, some, List, [], ◌∷◌, ◌++◌, map, length, In,
  append-In, All, mem, mem→In, ◌==◌, ==_iff, string_eq, if◌then◌else◌, nat_beq, nat_beq_iff,
  Bool-cases, lookup, Result, ok, err, ◌≡◌, ◌≢◌, refl, sym, ap, subst, ◌↔◌, inl, inr, arith,
}
use agenticqueue.Dod.{
  DodItemState, DodItemState-discrete, checked, partial, unchecked_blocked, unchecked_unmet,
  dod_item_state_eq, DodChecklistResult, count_state,
}
use agenticqueue.Dod.Checks.{
  DodCheckResult, Groups, add_result, count_results, aggregate_state, aggregate_item, checklist_of,
  ordered_items, ◌>>=◌,
}

-- A step that may raise, with the rest, returned what the rest did.
pub bound :
    {X Y : Type 0} (step : Result X) (next : X → Result Y) {y : Y}
    → (step >>= next) ≡ ok y
    → (x : X) × (step ≡ ok x) × (next x ≡ ok y)
bound (err raised) next returned = absurd (ground arith)
bound (ok value) next returned = (value, refl, returned)

count_results-le : (rs : List DodCheckResult) → count_results checked rs ≤ length rs
count_results-le [] = omega arith
count_results-le (r ∷ rs) = let rest = count_results-le rs in ground arith

abbrev pub Passed : DodCheckResult → Type 0
Passed r = r.state ≡ checked

full_count_iff : (rs : List DodCheckResult) → (count_results checked rs ≡ length rs) ↔ All Passed rs
full_count_iff [] = (λ h. tt, λ h. refl)
full_count_iff (r ∷ rs) =
    let rest = full_count_iff rs in
    let few = count_results-le rs in
    elim (Bool-cases (r.state == checked)) [
      | inl e ↦
          rw e (λ h. ((==_iff r.state checked).0 e, rest.0 (omega arith)), λ h. ap suc (rest.1 h.1))
      | inr e ↦ rw e (
        λ h. absurd (omega arith),
        λ h. let same = (==_iff r.state checked).1 h.0 in absurd (ground arith),
      )
    ]

short_of :
    (some_checked blocked : Bool)
    → (if some_checked then partial else if blocked then unchecked_blocked else unchecked_unmet)
      ≢ checked
short_of true b h = absurd (ground arith)
short_of false true h = absurd (ground arith)
short_of false false h = absurd (ground arith)

-- An item is checked exactly when it has checks and all of them passed.
pub aggregate_item-checked_iff :
    (decimal : ℕ → String) (item : String) (rs : List DodCheckResult)
    → ((aggregate_item decimal item rs).state ≡ checked) ↔ ((rs ≢ []) × All Passed rs)
unfolding aggregate_item
aggregate_item-checked_iff decimal item [] = (λ h. absurd (ground arith), λ h. absurd (h.0 refl))
aggregate_item-checked_iff decimal item (r ∷ rs) =
    let every = full_count_iff (r ∷ rs) in
    elim (Bool-cases (nat_beq (count_results checked (r ∷ rs)) (length (r ∷ rs)))) [
      | inl e ↦
          rw (e, aggregate_state)
            (λ h. (λ q. ground arith, every.0 ((nat_beq_iff _ _).0 e)), λ h. refl)
      | inr e ↦
          rw (e, aggregate_state)
            (
              λ h. absurd (short_of _ _ h),
              λ h.
                  let full =
                    (nat_beq_iff (count_results checked (r ∷ rs)) (length (r ∷ rs))).1
                      (every.1 h.1) in
                  absurd (ground arith),
            )
    ]

-- The counts of a checklist add up.
pub counts-add :
    (rs : List DodChecklistResult)
    → count_state checked rs
        + count_state partial rs
        + count_state unchecked_blocked rs
        + count_state unchecked_unmet rs
      ≡ length rs
unfolding DodItemState-discrete
counts-add [] = omega arith
counts-add (r ∷ rs) = let rest = counts-add rs in counted r.state rest
  where
    counted :
        (s : DodItemState)
        → count_state checked rs
            + count_state partial rs
            + count_state unchecked_blocked rs
            + count_state unchecked_unmet rs
          ≡ length rs
        → (if s == checked then suc (count_state checked rs) else count_state checked rs)
            + (if s == partial then suc (count_state partial rs) else count_state partial rs)
            + (if s == unchecked_blocked
                then suc (count_state unchecked_blocked rs)
                else count_state unchecked_blocked rs)
            + (if s == unchecked_unmet
                then suc (count_state unchecked_unmet rs)
                else count_state unchecked_unmet rs)
          ≡ suc (length rs)
    counted checked h = omega arith
    counted partial h = omega arith
    counted unchecked_blocked h = omega arith
    counted unchecked_unmet h = omega arith

abbrev pub keys : Groups → List String
keys = map (λ (g : String × List DodCheckResult). g.0)

pub add_result-In :
    (item : String) (r : DodCheckResult) (g : Groups) → In item (keys (add_result item r g))
unfolding add_result
add_result-In item r [] = inl refl
add_result-In item r ((k, rs) ∷ g) = ground (arith, add_result-In item r g, ==_iff k item)

pub add_result-keeps :
    (item : String) (r : DodCheckResult) (g : Groups) (k : String)
    → In k (keys g)
    → In k (keys (add_result item r g))
unfolding add_result
add_result-keeps item r [] k h = absurd h
add_result-keeps item r ((j, rs) ∷ g) k h = ground (arith, add_result-keeps item r g k)

pub ordered_items-keeps :
    (statements seen : List String) (s : String)
    → In s statements
    → In s (ordered_items statements seen)
ordered_items-keeps statements [] s h = h
ordered_items-keeps statements (i ∷ seen) s h = elim (Bool-cases (mem i statements)) [
  | inl e ↦ rw (e, ordered_items) (ordered_items-keeps statements seen s h)
  | inr e ↦
      rw (e, ordered_items)
        (ordered_items-keeps (statements ++ i ∷ []) seen s
          (append-In s statements (i ∷ []) (inl h)))
]

pub ordered_items-seen :
    (statements seen : List String) (s : String) → In s seen → In s (ordered_items statements seen)
ordered_items-seen statements [] s h = absurd h
ordered_items-seen statements (i ∷ seen) s h = elim (Bool-cases (mem i statements)) [
  | inl e ↦
      rw (e, ordered_items)
        (elim h [
          | inl same ↦
              ordered_items-keeps statements seen s
                (subst (λ x. In x statements) (sym same) (mem→In i statements e))
          | inr h' ↦ ordered_items-seen statements seen s h'
        ])
  | inr e ↦
      rw (e, ordered_items)
        (elim h [
          | inl same ↦
              ordered_items-keeps (statements ++ i ∷ []) seen s
                (append-In s statements (i ∷ []) (inr (inl same)))
          | inr h' ↦ ordered_items-seen (statements ++ i ∷ []) seen s h'
        ])
]

pub items-checklist_of :
    (decimal : ℕ → String) (items : List String) (groups : Groups)
    → map (λ (r : DodChecklistResult). r.item) (checklist_of decimal items groups) ≡ items
unfolding checklist_of aggregate_item
items-checklist_of decimal [] groups = refl
items-checklist_of decimal (i ∷ items) groups = λ n.
    named (elim (lookup i groups) [ none ↦ [] | some rs ↦ rs ]) n
    ∷ items-checklist_of decimal items groups n
  where
    named : (rs : List DodCheckResult) → (aggregate_item decimal i rs).item ≡ i
    named [] = refl
    named (r ∷ rs) = refl
