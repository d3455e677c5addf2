-- ===== src/Validator/Results.antt =====
-- Which results need no issue (validator.py).
use agenticqueue.Base.{
  String, Bool, true, false, some, List, [], ◌∷◌, ◌++◌, In, mem, mem→In, In→mem, ◌==◌, ==_iff,
  string_eq, if◌then◌else◌, Bool-cases, ◌≡◌, ◌≢◌, refl, ◌↔◌, inl, inr, arith,
}
use agenticqueue.Dod.Contract.{ContractDodItem}
use agenticqueue.Validator.{
  ValidationIssue, DodResult, matched, has_reason, without_evidence, without_reason,
}

pub append-nil_iff : {A : Type 0} (xs ys : List A) → (xs ++ ys ≡ []) ↔ ((xs ≡ []) × (ys ≡ []))
append-nil_iff [] ys = (λ h. (refl, h), λ h. h.1)
append-nil_iff (x ∷ xs) ys = (λ h. absurd (ground arith), λ h. absurd (let k = h.0 in ground arith))

-- A result has what its status asks for: evidence of a pass, a reason for anything else.
pub record Sound (r : DodResult) : Type 0 where
  pub evidenced : r.status ≡ "passed" → r.evidence ≢ []
  pub explained :
      In r.status ("failed" ∷ "blocked" ∷ "not_applicable" ∷ [])
      → has_reason r.failure_reason ≡ true

module _ (items : List ContractDodItem) where
  -- Each result is sound and is about an item, by its id or its statement, and each item has a result.
  pub record Answered (results : List DodResult) : Type 0 where
    pub known :
        (r : DodResult)
        → In r results
        → ((m : ContractDodItem) × (matched r.dod_id items ≡ some m)) × Sound r
    pub complete :
        (i : ContractDodItem)
        → In i items
        → (r : DodResult) × (m : ContractDodItem) × In r results
          × (matched r.dod_id items ≡ some m)
          × (m.dod_id ≡ i.dod_id)

pub two_issues_iff :
    (b c : Bool) (x y : ValidationIssue)
    → ((if b then x ∷ [] else []) ++ (if c then y ∷ [] else []) ≡ []) ↔ ((b ≡ false) × (c ≡ false))
two_issues_iff true c x y = (λ h. absurd (ground arith), λ h. absurd (let k = h.0 in ground arith))
two_issues_iff false true x y =
    (λ h. absurd (ground arith), λ h. absurd (let k = h.1 in ground arith))
two_issues_iff false false x y = (λ h. (refl, refl), λ h. refl)

pub without_evidence_iff :
    (r : DodResult) → (without_evidence r ≡ false) ↔ (r.status ≡ "passed" → r.evidence ≢ [])
without_evidence_iff r = elim (Bool-cases (r.status == "passed")) [
  | inl e ↦
      let passed = (==_iff r.status "passed").0 e in
      rw (e, without_evidence) (λ h same. (go r.evidence).0 h, λ h. (go r.evidence).1 (h passed))
  | inr e ↦
      rw (e, without_evidence)
        (λ h same. let k = (==_iff r.status "passed").1 same in absurd (ground arith), λ h. refl)
]
  where
    go : (es : List String) → (elim es [ [] ↦ true | f ∷ fs ↦ false ] ≡ false) ↔ (es ≢ [])
    go [] = (λ h. absurd (ground arith), λ h. absurd (h refl))
    go (f ∷ fs) = (λ h q. ground arith, λ h. refl)

pub without_reason_iff :
    (r : DodResult)
    → (without_reason r ≡ false) ↔ (
        In r.status ("failed" ∷ "blocked" ∷ "not_applicable" ∷ [])
        → has_reason r.failure_reason ≡ true)
without_reason_iff r =
    elim (Bool-cases (mem r.status ("failed" ∷ "blocked" ∷ "not_applicable" ∷ []))) [
      | inl e ↦
          let there = mem→In r.status ("failed" ∷ "blocked" ∷ "not_applicable" ∷ []) e in
          rw (e, without_reason) (λ h i. ground arith, λ h. let told = h there in ground arith)
      | inr e ↦
          rw (e, without_reason)
            (
              λ h i.
                  let k = In→mem r.status ("failed" ∷ "blocked" ∷ "not_applicable" ∷ []) i in
                  absurd (ground arith),
              λ h. refl,
            )
    ]
