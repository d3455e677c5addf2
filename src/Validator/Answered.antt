-- ===== src/Validator/Answered.antt =====
-- When the results of a submission answer the items of a contract (validator.py).
use agenticqueue.Base.{
  ℕ, suc, String, Bool, false, not, some, List, [], ◌∷◌, map, In, mem, mem→In, In→mem, string_eq,
  filterb, filterb-In, Bool-cases, Option-cases, ◌≡◌, refl, sym, ap, ◌∙◌, subst, ◌↔◌, ◌⊎◌, inl, inr,
  arith,
}
use agenticqueue.Dod.Contract.{ContractDodItem}
use agenticqueue.Validator.{
  DodResult, matched, without_evidence, without_reason, result_issues, scan, missing_issue,
  missing_items, dod_issues,
}
use agenticqueue.Validator.Results.{
  append-nil_iff, Sound, Answered, two_issues_iff, without_evidence_iff, without_reason_iff,
}

module _ (decimal : ℕ → String) where
  result_issues-nil_iff :
      (i : ℕ) (m : ContractDodItem) (r : DodResult) → (result_issues decimal i m r ≡ []) ↔ Sound r
  result_issues-nil_iff i m r = (
    λ h.
        let (e, f) = (two_issues_iff (without_evidence r) (without_reason r) _ _).0 h in
        record { evidenced = (without_evidence_iff r).0 e; explained = (without_reason_iff r).0 f },
    λ h.
        (two_issues_iff (without_evidence r) (without_reason r) _ _).1
          ((without_evidence_iff r).1 h.evidenced, (without_reason_iff r).1 h.explained),
  )

  abbrev Known : List ContractDodItem → List DodResult → Type 0
  Known items rs =
      (r : DodResult)
      → In r rs
      → ((m : ContractDodItem) × (matched r.dod_id items ≡ some m)) × Sound r

  scan-nil_iff :
      (items : List ContractDodItem) (i : ℕ) (rs : List DodResult)
      → ((scan decimal items i rs).issues ≡ [])
        ↔ (((scan decimal items i rs).unknown_id_seen ≡ false) × Known items rs)
  unfolding scan
  scan-nil_iff items i [] = (λ h. (refl, λ r j. absurd j), λ h. refl)
  scan-nil_iff items i (r ∷ rs) =
      let rest = scan-nil_iff items (suc i) rs in
      elim (Option-cases (matched r.dod_id items)) [
        | inl e ↦
            rw (e, scan)
              (
                λ h. absurd (ground arith),
                λ h. let ((m, e'), sound) = h.1 r (inl refl) in absurd (ground arith),
              )
        | inr (m, e) ↦
            rw (e, scan)
              (
                λ h.
                    let (own, later) =
                      (append-nil_iff (result_issues decimal i m r)
                          (scan decimal items (suc i) rs).issues).0
                        h in
                    let (none_unknown, known) = rest.0 later in
                    (
                      none_unknown,
                      λ q j. elim j [
                        | inl same ↦
                            subst
                              (λ x.
                                ((n : ContractDodItem) × (matched x.dod_id items ≡ some n))
                                × Sound x)
                              (sym same) ((m, e), (result_issues-nil_iff i m r).0 own)
                        | inr j' ↦ known q j'
                      ],
                    ),
                λ h.
                    (append-nil_iff (result_issues decimal i m r)
                        (scan decimal items (suc i) rs).issues).1
                      (
                        (result_issues-nil_iff i m r).1 (h.1 r (inl refl)).1,
                        rest.1 (h.0, λ q j. h.1 q (inr j)),
                      ),
              )
      ]

  all-Known :
      (items : List ContractDodItem) (i : ℕ) (rs : List DodResult)
      → Known items rs
      → (scan decimal items i rs).unknown_id_seen ≡ false
  unfolding scan
  all-Known items i [] h = refl
  all-Known items i (r ∷ rs) h =
      let ((m, e), sound) = h r (inl refl) in
      rw (e, scan) (all-Known items (suc i) rs (λ q j. h q (inr j)))

  abbrev Seen : List ContractDodItem → List DodResult → String → Type 0
  Seen items rs k =
      (r : DodResult) × (m : ContractDodItem) × In r rs
      × (matched r.dod_id items ≡ some m)
      × (m.dod_id ≡ k)

  seen_ids_iff :
      (items : List ContractDodItem) (i : ℕ) (rs : List DodResult) (k : String)
      → In k (scan decimal items i rs).seen_ids ↔ Seen items rs k
  unfolding scan
  seen_ids_iff items i [] k = (λ h. absurd h, λ h. absurd h.2)
  seen_ids_iff items i (r ∷ rs) k =
      let rest = seen_ids_iff items (suc i) rs k in
      elim (Option-cases (matched r.dod_id items)) [
        | inl e ↦
            rw (e, scan)
              (
                λ h. let (q, m, j, found, same) = rest.0 h in (q, m, inr j, found, same),
                λ h.
                    let (q, m, j, found, same) = h in
                    elim j [
                      | inl own ↦ absurd (let k' = rw own at found in ground arith)
                      | inr j' ↦ rest.1 (q, m, j', found, same)
                    ],
              )
        | inr (m, e) ↦
            rw (e, scan)
              (
                λ h. elim h [
                  | inl same ↦ (r, m, inl refl, e, sym same)
                  | inr h' ↦ let (q, n, j, found, same) = rest.0 h' in (q, n, inr j, found, same)
                ],
                λ h.
                    let (q, n, j, found, same) = h in
                    elim j [
                      | inl own ↦
                          let alike : n ≡ m = cc in
                          inl (sym same ∙ ap (λ (x : ContractDodItem). x.dod_id) alike)
                      | inr j' ↦ inr (rest.1 (q, n, j', found, same))
                    ],
              )
      ]

  map-nil : {A B : Type 0} (f : A → B) (xs : List A) → (map f xs ≡ []) ↔ (xs ≡ [])
  map-nil f [] = (λ h. refl, λ h. refl)
  map-nil f (x ∷ xs) = (λ h. absurd (ground arith), λ h. absurd (ground arith))

  -- No item is missing when none is left over by the scan.
  missing-nil_iff :
      (items : List ContractDodItem) (seen : List String)
      → (filterb (λ i. not (mem i.dod_id seen)) items ≡ [])
        ↔ ((i : ContractDodItem) → In i items → In i.dod_id seen)
  missing-nil_iff items seen = (
    λ h i j. elim (Bool-cases (mem i.dod_id seen)) [
      | inl e ↦ mem→In i.dod_id seen e
      | inr e ↦
          let there = filterb-In (λ i. not (mem i.dod_id seen)) i items j (rw e refl) in
          absurd (rw h at there)
    ],
    λ h.
        all_gone (λ i. not (mem i.dod_id seen)) items
          (λ i j. rw (In→mem i.dod_id seen (h i j)) refl),
  )
    where
      all_gone :
          (p : ContractDodItem → Bool) (xs : List ContractDodItem)
          → ((x : ContractDodItem) → In x xs → p x ≡ false)
          → filterb p xs ≡ []
      all_gone p [] h = refl
      all_gone p (x ∷ xs) h = rw (h x (inl refl)) (all_gone p xs (λ y j. h y (inr j)))

  -- The results of a submission give no issue exactly when the contract has no items, or each result
  -- is sound and about an item, and each item has a result.
  pub dod_issues-nil_iff :
      (items : List ContractDodItem) (results : List DodResult)
      → (dod_issues decimal items results ≡ []) ↔ ((items ≡ []) ⊎ Answered items results)
  unfolding dod_issues
  dod_issues-nil_iff [] results = (λ h. inl refl, λ h. refl)
  dod_issues-nil_iff (i ∷ is) results =
      let s = scan decimal (i ∷ is) 0 results in
      let apart =
        append-nil_iff s.issues (map (missing_issue decimal) (missing_items decimal (i ∷ is) s)) in
      let scanned = scan-nil_iff (i ∷ is) 0 results in
      let left = missing-nil_iff (i ∷ is) s.seen_ids in
      (
        λ h.
            let (first, second) = apart.0 h in
            let (none_unknown, known) = scanned.0 first in
            let none_left =
              (map-nil (missing_issue decimal) (missing_items decimal (i ∷ is) s)).0 second in
            let none_left' = rw none_unknown at none_left in
            inr (record {
              known = known;
              complete =
                  λ j k. (seen_ids_iff (i ∷ is) 0 results j.dod_id).0 (left.0 none_left' j k);
            }),
        λ h. elim h [
          | inl none_there ↦ absurd (ground arith)
          | inr a ↦
              let none_unknown = all-Known (i ∷ is) 0 results a.known in
              let none_left =
                left.1 (λ j k. (seen_ids_iff (i ∷ is) 0 results j.dod_id).1 (a.complete j k)) in
              apart.1 (
                scanned.1 (none_unknown, a.known),
                (map-nil (missing_issue decimal) (missing_items decimal (i ∷ is) s)).1
                    (rw none_unknown none_left),
              )
        ],
      )
