-- ===== src/Validator/Valid.antt =====
-- Which submissions are valid (validator.py).
use agenticqueue.Base.{
  ℕ, suc, String, Bool, true, false, Option, none, List, [], ◌∷◌, ◌++◌, All, lookup, ◌==◌, ==_iff,
  string_eq, Bool-cases, Option-cases, Result, ok, err, ◌≡◌, ◌≢◌, refl, sym, ap, ◌∙◌, subst, ◌↔◌,
  ◌⊎◌, inl, inr, arith,
}
use agenticqueue.Json.{Json, Fields}
use agenticqueue.Dod.{checked, dod_item_state_eq, DodChecklistResult, DodReport}
use agenticqueue.Dod.Contract.{resolve_contract_dod_items}
use agenticqueue.Dod.Checks.{DodCheckDefinition, DodCheckResult, run_dod_checks}
use agenticqueue.Validator.{
  ValidationIssue, NormalizedOutput, Parsed, wrong_type, refused, parsed, has_retry_signal,
  learning_issues, dod_report_issues, dod_issues, check_issues, checked_report, validate_as,
  validate_parsed, validate_submission,
}
use agenticqueue.Validator.Answered.{dod_issues-nil_iff}
use agenticqueue.Validator.Results.{append-nil_iff, Answered}

learning_issues-nil_iff :
    (ls : List Json) (signal : Bool) → (learning_issues ls signal ≡ []) ↔ (signal ≡ true → ls ≢ [])
learning_issues-nil_iff [] true = (λ h. absurd (ground arith), λ h. absurd (h refl refl))
learning_issues-nil_iff [] false = (λ h e. absurd (ground arith), λ h. refl)
learning_issues-nil_iff (l ∷ ls) signal = (λ h e q. ground arith, λ h. refl)

module _ (decimal : ℕ → String) where
  abbrev pub AllChecked : List DodChecklistResult → Type 0
  AllChecked = All (λ r. r.state ≡ checked)

  dod_report_issues-nil_iff :
      (i : ℕ) (rs : List DodChecklistResult) → (dod_report_issues decimal i rs ≡ []) ↔ AllChecked rs
  unfolding dod_report_issues
  dod_report_issues-nil_iff i [] = (λ h. tt, λ h. refl)
  dod_report_issues-nil_iff i (r ∷ rs) =
      let rest = dod_report_issues-nil_iff (suc i) rs in
      elim (Bool-cases (r.state == checked)) [
        | inl e ↦
            let same = (==_iff r.state checked).0 e in
            rw (e, dod_report_issues) (λ h. (same, rest.0 h), λ h. rest.1 h.1)
        | inr e ↦
            rw (e, dod_report_issues)
              (
                λ h. absurd (ground arith),
                λ h. let k = (==_iff r.state checked).1 h.0 in absurd (ground arith),
              )
      ]

module _ {B : Type 0} (decimal : ℕ → String)
    (handlers : String → Option (DodCheckDefinition → B → Result DodCheckResult))
    (from_output : Json → Result B) (parse : Fields → Parsed)
    (schema_issues : Json → List ValidationIssue) (definition_of_done : List String)
    (contract : List (String × Json)) where
  -- The declared checks run to a report in which every item is checked, if there are any.
  abbrev pub ChecksPass : Json → Type 0
  ChecksPass output =
      (lookup "dod_checks" contract ≡ none)
      ⊎ ((report : DodReport) × (run_dod_checks decimal handlers from_output definition_of_done
              contract output
            ≡ ok report)
          × AllChecked decimal report.checklist)

  -- A parsed submission that meets the contract: its output fits the schema of the task type, it
  -- brings a learning if there was trouble, it answers the items, and its checks pass.
  pub record Passes (o : NormalizedOutput) : Type 0 where
    pub fits_schema : schema_issues o.output ≡ []
    pub learned : has_retry_signal o ≡ true → o.learnings ≢ []
    pub answered :
        (resolve_contract_dod_items decimal definition_of_done contract ≡ [])
        ⊎ Answered (resolve_contract_dod_items decimal definition_of_done contract) o.dod_results
    pub checks_pass : ChecksPass o.output

  -- A submission that meets the contract is an object that parses.
  pub record Meets (submitted : Json) : Type 0 where
    pub fields : Fields
    pub output : NormalizedOutput
    pub is_object : submitted ≡ Json.object fields
    pub is_parsed : parse fields ≡ parsed output
    pub passes : Passes output

  Meets-parsed : (fs : Fields) (h : Meets (Json.object fs)) → parse fs ≡ parsed h.output
  Meets-parsed fs h =
      let object = h.is_object in let same : fs ≡ h.fields = cc in ap parse same ∙ h.is_parsed

  checked_report-nil_iff :
      (r : Result DodReport)
      → ((checked_report decimal handlers from_output parse schema_issues definition_of_done
            contract r).0
          ≡ [])
        ↔ ((report : DodReport) × (r ≡ ok report) × AllChecked decimal report.checklist)
  checked_report-nil_iff (ok report) =
      let every = dod_report_issues-nil_iff decimal 0 report.checklist in
      (
        λ h. (report, refl, every.0 h),
        λ h.
            let (r, same, all) = h in
            let alike : report ≡ r = cc in
            every.1 (subst (λ (x : DodReport). AllChecked decimal x.checklist) (sym alike) all),
      )
  checked_report-nil_iff (err e) =
      (λ h. absurd (ground arith), λ h. absurd (let k = h.1 in ground arith))

  check_issues-nil_iff :
      (output : Json)
      → ((check_issues decimal handlers from_output parse schema_issues definition_of_done contract
            output).0
          ≡ [])
        ↔ ChecksPass output
  check_issues-nil_iff output = elim (Option-cases (lookup "dod_checks" contract)) [
    | inl e ↦ rw (e, check_issues) (λ h. inl refl, λ h. refl)
    | inr (v, e) ↦
        let ran =
          checked_report-nil_iff
            (run_dod_checks decimal handlers from_output definition_of_done contract output) in
        rw (e, check_issues)
          (
            λ h. inr (ran.0 h),
            λ h. elim h [ inl none_there ↦ absurd (ground arith) | inr passed ↦ ran.1 passed ],
          )
  ]

  validate_as-Meets_iff :
      (fs : Fields) (p : Parsed)
      → parse fs ≡ p
      → ((validate_as decimal handlers from_output parse schema_issues definition_of_done contract
            p).errors
          ≡ [])
        ↔ Meets (Json.object fs)
  unfolding validate_parsed
  validate_as-Meets_iff fs (wrong_type m) e =
      (λ h. absurd (ground arith), λ h. absurd (let k = sym e ∙ Meets-parsed fs h in ground arith))
  validate_as-Meets_iff fs (refused q qs) e =
      (λ h. absurd (ground arith), λ h. absurd (let k = sym e ∙ Meets-parsed fs h in ground arith))
  validate_as-Meets_iff fs (parsed o) e =
      let items = resolve_contract_dod_items decimal definition_of_done contract in
      let found =
        (check_issues decimal handlers from_output parse schema_issues definition_of_done contract
          o.output).0 in
      let learned = learning_issues o.learnings (has_retry_signal o) in
      let dod = dod_issues decimal items o.dod_results in
      let one = append-nil_iff (schema_issues o.output) (learned ++ (dod ++ found)) in
      let two = append-nil_iff learned (dod ++ found) in
      let three = append-nil_iff dod found in
      (
        λ h.
            let (a, h1) = one.0 h in
            let (b, h2) = two.0 h1 in
            let (c, d) = three.0 h2 in
            record {
              fields = fs;
              output = o;
              is_object = refl;
              is_parsed = e;
              passes = record {
                fits_schema = a;
                learned = (learning_issues-nil_iff o.learnings (has_retry_signal o)).0 b;
                answered = (dod_issues-nil_iff decimal items o.dod_results).0 c;
                checks_pass = (check_issues-nil_iff o.output).0 d;
              };
            },
        λ h.
            let k = sym e ∙ Meets-parsed fs h in
            let same : o ≡ h.output = cc in
            let ours = subst Passes (sym same) h.passes in
            one.1 (
              ours.fits_schema,
              two.1 (
                (learning_issues-nil_iff o.learnings (has_retry_signal o)).1 ours.learned,
                three.1 (
                  (dod_issues-nil_iff decimal items o.dod_results).1 ours.answered,
                  (check_issues-nil_iff o.output).1 ours.checks_pass,
                ),
              ),
            ),
      )

  -- A submission has no errors exactly when it meets the contract.
  pub validate_submission-Meets_iff :
      (submitted : Json)
      → ((validate_submission decimal handlers from_output parse schema_issues definition_of_done
            contract submitted).errors
          ≡ [])
        ↔ Meets submitted
  unfolding validate_submission validate_parsed
  validate_submission-Meets_iff (Json.object fs) = validate_as-Meets_iff fs (parse fs) refl
  validate_submission-Meets_iff Json.null =
      (λ h. absurd (ground arith), λ h. absurd (let k = h.is_object in ground arith))
  validate_submission-Meets_iff (Json.boolean b) =
      (λ h. absurd (ground arith), λ h. absurd (let k = h.is_object in ground arith))
  validate_submission-Meets_iff (Json.int n) =
      (λ h. absurd (ground arith), λ h. absurd (let k = h.is_object in ground arith))
  validate_submission-Meets_iff (Json.text s) =
      (λ h. absurd (ground arith), λ h. absurd (let k = h.is_object in ground arith))
  validate_submission-Meets_iff (Json.array js) =
      (λ h. absurd (ground arith), λ h. absurd (let k = h.is_object in ground arith))
