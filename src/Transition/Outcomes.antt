-- ===== src/Transition/Outcomes.antt =====
-- What `apply_transition` (transitions.py) returns or raises, on every branch.
use agenticqueue.Base.{
  suc, ◌≤◌, ◌≡◌, ◌≢◌, refl, ap, sym, subst, ◌∙◌, Option, none, some, List, [], ◌∷◌, In, In→mem,
  mem→In, mem, ◌↔◌, arith, ◌⊎◌, leb, if◌then◌else◌, inl, inr, Bool-cases,
}
use agenticqueue.Task.{
  TaskState, TaskState-discrete, CapabilityKey, queued, rejected, task_state, task_state_eq, Task,
}
use agenticqueue.Transition.Permit.{
  Permitted, allowed_from, apply_transition-evaluate, apply_transition-move_iff,
}
use agenticqueue.Transition.{
  TransitionPolicy, TransitionResult, Guard, Note, Request, Tier, max_retries_exceeded, returns,
  invalid_transition, move, stay, conclude, check_tier, check_capabilities, evaluate,
  apply_transition, retries, escalation_of, escalates,
}

-- Either the request was granted, or the task stays as it is and a guard is named.
abbrev pub Settles : TransitionPolicy → TaskState → TaskState → Request → TransitionResult → Type 0
Settles p from requested q r =
    (r ≡ move p from requested (allowed_from p from) q)
    ⊎ ((r.state ≡ from)
        × (r.attempt_count ≡ q.attempt_count)
        × (r.guard_blocked ≢ none)
        × (r.escalation ≡ none))

returns-injective : {r s : TransitionResult} → returns r ≡ returns s → r ≡ s
returns-injective h = cc

module _ (p : TransitionPolicy) (from requested : TaskState) (q : Request) where
  conclude-Settles :
      (g : Option (Guard × Note))
      → Settles p from requested q (conclude p from requested (allowed_from p from) q g)
  unfolding conclude stay
  conclude-Settles none = inl refl
  conclude-Settles (some (g, n)) = inr (refl, refl, λ e. cc, refl)

  check_tier-Settles :
      (k : Tier) (r : TransitionResult)
      → check_tier p from requested (allowed_from p from) q k ≡ returns r
      → Settles p from requested q r
  unfolding check_tier
  check_tier-Settles (Tier.bad_tier e) r h = cc
  check_tier-Settles (Tier.tier n) r h =
      subst (Settles p from requested q) (returns-injective h) (conclude-Settles _)

  check_capabilities-Settles :
      (t : Task) (cs : List CapabilityKey) (r : TransitionResult)
      → check_capabilities p t from requested (allowed_from p from) q cs ≡ returns r
      → Settles p from requested q r
  unfolding check_capabilities
  check_capabilities-Settles t [] r h = check_tier-Settles _ r h
  check_capabilities-Settles t (c ∷ cs) r h =
      subst (Settles p from requested q) (returns-injective h) (conclude-Settles _)

  evaluate-Settles :
      (t : Task) (r : TransitionResult)
      → evaluate p t from requested q ≡ returns r
      → (In requested (allowed_from p from)) × Settles p from requested q r
  unfolding evaluate
  evaluate-Settles t r h = elim (Bool-cases (mem requested (allowed_from p from))) [
    | inl yes' ↦ (mem→In _ _ yes', check_capabilities-Settles t _ r (rw yes' at h))
    | inr no' ↦ let h' = rw no' at h in cc
  ]

  guard-move : (allowed : List TaskState) → (move p from requested allowed q).guard_blocked ≡ none
  unfolding move
  guard-move allowed = refl

  pub state-move : (allowed : List TaskState) → (move p from requested allowed q).state ≡ requested
  unfolding move
  state-move allowed = refl

  check_tier-ne-invalid :
      (k : Tier) (allowed : List TaskState)
      → check_tier p from requested allowed q k ≢ invalid_transition from requested allowed
  unfolding check_tier
  check_tier-ne-invalid (Tier.bad_tier e) allowed h = cc
  check_tier-ne-invalid (Tier.tier n) allowed h = cc

  check_capabilities-ne-invalid :
      (t : Task) (cs : List CapabilityKey) (allowed : List TaskState)
      → check_capabilities p t from requested allowed q cs
        ≢ invalid_transition from requested allowed
  unfolding check_capabilities
  check_capabilities-ne-invalid t [] allowed h = check_tier-ne-invalid _ allowed h
  check_capabilities-ne-invalid t (c ∷ cs) allowed h = cc

  evaluate-invalid_iff :
      (t : Task)
      → (evaluate p t from requested q ≡ invalid_transition from requested (allowed_from p from))
        ↔ (¬ In requested (allowed_from p from))
  unfolding evaluate
  evaluate-invalid_iff t = elim (Bool-cases (mem requested (allowed_from p from))) [
    | inl listed ↦ rw listed (
      λ h. absurd (check_capabilities-ne-invalid t _ _ h),
      λ out. absurd (out (mem→In _ _ listed)),
    )
    | inr unlisted ↦ rw unlisted (λ _ m. let m' = In→mem _ _ m in cc, λ _. refl)
  ]

move-retry :
    (p : TransitionPolicy) (q : Request)
    → let s = move p rejected queued (allowed_from p rejected) q in
      (s.attempt_count ≡ suc q.attempt_count)
      × ((s.escalation ≡ some max_retries_exceeded) ↔ (p.max_retries ≤ suc q.attempt_count))
unfolding move retries escalation_of escalates TaskState-discrete
move-retry p q = ground arith

pub escalation-move :
    (p : TransitionPolicy) (q : Request) (allowed : List TaskState)
    → (move p rejected queued allowed q).escalation
      ≡ (if leb p.max_retries (suc q.attempt_count) then some max_retries_exceeded else none)
unfolding move retries escalation_of escalates TaskState-discrete
escalation-move p q allowed = refl

pub attempt_count-move :
    (p : TransitionPolicy) (q : Request) (allowed : List TaskState)
    → (move p rejected queued allowed q).attempt_count ≡ suc q.attempt_count
unfolding move retries TaskState-discrete
attempt_count-move p q allowed = refl

-- A request that returns was listed by the policy; it is granted in full exactly when the policy's
-- conditions hold, and otherwise leaves state and attempt count alone and names a guard.
pub apply_transition_outcomes :
    (p : TransitionPolicy) (t : Task) (from requested : TaskState) (q : Request)
    (r : TransitionResult)
    → task_state t.state ≡ some from
    → apply_transition p t requested q ≡ returns r
    → In requested (allowed_from p from)
      × ((Permitted p t from requested q × (r ≡ move p from requested (allowed_from p from) q))
          ⊎ ((¬ Permitted p t from requested q)
              × (r.state ≡ from)
              × (r.attempt_count ≡ q.attempt_count)
              × (r.guard_blocked ≢ none)
              × (r.escalation ≡ none)))
apply_transition_outcomes p t from requested q r h e =
    let settled =
      evaluate-Settles p from requested q t r
        (sym (apply_transition-evaluate p t from requested q h) ∙ e) in
    let permit = apply_transition-move_iff p t from requested q h in
    (
      settled.0,
      elim (settled.1) [
        | inl moved ↦ inl (permit.0 (e ∙ ap returns moved), moved)
        | inr (state, attempts, blocked, escalation) ↦ inr (
          λ ok. blocked (
              ap (λ (s : TransitionResult). s.guard_blocked)
                (returns-injective (sym e ∙ permit.1 ok))
              ∙ guard-move p from requested q _),
          state,
          attempts,
          blocked,
          escalation,
        )
      ],
    )

-- The only exception that a known state raises before the guards is the one for a transition that
-- the policy does not list, and it is raised exactly then.
pub apply_transition-invalid_iff :
    (p : TransitionPolicy) (t : Task) (from requested : TaskState) (q : Request)
    → task_state t.state ≡ some from
    → (apply_transition p t requested q ≡ invalid_transition from requested (allowed_from p from))
      ↔ (¬ In requested (allowed_from p from))
apply_transition-invalid_iff p t from requested q h =
    rw (apply_transition-evaluate p t from requested q h)
      (evaluate-invalid_iff p from requested q t)

-- A granted retry costs one attempt, and escalates exactly when that uses up the attempts.
pub apply_transition-retry :
    (p : TransitionPolicy) (t : Task) (q : Request) (r : TransitionResult)
    → task_state t.state ≡ some rejected
    → apply_transition p t queued q ≡ returns r
    → r.guard_blocked ≡ none
    → (r.attempt_count ≡ suc q.attempt_count)
      × ((r.escalation ≡ some max_retries_exceeded) ↔ (p.max_retries ≤ suc q.attempt_count))
apply_transition-retry p t q r h e unblocked =
    elim ((apply_transition_outcomes p t rejected queued q r h e).1) [
      | inl (_, moved) ↦
          subst
            (λ (s : TransitionResult).
              (s.attempt_count ≡ suc q.attempt_count)
              × ((s.escalation ≡ some max_retries_exceeded)
                  ↔ (p.max_retries ≤ suc q.attempt_count)))
            (sym moved) (move-retry p q)
      | inr (_, _, _, blocked, _) ↦ absurd (blocked unblocked)
    ]
