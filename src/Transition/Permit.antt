-- ===== src/Transition/Permit.antt =====
-- When `apply_transition` (transitions.py) lets a request through, against the conditions of the
-- policy stated one by one.
use agenticqueue.Base.{
  ℕ, ◌+◌, ◌*◌, ◌≤◌, ◌≡◌, refl, ap, true, not, Option, none, some, List, [], ◌∷◌, ◌==◌, string_eq,
  mem, mem→In, In→mem, In, All, lookup, first, ◌↔◌, arith, inl, inr, Bool-cases, Option-cases,
}
use agenticqueue.Base.Int.{pos, ◌≤ℤ◌}
use agenticqueue.Dod.{DodReport, DodChecklistResult, checked, dod_item_state_eq}
use agenticqueue.Task.{
  TaskState, done, blocked, task_state, task_state_eq, CapabilityKey, capability_key_eq, Task,
}
use agenticqueue.Transition.{
  TransitionPolicy, TransitionResult, Guard, Note, Request, Tier, returns, tier, tier_value,
  get_or_empty, missing, approval_guard, dod_guard, blocked_guard, later_guards, first_failure,
  too_young, escalates, microseconds_per_hour, move, stay, conclude, check_tier, check_capabilities,
  evaluate, apply_transition,
}

abbrev pub allowed_from : TransitionPolicy → TaskState → List TaskState
allowed_from p s = get_or_empty s p.transitions

abbrev pub InTier : TransitionPolicy → Tier → Type 0
InTier p (tier n) = n ≤ℤ pos p.autonomy_tier
InTier p (Tier.bad_tier e) = ⊥

-- What the policy asks of a request, condition by condition.
pub record Permitted (p : TransitionPolicy) (t : Task) (from requested : TaskState) (q : Request)
    : Type 0 where
  pub listed : In requested (allowed_from p from)
  pub capable :
      (c : CapabilityKey)
      → In c (get_or_empty requested p.required_capabilities)
      → In c q.actor_capabilities
  pub in_tier : InTier p (tier_value (lookup "autonomy_tier" t.contract))
  pub approved : requested ≡ done → p.hitl_required ≡ true → q.human_approved ≡ true
  pub proven :
      requested ≡ done
      → (r : DodReport) × (q.dod_report ≡ some r) × All (λ i. i.state ≡ checked) r.checklist
  pub aged :
      from ≡ blocked
      → requested ≡ p.blocked_escalation_target
      → (since : ℕ) × (q.blocked_at ≡ some since) × (since + p.blocked_hours * 3600000000 ≤ q.now)

missing-nil_iff :
    (required held : List CapabilityKey)
    → (missing required held ≡ []) ↔ ((c : CapabilityKey) → In c required → In c held)
unfolding missing
missing-nil_iff [] held = (λ _ c h. absurd h, λ _. refl)
missing-nil_iff (c ∷ cs) held =
    let rest = missing-nil_iff cs held in
    elim (Bool-cases (mem c held)) [
      | inl has ↦ rw has (
        λ e c' m. elim m [ inl eq ↦ rw eq (mem→In c held has) | inr r ↦ rest.0 e c' r ],
        λ h. rest.1 (λ c' r. h c' (inr r)),
      )
      | inr lacks ↦ rw lacks (λ e. cc, λ h. cc (In→mem c held (h c (inl refl)), lacks))
    ]

first_failure-nil_iff :
    (rs : List DodChecklistResult)
    → (first (λ i. not (i.state == checked)) rs ≡ none) ↔ All (λ i. i.state ≡ checked) rs
first_failure-nil_iff [] = (λ _. tt, λ _. refl)
first_failure-nil_iff (r ∷ rs) = ground (arith, first_failure-nil_iff rs)

approval_guard-none_iff :
    (p : TransitionPolicy) (requested : TaskState) (q : Request)
    → (approval_guard p requested q ≡ none)
      ↔ (requested ≡ done → p.hitl_required ≡ true → q.human_approved ≡ true)
unfolding approval_guard
approval_guard-none_iff p requested q = ground arith

dod_guard-none_iff :
    (requested : TaskState) (q : Request)
    → (dod_guard requested q ≡ none) ↔ (
        requested ≡ done
        → (r : DodReport) × (q.dod_report ≡ some r) × All (λ i. i.state ≡ checked) r.checklist)
unfolding dod_guard first_failure
dod_guard-none_iff requested q = elim (Option-cases q.dod_report) [
  | inl e ↦ ground (arith, e)
  | inr (r, e) ↦ ground (arith, e, first_failure-nil_iff r.checklist)
]

blocked_guard-none_iff :
    (p : TransitionPolicy) (from requested : TaskState) (q : Request)
    → (blocked_guard p from requested q ≡ none) ↔ (
        from ≡ blocked
        → requested ≡ p.blocked_escalation_target
        → (since : ℕ) × (q.blocked_at ≡ some since)
          × (since + p.blocked_hours * 3600000000 ≤ q.now))
unfolding blocked_guard too_young escalates microseconds_per_hour
blocked_guard-none_iff p from requested q = ground arith

later_guards-none_iff :
    (p : TransitionPolicy) (from requested : TaskState) (q : Request)
    → (later_guards p from requested q ≡ none) ↔ (
        (approval_guard p requested q ≡ none)
        × (dod_guard requested q ≡ none)
        × (blocked_guard p from requested q ≡ none))
unfolding later_guards
later_guards-none_iff p from requested q = ground arith

module _ (p : TransitionPolicy) (from requested : TaskState) (allowed : List TaskState)
    (q : Request) where
  conclude-move_iff :
      (g : Option (Guard × Note))
      → (conclude p from requested allowed q g ≡ move p from requested allowed q) ↔ (g ≡ none)
  unfolding conclude move stay
  conclude-move_iff none = (λ _. refl, λ _. refl)
  conclude-move_iff (some (g, n)) =
      (λ e. let f = ap (λ (r : TransitionResult). r.guard_blocked) e in cc, λ e. cc)

  check_tier-moves_iff :
      (k : Tier)
      → (check_tier p from requested allowed q k ≡ returns (move p from requested allowed q))
        ↔ (InTier p k × (later_guards p from requested q ≡ none))
  unfolding check_tier
  check_tier-moves_iff (Tier.bad_tier e) = ground arith
  check_tier-moves_iff (tier n) = ground (
    arith,
    conclude-move_iff (some (Guard.policy, Note.tier_exceeds n p.autonomy_tier)),
    conclude-move_iff (later_guards p from requested q),
  )

  check_capabilities-moves_iff :
      (t : Task) (cs : List CapabilityKey)
      → (check_capabilities p t from requested allowed q cs
          ≡ returns (move p from requested allowed q))
        ↔ ((cs ≡ [])
            × InTier p (tier_value (lookup "autonomy_tier" t.contract))
            × (later_guards p from requested q ≡ none))
  unfolding check_capabilities
  check_capabilities-moves_iff t [] =
      ground (arith, check_tier-moves_iff (tier_value (lookup "autonomy_tier" t.contract)))
  check_capabilities-moves_iff t (c ∷ cs) =
      ground
        (arith, conclude-move_iff (some (Guard.capability, Note.missing_capabilities (c ∷ cs))))

pub apply_transition-evaluate :
    (p : TransitionPolicy) (t : Task) (from requested : TaskState) (q : Request)
    → task_state t.state ≡ some from
    → apply_transition p t requested q ≡ evaluate p t from requested q
unfolding apply_transition
apply_transition-evaluate p t from requested q h = rw (h, apply_transition)

evaluate-moves_iff :
    (p : TransitionPolicy) (t : Task) (from requested : TaskState) (q : Request)
    → (evaluate p t from requested q ≡ returns (move p from requested (allowed_from p from) q)) ↔ (
        (mem requested (allowed_from p from) ≡ true)
        × (missing (get_or_empty requested p.required_capabilities) q.actor_capabilities ≡ [])
        × InTier p (tier_value (lookup "autonomy_tier" t.contract))
        × (later_guards p from requested q ≡ none))
unfolding evaluate
evaluate-moves_iff p t from requested q = ground (
  arith,
  check_capabilities-moves_iff p from requested (allowed_from p from) q t
      (missing (get_or_empty requested p.required_capabilities) q.actor_capabilities),
)

module _ (p : TransitionPolicy) (t : Task) (from requested : TaskState) (q : Request) where
  abbrev Checks : Type 0
  Checks =
      (mem requested (allowed_from p from) ≡ true)
      × (missing (get_or_empty requested p.required_capabilities) q.actor_capabilities ≡ [])
      × InTier p (tier_value (lookup "autonomy_tier" t.contract))
      × (later_guards p from requested q ≡ none)

  Checks-Permitted : Checks → Permitted p t from requested q
  Checks-Permitted (listed, held, fits, late) =
      let later = (later_guards-none_iff p from requested q).0 late in
      record {
        listed = mem→In requested (allowed_from p from) listed;
        capable = (missing-nil_iff _ _).0 held;
        in_tier = fits;
        approved = (approval_guard-none_iff p requested q).0 later.0;
        proven = (dod_guard-none_iff requested q).0 later.1;
        aged = (blocked_guard-none_iff p from requested q).0 later.2;
      }

  Permitted-Checks : Permitted p t from requested q → Checks
  Permitted-Checks h = (
    In→mem requested (allowed_from p from) h.listed,
    (missing-nil_iff _ _).1 h.capable,
    h.in_tier,
    (later_guards-none_iff p from requested q).1 (
      (approval_guard-none_iff p requested q).1 h.approved,
      (dod_guard-none_iff requested q).1 h.proven,
      (blocked_guard-none_iff p from requested q).1 h.aged,
    ),
  )

-- `apply_transition` grants a request, moving the task to the requested state, exactly when every
-- condition of the policy holds.
pub apply_transition-move_iff :
    (p : TransitionPolicy) (t : Task) (from requested : TaskState) (q : Request)
    → task_state t.state ≡ some from
    → (apply_transition p t requested q ≡ returns (move p from requested (allowed_from p from) q))
      ↔ Permitted p t from requested q
apply_transition-move_iff p t from requested q h =
    rw (apply_transition-evaluate p t from requested q h) (
      λ e. Checks-Permitted p t from requested q ((evaluate-moves_iff p t from requested q).0 e),
      λ k. (evaluate-moves_iff p t from requested q).1 (Permitted-Checks p t from requested q k),
    )
