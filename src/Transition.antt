-- ===== src/Transition.antt =====
-- The transition engine: apps/api/src/agenticqueue_api/transitions.py.
pub mod Permit
pub mod Outcomes
pub mod CodingTask
use agenticqueue.Base.{
  ℕ, suc, ◌+◌, ◌*◌, ◌≡◌, refl, String, Bool, true, false, not, ◌&&◌, ◌||◌, Option, none, some, List,
  [], ◌∷◌, Eq, ◌==◌, dec_beq, string_eq, if◌then◌else◌, mem, lookup, first, filterb, leb, ltb,
  Error, value_error, type_error,
}
use agenticqueue.Base.Int.{ℤ, pos, ltb_ℤ}
use agenticqueue.Base.Text.{int_of_text}
use agenticqueue.Json.{Json}
use agenticqueue.Dod.{DodReport, DodChecklistResult, DodItemState, checked, dod_item_state_eq}
use agenticqueue.Task.{
  TaskState, queued, rejected, done, blocked, task_state, task_state_eq, CapabilityKey,
  capability_key_eq, Task,
}

pub record TransitionPolicy : Type 0 where
  pub task_type : String
  pub version : String
  pub hitl_required : Bool
  pub autonomy_tier : ℕ
  pub capabilities : List CapabilityKey
  pub transitions : List (TaskState × List TaskState)
  pub required_capabilities : List (TaskState × List CapabilityKey)
  pub max_retries : ℕ
  pub blocked_hours : ℕ
  pub blocked_escalation_target : TaskState

-- The values of `guard_blocked`.
pub data Guard : Type 0 where
  capability policy dod : Guard

-- A note, by what its text interpolates.
pub data Note : Type 0 where
  missing_capabilities : List CapabilityKey → Note
  tier_exceeds : ℤ → ℕ → Note
  needs_human_approval needs_dod_report : Note
  dod_failure : String → String → Note
  blocked_less_than : ℕ → Note

pub data Escalation : Type 0 where
  max_retries_exceeded blocked_too_long : Escalation

pub record TransitionResult : Type 0 where
  pub from_state : TaskState
  pub requested_state : TaskState
  pub state : TaskState
  pub attempt_count : ℕ
  pub allowed_transitions : List TaskState
  pub guard_blocked : Option Guard
  pub note : Option Note
  pub escalation : Option Escalation

-- What `apply_transition` returns or raises.
pub data Outcome : Type 0 where
  returns : TransitionResult → Outcome
  invalid_transition : TaskState → TaskState → List TaskState → Outcome
  raises : Error → Outcome

-- The keyword arguments, with the clock's reading in `now`.
pub record Request : Type 0 where
  pub actor_capabilities : List CapabilityKey
  pub attempt_count : ℕ
  pub dod_report : Option DodReport
  pub blocked_at : Option ℕ
  pub now : ℕ
  pub human_approved : Bool

-- `d.get(key, ())`
abbrev pub get_or_empty : {A : Type 0} → TaskState → List (TaskState × List A) → List A
get_or_empty s d = elim (lookup s d) [ none ↦ [] | some xs ↦ xs ]

missing : List CapabilityKey → List CapabilityKey → List CapabilityKey
missing required held = filterb (λ c. not (mem c held)) required

-- `int(task.contract.get("autonomy_tier", 1))`
pub data Tier : Type 0 where
  tier : ℤ → Tier
  bad_tier : Error → Tier

pub tier_value : Option Json → Tier
tier_value none = tier (pos 1)
tier_value (some (Json.int n)) = tier n
tier_value (some (Json.boolean b)) = tier (pos (if b then 1 else 0))
tier_value (some (Json.text s)) = elim (int_of_text s) [
  | none ↦ bad_tier (value_error "invalid literal for int()")
  | some n ↦ tier n
]
tier_value (some _) = bad_tier (type_error "int() argument")

microseconds_per_hour : ℕ
microseconds_per_hour = 3600000000

-- The first item that is not checked.
first_failure : DodReport → Option DodChecklistResult
first_failure r = first (λ i. not (i.state == checked)) r.checklist

-- The guards after the capability and tier ones, in the source's order; `none` lets the request pass.
approval_guard : TransitionPolicy → TaskState → Request → Option (Guard × Note)
approval_guard p requested q =
    if (requested == done) && (p.hitl_required && not q.human_approved)
    then some (policy, needs_human_approval)
    else none

dod_guard : TaskState → Request → Option (Guard × Note)
dod_guard requested q =
    if requested == done
    then elim q.dod_report [
      | none ↦ some (dod, needs_dod_report)
      | some r ↦ elim (first_failure r) [
        | none ↦ none
        | some i ↦ some (dod, dod_failure i.item i.note)
      ]
    ]
    else none

-- `blocked_age < threshold`, by the two times.
too_young : TransitionPolicy → Request → Bool
too_young p q = elim q.blocked_at [
  | none ↦ true
  | some t ↦ ltb q.now (t + p.blocked_hours * microseconds_per_hour)
]

escalates : TransitionPolicy → TaskState → TaskState → Bool
escalates p from requested = (from == blocked) && (requested == p.blocked_escalation_target)

blocked_guard : TransitionPolicy → TaskState → TaskState → Request → Option (Guard × Note)
blocked_guard p from requested q =
    if escalates p from requested && too_young p q
    then some (policy, blocked_less_than p.blocked_hours)
    else none

later_guards : TransitionPolicy → TaskState → TaskState → Request → Option (Guard × Note)
later_guards p from requested q = elim (approval_guard p requested q) [
  | some g ↦ some g
  | none ↦ elim (dod_guard requested q) [
    | some g ↦ some g
    | none ↦ blocked_guard p from requested q
  ]
]

pub stay : TaskState → TaskState → List TaskState → Request → Guard × Note → TransitionResult
stay from requested allowed q (g, n) = record {
  from_state = from;
  requested_state = requested;
  state = from;
  attempt_count = q.attempt_count;
  allowed_transitions = allowed;
  guard_blocked = some g;
  note = some n;
  escalation = none;
}

pub retries : TaskState → TaskState → Bool
retries from requested = (from == rejected) && (requested == queued)

pub escalation_of : TransitionPolicy → TaskState → TaskState → ℕ → Option Escalation
escalation_of p from requested attempts =
    if escalates p from requested
    then some blocked_too_long
    else if retries from requested && leb p.max_retries (suc attempts)
    then some max_retries_exceeded
    else none

pub move : TransitionPolicy → TaskState → TaskState → List TaskState → Request → TransitionResult
move p from requested allowed q = record {
  from_state = from;
  requested_state = requested;
  state = requested;
  attempt_count = if retries from requested then suc q.attempt_count else q.attempt_count;
  allowed_transitions = allowed;
  guard_blocked = none;
  note = none;
  escalation = escalation_of p from requested q.attempt_count;
}

pub conclude :
    TransitionPolicy
    → TaskState
    → TaskState
    → List TaskState
    → Request
    → Option (Guard × Note)
    → TransitionResult
conclude p from requested allowed q (some g) = stay from requested allowed q g
conclude p from requested allowed q none = move p from requested allowed q

check_tier : TransitionPolicy → TaskState → TaskState → List TaskState → Request → Tier → Outcome
check_tier p from requested allowed q (bad_tier e) = raises e
check_tier p from requested allowed q (tier n) = returns (
    conclude p from requested allowed q (
      if ltb_ℤ (pos p.autonomy_tier) n
      then some (policy, tier_exceeds n p.autonomy_tier)
      else later_guards p from requested q))

check_capabilities :
    TransitionPolicy
    → Task
    → TaskState
    → TaskState
    → List TaskState
    → Request
    → List CapabilityKey
    → Outcome
check_capabilities p t from requested allowed q [] =
    check_tier p from requested allowed q (tier_value (lookup "autonomy_tier" t.contract))
check_capabilities p t from requested allowed q (c ∷ cs) =
    returns (conclude p from requested allowed q (some (capability, missing_capabilities (c ∷ cs))))

pub evaluate : TransitionPolicy → Task → TaskState → TaskState → Request → Outcome
evaluate p t from requested q =
    let allowed = get_or_empty from p.transitions in
    if mem requested allowed
    then check_capabilities p t from requested allowed q
        (missing (get_or_empty requested p.required_capabilities) q.actor_capabilities)
    else invalid_transition from requested allowed

-- `apply_transition`, with the policy given.
unfoldable pub apply_transition : TransitionPolicy → Task → TaskState → Request → Outcome
unfolding missing tier_value microseconds_per_hour first_failure approval_guard dod_guard too_young
    escalates blocked_guard later_guards stay retries escalation_of move conclude check_tier
    check_capabilities evaluate
apply_transition p t requested q = elim (task_state t.state) [
  | none ↦ raises (value_error t.state)
  | some from ↦ evaluate p t from requested q
]
