-- ===== src/Actions/Granted.antt =====
-- What it means that a guard of the task actions (task_actions.py) let the request through.
use agenticqueue.Base.{
  ℕ, ◌≡◌, ◌≢◌, refl, sym, ap, ◌∙◌, String, Bool, true, false, Option, none, some, Result, ok, err,
  ==_iff, string_eq, Option-cases, inl, inr, api_error, if◌then◌else◌, Error,
}
use agenticqueue.Task.{Task, TaskState, CapabilityKey, state_value, task_state}
use agenticqueue.Dod.{DodReport}
use agenticqueue.Transition.{
  TransitionPolicy, TransitionResult, Request, Outcome, returns, invalid_transition, raises,
  apply_transition, move,
}
use agenticqueue.Transition.Permit.{Permitted, allowed_from}
use agenticqueue.Transition.Outcomes.{apply_transition_outcomes}
use agenticqueue.Queue.Rows.{find_task}
use agenticqueue.Store.{AuditRow, Session, ◌>>=◌, ◌>>◌, raise, commit, write_audit}
use agenticqueue.Store.Rules.{reads-ok}
use agenticqueue.Actions.Common.{
  Actor, Env, require_task, require_state, ensure_capability, is_authorised, transition_or_conflict,
}
use agenticqueue.Actions.Review.{require_report}

found_row :
    (i : ℕ) (o : Option Task) {t : Task}
    → elim o [ none ↦ err (api_error 404 "Task not found") | some x ↦ ok x ] ≡ ok t
    → o ≡ some t
found_row i none h = cc
found_row i (some x) h = cc

pub require_task-ok :
    (i : ℕ) (s s' : Session) {t : Task}
    → require_task i s ≡ (ok t, s')
    → (find_task i s.working.tasks ≡ some t) × (s' ≡ s)
unfolding require_task
require_task-ok i s s' h =
    let (e, q) = reads-ok _ s s' h in (found_row i (find_task i s.working.tasks) e, q)

has_state : (b : Bool) (e : Error) {u : Unit {0}} → (if b then ok tt else err e) ≡ ok u → b ≡ true
has_state true e h = refl
has_state false e h = cc

pub require_state-ok :
    (st : TaskState) (message : String) (t : Task) (s s' : Session) {u : Unit}
    → require_state st message t s ≡ (ok u, s')
    → (t.state ≡ state_value st) × (s' ≡ s)
unfolding require_state
require_state-ok st message t s s' h =
    let (e, q) = reads-ok _ s s' h in ((==_iff t.state _).0 (has_state _ _ e), q)

pub require_report-ok :
    (o : Option DodReport) {r : DodReport} → require_report o ≡ ok r → o ≡ some r
require_report-ok none h = cc
require_report-ok (some r) h = cc

raises-denial :
    (row : AuditRow) (e : Error) (s t : Session) {u : Unit {0}}
    → (do write_audit row; commit; raise e) s ≢ (ok u, t)
unfolding ◌>>=◌ write_audit commit raise
raises-denial row e s t {u} h =
    let h' : ◌≡◌ {A = Result Unit} (err e) (ok u) = ap (λ x. x.0) h in cc

module _ (env : Env) where
  conflict_free :
      (message : String) (o : Outcome) {r : TransitionResult}
      → transition_or_conflict env message o ≡ ok r
      → (o ≡ returns r) × (r.guard_blocked ≡ none)
  unfolding transition_or_conflict
  conflict_free message (raises e) h = cc
  conflict_free message (invalid_transition from to allowed) h = cc
  conflict_free message (returns x) {r} h = elim (Option-cases x.guard_blocked) [
    | inl e ↦
        let same : x ≡ r = let h' = rw e at h in cc in
        (ap returns same, ap (λ (y : TransitionResult). y.guard_blocked) (sym same) ∙ e)
    | inr (g, e) ↦ let h' = rw e at h in cc
  ]

  -- A transition that is not a conflict was permitted, and is the one that was asked for.
  pub transition_or_conflict-ok :
      (message : String) (p : TransitionPolicy) (t : Task) (from requested : TaskState)
      (q : Request) {r : TransitionResult}
      → task_state t.state ≡ some from
      → transition_or_conflict env message (apply_transition p t requested q) ≡ ok r
      → Permitted p t from requested q × (r ≡ move p from requested (allowed_from p from) q)
  transition_or_conflict-ok message p t from requested q {r} h e =
      let (returned, unblocked) = conflict_free message _ e in
      elim ((apply_transition_outcomes p t from requested q r h returned).1) [
        | inl granted ↦ granted
        | inr (_, _, _, blocked, _) ↦ absurd (blocked unblocked)
      ]

  denied_or_granted :
      (b : Bool) (denial_result : Result (Unit {0}) × Session) (s s' : Session) {u : Unit {0}}
      → denial_result ≢ (ok u, s')
      → (if b then (ok tt, s) else denial_result) ≡ (ok u, s')
      → (b ≡ true) × (s' ≡ s)
  denied_or_granted true k s s' never h = (refl, sym (ap (λ x. x.1) h))
  denied_or_granted false k s s' never h = absurd (never h)

  pub ensure_capability-ok :
      (actor : Actor) (c : CapabilityKey) (t : Task) (s s' : Session) {u : Unit}
      → ensure_capability env actor c t s ≡ (ok u, s')
      → (is_authorised env actor c t s.working ≡ true) × (s' ≡ s)
  unfolding ensure_capability
  ensure_capability-ok actor c t s s' h =
      denied_or_granted (is_authorised env actor c t s.working) _ s s' (raises-denial _ _ s s') h
