-- ===== src/Actions/Review/Refused.antt =====
-- What an approval or a rejection that raises leaves behind (task_actions.py, capabilities.py).
use agenticqueue.Base.{
  ℕ, ◌≡◌, refl, sym, ap, subst, ◌∙◌, String, Bool, true, false, Option, some, [], ◌∷◌, ◌++◌, inl,
  inr, Error, Result, ok, err, api_error, string_eq, if◌then◌else◌,
}
use agenticqueue.Task.{Task, CapabilityKey, validated, update_task}
use agenticqueue.Transition.{TransitionPolicy, TransitionResult}
use agenticqueue.Queue.Rows.{find_task}
use agenticqueue.Store.{Db, Session, Exec, ◌>>=◌, ◌>>◌, raise, reads, writes, commit, write_audit}
use agenticqueue.Store.Rules.{>>=-err, reads-err, reads->>=-err}
use agenticqueue.Actions.Common.{
  Actor, Env, TaskView, require_task, require_state, ensure_capability, is_authorised, denial,
  report_dlq,
}
use agenticqueue.Actions.Granted.{require_task-ok, require_state-ok, ensure_capability-ok}
use agenticqueue.Actions.Dependents.{unblock_ready_dependents}
use agenticqueue.Actions.Failure.{report_dlq-result}
use agenticqueue.Actions.Review.{
  approve_task, approve_awaiting, finish_approval, reject_task, reject_awaiting, finish_rejection,
}

-- The session after a denial: its audit row is written and committed, and nothing else.
abbrev pub after_denial : Env → Actor → CapabilityKey → Task → Session → Session
after_denial env actor c t s =
    let db : Db = record s.working { audit = s.working.audit ++ denial env actor c t ∷ [] } in
    record s { committed = db; working = db }

-- A refused request leaves its session alone, or the actor was denied the capability on the row,
-- which is recorded and committed.
pub data Refused (env : Env) (actor : Actor) (task_id : ℕ) (s : Session)
    : Error → Session → Type 0 where
  untouched : {e : Error} → Refused env actor task_id s e s
  denied :
      (t : Task)
      → find_task task_id s.working.tasks ≡ some t
      → is_authorised env actor update_task t s.working ≡ false
      → Refused env actor task_id s
          (api_error 403 "Capability grant required")
          (after_denial env actor update_task t s)

module _ (env : Env) (actor : Actor) where
  raised_denial :
      (b : Bool) (s s' denied_session : Session) (q : Error) {e : Error}
      → ◌≡◌ {A = Result (Unit {0}) × Session}
          (if b then (ok tt, s) else (err q, denied_session))
          (err e, s')
      → (b ≡ false) × (q ≡ e) × (denied_session ≡ s')
  raised_denial true s s' d q h =
      let h' : ◌≡◌ {A = Result (Unit {0})} (ok tt) (err _) = ap (λ x. x.0) h in cc
  raised_denial false s s' d q {e} h = (
    refl,
    (let h' : ◌≡◌ {A = Result (Unit {0})} (err q) (err e) = ap (λ x. x.0) h in cc),
    ap (λ x. x.1) h,
  )

  ensure_capability-err :
      (c : CapabilityKey) (t : Task) (s s' : Session) {e : Error}
      → ensure_capability env actor c t s ≡ (err e, s')
      → (is_authorised env actor c t s.working ≡ false)
        × (api_error 403 "Capability grant required" ≡ e)
        × (after_denial env actor c t s ≡ s')
  unfolding ensure_capability ◌>>=◌ write_audit commit raise
  ensure_capability-err c t s s' h =
      raised_denial (is_authorised env actor c t s.working) s s' _ _ h

  finish_approval-returns :
      (t : Task) (p : TransitionPolicy) (r : TransitionResult) (reason : Option String)
      (s s' : Session) {e : Error}
      → ¬ (finish_approval env actor t p r reason s ≡ (err e, s'))
  unfolding finish_approval ◌>>=◌ write_audit reads writes unblock_ready_dependents
  finish_approval-returns t p r reason s s' {e} h =
      let h' : ◌≡◌ {A = Result TaskView} (ok _) (err e) = ap (λ x. x.0) h in cc

module _ (env : Env) (actor : Actor) (task_id : ℕ) where
  -- The guards that approving and rejecting share: what raises after them decides the rest.
  guards-Refused :
      (message : String) (k : Task → Exec TaskView) (s s' : Session) {e : Error}
      → ((t : Task) (u : Session) → k t s ≡ (err e, u) → u ≡ s)
      → (do
        t ← require_task task_id
        require_state validated message t
        ensure_capability env actor update_task t
        k t)
          s
        ≡ (err e, s')
      → Refused env actor task_id s e s'
  unfolding require_task require_state
  guards-Refused message k s s' {e} rest h = elim (>>=-err (require_task task_id) _ s s' h) [
    | inl e1 ↦ same (reads-err _ s s' e1)
    | inr (t, s1, e1, h1) ↦
        let (found, q1) = require_task-ok task_id s s1 e1 in
        elim (>>=-err (require_state validated message t) _ s1 s' h1) [
          | inl e2 ↦ same (reads-err _ s1 s' e2 ∙ q1)
          | inr (_, s2, e2, h2) ↦
              let q2 : s2 ≡ s = (require_state-ok validated message t s1 s2 e2).1 ∙ q1 in
              elim (>>=-err (ensure_capability env actor update_task t) _ s2 s' h2) [
                | inl e3 ↦
                    was_denied t found
                      (subst (λ u. ensure_capability env actor update_task t u ≡ (err e, s')) q2 e3)
                | inr (_, s3, e3, h3) ↦
                    let q3 : s3 ≡ s =
                      (ensure_capability-ok env actor update_task t s2 s3 e3).1 ∙ q2 in
                    same (rest t s' (subst (λ u. k t u ≡ (err e, s')) q3 h3))
              ]
        ]
  ]
    where
      same : s' ≡ s → Refused env actor task_id s e s'
      same q = subst (λ u. Refused env actor task_id s e u) (sym q) untouched

      was_denied :
          (t : Task)
          → find_task task_id s.working.tasks ≡ some t
          → ensure_capability env actor update_task t s ≡ (err e, s')
          → Refused env actor task_id s e s'
      was_denied t found k =
          let (no_grant, error, left) = ensure_capability-err env actor update_task t s s' k in
          subst (λ x. Refused env actor task_id s x s') error
            (subst (λ u. Refused env actor task_id s (api_error 403 "Capability grant required") u)
              left (denied t found no_grant))

  approve_awaiting-err :
      (reason : Option String) (t : Task) (s s' : Session) {e : Error}
      → approve_awaiting env actor reason t s ≡ (err e, s')
      → s' ≡ s
  unfolding approve_awaiting
  approve_awaiting-err reason t s s' h = elim (reads->>=-err _ _ s s' h) [
    | inl q ↦ q
    | inr (report, _, h1) ↦ elim (reads->>=-err _ _ s s' h1) [
      | inl q ↦ q
      | inr (p, _, h2) ↦ elim (reads->>=-err _ _ s s' h2) [
        | inl q ↦ q
        | inr (r, _, h3) ↦ absurd (finish_approval-returns env actor t p r reason s s' h3)
      ]
    ]
  ]

  -- An approval that raises has written nothing, except that the denial of the capability is
  -- recorded and committed.
  pub approve_task-Refused :
      (reason : Option String) (s s' : Session) {e : Error}
      → approve_task env actor task_id reason s ≡ (err e, s')
      → Refused env actor task_id s e s'
  unfolding approve_task
  approve_task-Refused reason s s' h =
      guards-Refused _ (approve_awaiting env actor reason) s s'
        (λ t u. approve_awaiting-err reason t s u) h

  finish_rejection-returns :
      (t : Task) (p : TransitionPolicy) (first second : TransitionResult) (reason : Option String)
      (s s' : Session) {e : Error}
      → ¬ (finish_rejection env actor t p first second reason s ≡ (err e, s'))
  unfolding finish_rejection ◌>>=◌ write_audit reads
  finish_rejection-returns t p first second reason s s' {e} h =
      elim (>>=-err (report_dlq env actor p.max_retries _) _ _ s' h) [
        | inl k ↦
            let k' : ok tt ≡ err e =
              sym (report_dlq-result env actor p.max_retries _ _) ∙ ap (λ x. x.0) k in
            cc
        | inr (_, u, _, k) ↦
            let k' : ◌≡◌ {A = Result TaskView} (ok _) (err e) = ap (λ x. x.0) k in cc
      ]

  reject_awaiting-err :
      (reason : Option String) (t : Task) (s s' : Session) {e : Error}
      → reject_awaiting env actor reason t s ≡ (err e, s')
      → s' ≡ s
  unfolding reject_awaiting
  reject_awaiting-err reason t s s' h = elim (reads->>=-err _ _ s s' h) [
    | inl q ↦ q
    | inr (p, _, h1) ↦ elim (reads->>=-err _ _ s s' h1) [
      | inl q ↦ q
      | inr (first, _, h2) ↦ elim (reads->>=-err _ _ s s' h2) [
        | inl q ↦ q
        | inr (second, _, h3) ↦ absurd (finish_rejection-returns t p first second reason s s' h3)
      ]
    ]
  ]

  -- A rejection that raises has written nothing, except that the denial of the capability is
  -- recorded and committed.
  pub reject_task-Refused :
      (reason : Option String) (s s' : Session) {e : Error}
      → reject_task env actor task_id reason s ≡ (err e, s')
      → Refused env actor task_id s e s'
  unfolding reject_task
  reject_task-Refused reason s s' h =
      guards-Refused _ (reject_awaiting env actor reason) s s'
        (λ t u. reject_awaiting-err reason t s u) h
