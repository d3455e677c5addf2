-- ===== src/Store.antt =====
-- The database that the task actions read and write, and the session of a request: what is
-- committed, what the request has written, and the process-wide counter of dead-lettered tasks
-- (task_actions.py, task_retry.py, models/*.py, `get_db_session` of app.py).
pub mod Rules
use agenticqueue.Base.{
  ℕ, zero, suc, String, Bool, true, false, Option, none, some, List, [], ◌∷◌, ◌++◌, Error, Result,
  ok, err,
}
use agenticqueue.Json.{Json, Fields}
use agenticqueue.Task.{Task, Failure}
use agenticqueue.Edge.{Edge}
use agenticqueue.Capability.{Grant, Scope}
use agenticqueue.Policy.{PolicyLike, Project, Workspace}
use agenticqueue.Transition.{TransitionResult}

-- `RunRecord`; the parts of `details` that the code writes are columns here.
pub record Run : Type 0 where
  pub id : ℕ
  pub task_id : ℕ
  pub packet_version_id : Option ℕ
  pub actor_id : ℕ
  pub status : String
  pub started_at : ℕ
  pub ended_at : ℕ
  pub summary : String
  pub submission : Json
  pub transitions : List TransitionResult
  pub next_action : String
  pub dod_report : Option Json

-- `ArtifactRecord`
pub record Artifact : Type 0 where
  pub id : ℕ
  pub task_id : ℕ
  pub run_id : ℕ
  pub kind : String
  pub uri : String
  pub details : Fields

-- `DraftLearningRecord`
pub record Draft : Type 0 where
  pub id : ℕ
  pub task_id : ℕ
  pub run_id : ℕ
  pub payload : Json
  pub draft_status : String

-- The `after` column of an audit row, by the dictionary that is written.
pub data AuditAfter : Type 0 where
  failure_counts : String → ℕ → ℕ → ℕ → Option Failure → AuditAfter
  unblocked_by : String → ℕ → ℕ → AuditAfter
  submission_accepted : ℕ → String → ℕ → ℕ → String → AuditAfter
  approval : String → String → Option String → AuditAfter
  rejection : String → String → ℕ → Option String → AuditAfter
  unlocked : String → Option String → AuditAfter
  denied : String → Scope → AuditAfter

-- `AuditLogRecord`
pub record AuditRow : Type 0 where
  pub actor_id : Option ℕ
  pub entity_type : String
  pub entity_id : Option ℕ
  pub action : String
  pub after : AuditAfter

-- The tables, each in the order of creation.
pub record Db : Type 0 where
  pub tasks : List Task
  pub edges : List Edge
  pub grants : List Grant
  pub projects : List Project
  pub workspaces : List Workspace
  pub policies : List PolicyLike
  pub runs : List Run
  pub artifacts : List Artifact
  pub drafts : List Draft
  pub packet_versions : List (ℕ × ℕ)
  pub audit : List AuditRow

-- `fresh` numbers the rows that the request creates.
pub record Session : Type 0 where
  pub committed : Db
  pub working : Db
  pub fresh : ℕ
  pub dlq_count : ℕ

-- What was written before a raise stays written until the request rolls back.
abbrev pub Exec : Type 0 → Type 0
Exec A = Session → Result A × Session

abbrev pub continue : {A B : Type 0} → Result A → (A → Exec B) → Exec B
continue (ok a) f s = f a s
continue (err e) f s = (err e, s)

infixl 5 ◌>>=◌ ◌>>◌
unfoldable pub ◌>>=◌ : {A B : Type 0} → Exec A → (A → Exec B) → Exec B
◌>>=◌ m f s = let (r, s') = m s in continue r f s'

abbrev pub ◌>>◌ : {B : Type 0} → Exec (Unit {0}) → Exec B → Exec B
m >> k = m >>= λ _. k

unfoldable pub pure : {A : Type 0} → A → Exec A
pure a s = (ok a, s)

unfoldable pub raise : {A : Type 0} → Error → Exec A
raise e s = (err e, s)

-- A computation that reads the tables and may raise.
unfoldable pub reads : {A : Type 0} → (Db → Result A) → Exec A
reads f s = (f s.working, s)

-- `session.flush()` after changes to the tables
unfoldable pub writes : (Db → Db) → Exec (Unit {0})
writes f s = (ok tt, record s { working = f s.working })

-- `session.commit()`
unfoldable pub commit : Exec (Unit {0})
commit s = (ok tt, record s { committed = s.working })

-- A new primary key.
unfoldable pub new_id : Exec ℕ
new_id s = (ok s.fresh, record s { fresh = suc s.fresh })

-- `increment_attempt_metric("dlq")`
unfoldable pub increment_dlq : Exec (Unit {0})
increment_dlq s = (ok tt, record s { dlq_count = suc s.dlq_count })

-- `get_db_session`: commit after success, roll back after an exception.
abbrev pub settle : {A : Type 0} → Result A × Session → Result A × Session
settle (ok a, s) = (ok a, record s { committed = s.working })
settle (err e, s) = (err e, record s { working = s.committed })

unfoldable pub request : {A : Type 0} → Exec A → Exec A
request m s = settle (m s)

-- `_audit`
unfoldable pub write_audit : AuditRow → Exec (Unit {0})
unfolding writes
write_audit row = writes (λ db. record db { audit = db.audit ++ row ∷ [] })
