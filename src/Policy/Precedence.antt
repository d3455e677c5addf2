-- ===== src/Policy/Precedence.antt =====
-- Precedence of attached policies (policy/resolver.py, compiler.py).
use agenticqueue.Base.{ℕ, ◌≡◌, Option, none, some}
use agenticqueue.Task.{Task}
use agenticqueue.Policy.{
  PolicyLike, ResolvedPolicy, Project, Workspace, task, project, workspace, default, resolved_as,
}

-- What the policy of a task is, from the attachments that exist: the task's own, then its
-- project's, then its workspace's, then the task type's pack, then the default.
abbrev pub Governs :
    PolicyLike
    → Option PolicyLike
    → Option PolicyLike
    → Option PolicyLike
    → Option PolicyLike
    → ResolvedPolicy
    → Type 0
Governs d pack w p (some t) r = r ≡ resolved_as t task
Governs d pack w (some p) none r = r ≡ resolved_as p project
Governs d pack (some w) none none r = r ≡ resolved_as w workspace
Governs d (some k) none none none r = r ≡ resolved_as k task
Governs d none none none none r = r ≡ resolved_as d default

abbrev pub workspace_policy_id : Option Workspace → Option ℕ
workspace_policy_id none = none
workspace_policy_id (some w) = w.policy_id

abbrev pub project_policy_id : Option Project → Option ℕ
project_policy_id none = none
project_policy_id (some p) = p.policy_id
