-- ===== src/Policy.antt =====
-- Which policy governs a task: apps/api/src/agenticqueue_api/policy/resolver.py, and
-- `_resolved_policy` of compiler.py over the rows that attach policies.
pub mod Precedence
use agenticqueue.Base.{
  ℕ, String, Bool, Option, none, some, List, ◌==◌, nat_eq, first, if◌then◌else◌,
}
use agenticqueue.Json.{Fields}
use agenticqueue.Task.{CapabilityKey, Task}

-- A policy row or policy file, `PolicyLike`.
pub record PolicyLike : Type 0 where
  pub id : ℕ
  pub name : String
  pub version : String
  pub hitl_required : Bool
  pub autonomy_tier : ℕ
  pub capabilities : List CapabilityKey
  pub body : Fields

pub data PolicySource : Type 0 where
  task project workspace default : PolicySource

pub record ResolvedPolicy : Type 0 where
  pub name : String
  pub version : String
  pub hitl_required : Bool
  pub autonomy_tier : ℕ
  pub capabilities : List CapabilityKey
  pub body : Fields
  pub source : PolicySource

abbrev pub resolved_as : PolicyLike → PolicySource → ResolvedPolicy
resolved_as p s = record {
  name = p.name;
  version = p.version;
  hitl_required = p.hitl_required;
  autonomy_tier = p.autonomy_tier;
  capabilities = p.capabilities;
  body = p.body;
  source = s;
}

-- A resolved policy is itself `PolicyLike`: the caller passes one as the default.
abbrev pub policy_like : ResolvedPolicy → PolicyLike
policy_like r = record {
  id = 0;
  name = r.name;
  version = r.version;
  hitl_required = r.hitl_required;
  autonomy_tier = r.autonomy_tier;
  capabilities = r.capabilities;
  body = r.body;
}

unfoldable pub resolve_effective_policy :
    PolicyLike → Option PolicyLike → Option PolicyLike → Option PolicyLike → ResolvedPolicy
resolve_effective_policy default_policy workspace_policy project_policy (some t) =
    resolved_as t task
resolve_effective_policy default_policy workspace_policy (some p) none = resolved_as p project
resolve_effective_policy default_policy (some w) none none = resolved_as w workspace
resolve_effective_policy default_policy none none none = resolved_as default_policy default

-- `validation_mode`
unfoldable pub validation_mode : ResolvedPolicy → String
validation_mode r = if r.hitl_required then "human_review" else "autonomous"

pub record Project : Type 0 where
  pub id : ℕ
  pub workspace_id : ℕ
  pub policy_id : Option ℕ

pub record Workspace : Type 0 where
  pub id : ℕ
  pub policy_id : Option ℕ

-- `_attached_policy`
unfoldable pub attached_policy : List PolicyLike → Option ℕ → Option PolicyLike
attached_policy policies none = none
attached_policy policies (some i) = first (λ p. p.id == i) policies

unfoldable pub project_of : List Project → Task → Option Project
project_of projects t = first (λ p. p.id == t.project_id) projects

unfoldable pub workspace_of : List Workspace → Option Project → Option Workspace
workspace_of workspaces none = none
workspace_of workspaces (some p) = first (λ w. w.id == p.workspace_id) workspaces

-- The end of `_resolved_policy`: with no attachment the base policy stands, else precedence decides.
unfoldable pub unattached_or :
    ResolvedPolicy → Option PolicyLike → Option PolicyLike → Option PolicyLike → ResolvedPolicy
unattached_or base w p (some t) = resolve_effective_policy (policy_like base) w p (some t)
unattached_or base w (some p) none = resolve_effective_policy (policy_like base) w (some p) none
unattached_or base (some w) none none =
    resolve_effective_policy (policy_like base) (some w) none none
unattached_or base none none none = base

-- `_resolved_policy` of compiler.py, with the default policy and the task type's policy pack given.
unfoldable pub resolved_policy :
    PolicyLike
    → Option PolicyLike
    → List Project
    → List Workspace
    → List PolicyLike
    → Task
    → ResolvedPolicy
resolved_policy default_policy task_type_policy projects workspaces policies t =
    let base = resolve_effective_policy default_policy none none task_type_policy in
    let the_project = project_of projects t in
    let the_workspace = workspace_of workspaces the_project in
    let workspace_policy =
      attached_policy policies (elim the_workspace [ none ↦ none | some w ↦ w.policy_id ]) in
    let project_policy =
      attached_policy policies (elim the_project [ none ↦ none | some p ↦ p.policy_id ]) in
    let task_policy = attached_policy policies t.policy_id in
    unattached_or base workspace_policy project_policy task_policy
