-- ===== src/PacketInvalidation/Removal.antt =====
-- Which packets a row change takes out of the cache.
use agenticqueue.Base.{ℕ, String, Option, none, some, ◌≡◌, ◌⊎◌, nat_eq, string_eq, lookup}
use agenticqueue.Json.{Json}
use agenticqueue.Edge.{Edge}
use agenticqueue.PacketCache.{PacketCacheEntry, PacketCache}
use agenticqueue.PacketInvalidation.{
  Target, task_record, decision_record, learning_record, edge_record, capability_grant_record,
  policy_record, other_record, Described, TaskProjects,
}

-- The task that an edge belongs to: its source, or its target if the source is no task.
abbrev pub OnTask : Edge → ℕ → Type 0
OnTask e u =
    (e.src_entity_type ≡ "task") × (e.src_id ≡ u)
    ⊎ (¬ (e.src_entity_type ≡ "task")) × (e.dst_entity_type ≡ "task") × (e.dst_id ≡ u)

module _ (parse_uuid : String → Option ℕ) (tasks : TaskProjects) where
  -- A changed row concerns a project: as a task in it, as a decision or learning of such a task, as an
  -- edge that belongs to one, or as a grant whose scope names the project.
  abbrev pub OfProject : Target → ℕ → Type 0
  OfProject (task_record i q) p = q ≡ p
  OfProject (decision_record i t) p = (u : ℕ) × (t ≡ some u) × (lookup u tasks ≡ some p)
  OfProject (learning_record i t) p = (u : ℕ) × (t ≡ some u) × (lookup u tasks ≡ some p)
  OfProject (edge_record e) p = (u : ℕ) × OnTask e u × (lookup u tasks ≡ some p)
  OfProject (capability_grant_record g) p =
      (s : String) × (lookup "project_id" g.scope ≡ some s) × (parse_uuid s ≡ some p)
  OfProject (policy_record i) p = ⊥
  OfProject other_record p = ⊥

  -- An entry may be out of date after the change: it is of the row's project, or the row has none.
  abbrev pub OutOfDate : Target → PacketCacheEntry → Type 0
  OutOfDate target e =
      ((p : ℕ) × OfProject target p × (e.project_id ≡ some p)) ⊎ (¬ ((p : ℕ) × OfProject target p))

  abbrev project_in : Option Described → Option ℕ
  project_in none = none
  project_in (some d) = d.project_id
