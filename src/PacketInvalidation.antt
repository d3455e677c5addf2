-- ===== src/PacketInvalidation.antt =====
-- What a row change tells the packet cache: apps/api/src/agenticqueue_api/packet_invalidation.py. `text`
-- is `str` of an id and `parse_uuid` its inverse; the notification arrives as the message that was sent.
pub mod Removal
use Prim.Native.String.{◌++◌ as append}
use mathlib.Core.Option
use agenticqueue.Base.{
  ℕ, String, Bool, true, false, Option, none, some, List, [], ◌∷◌, ◌==◌, nat_eq, string_eq,
  if◌then◌else◌, first, lookup,
}
use agenticqueue.Json.{Json, Fields}
use agenticqueue.Edge.{Edge}
use agenticqueue.Capability.{Grant}
use agenticqueue.PacketCache.{Notification, message}

-- `target`: the row that was inserted, updated or deleted, by its class. Of a task row its id and
-- project are read, of a decision and a learning their id and task.
pub data Target : Type 0 where
  task_record : (id project_id : ℕ) → Target
  decision_record learning_record : (id : ℕ) → (task_id : Option ℕ) → Target
  edge_record : Edge → Target
  capability_grant_record : Grant → Target
  policy_record : (id : ℕ) → Target
  other_record : Target

-- The class name of a target, plain and in lower case, its id, and the project that it concerns.
pub record Described : Type 0 where
  pub name : String
  pub lower_name : String
  pub entity_id : ℕ
  pub project_id : Option ℕ

-- The columns `id` and `project_id` of the task table.
abbrev pub TaskProjects : Type 0
TaskProjects = List (ℕ × ℕ)

-- `_project_id_for_task`
unfoldable pub project_id_for_task : Option ℕ → TaskProjects → Option ℕ
project_id_for_task none tasks = none
project_id_for_task (some t) tasks = lookup t tasks

abbrev pub task_of_edge : Edge → Option ℕ
task_of_edge e =
    if e.src_entity_type == "task"
    then some e.src_id
    else if e.dst_entity_type == "task"
    then some e.dst_id
    else none

-- `_capability_project_id`
unfoldable pub capability_project_id : (String → Option ℕ) → Grant → Option ℕ
capability_project_id parse_uuid g = elim (lookup "project_id" g.scope) [
  | none ↦ none
  | some s ↦ parse_uuid s
]

module _ (parse_uuid : String → Option ℕ) (tasks : TaskProjects) where
  -- What is read of a target that is published.
  unfoldable pub described : Target → Option Described
  described (task_record i p) = some (record {
    name = "TaskRecord";
    lower_name = "taskrecord";
    entity_id = i;
    project_id = some p;
  })
  described (decision_record i t) = some (record {
    name = "DecisionRecord";
    lower_name = "decisionrecord";
    entity_id = i;
    project_id = project_id_for_task t tasks;
  })
  described (learning_record i t) = some (record {
    name = "LearningRecord";
    lower_name = "learningrecord";
    entity_id = i;
    project_id = project_id_for_task t tasks;
  })
  described (edge_record e) = some (record {
    name = "EdgeRecord";
    lower_name = "edgerecord";
    entity_id = e.id;
    project_id = project_id_for_task (task_of_edge e) tasks;
  })
  described (capability_grant_record g) = some (record {
    name = "CapabilityGrantRecord";
    lower_name = "capabilitygrantrecord";
    entity_id = g.id;
    project_id = capability_project_id parse_uuid g;
  })
  described (policy_record i) = some (record {
    name = "PolicyRecord";
    lower_name = "policyrecord";
    entity_id = i;
    project_id = none;
  })
  described other_record = none

-- The dictionary that is published.
unfoldable pub payload_of : (ℕ → String) → Described → String → Fields
payload_of text d action = Fields.field "entity_type" (Json.text d.name) (
    Fields.field "action" (Json.text action) (
      Fields.field "entity_id" (Json.text (text d.entity_id)) (
        Fields.field "project_id"
          (elim d.project_id [ none ↦ Json.null | some p ↦ Json.text (text p) ])
          (Fields.field "invalidate_all"
            (Json.boolean (elim d.project_id [ none ↦ true | some p ↦ false ]))
            (Fields.field "reason" (Json.text (append d.lower_name (append ":" action)))
              Fields.end)))))

module _ (parse_uuid : String → Option ℕ) (tasks : TaskProjects) (text : ℕ → String) where
  -- `_payload_for_target`
  unfoldable pub payload_for_target : Target → String → Option Fields
  payload_for_target target action =
      Option.map (λ d. payload_of text d action) (described parse_uuid tasks target)

  -- `_publish_invalidation`: the notification that is sent, if any.
  unfoldable pub publish_invalidation : Target → String → Option Notification
  publish_invalidation target action =
      Option.map (λ fs. message (some (Json.object fs))) (payload_for_target target action)
