-- ===== src/Actions/Dependents.antt =====
-- `_active_dependency_target_ids` and `_unblock_ready_dependents` (task_actions.py).
pub mod Edges
pub mod Loop
pub mod Ready
use agenticqueue.Base.{
  ℕ, String, Bool, true, false, not, ◌&&◌, Option, none, some, List, [], ◌∷◌, ◌++◌, map, ◌==◌,
  nat_eq, string_eq, if◌then◌else◌, all, filterb, from_keys, length, ok,
}
use agenticqueue.Task.{Task, blocked, done, queued, state_value}
use agenticqueue.Edge.{Edge, depends_on, edge_relation_eq, edge_metadata_marks_superseded}
use agenticqueue.Queue.{update_where, free_row}
use agenticqueue.Queue.Rows.{find_task}
use agenticqueue.Store.{Db, Exec, AuditRow, unblocked_by}

-- An edge by which one task depends on another.
abbrev pub is_task_dependency : Edge → Bool
is_task_dependency e =
    (e.src_entity_type == "task") && (e.dst_entity_type == "task") && (e.relation == depends_on)

unfoldable pub active_dependency_target_ids : ℕ → List Edge → List ℕ
active_dependency_target_ids i edges =
    map (λ e. e.dst_id)
      (filterb (λ e. not (edge_metadata_marks_superseded e.edge_metadata))
        (filterb (λ e. is_task_dependency e && (e.src_id == i)) edges))

unfoldable pub dependent_ids : ℕ → List Edge → List ℕ
dependent_ids i edges =
    from_keys []
      (map (λ e. e.src_id) (filterb (λ e. is_task_dependency e && (e.dst_id == i)) edges))

-- `dependency_states.get(dependency_id) == "done"`
abbrev pub is_done : List Task → ℕ → Bool
is_done tasks i = elim (find_task i tasks) [ none ↦ false | some t ↦ t.state == state_value done ]

abbrev pub all_done : List Task → List ℕ → Bool
all_done tasks [] = false
all_done tasks (d ∷ ds) = all (is_done tasks) (d ∷ ds)

abbrev pub is_blocked : List Task → ℕ → Bool
is_blocked tasks i = elim (find_task i tasks) [
  | none ↦ false
  | some t ↦ t.state == state_value blocked
]

-- The tests of one round of the loop.
unfoldable pub is_ready : List Edge → List Task → ℕ → Bool
is_ready edges tasks i = is_blocked tasks i && all_done tasks (active_dependency_target_ids i edges)

abbrev pub unblocked_row : ℕ → Option ℕ → ℕ → ℕ → AuditRow
unblocked_row i actor completed count = record {
  actor_id = actor;
  entity_type = "task";
  entity_id = some i;
  action = "JOB_UNBLOCKED";
  after = unblocked_by (state_value queued) completed count;
}

module _ (completed : ℕ) (actor : Option ℕ) where
  unfoldable pub unblock_one : ℕ → Db → Db
  unblock_one i db = record db {
    tasks = update_where i (free_row (state_value queued)) db.tasks;
    audit =
        db.audit
        ++ unblocked_row i actor completed (length (active_dependency_target_ids i db.edges)) ∷ [];
  }

  -- The loop, with the ids that it unblocked.
  unfoldable pub unblock_each : List ℕ → Db → List ℕ × Db
  unblock_each [] db = ([], db)
  unblock_each (i ∷ is) db = elim (is_ready db.edges db.tasks i) [
    | true ↦ let (ids, db') = unblock_each is (unblock_one i db) in (i ∷ ids, db')
    | false ↦ unblock_each is db
  ]

  unfoldable pub unblock_ready_dependents : Exec (List ℕ)
  unblock_ready_dependents s =
      let (ids, db) = unblock_each (dependent_ids completed s.working.edges) s.working in
      (ok ids, record s { working = db })
