-- ===== src/Tests/Rows.antt =====
-- The rows, policies and actors of the runs of task_actions.py.
use agenticqueue.Base.{ℕ, String, true, Option, none, some, [], ◌∷◌, string_eq, nat_eq, ok}
use agenticqueue.Base.Int.{pos}
use agenticqueue.Json.{Json, Fields}
use agenticqueue.Task.{Task}
use agenticqueue.Dod.{DodReport, checked, dod_report_view}
use agenticqueue.Edge.{Edge, depends_on}
use agenticqueue.Transition.CodingTask.{coding_task}
use agenticqueue.Store.{Db, Session, Run}
use agenticqueue.Actions.Common.{Actor, Env}

abbrev pub environment : Env
environment = record {
  load_transition_policy = λ t. ok coding_task;
  default_policy = record {
    id = 0;
    name = "default";
    version = "1.0.0";
    hitl_required = true;
    autonomy_tier = 3;
    capabilities = [];
    body = Fields.end;
  };
  policy_pack = λ t. none;
  uuid_text = λ i. "project";
  render = λ j. "";
  note_text = λ n. "note";
  now = 1000;
}

abbrev pub reviewer : Actor
reviewer = record { id = 5; actor_type = "admin" }

abbrev pub stranger : Actor
stranger = record { id = 6; actor_type = "agent" }

abbrev pub task_row : ℕ → String → Task
task_row i s = record {
  id = i;
  project_id = 7;
  policy_id = none;
  task_type = "coding-task";
  state = s;
  priority = pos 0;
  labels = [];
  sequence = i;
  claimed_by_actor_id = some 5;
  claimed_at = some 10;
  contract = ("autonomy_tier", Json.int (pos 2)) ∷ [];
  attempt_count = 2;
  last_failure = none;
}

abbrev pub report : DodReport
report = record {
  checklist = record { item = "tests"; state = checked; note = "" } ∷ [];
  checked_count = 1;
  partial_count = 0;
  unchecked_blocked_count = 0;
  unchecked_unmet_count = 0;
}

abbrev pub report_json : Option Json
report_json = dod_report_view (some report)

abbrev pub old_run : Run
old_run = record {
  id = 40;
  task_id = 1;
  packet_version_id = none;
  actor_id = 5;
  status = "validated";
  started_at = 1;
  ended_at = 2;
  summary = "";
  submission = Json.null;
  transitions = [];
  next_action = "await_human_approval";
  dod_report = report_json;
}

-- Task 2 waits for task 1.
abbrev pub waits_for : Edge
waits_for = record {
  id = 30;
  src_entity_type = "task";
  src_id = 2;
  dst_entity_type = "task";
  dst_id = 1;
  relation = depends_on;
  edge_metadata = Fields.end;
  created_by = none;
}

abbrev pub tables : String → Db
tables s = record {
  tasks = task_row 1 s ∷ task_row 2 "blocked" ∷ [];
  edges = waits_for ∷ [];
  grants = [];
  projects = [];
  workspaces = [];
  policies = [];
  runs = old_run ∷ [];
  artifacts = [];
  drafts = [];
  packet_versions = [];
  audit = [];
}

abbrev pub session : String → Session
session s = record { committed = tables s; working = tables s; fresh = 100; dlq_count = 0 }
