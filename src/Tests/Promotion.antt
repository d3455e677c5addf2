-- ===== src/Tests/Promotion.antt =====
-- Runs of learnings/promotion.py.
use agenticqueue.Base.{
  ℕ, String, true, false, List, [], ◌∷◌, ◌≡◌, refl, some, nat_eq, string_eq, map, err, value_error,
  from_keys,
}
use agenticqueue.Base.Text.{strip}
use agenticqueue.Promotion.{
  LearningScope, task, project, global, LearningScope-discrete, Learning, Tables,
  normalize_signature, eligible_target_scope, collect_occurrences, add_to_group, group_all,
  frequent_ids, eligible_learning_ids, auto_promote_candidates, promote,
}

abbrev learning : ℕ → ℕ → LearningScope → String → Learning
learning i t scope title = record {
  id = i;
  task_id = some t;
  title = title;
  action_rule = "Run the tests";
  scope = scope;
  status = "active";
  promotion_eligible = false;
}

-- Tasks 1 and 2 are in project 7, task 3 in project 8.
abbrev tables : Tables
tables = record { learnings = []; task_projects = (1, 7) ∷ (2, 7) ∷ (3, 8) ∷ []; drafts = [] }

abbrev rows : List Learning
rows =
    learning 1 1 task "Check  first"
    ∷ learning 2 2 task " Check first "
    ∷ learning 3 3 task "Check first"
    ∷ []

abbrev lower : String → String
lower s = s

abbrev text : ℕ → String
text n = "id"

-- The first of the two that agree in project 7 is eligible.
flags :
    map (λ (l : Learning). l.promotion_eligible) (auto_promote_candidates lower text tables rows)
    ≡ true ∷ false ∷ false ∷ []
unfolding auto_promote_candidates collect_occurrences eligible_learning_ids frequent_ids group_all
    add_to_group normalize_signature strip LearningScope-discrete from_keys
flags = refl

abbrev promoted : List Learning
promoted =
    learning 1 1 project "Check  first"
    ∷ learning 2 2 task " Check first "
    ∷ learning 3 3 task "Check first"
    ∷ []

skipped :
    promote lower text tables 1 global rows
    ≡ err (value_error "task learnings can only promote to project")
unfolding promote eligible_target_scope LearningScope-discrete
skipped = refl
