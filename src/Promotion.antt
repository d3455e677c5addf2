-- ===== src/Promotion.antt =====
-- Promoting learnings to wider scopes: apps/api/src/agenticqueue_api/learnings/promotion.py. The rows of
-- learnings are in the order of created_at and id; `lower` is `str.lower`.
pub mod Flags
use Prim.Native.Char.{Char}
use Prim.Native.String.{◌++◌ as append}
use agenticqueue.Base.{
  ℕ, zero, suc, ◌+◌, String, Bool, true, false, not, ◌&&◌, ◌||◌, Option, none, some, List, [], ◌∷◌,
  ◌++◌, map, length, ◌==◌, Eq, nat_eq, string_eq, dec_beq, dec_beq_iff, if◌then◌else◌, filterb,
  first, lookup, mem, from_keys, leb, Error, value_error, key_error, Result, ok, err,
}
use agenticqueue.Base.Text.{is_space, strip}

-- `LearningScope`
pub data LearningScope : Type 0 where
  task project global : LearningScope

unfoldable pub LearningScope-discrete : Discrete LearningScope
LearningScope-discrete = hlevel

instance abbrev pub learning_scope_eq : Eq LearningScope
learning_scope_eq = record {
  beq = dec_beq LearningScope-discrete;
  beq_iff = dec_beq_iff LearningScope-discrete;
}

abbrev pub scope_value : LearningScope → String
scope_value task = "task"
scope_value project = "project"
scope_value global = "global"

-- The columns of a `LearningRecord` that promotion reads or writes.
pub record Learning : Type 0 where
  pub id : ℕ
  pub task_id : Option ℕ
  pub title : String
  pub action_rule : String
  pub scope : LearningScope
  pub status : String
  pub promotion_eligible : Bool

-- A confirmed draft, by its learning and the project of its task, as the query joins them.
pub record Draft : Type 0 where
  pub confirmed_learning_id : Option ℕ
  pub project_id : ℕ
  pub draft_status : String

-- The tables: the learnings, the projects of tasks by id, and the drafts with their projects.
pub record Tables : Type 0 where
  pub learnings : List Learning
  pub task_projects : List (ℕ × ℕ)
  pub drafts : List Draft

-- `_LearningOccurrence`; of its learning the id and the scope.
pub record LearningOccurrence : Type 0 where
  pub learning_id : ℕ
  pub scope : LearningScope
  pub project_id : Option ℕ
  pub occurrence_total : ℕ
  pub occurrence_project_ids : List ℕ
  pub signature : String × String

starts_with_space : String → Bool
starts_with_space String.[] = false
starts_with_space (String.◌∷◌ c s) = is_space c

-- `" ".join(text.split())` of a stripped text: a run of white space becomes one space.
squeeze : String → String
squeeze String.[] = ""
squeeze (String.◌∷◌ c s) =
    let rest = squeeze s in
    if is_space c
    then if starts_with_space s then rest else String.◌∷◌ " " rest
    else String.◌∷◌ c rest

-- `_normalize_signature`
unfoldable pub normalize_signature : (String → String) → String → String
unfolding squeeze starts_with_space is_space
normalize_signature lower text = squeeze (lower (strip text))

-- `_eligible_target_scope`
unfoldable pub eligible_target_scope : LearningScope → Result LearningScope
eligible_target_scope task = ok project
eligible_target_scope project = ok global
eligible_target_scope global = err (value_error "global learnings cannot be promoted further")

-- `draft_project_ids.get(learning.id, [])`
abbrev pub merged_projects : ℕ → List Draft → List ℕ
merged_projects i [] = []
merged_projects i (d ∷ ds) =
    let rest = merged_projects i ds in
    if (d.draft_status == "confirmed")
      && elim d.confirmed_learning_id [ none ↦ false | some j ↦ j == i ]
    then d.project_id ∷ rest
    else rest

abbrev pub project_of : Learning → List (ℕ × ℕ) → Option ℕ
project_of l projects = elim l.task_id [ none ↦ none | some t ↦ lookup t projects ]

abbrev pub is_collected : Learning → Bool
is_collected l = (l.status == "active") && not (l.scope == global)

abbrev pub of_option : Option ℕ → List ℕ
of_option none = []
of_option (some p) = p ∷ []

module _ (lower : String → String) (tables : Tables) where
  abbrev pub occurrence_of : Learning → LearningOccurrence
  occurrence_of l =
      let own = of_option (project_of l tables.task_projects) in
      let merged = merged_projects l.id tables.drafts in
      record {
        learning_id = l.id;
        scope = l.scope;
        project_id = project_of l tables.task_projects;
        occurrence_total = length own + length merged;
        occurrence_project_ids = from_keys [] (own ++ merged);
        signature = (normalize_signature lower l.title, normalize_signature lower l.action_rule);
      }

  -- `_collect_occurrences`, of these rows of learnings
  unfoldable pub collect_occurrences : List Learning → List LearningOccurrence
  collect_occurrences rows = map occurrence_of (filterb is_collected rows)

-- The key of a group: a project with the scope of a task, none with that of a project.
abbrev pub GroupKey : Type 0
GroupKey = Option ℕ × (String × String)

abbrev pub key_beq : GroupKey → GroupKey → Bool
key_beq (none, (a, b)) (none, (c, d)) = (a == c) && (b == d)
key_beq (some p, (a, b)) (some q, (c, d)) = (p == q) && ((a == c) && (b == d))
key_beq (none, s) (some q, t) = false
key_beq (some p, s) (none, t) = false

-- The group of an occurrence; one with the scope of a task and no project is in none.
abbrev pub group_key : LearningOccurrence → Option GroupKey
group_key o = elim o.scope [
  | task ↦ elim o.project_id [ none ↦ none | some p ↦ some (some p, o.signature) ]
  | project ↦ some (none, o.signature)
  | global ↦ none
]

abbrev pub sum_totals : List LearningOccurrence → ℕ
sum_totals [] = 0
sum_totals (o ∷ os) = o.occurrence_total + sum_totals os

abbrev pub all_projects : List LearningOccurrence → List ℕ
all_projects [] = []
all_projects (o ∷ os) = o.occurrence_project_ids ++ all_projects os

-- The tests of `total_occurrences` and `distinct_projects`
abbrev pub is_frequent : GroupKey → List LearningOccurrence → Bool
is_frequent (some p, s) group = leb 2 (sum_totals group)
is_frequent (none, s) group =
    leb 3 (sum_totals group) && leb 2 (length (from_keys [] (all_projects group)))

abbrev pub Groups : Type 0
Groups = List (GroupKey × List LearningOccurrence)

-- `groups.setdefault(key, []).append(occurrence)`
unfoldable pub add_to_group : GroupKey → LearningOccurrence → Groups → Groups
add_to_group k o [] = (k, o ∷ []) ∷ []
add_to_group k o ((j, os) ∷ rest) =
    let later = add_to_group k o rest in
    if key_beq j k then (j, os ++ o ∷ []) ∷ rest else (j, os) ∷ later

unfoldable pub group_all : List LearningOccurrence → Groups → Groups
group_all [] groups = groups
group_all (o ∷ os) groups = elim (group_key o) [
  | none ↦ group_all os groups
  | some k ↦ group_all os (add_to_group k o groups)
]

-- `group[0].learning.id` of each group that is frequent enough
unfoldable pub frequent_ids : Groups → List ℕ
frequent_ids [] = []
frequent_ids ((k, []) ∷ rest) = frequent_ids rest
frequent_ids ((k, o ∷ os) ∷ rest) =
    let later = frequent_ids rest in if is_frequent k (o ∷ os) then o.learning_id ∷ later else later

-- `_eligible_learning_ids`
unfoldable pub eligible_learning_ids : List LearningOccurrence → List ℕ
eligible_learning_ids os = frequent_ids (group_all os [])

-- The flag that a row is left with: that of an occurrence says whether it is eligible, and no global
-- learning keeps one.
abbrev pub flag_of : List ℕ → Learning → Bool
flag_of eligible l =
    if is_collected l then mem l.id eligible else l.promotion_eligible && not (l.scope == global)

abbrev pub flagged : List ℕ → Learning → Learning
flagged eligible l = record l { promotion_eligible = flag_of eligible l }

abbrev pub at_scope : ℕ → LearningScope → Learning → Learning
at_scope i target l =
    if l.id == i then record l { scope = target; promotion_eligible = false } else l

module _ (lower : String → String) (text : ℕ → String) (tables : Tables) where
  abbrev pub eligible_in : List Learning → List ℕ
  eligible_in rows = eligible_learning_ids (collect_occurrences lower tables rows)

  -- `auto_promote_candidates`: the rows that it leaves. The candidates are the flagged occurrences.
  unfoldable pub auto_promote_candidates : List Learning → List Learning
  auto_promote_candidates rows = map (flagged (eligible_in rows)) rows

  -- `promote` once it knows the next scope.
  abbrev pub widened :
      Learning → LearningScope → List Learning → Result LearningScope → Result (List Learning)
  widened l target rows (err e) = err e
  widened l target rows (ok allowed) =
      if target == allowed
      then ok (auto_promote_candidates (map (at_scope l.id target) rows))
      else err (
          value_error (
            append (scope_value l.scope)
              (append " learnings can only promote to " (scope_value allowed))))

  -- `promote` of a row that was found.
  abbrev pub promote_row : Learning → LearningScope → List Learning → Result (List Learning)
  promote_row l target rows =
      if not (l.status == "active")
      then err (value_error "only active learnings can be promoted")
      else widened l target rows (eligible_target_scope l.scope)

  -- `promote`: the rows that it leaves.
  unfoldable pub promote : ℕ → LearningScope → List Learning → Result (List Learning)
  promote i target rows = elim (first (λ l. l.id == i) rows) [
    | none ↦ err (key_error (text i))
    | some l ↦ promote_row l target rows
  ]
