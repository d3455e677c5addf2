-- ===== src/Tests/Graph.antt =====
-- Runs of repo/graph.py.
use agenticqueue.Base.{
  ℕ, ◌≡◌, ◌≢◌, refl, ap, inl, inr, none, some, List, [], ◌∷◌, string_eq, nat_eq, arith,
}
use agenticqueue.Json.{Json, Fields, get_field}
use agenticqueue.Edge.{
  Edge, EdgeRelation-discrete, depends_on, astext_is_null, astext_is, active_edge_condition,
}
use agenticqueue.Graph.{
  Node, GraphPath, selected, scan, search, fuel_for, path_between, check_cycle, acyclic, closes,
}
use agenticqueue.Graph.Path.{Chain, stop, step, path_between-Chain}
use agenticqueue.Graph.Complete.{path_between_complete}

abbrev task_node : ℕ → Node
task_node i = record { entity_type = "task"; entity_id = i }

abbrev dependency : ℕ → ℕ → Fields → Edge
dependency i j metadata = record {
  id = 10;
  src_entity_type = "task";
  src_id = i;
  dst_entity_type = "task";
  dst_id = j;
  relation = depends_on;
  edge_metadata = metadata;
  created_by = none;
}

-- Task 1 depends on 2, 2 on 3, and no longer on 4.
abbrev edges : List Edge
edges =
    dependency 1 2 Fields.end
    ∷ dependency 2 3 Fields.end
    ∷ dependency 2 4 (Fields.field "status" (Json.text "superseded") Fields.end)
    ∷ []

abbrev one_to_three : GraphPath
one_to_three = record {
  nodes = task_node 1 ∷ task_node 2 ∷ task_node 3 ∷ [];
  relations = depends_on ∷ depends_on ∷ [];
}

finds_path :
    path_between edges (task_node 1) (task_node 3) (some (depends_on ∷ [])) 100 ≡ some one_to_three
unfolding path_between fuel_for selected search scan active_edge_condition astext_is_null astext_is
    get_field EdgeRelation-discrete
finds_path = refl

closes_cycle :
    check_cycle edges (task_node 3) (task_node 1) 100
    ≡ closes (record one_to_three { nodes = task_node 3 ∷ one_to_three.nodes })
unfolding check_cycle path_between fuel_for selected search scan active_edge_condition
    astext_is_null astext_is get_field EdgeRelation-discrete
closes_cycle = refl

-- With a bound of one edge, the same cycle is not seen.
cycle_beyond_bound : check_cycle edges (task_node 3) (task_node 1) 1 ≡ acyclic
unfolding check_cycle path_between fuel_for selected search scan active_edge_condition
    astext_is_null astext_is get_field EdgeRelation-discrete
cycle_beyond_bound = refl

path_between-Chain_example :
    Chain
      (selected (some (depends_on ∷ [])) edges)
      (task_node 1)
      one_to_three.nodes
      one_to_three.relations
      (task_node 3)
path_between-Chain_example =
    (path_between-Chain edges (task_node 1) (task_node 3) (some (depends_on ∷ [])) 100 one_to_three
      finds_path).0

walk :
    Chain
      (selected (some (depends_on ∷ [])) edges)
      (task_node 1)
      one_to_three.nodes
      one_to_three.relations
      (task_node 3)
unfolding selected active_edge_condition astext_is_null astext_is get_field EdgeRelation-discrete
walk =
    step (dependency 2 3 Fields.end) (step (dependency 1 2 Fields.end) stop (inl refl) refl)
      (inr (inl refl)) refl

one-ne-three : task_node 1 ≢ task_node 3
one-ne-three e = let e' = ap (λ (n : Node). n.entity_id) e in omega (arith, e')

path_between_complete_example :
    (p : GraphPath) × (path_between edges (task_node 1) (task_node 3) (some (depends_on ∷ [])) 2
      ≡ some p)
path_between_complete_example =
    path_between_complete edges (task_node 1) (task_node 3) (some (depends_on ∷ [])) 2 one-ne-three
      walk (omega arith)
