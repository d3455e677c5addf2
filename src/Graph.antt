-- ===== src/Graph.antt =====
-- Shortest paths and the cycle check of apps/api/src/agenticqueue_api/repo/graph.py, over the edge rows
-- in the order of creation.
pub mod Path
pub mod Room
pub mod Visited
pub mod Settled
pub mod Complete
use agenticqueue.Base.{
  ℕ, zero, suc, ◌+◌, ◌*◌, String, Bool, true, false, not, ◌&&◌, Option, none, some, List, [], ◌∷◌,
  ◌++◌, map, length, ◌==◌, Eq, nat_eq, string_eq, if◌then◌else◌, leb, filterb, lookup, mem, &&-true,
  &&-intro, ==_iff, ◌≡◌, ◌↔◌, refl, Error, value_error, Result, ok, err,
}
use agenticqueue.Base.Text.{strip, nonempty}
use agenticqueue.Edge.{Edge, EdgeRelation, edge_relation_eq, depends_on, active_edge_condition}

-- `GraphEntityRef`
pub record Node : Type 0 where
  pub entity_type : String
  pub entity_id : ℕ

abbrev pub node_beq : Node → Node → Bool
node_beq a b = (a.entity_type == b.entity_type) && (a.entity_id == b.entity_id)

pub node_beq_iff : (a b : Node) → (node_beq a b ≡ true) ↔ (a ≡ b)
node_beq_iff a b = (
  λ h.
      let (same_type, same_id) = &&-true _ _ h in
      let t : a.entity_type ≡ b.entity_type = (==_iff a.entity_type b.entity_type).0 same_type in
      let n : a.entity_id ≡ b.entity_id = (==_iff a.entity_id b.entity_id).0 same_id in
      λ i. record { entity_type = t i; entity_id = n i },
  λ e. rw e (
      &&-intro ((==_iff b.entity_type b.entity_type).1 refl)
        ((==_iff b.entity_id b.entity_id).1 refl)),
)

instance abbrev pub node_eq : Eq Node
node_eq = record { beq = node_beq; beq_iff = node_beq_iff }

abbrev pub source_of : Edge → Node
source_of e = record { entity_type = e.src_entity_type; entity_id = e.src_id }

abbrev pub target_of : Edge → Node
target_of e = record { entity_type = e.dst_entity_type; entity_id = e.dst_id }

-- `GraphPath`
pub record GraphPath : Type 0 where
  pub nodes : List Node
  pub relations : List EdgeRelation

-- An entry of the search's queue.
pub record Entry : Type 0 where
  pub current : Node
  pub node_path : List Node
  pub relation_path : List EdgeRelation

-- The rows that the statement selects.
abbrev pub of_types : Option (List EdgeRelation) → Edge → Bool
of_types none e = true
of_types (some types) e = mem e.relation types

unfoldable pub selected : Option (List EdgeRelation) → List Edge → List Edge
selected types = filterb (λ e. active_edge_condition e.edge_metadata && of_types types e)

-- `adjacency[node]`, as the edges that leave the node
abbrev pub leaving : Node → List Edge → List Edge
leaving n = filterb (λ e. source_of e == n)

abbrev pub reached_earlier : Node → ℕ → List (Node × ℕ) → Bool
reached_earlier n depth visited = elim (lookup n visited) [ none ↦ false | some d ↦ leb d depth ]

-- What looking at the neighbours of one entry gives: a path to the target, or the search goes on.
pub data Scan : Type 0 where
  found : GraphPath → Scan
  pending : List (Node × ℕ) → List Entry → Scan

abbrev pub extend : Entry → Edge → Entry
extend x e = record {
  current = target_of e;
  node_path = x.node_path ++ target_of e ∷ [];
  relation_path = x.relation_path ++ e.relation ∷ [];
}

module _ (target : Node) where
  -- The `for` loop over the neighbours of an entry.
  unfoldable pub scan : Entry → List Edge → List (Node × ℕ) → List Entry → Scan
  scan x [] visited queue = pending visited queue
  scan x (e ∷ es) visited queue =
      let depth = suc (length x.relation_path) in
      let y = extend x e in
      let skipped = scan x es visited queue in
      let queued = scan x es ((target_of e, depth) ∷ visited) (queue ++ y ∷ []) in
      if reached_earlier (target_of e) depth visited
      then skipped
      else if target_of e == target
      then found (record { nodes = y.node_path; relations = y.relation_path })
      else queued

  -- The `while` loop, on fuel.
  unfoldable pub search : ℕ → ℕ → List Edge → List Entry → List (Node × ℕ) → Option GraphPath
  search zero max_depth rows queue visited = none
  search (suc fuel) max_depth rows [] visited = none
  search (suc fuel) max_depth rows (x ∷ queue) visited =
      let dropped = search fuel max_depth rows queue visited in
      if leb max_depth (length x.relation_path)
      then dropped
      else elim (scan x (leaving x.current rows) visited queue) [
        | found p ↦ some p
        | pending visited' queue' ↦ search fuel max_depth rows queue' visited'
      ]

-- Each row's target is queued at most once for each depth up to the bound.
unfoldable pub fuel_for : ℕ → List Edge → ℕ
fuel_for max_depth rows = suc (suc (length rows * suc max_depth))

-- `_normalize_entity_type`
unfoldable pub normalize_entity_type : String → Result String
normalize_entity_type s =
    if nonempty (strip s) then ok (strip s) else err (value_error "entity_type must not be empty")

abbrev pub start_at : Node → List Entry
start_at n = record { current = n; node_path = n ∷ []; relation_path = [] } ∷ []

-- `shortest_path` on normalised nodes
unfoldable pub path_between :
    List Edge → Node → Node → Option (List EdgeRelation) → ℕ → Option GraphPath
path_between edges source target types max_depth =
    let rows = selected types edges in
    search target (fuel_for max_depth rows) max_depth rows (start_at source) ((source, 0) ∷ [])

unfoldable pub shortest_path :
    List Edge → String → ℕ → String → ℕ → Option (List EdgeRelation) → ℕ → Result (Option GraphPath)
shortest_path edges src_type src_id dst_type dst_id types max_depth =
    if leb 1 max_depth
    then elim (normalize_entity_type src_type) [
      | err e ↦ err e
      | ok s ↦ elim (normalize_entity_type dst_type) [
        | err e ↦ err e
        | ok d ↦ ok (
            path_between edges (record { entity_type = s; entity_id = src_id })
              (record { entity_type = d; entity_id = dst_id }) types max_depth)
      ]
    ]
    else err (value_error "max_depth must be at least 1")

-- `ensure_dependency_edge_is_acyclic`, on normalised nodes: the path that the proposed edge closes is
-- in the error. `CycleError` is a `ValueError`.
pub data CycleCheck : Type 0 where
  acyclic : CycleCheck
  same_node : CycleCheck
  closes : GraphPath → CycleCheck

unfoldable pub check_cycle : List Edge → Node → Node → ℕ → CycleCheck
check_cycle edges source target max_depth =
    if source == target
    then same_node
    else elim (path_between edges target source (some (depends_on ∷ [])) max_depth) [
      | none ↦ acyclic
      | some p ↦ closes (record p { nodes = source ∷ p.nodes })
    ]
