-- ===== src/Graph/Complete.antt =====
-- The breadth-first search of repo/graph.py misses no path within its bound, and the fuel of the model
-- is enough for it.
use agenticqueue.Base.{
  ℕ, suc, ◌*◌, ◌≤◌, ◌≡◌, ◌≢◌, refl, sym, ap, Option, none, some, List, [], ◌∷◌, length, map, ◌==◌,
  ==_iff, ==_refl, nat_eq, arith, Bool-cases, Option-cases, inl, inr, lookup,
}
use agenticqueue.Edge.{Edge, EdgeRelation}
use agenticqueue.Graph.{
  Node, node_eq, target_of, GraphPath, selected, fuel_for, start_at, path_between,
}
use agenticqueue.Graph.Path.{Chain}
use agenticqueue.Graph.Room.{Visits}
use agenticqueue.Graph.Settled.{Frontier, search-Ends, Chain-Within, potential-start}

length-map : (rows : List Edge) → length (map target_of rows) ≡ length rows
length-map [] = refl
length-map (e ∷ rows) = ap suc (length-map rows)

-- Between different nodes, the search finds a path whenever a chain of active edges of the relations
-- asked for joins them within the bound.
pub path_between_complete :
    (edges : List Edge) (source target : Node) (types : Option (List EdgeRelation)) (max_depth : ℕ)
    {ns : List Node} {rs : List EdgeRelation}
    → source ≢ target
    → Chain (selected types edges) source ns rs target
    → length rs ≤ max_depth
    → (p : GraphPath) × (path_between edges source target types max_depth ≡ some p)
unfolding path_between fuel_for
path_between_complete edges source target types max_depth apart chain short =
    elim (Option-cases (path_between edges source target types max_depth)) [
      | inr there ↦ there
      | inl missed ↦ absurd (no_miss missed)
    ]
  where
    rows : List Edge
    rows = selected types edges

    begun : Visits
    begun = (source, 0) ∷ []

    none_there : lookup target begun ≡ none
    none_there = elim (Bool-cases (source == target)) [
      | inl same ↦ absurd (apart ((==_iff source target).0 same))
      | inr other ↦ rw other refl
    ]

    starts : Frontier rows target max_depth begun (start_at source)
    starts n d there = elim (Bool-cases (source == n)) [
      | inl same ↦ inl (_, inl refl, (==_iff source n).0 same, omega arith)
      | inr other ↦ let there' = rw other at there in cc
    ]

    no_miss : ¬ (path_between edges source target types max_depth ≡ none)
    no_miss h =
        let size = potential-start rows target max_depth source (map target_of rows) in
        let count = ap (λ k. k * suc max_depth) (length-map rows) in
        let (v, settled, lower) =
          search-Ends rows target max_depth (fuel_for max_depth rows) (start_at source) begun
            (omega (arith, size, count)) none_there starts h in
        let (k, there, near) = lower source 0 (rw (==_refl source) refl) in
        elim (Chain-Within rows target max_depth source v settled (k, there, near) chain short).1 [
          | inl same ↦ apart (sym same)
          | inr other ↦ other refl
        ]
