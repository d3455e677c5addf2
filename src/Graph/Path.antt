-- ===== src/Graph/Path.antt =====
-- What a found path is (repo/graph.py).
use agenticqueue.Base.{
  ℕ, zero, suc, ◌≤◌, ◌<◌, ◌≡◌, refl, subst, true, Option, none, some, List, [], ◌∷◌, ◌++◌, length,
  length-append, ◌==◌, ==_iff, nat_eq, leb, In, In-filterb, All, ◌&&◌, arith, Bool-cases, inl, inr,
  &&-true,
}
use agenticqueue.Edge.{Edge, EdgeRelation, active_edge_condition}
use agenticqueue.Graph.{
  Node, node_eq, source_of, target_of, GraphPath, Entry, selected, of_types, leaving,
  reached_earlier, Scan, found, pending, extend, scan, search, start_at, path_between,
}

-- A chain of edges of the table, with the nodes and the relations on the way.
pub data Chain (rows : List Edge) (start : Node)
    : List Node → List EdgeRelation → Node → Type 0 where
  stop : Chain rows start (start ∷ []) [] start
  step :
      {ns : List Node} {rs : List EdgeRelation} {n : Node} (e : Edge)
      → Chain rows start ns rs n
      → In e rows
      → source_of e ≡ n
      → Chain rows start (ns ++ target_of e ∷ []) (rs ++ e.relation ∷ []) (target_of e)

abbrev pub IsChain : List Edge → Node → Entry → Type 0
IsChain rows start x = Chain rows start x.node_path x.relation_path x.current

All-snoc :
    (P : Entry → Type 0) (xs : List Entry) (y : Entry) → All P xs → P y → All P (xs ++ y ∷ [])
All-snoc P [] y h k = (k, tt)
All-snoc P (x ∷ xs) y h k = (h.0, All-snoc P xs y h.1 k)

module _ (rows : List Edge) (start target : Node) (max_depth : ℕ) where
  -- What the search promises of its result.
  abbrev Sound : Option GraphPath → Type 0
  Sound none = Unit
  Sound (some p) = Chain rows start p.nodes p.relations target × (length p.relations ≤ max_depth)

  abbrev SoundScan : Scan → Type 0
  SoundScan (found p) = Sound (some p)
  SoundScan (pending visited queue) = All (IsChain rows start) queue

  scan-SoundScan :
      (x : Entry) (es : List Edge) (visited : List (Node × ℕ)) (queue : List Entry)
      → IsChain rows start x
      → length x.relation_path < max_depth
      → ((e : Edge) → In e es → In e rows × (source_of e ≡ x.current))
      → All (IsChain rows start) queue
      → SoundScan (scan target x es visited queue)
  unfolding scan
  scan-SoundScan x [] visited queue c short from q = q
  scan-SoundScan x (e ∷ es) visited queue c short from q =
      let (row, leaves) = from e (inl refl) in
      let longer = step e c row leaves in
      let rest : (f : Edge) → In f es → In f rows × (source_of f ≡ x.current) =
        λ f m. from f (inr m) in
      elim (Bool-cases (reached_earlier (target_of e) (suc (length x.relation_path)) visited)) [
        | inl earlier ↦ rw (earlier, scan) (scan-SoundScan x es visited queue c short rest q)
        | inr first_time ↦ elim (Bool-cases (target_of e == target)) [
          | inl arrived ↦
              rw (first_time, arrived, scan)
                (
                  subst (Chain rows start _ _) ((==_iff (target_of e) target).0 arrived) longer,
                  let one_more = length-append x.relation_path (e.relation ∷ []) in
                      omega (arith, one_more, short),
                )
          | inr elsewhere ↦
              rw (first_time, elsewhere, scan)
                (scan-SoundScan x es _ (queue ++ extend x e ∷ []) c short rest
                  (All-snoc (IsChain rows start) queue (extend x e) q longer))
        ]
      ]

  go_on :
      (fuel : ℕ)
      → ((queue : List Entry) (visited : List (Node × ℕ))
          → All (IsChain rows start) queue
          → Sound (search target fuel max_depth rows queue visited))
      → (r : Scan) → SoundScan r
      → Sound (elim r [
        | found p ↦ some p
        | pending visited' queue' ↦ search target fuel max_depth rows queue' visited'
      ])
  go_on fuel next (found p) s = s
  go_on fuel next (pending visited' queue') s = next queue' visited' s

  search-Sound :
      (fuel : ℕ) (queue : List Entry) (visited : List (Node × ℕ))
      → All (IsChain rows start) queue
      → Sound (search target fuel max_depth rows queue visited)
  unfolding search
  search-Sound zero queue visited q = tt
  search-Sound (suc fuel) [] visited q = tt
  search-Sound (suc fuel) (x ∷ queue) visited q =
      elim (Bool-cases (leb max_depth (length x.relation_path))) [
        | inl deep ↦ rw (deep, search) (search-Sound fuel queue visited q.1)
        | inr shallow ↦
            let short : length x.relation_path < max_depth = ground arith in
            rw (shallow, search)
              (go_on fuel (search-Sound fuel) (scan target x (leaving x.current rows) visited queue)
                (scan-SoundScan x (leaving x.current rows) visited queue q.0 short
                  (λ e m.
                    let (row, leaves) = In-filterb (λ e. source_of e == x.current) e rows m in
                    (row, (==_iff (source_of e) x.current).0 leaves))
                  q.1))
      ]

-- The rows that a search walks over are active and of the relations asked for.
pub record Walkable (types : Option (List EdgeRelation)) (edges : List Edge) (e : Edge)
    : Type 0 where
  pub row : In e edges
  pub active : active_edge_condition e.edge_metadata ≡ true
  pub of_type : of_types types e ≡ true

pub selected-Walkable :
    (types : Option (List EdgeRelation)) (edges : List Edge) (e : Edge)
    → In e (selected types edges)
    → Walkable types edges e
unfolding selected
selected-Walkable types edges e m =
    let (row, tests) =
      In-filterb (λ e. active_edge_condition e.edge_metadata && of_types types e) e edges m in
    record { row = row; active = (&&-true _ _ tests).0; of_type = (&&-true _ _ tests).1 }

-- A path that is found is a chain of active edges of the relations asked for, from the source to the
-- target, and no longer than the bound.
pub path_between-Chain :
    (edges : List Edge) (source target : Node) (types : Option (List EdgeRelation)) (max_depth : ℕ)
    (p : GraphPath)
    → path_between edges source target types max_depth ≡ some p
    → Chain (selected types edges) source p.nodes p.relations target
      × (length p.relations ≤ max_depth)
      × ((e : Edge) → In e (selected types edges) → Walkable types edges e)
unfolding path_between
path_between-Chain edges source target types max_depth p h =
    let (chain, short) = subst (Sound (selected types edges) source target max_depth) h (
      search-Sound (selected types edges) source target max_depth _ (start_at source)
        ((source, 0) ∷ []) (stop, tt)) in
    (chain, short, selected-Walkable types edges)
