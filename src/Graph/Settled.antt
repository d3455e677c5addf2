-- ===== src/Graph/Settled.antt =====
-- The search of path_between (graph.py) ends with every node settled that it has to reach.
use agenticqueue.Base.{
  ℕ, zero, suc, ◌+◌, ◌*◌, ◌≤◌, ◌<◌, ◌≡◌, ◌≢◌, refl, sym, ap, ◌∙◌, ◌⊎◌, none, some, List, [], ◌∷◌,
  length, length-append, map, ◌==◌, ==_iff, nat_eq, leb, In, In-filterb, filterb-In, arith,
  Bool-cases, inl, inr, lookup,
}
use agenticqueue.Edge.{Edge, EdgeRelation}
use agenticqueue.Graph.{
  Node, node_eq, source_of, target_of, Entry, leaving, Scan, found, pending, scan, search,
}
use agenticqueue.Graph.Path.{Chain, stop, step}
use agenticqueue.Graph.Visited.{Scanned, AllScanned, scan-AllScanned}
use agenticqueue.Graph.Room.{Visits, Within, potential}

In-map : (e : Edge) (es : List Edge) → In e es → In (target_of e) (map target_of es)
In-map e [] m = absurd m
In-map e (f ∷ es) m = elim m [ inl q ↦ inl (ap target_of q) | inr m' ↦ inr (In-map e es m') ]

module _ (rows : List Edge) (target : Node) (max_depth : ℕ) where
  abbrev pub nodes : List Node
  nodes = map target_of rows

  -- Every edge that leaves the node leads to a node visited one step further, and not to the target.
  abbrev ClosedAt : Visits → Node → ℕ → Type 0
  ClosedAt v n d =
      d < max_depth
      → (e : Edge) → In e rows
      → source_of e ≡ n
      → (target_of e ≢ target) × Within v (target_of e) (suc d)

  abbrev Settled : Visits → Type 0
  Settled v = (n : Node) (d : ℕ) → lookup n v ≡ some d → ClosedAt v n d

  -- Each visited node waits in the queue, or is closed.
  abbrev pub Frontier : Visits → List Entry → Type 0
  Frontier v q =
      (n : Node) (d : ℕ)
      → lookup n v ≡ some d
      → ((y : Entry) × In y q × (y.current ≡ n) × (length y.relation_path ≤ d)) ⊎ ClosedAt v n d

  -- Where a search that finds nothing ends.
  abbrev Ends : Visits → Type 0
  Ends v = (v' : Visits) × Settled v' × ((n : Node) (d : ℕ) → lookup n v ≡ some d → Within v' n d)

  ClosedAt-lowered :
      (v v' : Visits) (n : Node) (d : ℕ)
      → ((m : Node) (k : ℕ) → lookup m v ≡ some k → Within v' m k)
      → ClosedAt v n d
      → ClosedAt v' n d
  ClosedAt-lowered v v' n d lowered closed short e row leaves =
      let (apart, near_by) = closed short e row leaves in
      let (k, there, near) = near_by in
      let (k', there', nearer) = lowered (target_of e) k there in
      (apart, (k', there', omega (arith, near, nearer)))

  Ends-lowered :
      (v v' : Visits)
      → ((m : Node) (k : ℕ) → lookup m v ≡ some k → Within v' m k)
      → Ends v'
      → Ends v
  Ends-lowered v v' lowered (w, settled, lower) = (
    w,
    settled,
    λ n d there.
        let (k, there', near) = lowered n d there in
        let (k', there'', nearer) = lower n k there' in (k', there'', omega (arith, near, nearer)),
  )

  drop_deep :
      (x : Entry) (q : List Entry) (v : Visits)
      → max_depth ≤ length x.relation_path
      → Frontier v (x ∷ q)
      → Frontier v q
  drop_deep x q v deep f n d there = elim (f n d there) [
    | inr closed ↦ inr closed
    | inl (y, m, at_n, near) ↦ elim m [
      | inl same ↦
          let len : length y.relation_path ≡ length x.relation_path =
            ap (λ (z : Entry). length z.relation_path) same in
          inr (λ short. absurd (omega (arith, short, deep, near, len)))
      | inr m' ↦ inl (y, m', at_n, near)
    ]
  ]

  after_scan :
      (x : Entry) (q : List Entry) (v : Visits) (q' : List Entry) (v' : Visits)
      → Scanned target max_depth nodes x (leaving x.current rows) v q v' q'
      → Frontier v (x ∷ q)
      → Frontier v' q'
  after_scan x q v q' v' s f n d there = elim (s.queued n d there) [
    | inr new ↦ inl new
    | inl old ↦ elim (f n d old) [
      | inr closed ↦ inr (ClosedAt-lowered v v' n d s.lowered closed)
      | inl (y, m, at_n, near) ↦ elim m [
        | inr m' ↦ inl (y, s.kept y m', at_n, near)
        | inl same ↦ inr (λ short e row leaves.
            let here : source_of e ≡ x.current =
              leaves ∙ sym at_n ∙ ap (λ (z : Entry). z.current) same in
            let len : length y.relation_path ≡ length x.relation_path =
              ap (λ (z : Entry). length z.relation_path) same in
            let (apart, near_by) = s.covered e (
              filterb-In (λ g. source_of g == x.current) e rows row
                ((==_iff (source_of e) x.current).1 here)) in
            let (k, there', close) = near_by in
            (apart, (k, there', omega (arith, close, near, len))))
      ]
    ]
  ]

  go_on :
      (fuel : ℕ) (x : Entry) (q : List Entry) (v : Visits)
      → ((q' : List Entry) (v' : Visits)
          → length q' + potential max_depth nodes v' < fuel
          → lookup target v' ≡ none
          → Frontier v' q'
          → search target fuel max_depth rows q' v' ≡ none
          → Ends v')
      → length (x ∷ q) + potential max_depth nodes v < suc fuel
      → Frontier v (x ∷ q)
      → (r : Scan) → AllScanned target max_depth nodes x (leaving x.current rows) v q r
      → elim r [ found p ↦ some p | pending v' q' ↦ search target fuel max_depth rows q' v' ] ≡ none
      → Ends v
  go_on fuel x q v next enough f (found p) s h = cc
  go_on fuel x q v next enough f (pending v' q') s h =
      let less = s.cheaper in
      Ends-lowered v v' s.lowered
        (next q' v' (omega (arith, less, enough)) s.not_arrived (after_scan x q v q' v' s f) h)

  -- On enough fuel, a search that finds nothing has closed every node that it visited.
  pub search-Ends :
      (fuel : ℕ) (q : List Entry) (v : Visits)
      → length q + potential max_depth nodes v < fuel
      → lookup target v ≡ none
      → Frontier v q
      → search target fuel max_depth rows q v ≡ none
      → Ends v
  unfolding search
  search-Ends zero q v enough none_there f h = absurd (omega (arith, enough))
  search-Ends (suc fuel) [] v enough none_there f h = (
    v,
    λ n d there. elim (f n d there) [ inl (y, m, at_n, near) ↦ absurd m | inr closed ↦ closed ],
    λ n d there. (d, there, omega arith),
  )
  search-Ends (suc fuel) (x ∷ q) v enough none_there f h =
      elim (Bool-cases (leb max_depth (length x.relation_path))) [
        | inl deep ↦
            let h' = rw (deep, search) at h in
            search-Ends fuel q v (omega (arith, enough)) none_there
              (drop_deep x q v (ground arith) f) h'
        | inr shallow ↦
            let h' = rw (shallow, search) at h in
            let short : length x.relation_path < max_depth = ground arith in
            go_on fuel x q v (search-Ends fuel) enough f
              (scan target x (leaving x.current rows) v q)
              (scan-AllScanned target max_depth nodes x (leaving x.current rows) v q short
                (λ e m. In-map e rows (In-filterb (λ g. source_of g == x.current) e rows m).0)
                none_there)
              h'
      ]

  -- Along a chain within the bound, the visited distances follow, and the target is never met.
  pub Chain-Within :
      (source : Node) (v : Visits)
      → Settled v
      → Within v source 0
      → {ns : List Node} {rs : List EdgeRelation} {n : Node} → Chain rows source ns rs n
      → length rs ≤ max_depth
      → Within v n (length rs) × ((n ≡ source) ⊎ (n ≢ target))
  Chain-Within source v settled there stop short = (there, inl refl)
  Chain-Within source v settled there (step {ns} {rs} {n} e before row leaves) short =
      let longer = length-append rs (e.relation ∷ []) in
      let (within_n, _) =
        Chain-Within source v settled there before (omega (arith, short, longer)) in
      let (k, found_at, near) = within_n in
      let (apart, near_by) =
        settled n k found_at (omega (arith, near, short, longer)) e row leaves in
      let (k', there', close) = near_by in
      ((k', there', omega (arith, close, near, longer)), inr apart)

  pub potential-start :
      (source : Node) (ns : List Node)
      → potential max_depth ns ((source, 0) ∷ []) ≤ length ns * suc max_depth
  unfolding potential
  potential-start source [] = omega arith
  potential-start source (n ∷ ns) =
      let rest = potential-start source ns in
      elim (Bool-cases (source == n)) [
        | inl e ↦ rw e (omega (arith, rest))
        | inr e ↦ rw e (omega (arith, rest))
      ]
