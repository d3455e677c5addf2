-- ===== src/Graph/Visited.antt =====
-- One round of the breadth-first search of repo/graph.py: what it leaves in the table of visited nodes
-- and in the queue, and how much work is left.
use agenticqueue.Base.{
  ℕ, suc, ◌+◌, ◌≤◌, ◌<◌, ◌≡◌, ◌≢◌, refl, sym, ap, ◌∙◌, subst, ◌⊎◌, true, false, none, some, List,
  [], ◌∷◌, ◌++◌, length, length-append, ◌==◌, ==_iff, nat_eq, In, arith, Bool-cases, inl, inr,
  lookup,
}
use agenticqueue.Edge.{Edge}
use agenticqueue.Graph.{
  Node, node_eq, target_of, Entry, reached_earlier, Scan, found, pending, extend, scan,
}
use agenticqueue.Graph.Room.{
  Visits, Within, In-snoc_left, In-snoc_right, lookup-other, lookup-same, reached_earlier-Within,
  room, potential, room-reached, potential-lt,
}

module _ (target : Node) (max_depth : ℕ) (nodes : List Node) (x : Entry) where
  -- What a round over the edges `es` leaves.
  pub record Scanned (es : List Edge) (v : Visits) (q : List Entry) (v' : Visits) (q' : List Entry)
      : Type 0 where
    pub lowered : (n : Node) (d : ℕ) → lookup n v ≡ some d → Within v' n d
    pub kept : (y : Entry) → In y q → In y q'
    pub covered :
        (e : Edge)
        → In e es
        → (target_of e ≢ target) × Within v' (target_of e) (suc (length x.relation_path))
    pub queued :
        (n : Node) (d : ℕ)
        → lookup n v' ≡ some d
        → (lookup n v ≡ some d)
          ⊎ ((y : Entry) × In y q' × (y.current ≡ n) × (length y.relation_path ≤ d))
    pub not_arrived : lookup target v' ≡ none
    pub cheaper : length q' + potential max_depth nodes v' ≤ length q + potential max_depth nodes v

  abbrev pub AllScanned : List Edge → Visits → List Entry → Scan → Type 0
  AllScanned es v q (found p) = Unit
  AllScanned es v q (pending v' q') = Scanned es v q v' q'

  skip :
      (e : Edge) (es : List Edge) (v : Visits) (q : List Entry)
      → lookup target v ≡ none
      → reached_earlier (target_of e) (suc (length x.relation_path)) v ≡ true
      → (r : Scan) → AllScanned es v q r
      → AllScanned (e ∷ es) v q r
  skip e es v q none_there earlier (found p) s = tt
  skip e es v q none_there earlier (pending v' q') s = record {
    lowered = s.lowered;
    kept = s.kept;
    covered = λ f m. elim m [
      | inl same ↦
          subst
            (λ g. (target_of g ≢ target) × Within v' (target_of g) (suc (length x.relation_path)))
            (sym same) here
      | inr m' ↦ s.covered f m'
    ];
    queued = s.queued;
    not_arrived = s.not_arrived;
    cheaper = s.cheaper;
  }
    where
      here : (target_of e ≢ target) × Within v' (target_of e) (suc (length x.relation_path))
      here =
          let (d, there, near) =
            reached_earlier-Within (target_of e) (suc (length x.relation_path)) v earlier in
          let (d', there', nearer) = s.lowered (target_of e) d there in
          (
            λ same.
                let clash : lookup target v ≡ some d =
                  subst (λ n. lookup n v ≡ some d) same there in
                cc,
            (d', there', omega (arith, near, nearer)),
          )

  enqueue :
      (e : Edge) (es : List Edge) (v : Visits) (q : List Entry)
      → In (target_of e) nodes
      → length x.relation_path < max_depth
      → reached_earlier (target_of e) (suc (length x.relation_path)) v ≡ false
      → target_of e ≢ target
      → (r : Scan)
      → AllScanned es ((target_of e, suc (length x.relation_path)) ∷ v) (q ++ extend x e ∷ []) r
      → AllScanned (e ∷ es) v q r
  enqueue e es v q listed short first_time elsewhere (found p) s = tt
  enqueue e es v q listed short first_time elsewhere (pending v' q') s = record {
    lowered = λ n d there. elim (Bool-cases (target_of e == n)) [
      | inl hit ↦
          let same : target_of e ≡ n = (==_iff (target_of e) n).0 hit in
          let (d', there', near) =
            s.lowered (target_of e) depth (lookup-same (target_of e) depth v) in
          let lower : depth < d =
            subst (λ o. depth < room max_depth o) (ap (λ m. lookup m v) same ∙ there) better in
          (d', subst (λ m. lookup m v' ≡ some d') same there', omega (arith, near, lower))
      | inr miss ↦ s.lowered n d (lookup-other n (target_of e) depth v miss ∙ there)
    ];
    kept = λ y m. s.kept y (In-snoc_left y (extend x e) q m);
    covered = λ f m. elim m [
      | inl same ↦
          subst (λ g. (target_of g ≢ target) × Within v' (target_of g) depth) (sym same)
            (elsewhere, s.lowered (target_of e) depth (lookup-same (target_of e) depth v))
      | inr m' ↦ s.covered f m'
    ];
    queued = λ n d there. elim (s.queued n d there) [
      | inl old ↦ elim (Bool-cases (target_of e == n)) [
        | inl hit ↦
            let same : target_of e ≡ n = (==_iff (target_of e) n).0 hit in
            let at_depth : some depth ≡ some d =
              sym (lookup-same (target_of e) depth v)
              ∙ ap (λ m. lookup m ((target_of e, depth) ∷ v)) same
              ∙ old in
            let longer = length-append x.relation_path (e.relation ∷ []) in
            let equal : depth ≡ d = cc in
            inr (
              extend x e,
              s.kept (extend x e) (In-snoc_right (extend x e) q),
              same,
              omega (arith, longer, equal),
            )
        | inr miss ↦ inl (sym (lookup-other n (target_of e) depth v miss) ∙ old)
      ]
      | inr new ↦ inr new
    ];
    not_arrived = s.not_arrived;
    cheaper =
        let less = potential-lt max_depth nodes (target_of e) depth v listed better in
        let more = length-append q (extend x e ∷ []) in
        let rest = s.cheaper in omega (arith, less, more, rest);
  }
    where
      depth : ℕ
      depth = suc (length x.relation_path)

      better : depth < room max_depth (lookup (target_of e) v)
      better = room-reached max_depth (target_of e) depth v (omega (arith, short)) first_time

  -- A round that goes on has looked at every edge.
  pub scan-AllScanned :
      (es : List Edge) (v : Visits) (q : List Entry)
      → length x.relation_path < max_depth
      → ((e : Edge) → In e es → In (target_of e) nodes)
      → lookup target v ≡ none
      → AllScanned es v q (scan target x es v q)
  unfolding scan
  scan-AllScanned [] v q short listed none_there = record {
    lowered = λ n d there. (d, there, omega arith);
    kept = λ y m. m;
    covered = λ e m. absurd m;
    queued = λ n d there. inl there;
    not_arrived = none_there;
    cheaper = omega arith;
  }
  scan-AllScanned (e ∷ es) v q short listed none_there =
      let rest : (f : Edge) → In f es → In (target_of f) nodes = λ f m. listed f (inr m) in
      elim (Bool-cases (reached_earlier (target_of e) (suc (length x.relation_path)) v)) [
        | inl earlier ↦
            rw (earlier, scan)
              (skip e es v q none_there earlier _ (scan-AllScanned es v q short rest none_there))
        | inr first_time ↦ elim (Bool-cases (target_of e == target)) [
          | inl arrived ↦ rw (first_time, arrived, scan) tt
          | inr elsewhere ↦
              let apart : target_of e ≢ target =
                λ same. cc ((==_iff (target_of e) target).1 same, elsewhere) in
              rw (first_time, elsewhere, scan)
                (enqueue e es v q (listed e (inl refl)) short first_time apart _ (
                  scan-AllScanned es ((target_of e, suc (length x.relation_path)) ∷ v)
                    (q ++ extend x e ∷ []) short rest
                    (lookup-other target (target_of e) (suc (length x.relation_path)) v elsewhere
                      ∙ none_there)))
        ]
      ]
