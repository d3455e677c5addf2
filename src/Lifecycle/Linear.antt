-- ===== src/Lifecycle/Linear.antt =====
-- Supersede chains stay linear (learnings/lifecycle.py).
use agenticqueue.Base.{
  ℕ, ◌≡◌, refl, sym, ap, ◌∙◌, subst, ◌⊎◌, inl, inr, String, true, Option, none, List, [], ◌∷◌, ◌++◌,
  map, In, first, first-some, first-none, ◌==◌, ==_iff, nat_eq, string_eq, if◌then◌else◌,
  Bool-cases, Option-cases, Result, ok, err, value_error, &&-true, &&-intro,
}
use agenticqueue.Json.{Json, Fields, get_field}
use agenticqueue.Edge.{Edge, edge_relation_eq, supersedes, is_text}
use agenticqueue.Lifecycle.{
  Learning, Learnings, is_supersedes, replaces, joins, unique_replacement, with_reason,
  ensure_supersedes_edge, supersede_rows, supersede, normalize_reason, require_learning,
}

-- No learning has two replacements.
pub record IsLinear (es : List Edge) : Type 0 where
  pub at :
      (i : ℕ) (e f : Edge)
      → In e es
      → In f es
      → replaces i e ≡ true
      → replaces i f ≡ true
      → e.src_id ≡ f.src_id

In-snoc : (x y : Edge) (es : List Edge) → In x (es ++ y ∷ []) → In x es ⊎ (x ≡ y)
In-snoc x y [] m = elim m [ inl e ↦ inr e | inr n ↦ absurd n ]
In-snoc x y (e ∷ es) m = elim m [
  | inl q ↦ inl (inl q)
  | inr m' ↦ elim (In-snoc x y es m') [ inl l ↦ inl (inr l) | inr r ↦ inr r ]
]

In-with_reason :
    (k : ℕ) (reason : String) (x : Edge) (es : List Edge)
    → In x (map (with_reason k reason) es)
    → (y : Edge) × In y es × ((i : ℕ) → replaces i x ≡ replaces i y) × (x.src_id ≡ y.src_id)
In-with_reason k reason x [] m = absurd m
In-with_reason k reason x (e ∷ es) m = elim m [
  | inl q ↦ elim (Bool-cases (e.id == k)) [
    | inl hit ↦
        let q' = rw hit at q in
        (e, inl refl, λ i. ap (replaces i) q', ap (λ (z : Edge). z.src_id) q')
    | inr miss ↦
        let q' = rw miss at q in
        (e, inl refl, λ i. ap (replaces i) q', ap (λ (z : Edge). z.src_id) q')
  ]
  | inr m' ↦
      let (y, there, same, src) = In-with_reason k reason x es m' in (y, inr there, same, src)
]

module _ (old new : ℕ) (reason : String) (by : Option ℕ) (fresh : ℕ) where
  -- The check and the look-up cannot both pass over a replacement.
  no_other :
      (es : List Edge)
      → unique_replacement old new es ≡ true
      → first (joins old new) es ≡ none
      → (e : Edge) → In e es
      → ¬ (replaces old e ≡ true)
  unfolding unique_replacement
  no_other es unique absent e m h = elim (Option-cases (first (replaces old) es)) [
    | inl none_there ↦ let h' = first-none (replaces old) e es none_there m in cc
    | inr (g, there) ↦
        let (row, replaced) = first-some (replaces old) g es there in
        let by_new : (g.src_id == new) ≡ true = rw (there, unique_replacement) at unique in
        let joined : joins old new g ≡ true = &&-intro replaced by_new in
        let not_joined = first-none (joins old new) g es absent row in cc
  ]

  ensure_supersedes_edge-IsLinear :
      (es : List Edge)
      → IsLinear es
      → unique_replacement old new es ≡ true
      → IsLinear (ensure_supersedes_edge old new reason by fresh es)
  unfolding ensure_supersedes_edge
  ensure_supersedes_edge-IsLinear es linear unique =
      elim (Option-cases (first (joins old new) es)) [
        | inr (x, there) ↦ elim (Bool-cases (is_text reason (get_field "reason" x.edge_metadata))) [
          | inl same ↦ rw (there, same, ensure_supersedes_edge) linear
          | inr other ↦
              rw (there, other, ensure_supersedes_edge)
                (record {
                  at = λ i e f me mf re rf.
                      let (y, my, sy, srcy) = In-with_reason x.id reason e es me in
                      let (z, mz, sz, srcz) = In-with_reason x.id reason f es mf in
                      srcy ∙ linear.at i y z my mz (sym (sy i) ∙ re) (sym (sz i) ∙ rf) ∙ sym srcz;
                })
        ]
        | inl absent ↦
            rw (absent, ensure_supersedes_edge)
              (record {
                at = λ i e f me mf re rf. elim (In-snoc e added es me) [
                  | inl old_e ↦ elim (In-snoc f added es mf) [
                    | inl old_f ↦ linear.at i e f old_e old_f re rf
                    | inr new_f ↦ absurd (
                        no_other es unique absent e old_e
                          (subst (λ k. replaces k e ≡ true) (sym (of_added i f new_f rf)) re))
                  ]
                  | inr new_e ↦ elim (In-snoc f added es mf) [
                    | inl old_f ↦ absurd (
                        no_other es unique absent f old_f
                          (subst (λ k. replaces k f ≡ true) (sym (of_added i e new_e re)) rf))
                    | inr new_f ↦
                        ap (λ (z : Edge). z.src_id) new_e ∙ sym (ap (λ (z : Edge). z.src_id) new_f)
                  ]
                ];
              })
      ]
    where
      added : Edge
      added = record {
        id = fresh;
        src_entity_type = "learning";
        src_id = new;
        dst_entity_type = "learning";
        dst_id = old;
        relation = supersedes;
        edge_metadata = Fields.field "reason" (Json.text reason) Fields.end;
        created_by = by;
      }

      of_added : (i : ℕ) (e : Edge) → e ≡ added → replaces i e ≡ true → old ≡ i
      of_added i e q h =
          ap (λ (z : Edge). z.dst_id) (sym q)
          ∙ (==_iff e.dst_id i).0 (&&-true (is_supersedes e) (e.dst_id == i) h).1

supersede_rows-ok :
    (o n : Learning) (reason : String) (by : Option ℕ) (fresh : ℕ) (db after : Learnings)
    → IsLinear db.edges
    → supersede_rows o n reason by fresh db ≡ ok after
    → IsLinear after.edges
unfolding supersede_rows
supersede_rows-ok o n reason by fresh db after linear h = elim (Bool-cases (n.status == "active")) [
  | inr stale ↦ let h' = rw (stale, supersede_rows) at h in cc
  | inl active ↦ elim (Bool-cases (o.status == "expired")) [
    | inl expired ↦ let h' = rw (active, expired, supersede_rows) at h in cc
    | inr current ↦ elim (Bool-cases (unique_replacement o.id n.id db.edges)) [
      | inr taken ↦ let h' = rw (active, current, taken, supersede_rows) at h in cc
      | inl unique ↦
          let h' = rw (active, current, unique, supersede_rows) at h in
          subst IsLinear (edges_of h')
            (ensure_supersedes_edge-IsLinear o.id n.id reason by fresh db.edges linear unique)
    ]
  ]
]
  where
    edges_of : {x y : Learnings} → ok x ≡ ok y → x.edges ≡ y.edges
    edges_of e = let q = ok-injective e in ap (λ (z : Learnings). z.edges) q
      where
        ok-injective : {x y : Learnings} → ok x ≡ ok y → x ≡ y
        ok-injective e = cc

bound-ok :
    {X Y : Type 0} (r : Result X) (k : X → Result Y) {y : Y}
    → elim r [ err e ↦ err e | ok x ↦ k x ] ≡ ok y
    → (x : X) × (k x ≡ ok y)
bound-ok (err e) k h = cc
bound-ok (ok x) k h = (x, h)

-- Superseding keeps supersede chains linear: if no learning has two replacements before, none has
-- after.
pub supersede-IsLinear :
    (text : ℕ → String) (old_id new_id : ℕ) (reason : String) (by : Option ℕ) (fresh : ℕ)
    (db after : Learnings)
    → IsLinear db.edges
    → supersede text old_id new_id reason by fresh db ≡ ok after
    → IsLinear after.edges
unfolding supersede
supersede-IsLinear text old_id new_id reason by fresh db after linear h =
    let (normalized, h1) =
      bound-ok (normalize_reason reason)
        (λ normalized.
          if old_id == new_id
          then err (value_error "old_learning_id and new_learning_id must differ")
          else elim (require_learning text old_id db.rows) [
            | err e ↦ err e
            | ok o ↦ elim (require_learning text new_id db.rows) [
              | err e ↦ err e
              | ok n ↦ supersede_rows o n normalized by fresh db
            ]
          ])
        h in
    elim (Bool-cases (old_id == new_id)) [
      | inl same ↦ let h2 = rw same at h1 in cc
      | inr apart ↦
          let h2 = rw apart at h1 in
          let (o, h3) =
            bound-ok (require_learning text old_id db.rows)
              (λ o. elim (require_learning text new_id db.rows) [
                | err e ↦ err e
                | ok n ↦ supersede_rows o n normalized by fresh db
              ])
              h2 in
          let (n, h4) =
            bound-ok (require_learning text new_id db.rows)
              (λ n. supersede_rows o n normalized by fresh db) h3 in
          supersede_rows-ok o n normalized by fresh db after linear h4
    ]
