-- ===== src/Actions/Dependents/Edges.antt =====
-- The edges behind the lists of ids in `_unblock_ready_dependents` (task_actions.py).
use agenticqueue.Base.{
  ℕ, ◌≡◌, ◌≢◌, refl, sym, subst, true, false, not, ◌&&◌, ◌↔◌, inl, inr, List, [], ◌∷◌, map, ◌==◌,
  ==_iff, nat_eq, string_eq, filterb, In, In-filterb, filterb-In, from_keys, mem, mem→In, In→mem,
  arith, Bool-cases, &&-true, &&-intro,
}
use agenticqueue.Edge.{Edge, depends_on, edge_relation_eq, edge_metadata_marks_superseded}
use agenticqueue.Actions.Dependents.{
  is_task_dependency, active_dependency_target_ids, dependent_ids,
}

-- The edge says that one task depends on another.
pub record IsDependency (dependent dependency : ℕ) (e : Edge) : Type 0 where
  pub from_task : e.src_entity_type ≡ "task"
  pub to_task : e.dst_entity_type ≡ "task"
  pub relation : e.relation ≡ depends_on
  pub source : e.src_id ≡ dependent
  pub target : e.dst_id ≡ dependency

is_task_dependency_iff :
    (e : Edge) → (is_task_dependency e ≡ true) ↔ IsDependency e.src_id e.dst_id e
is_task_dependency_iff e = (
  λ h.
      let (both, rel) = &&-true _ _ h in
      let (src, dst) = &&-true _ _ both in
      record {
        from_task = (==_iff e.src_entity_type "task").0 src;
        to_task = (==_iff e.dst_entity_type "task").0 dst;
        relation = (==_iff e.relation depends_on).0 rel;
        source = refl;
        target = refl;
      },
  λ d.
      &&-intro
        (&&-intro ((==_iff e.src_entity_type "task").1 d.from_task)
          ((==_iff e.dst_entity_type "task").1 d.to_task))
        ((==_iff e.relation depends_on).1 d.relation),
)

In-map_iff :
    (f : Edge → ℕ) (i : ℕ) (es : List Edge) → In i (map f es) ↔ ((e : Edge) × In e es × (i ≡ f e))
In-map_iff f i [] = (λ m. absurd m, λ h. h.1)
In-map_iff f i (e ∷ es) =
    let rest = In-map_iff f i es in
    (
      λ m. elim m [
        | inl q ↦ (e, inl refl, q)
        | inr m' ↦ let (x, there, q) = rest.0 m' in (x, inr there, q)
      ],
      λ h.
          let (x, there, q) = h in
          elim there [
            | inl same ↦ inl (subst (λ y. i ≡ f y) same q)
            | inr m' ↦ inr (rest.1 (x, m', q))
          ],
    )

from_keys-In : (i : ℕ) (known xs : List ℕ) → In i (from_keys known xs) ↔ (In i xs × (¬ In i known))
unfolding from_keys
from_keys-In i known [] = (λ m. absurd m, λ h. absurd h.0)
from_keys-In i known (x ∷ xs) = elim (Bool-cases (mem x known)) [
  | inl old ↦
      rw (old, from_keys)
        (let rest = from_keys-In i known xs in
          (
            λ m. let (there, fresh) = rest.0 m in (inr there, fresh),
            λ h. elim (h.0) [
              | inl same ↦ absurd (h.1 (subst (λ y. In y known) (sym same) (mem→In x known old)))
              | inr there ↦ rest.1 (there, h.1)
            ],
          ))
  | inr new ↦
      rw (new, from_keys)
        (let rest = from_keys-In i (x ∷ known) xs in
          (
            λ m. elim m [
              | inl same ↦
                  (inl same, λ k. let k' = In→mem x known (subst (λ y. In y known) same k) in cc)
              | inr m' ↦ let (there, fresh) = rest.0 m' in (inr there, λ k. fresh (inr k))
            ],
            λ h. elim (Bool-cases (i == x)) [
              | inl e ↦ inl ((==_iff i x).0 e)
              | inr e ↦
                  let apart : i ≢ x = λ q. cc ((==_iff i x).1 q, e) in
                  inr (
                    rest.1 (
                      elim (h.0) [ inl q ↦ absurd (apart q) | inr m ↦ m ],
                      λ k. elim k [ inl q ↦ apart q | inr k' ↦ h.1 k' ],
                    ))
            ],
          ))
]

-- The ids of the tasks that a dependency edge, superseded or not, joins to the given one.
pub dependent_ids_iff :
    (i j : ℕ) (edges : List Edge)
    → In j (dependent_ids i edges) ↔ ((e : Edge) × In e edges × IsDependency j i e)
unfolding dependent_ids
dependent_ids_iff i j edges =
    let test = λ (e : Edge). is_task_dependency e && (e.dst_id == i) in
    let keys = from_keys-In j [] (map (λ (e : Edge). e.src_id) (filterb test edges)) in
    let mapped = In-map_iff (λ e. e.src_id) j (filterb test edges) in
    (
      λ m.
          let (e, there, q) = mapped.0 (keys.0 m).0 in
          let (row, tests) = In-filterb test e edges there in
          let (dep, at) = &&-true _ _ tests in
          let d = (is_task_dependency_iff e).0 dep in
          (
            e,
            row,
            record {
              from_task = d.from_task;
              to_task = d.to_task;
              relation = d.relation;
              source = sym q;
              target = (==_iff e.dst_id i).0 at;
            },
          ),
      λ h.
          let (e, row, d) = h in
          let dep = (is_task_dependency_iff e).1 (record {
            from_task = d.from_task;
            to_task = d.to_task;
            relation = d.relation;
            source = refl;
            target = refl;
          }) in
          keys.1 (
            mapped.1 (
              e,
              filterb-In test e edges row (&&-intro dep ((==_iff e.dst_id i).1 d.target)),
              sym d.source,
            ),
            λ k. absurd k,
          ),
    )

-- The ids of the tasks that the given one depends on by an edge that is not superseded.
pub active_dependency_target_ids_iff :
    (i j : ℕ) (edges : List Edge)
    → In j (active_dependency_target_ids i edges) ↔ (
        (e : Edge) × In e edges
        × IsDependency i j e
        × (edge_metadata_marks_superseded e.edge_metadata ≡ false))
unfolding active_dependency_target_ids
active_dependency_target_ids_iff i j edges =
    let live = λ (e : Edge). not (edge_metadata_marks_superseded e.edge_metadata) in
    let test = λ (e : Edge). is_task_dependency e && (e.src_id == i) in
    let mapped = In-map_iff (λ e. e.dst_id) j (filterb live (filterb test edges)) in
    (
      λ m.
          let (e, there, q) = mapped.0 m in
          let (inner, alive) = In-filterb live e (filterb test edges) there in
          let (row, tests) = In-filterb test e edges inner in
          let (dep, at) = &&-true _ _ tests in
          let d = (is_task_dependency_iff e).0 dep in
          (
            e,
            row,
            record {
              from_task = d.from_task;
              to_task = d.to_task;
              relation = d.relation;
              source = (==_iff e.src_id i).0 at;
              target = sym q;
            },
            ground arith,
          ),
      λ h.
          let (e, row, d, alive) = h in
          let dep = (is_task_dependency_iff e).1 (record {
            from_task = d.from_task;
            to_task = d.to_task;
            relation = d.relation;
            source = refl;
            target = refl;
          }) in
          let inner = filterb-In test e edges row (&&-intro dep ((==_iff e.src_id i).1 d.source)) in
          mapped.1 (e, filterb-In live e (filterb test edges) inner (rw alive refl), sym d.target),
    )
