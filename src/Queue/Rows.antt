-- ===== src/Queue/Rows.antt =====
-- Tables of task rows under an update by id.
use mathlib.Core.Option
use agenticqueue.Base.{
  ℕ, ◌≡◌, refl, sym, subst, inl, inr, Option, some, List, [], ◌∷◌, In, map, first, first-some,
  arith, Bool-cases, if◌then◌else◌, ◌==◌, nat_eq, ==_iff,
}
use agenticqueue.Task.{Task}
use agenticqueue.Queue.{update_where}

abbrev pub find_task : ℕ → List Task → Option Task
find_task i = first (λ t. t.id == i)

abbrev pub ids : List Task → List ℕ
ids = map (λ t. t.id)

-- The primary key.
abbrev pub Distinct : List ℕ → Type 0
Distinct [] = Unit
Distinct (i ∷ is) = (¬ In i is) × Distinct is

-- An update that keeps the primary key.
abbrev pub KeepsId : (Task → Task) → Type 0
KeepsId f = (t : Task) → (f t).id ≡ t.id

pub find_task-update_where :
    (i j : ℕ) (f : Task → Task) (ts : List Task)
    → KeepsId f
    → find_task j (update_where i f ts)
      ≡ (if i == j then Option.map f (find_task j ts) else find_task j ts)
find_task-update_where i j f [] k = ground arith
find_task-update_where i j f (t ∷ ts) k = ground (arith, k t, find_task-update_where i j f ts k)

pub ids-update_where :
    (i : ℕ) (f : Task → Task) (ts : List Task) → KeepsId f → ids (update_where i f ts) ≡ ids ts
ids-update_where i f [] k = refl
ids-update_where i f (t ∷ ts) k = ground (arith, k t, ids-update_where i f ts k)

pub find_task-In :
    (i : ℕ) (ts : List Task) (t : Task) → find_task i ts ≡ some t → In t ts × (t.id ≡ i)
find_task-In i ts t h =
    let found = first-some (λ t. t.id == i) t ts h in (found.0, (==_iff t.id i).0 found.1)

In-ids : (t : Task) (ts : List Task) → In t ts → In t.id (ids ts)
In-ids t [] m = m
In-ids t (x ∷ ts) m = ground (arith, In-ids t ts)

-- Under the primary key, a row is found by its id.
pub find_task_row :
    (t : Task) (ts : List Task) → Distinct (ids ts) → In t ts → find_task t.id ts ≡ some t
find_task_row t [] d m = absurd m
find_task_row t (x ∷ ts) d m = elim m [
  | inl e ↦ rw e (ground arith)
  | inr m' ↦
      let rest = find_task_row t ts d.1 m' in
      elim (Bool-cases (x.id == t.id)) [
        | inl same ↦
            absurd
              (d.0 (subst (λ i. In i (ids ts)) (sym ((==_iff x.id t.id).0 same)) (In-ids t ts m')))
        | inr other ↦ rw other rest
      ]
]
