-- ===== src/Queue/Order.antt =====
-- ORDER BY priority DESC, sequence ASC LIMIT 1 (repo/queue.py).
use agenticqueue.Base.{
  ◌≡◌, refl, subst, true, false, inl, inr, none, some, List, [], ◌∷◌, In, arith, Bool-cases,
  Option-cases, if◌then◌else◌,
}
use agenticqueue.Task.{Task}
use agenticqueue.Queue.{precedes, first_in_order}

precedes_asym : (a b : Task) → precedes a b ≡ true → precedes b a ≡ false
unfolding precedes
precedes_asym a b h = ground arith

precedes_irrefl : (a : Task) → precedes a a ≡ false
unfolding precedes
precedes_irrefl a = ground arith

not-precedes_trans :
    (a b c : Task) → precedes a b ≡ false → precedes b c ≡ false → precedes a c ≡ false
unfolding precedes
not-precedes_trans a b c h k = ground arith

-- `t` is one of the rows, and none comes before it.
pub record IsFirst (t : Task) (ts : List Task) : Type 0 where
  pub member : In t ts
  pub minimal : (u : Task) → In u ts → precedes u t ≡ false

pub first_in_order-none : (ts : List Task) → first_in_order ts ≡ none → ts ≡ []
unfolding first_in_order
first_in_order-none [] h = refl
first_in_order-none (x ∷ ts) h = ground arith

-- The head of the list keeps its place unless a row of the rest comes before it.
IsFirst-head :
    (x : Task) (ts : List Task) → ((u : Task) → In u ts → precedes u x ≡ false) → IsFirst x (x ∷ ts)
IsFirst-head x ts low = record {
  member = inl refl;
  minimal = λ u m. elim m [ inl e ↦ rw e (precedes_irrefl x) | inr m' ↦ low u m' ];
}

IsFirst-tail :
    (x y : Task) (ts : List Task) → IsFirst y ts → precedes y x ≡ true → IsFirst y (x ∷ ts)
IsFirst-tail x y ts f h = record {
  member = inr f.member;
  minimal = λ u m. elim m [ inl e ↦ rw e (precedes_asym y x h) | inr m' ↦ f.minimal u m' ];
}

IsFirst-insert :
    (x y t : Task) (ts : List Task)
    → IsFirst y ts
    → (if precedes y x then some y else some x) ≡ some t
    → IsFirst t (x ∷ ts)
IsFirst-insert x y t ts f h = elim (Bool-cases (precedes y x)) [
  | inl e ↦ subst (λ s. IsFirst s (x ∷ ts)) (ground arith) (IsFirst-tail x y ts f e)
  | inr e ↦
      subst (λ s. IsFirst s (x ∷ ts)) (ground arith)
        (IsFirst-head x ts (λ u m. not-precedes_trans u y x (f.minimal u m) e))
]

pub first_in_order-IsFirst : (ts : List Task) (t : Task) → first_in_order ts ≡ some t → IsFirst t ts
unfolding first_in_order
first_in_order-IsFirst [] t h = cc
first_in_order-IsFirst (x ∷ ts) t h = elim (Option-cases (first_in_order ts)) [
  | inl e ↦
      subst (λ s. IsFirst s (x ∷ ts)) (ground arith)
        (IsFirst-head x ts (λ u m. absurd (subst (In u) (first_in_order-none ts e) m)))
  | inr (y, e) ↦
      IsFirst-insert x y t ts (first_in_order-IsFirst ts y e) (rw (e, first_in_order) at h)
]
