-- ===== src/Graph/Room.antt =====
-- The room that the depths found leave to the search of graph.py.
use agenticqueue.Base.{
  ℕ, suc, ◌+◌, ◌≤◌, ◌<◌, ◌≡◌, refl, subst, true, false, Option, none, some, List, [], ◌∷◌, ◌++◌,
  ◌==◌, ==_iff, ==_refl, nat_eq, In, arith, Bool-cases, Option-cases, inl, inr, lookup,
}
use agenticqueue.Graph.{Node, node_eq, Entry, reached_earlier}

abbrev pub Visits : Type 0
Visits = List (Node × ℕ)

-- A node is visited within a distance.
abbrev pub Within : Visits → Node → ℕ → Type 0
Within v n d = (d' : ℕ) × (lookup n v ≡ some d') × (d' ≤ d)

pub In-snoc_left : (x y : Entry) (q : List Entry) → In x q → In x (q ++ y ∷ [])
In-snoc_left x y [] m = absurd m
In-snoc_left x y (z ∷ q) m = elim m [ inl e ↦ inl e | inr m' ↦ inr (In-snoc_left x y q m') ]

pub In-snoc_right : (y : Entry) (q : List Entry) → In y (q ++ y ∷ [])
In-snoc_right y [] = inl refl
In-snoc_right y (z ∷ q) = inr (In-snoc_right y q)

pub lookup-other :
    (n m : Node) (d : ℕ) (v : Visits) → (m == n) ≡ false → lookup n ((m, d) ∷ v) ≡ lookup n v
lookup-other n m d v h = rw h refl

pub lookup-same : (n : Node) (d : ℕ) (v : Visits) → lookup n ((n, d) ∷ v) ≡ some d
lookup-same n d v = rw (==_refl n) refl

pub reached_earlier-Within :
    (n : Node) (d : ℕ) (v : Visits) → reached_earlier n d v ≡ true → Within v n d
reached_earlier-Within n d v h = elim (Option-cases (lookup n v)) [
  | inl e ↦ let h' = rw (e, reached_earlier) at h in cc
  | inr (d', e) ↦ let h' = rw (e, reached_earlier) at h in (d', e, ground arith)
]

module _ (max_depth : ℕ) where
  -- The room left at a node: how often its distance can still be lowered.
  abbrev pub room : Option ℕ → ℕ
  room none = suc max_depth
  room (some d) = d

  unfoldable pub potential : List Node → Visits → ℕ
  potential [] v = 0
  potential (n ∷ ns) v = let rest = potential ns v in room (lookup n v) + rest

  pub room-reached :
      (n : Node) (d : ℕ) (v : Visits)
      → d ≤ max_depth
      → reached_earlier n d v ≡ false
      → d < room (lookup n v)
  room-reached n d v short h = elim (Option-cases (lookup n v)) [
    | inl e ↦ rw e (omega (arith, short))
    | inr (d', e) ↦ let h' = rw (e, reached_earlier) at h in rw e (ground arith)
  ]

  potential-le :
      (ns : List Node) (m : Node) (d : ℕ) (v : Visits)
      → d < room (lookup m v)
      → potential ns ((m, d) ∷ v) ≤ potential ns v
  unfolding potential
  potential-le [] m d v h = omega arith
  potential-le (n ∷ ns) m d v h =
      let rest = potential-le ns m d v h in
      elim (Bool-cases (m == n)) [
        | inl e ↦
            let same : m ≡ n = (==_iff m n).0 e in
            let here : d < room (lookup n v) = subst (λ x. d < room (lookup x v)) same h in
            rw e (omega (arith, rest, here))
        | inr e ↦ rw e (omega (arith, rest))
      ]

  -- Lowering the distance of a node of the list uses up room.
  pub potential-lt :
      (ns : List Node) (m : Node) (d : ℕ) (v : Visits)
      → In m ns
      → d < room (lookup m v)
      → suc (potential ns ((m, d) ∷ v)) ≤ potential ns v
  unfolding potential
  potential-lt [] m d v i h = absurd i
  potential-lt (n ∷ ns) m d v i h = elim (Bool-cases (m == n)) [
    | inl e ↦
        let rest = potential-le ns m d v h in
        let same : m ≡ n = (==_iff m n).0 e in
        let here : d < room (lookup n v) = subst (λ x. d < room (lookup x v)) same h in
        rw e (omega (arith, rest, here))
    | inr e ↦ elim i [
      | inl q ↦ let clash = (==_iff m n).1 q in cc
      | inr i' ↦ let rest = potential-lt ns m d v i' h in rw e (omega (arith, rest))
    ]
  ]
