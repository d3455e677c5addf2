-- ===== src/Pagination/Order.antt =====
-- The cursor's condition as an order, and rows in that order.
use agenticqueue.Base.{
  ℕ, zero, suc, Bool, true, false, ◌&&◌, ◌||◌, some, List, [], ◌∷◌, length, ◌==◌, nat_eq,
  if◌then◌else◌, ltb, filterb, any, All, Bool-cases, ℕ_discrete, ◌≡◌, ◌≢◌, refl, sym, ap, ◌⊎◌, inl,
  inr, arith,
}
use agenticqueue.Pagination.{condition_at, range_from, cursor_clause, precedes, insert, order_by}

any_later :
    (v c : ℕ) (vs cs : List ℕ) (i n : ℕ)
    → any (λ j. condition_at j (v ∷ vs) (c ∷ cs)) (range_from (suc i) n)
      ≡ ((v == c) && any (λ j. condition_at j vs cs) (range_from i n))
any_later v c vs cs i zero = ground arith
any_later v c vs cs i (suc n) = ground (arith, any_later v c vs cs (suc i) n)

-- The conditions of `apply_cursor_clause` hold for exactly the rows after the cursor in the order of
-- the list, if the cursor has a value for each column.
pub cursor_clause-precedes :
    (values cursor : List ℕ)
    → length values ≡ length cursor
    → cursor_clause (some cursor) values ≡ precedes cursor values
unfolding cursor_clause
cursor_clause-precedes [] [] e = refl
cursor_clause-precedes [] (c ∷ cs) e = refl
cursor_clause-precedes (v ∷ vs) [] e = absurd (omega arith)
cursor_clause-precedes (v ∷ vs) (c ∷ cs) e =
    let rest = cursor_clause-precedes vs cs (omega arith) in
    rw (any_later v c vs cs 0 (length vs)) (ap (λ b. ltb c v || ((v == c) && b)) rest)

pub precedes_trans :
    (a b c : List ℕ) → precedes a b ≡ true → precedes b c ≡ true → precedes a c ≡ true
precedes_trans [] b c h k = h
precedes_trans (x ∷ a) [] c h k = absurd (ground arith)
precedes_trans (x ∷ a) (y ∷ b) [] h k = k
precedes_trans (x ∷ a) (y ∷ b) (z ∷ c) h k = let rest = precedes_trans a b c in ground arith

pub precedes_irrefl : (a : List ℕ) → precedes a a ≡ false
precedes_irrefl [] = refl
precedes_irrefl (x ∷ a) = let rest = precedes_irrefl a in ground arith

pub precedes_total :
    (a b : List ℕ) → length a ≡ length b → a ≢ b → precedes a b ≡ false → precedes b a ≡ true
precedes_total [] [] e n h = absurd (n refl)
precedes_total [] (y ∷ b) e n h = absurd (omega arith)
precedes_total (x ∷ a) [] e n h = absurd (omega arith)
precedes_total (x ∷ a) (y ∷ b) e n h = elim (ℕ_discrete x y) [
  | yes same ↦
      let rest = precedes_total a b (omega arith) (λ q. n (λ i. same i ∷ q i)) in
      let back = rest (ground arith) in ground arith
  | no apart ↦ ground arith
]

-- What lies after a cursor lies after a row, or the row after the cursor.
precedes_split :
    (c y x : List ℕ)
    → length c ≡ length y
    → length x ≡ length y
    → precedes c x ≡ true
    → (precedes c y ≡ true) ⊎ (precedes y x ≡ true)
precedes_split [] y x e e' h = inl (absurd (ground arith))
precedes_split (a ∷ c) [] x e e' h = absurd (omega arith)
precedes_split (a ∷ c) (b ∷ y) [] e e' h = absurd (omega arith)
precedes_split (a ∷ c) (b ∷ y) (d ∷ x) e e' h =
    let rest = precedes_split c y x (omega arith) (omega arith) in ground arith

module _ {A : Type 0} (values : A → List ℕ) where
  -- Each row comes strictly before the later ones.
  abbrev pub Above : List ℕ → List A → Type 0
  Above c = All (λ x. precedes c (values x) ≡ true)

  abbrev pub Ascending : List A → Type 0
  Ascending [] = Unit
  Ascending (x ∷ xs) = Above (values x) xs × Ascending xs

  -- The rows have values for the `n` columns, and no two the same.
  abbrev pub Apart : ℕ → List A → Type 0
  Apart n [] = Unit
  Apart n (x ∷ xs) = (length (values x) ≡ n) × All (λ y. values x ≢ values y) xs × Apart n xs

  abbrev pub after : List ℕ → A → Bool
  after c x = precedes c (values x)

  pub Above-trans : (c d : List ℕ) (xs : List A) → precedes c d ≡ true → Above d xs → Above c xs
  Above-trans c d [] h a = tt
  Above-trans c d (x ∷ xs) h a = (precedes_trans c d (values x) h a.0, Above-trans c d xs h a.1)

  insert-Above :
      (c : List ℕ) (x : A) (xs : List A)
      → precedes c (values x) ≡ true
      → Above c xs
      → Above c (insert values x xs)
  insert-Above c x [] h a = (h, tt)
  insert-Above c x (y ∷ ys) h a = elim (Bool-cases (precedes (values y) (values x))) [
    | inl e ↦ rw (e, insert) (a.0, insert-Above c x ys h a.1)
    | inr e ↦ rw (e, insert) (h, a)
  ]

  -- The new row differs from the others, all of one width.
  abbrev New : ℕ → A → List A → Type 0
  New n x = All (λ y. (values x ≢ values y) × (length (values y) ≡ n))

  insert-Ascending :
      (n : ℕ) (x : A) (xs : List A)
      → length (values x) ≡ n
      → New n x xs
      → Ascending xs
      → Ascending (insert values x xs)
  insert-Ascending n x [] w new a = (tt, tt)
  insert-Ascending n x (y ∷ ys) w new a = elim (Bool-cases (precedes (values y) (values x))) [
    | inl e ↦
        rw (e, insert) (insert-Above (values y) x ys e a.0, insert-Ascending n x ys w new.1 a.1)
    | inr e ↦
        let here : precedes (values x) (values y) ≡ true =
          precedes_total (values y) (values x) (omega (arith, new.0.1)) (λ q. new.0.0 (sym q)) e in
        rw (e, insert) ((here, Above-trans (values x) (values y) ys here a.0), a)
  ]

  insert-All : (P : A → Type 0) (x : A) (xs : List A) → P x → All P xs → All P (insert values x xs)
  insert-All P x [] p a = (p, tt)
  insert-All P x (y ∷ ys) p a = elim (Bool-cases (precedes (values y) (values x))) [
    | inl e ↦ rw (e, insert) (a.0, insert-All P x ys p a.1)
    | inr e ↦ rw (e, insert) (p, a)
  ]

  pub order_by-All : (P : A → Type 0) (xs : List A) → All P xs → All P (order_by values xs)
  order_by-All P [] a = tt
  order_by-All P (x ∷ xs) a = insert-All P x (order_by values xs) a.0 (order_by-All P xs a.1)

  widths :
      (n : ℕ) (x : A) (xs : List A) → All (λ y. values x ≢ values y) xs → Apart n xs → New n x xs
  widths n x [] d a = tt
  widths n x (y ∷ ys) d a = ((d.0, a.0), widths n x ys d.1 a.2)

  pub order_by-Ascending : (n : ℕ) (xs : List A) → Apart n xs → Ascending (order_by values xs)
  order_by-Ascending n [] a = tt
  order_by-Ascending n (x ∷ xs) a =
      insert-Ascending n x (order_by values xs) a.0 (order_by-All _ xs (widths n x xs a.1 a.2))
        (order_by-Ascending n xs a.2)

  pub filterb-all : (c : List ℕ) (xs : List A) → Above c xs → filterb (after c) xs ≡ xs
  filterb-all c [] a = refl
  filterb-all c (x ∷ xs) a = rw (a.0, filterb-all c xs a.1) refl

  abbrev pub HasWidth : ℕ → A → Type 0
  HasWidth n x = length (values x) ≡ n

  -- Choosing rows after a cursor and putting a row in its place commute.
  filterb-insert :
      (n : ℕ) (c : List ℕ) (x : A) (xs : List A)
      → length c ≡ n
      → HasWidth n x
      → All (HasWidth n) xs
      → filterb (after c) (insert values x xs)
        ≡ (if after c x then insert values x (filterb (after c) xs) else filterb (after c) xs)
  filterb-insert n c x [] w wx ws = refl
  filterb-insert n c x (y ∷ ys) w wx ws =
      let rest = filterb-insert n c x ys w wx ws.1 in
      let between =
        precedes_split c (values y) (values x) (omega (arith, ws.0)) (omega (arith, ws.0)) in
      elim (Bool-cases (precedes (values y) (values x))) [
        | inl e ↦ elim (Bool-cases (after c y)) [
          | inl cy ↦ elim (Bool-cases (after c x)) [
            | inl cx ↦ rw (e, cy, cx, e) (ap (λ r. y ∷ r) (rw cx at rest))
            | inr cx ↦ rw (e, cy, cx) (ap (λ r. y ∷ r) (rw cx at rest))
          ]
          | inr cy ↦ rw (e, cy) rest
        ]
        | inr e ↦ elim (Bool-cases (after c x)) [
          | inr cx ↦ rw (e, cx) refl
          | inl cx ↦ elim (Bool-cases (after c y)) [
            | inl cy ↦ rw (e, cx, cy, e) refl
            | inr cy ↦ absurd (elim (between cx) [ inl cy' ↦ ground arith | inr yx ↦ ground arith ])
          ]
        ]
      ]

  -- The rows after a cursor, put in order, are those of the ordered table.
  pub filterb-order_by :
      (n : ℕ) (c : List ℕ) (xs : List A)
      → length c ≡ n
      → All (HasWidth n) xs
      → order_by values (filterb (after c) xs) ≡ filterb (after c) (order_by values xs)
  filterb-order_by n c [] w ws = refl
  filterb-order_by n c (x ∷ xs) w ws =
      let rest = filterb-order_by n c xs w ws.1 in
      let put =
        filterb-insert n c x (order_by values xs) w ws.0 (order_by-All (HasWidth n) xs ws.1) in
      elim (Bool-cases (after c x)) [
        | inl e ↦ rw (e, put, e) (ap (insert values x) rest)
        | inr e ↦ rw (e, put, e) rest
      ]
